-- ===== src/Error.antt =====
-- The exceptions of the bridge (main.cpp: BridgeError, ClientDisconnected, std::exception) as values.
-- A BridgeError keeps its HTTP status and its code; the text for people is left out.
use hik_hcnet_http_bridge.Common.{ℕ, ◌≡◌, refl, subst, Bool, true, false}

-- The codes that the modelled code throws.
pub data ErrorCode : Type 0 where
  invalid_parameter config_not_found invalid_config manual_restart_required session_limit :
      ErrorCode
  method_not_allowed not_found bad_request request_timeout session_not_found : ErrorCode
  analog_channel_unsupported analog_channel_out_of_range analog_channel_disabled : ErrorCode
  digital_channel_unsupported digital_channel_out_of_range : ErrorCode
  digital_channel_index_out_of_range channel_not_found : ErrorCode
  nvr_unreachable sdk_login_failed sdk_stream_timeout sdk_realplay_failed : ErrorCode
  sdk_playback_failed sdk_callback_failed sdk_playback_control_failed : ErrorCode
  media_queue_overflow client_write_timeout ffmpeg_output_timeout : ErrorCode
  ffmpeg_no_media_fragment ffmpeg_no_mp4 ffmpeg_start_failed pipe_failed : ErrorCode
  internal_error bind_failed invalid_command sdk_not_found ffmpeg_not_found : ErrorCode

pub data Fault : Type 0 where
  bridge_error : ℕ → ErrorCode → Fault
  client_disconnected : Fault
  other_exception : Fault

pub data Result {ℓ} (A : Type ℓ) : Type ℓ where
  ok : A → Result A
  err : Fault → Result A

infixl 5 ◌>>◌ ◌>>=◌
-- An exception leaves the rest out.
abbrev pub ◌>>=◌ {ι ℓ} : {X : Type ι} {Y : Type ℓ} → Result X → (X → Result Y) → Result Y
err fault >>= next = err fault
ok x >>= next = next x

abbrev pub ◌>>◌ {ι} : {Y : Type ι} → Result (Unit {0}) → Result Y → Result Y
first >> next = first >>= λ done. next

-- if (!test) throw BridgeError(status, code)
abbrev pub guard : Bool → ℕ → ErrorCode → Result (Unit {0})
guard true status code = ok tt
guard false status code = err (bridge_error status code)

abbrev pub throw {ℓ} : {A : Type ℓ} → ℕ → ErrorCode → Result A
throw status code = err (bridge_error status code)

-- A result satisfies `P` if it is a value, and `Q` if it is an exception.
abbrev pub Returns {ℓ κ} : {A : Type ℓ} → (A → Type κ) → (Fault → Type κ) → Result A → Type κ
Returns P Q (ok a) = P a
Returns P Q (err e) = Q e

-- The rule for a chain: the later part is proved for each value of the first.
pub >>=-Returns {ℓ ι κ} :
    {A : Type ℓ} {B : Type ι} (P : B → Type κ) (Q : Fault → Type κ) (m : Result A)
    (f : A → Result B)
    → ((e : Fault) → m ≡ err e → Q e)
    → ((a : A) → m ≡ ok a → Returns P Q (f a))
    → Returns P Q (m >>= f)
>>=-Returns P Q (ok a) f fails later = later a refl
>>=-Returns P Q (err e) f fails later = fails e refl

pub Returns-ok {ℓ κ} :
    {A : Type ℓ} (P : A → Type κ) (Q : Fault → Type κ) {m : Result A} {a : A}
    → m ≡ ok a
    → Returns P Q m
    → P a
Returns-ok P Q e h = subst (Returns P Q) e h

pub Returns-err {ℓ κ} :
    {A : Type ℓ} (P : A → Type κ) (Q : Fault → Type κ) {m : Result A} {e : Fault}
    → m ≡ err e
    → Returns P Q m
    → Q e
Returns-err P Q e h = subst (Returns P Q) e h

-- The rule for a test that throws.
pub guard-Returns {ℓ κ} :
    {A : Type ℓ} (P : A → Type κ) (Q : Fault → Type κ) (b : Bool) (status : ℕ) (code : ErrorCode)
    (k : Result A)
    → (b ≡ false → Q (bridge_error status code))
    → (b ≡ true → Returns P Q k)
    → Returns P Q (guard b status code >> k)
guard-Returns P Q true status code k fails later = later refl
guard-Returns P Q false status code k fails later = fails refl
