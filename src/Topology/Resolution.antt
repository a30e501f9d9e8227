-- ===== src/Topology/Resolution.antt =====
-- The SDK channel that a request gets.
use hik_hcnet_http_bridge.Common.{
  ℕ, ◌≡◌, ap, sym, subst, ◌&&◌, inl, inr, refl, Bool, Bool-cases, true, false, ◌||◌, not, arith, ℤ,
  pos, ◌≤ℤ◌, ◌<ℤ◌, ◌+ℤ◌, ltb_ℤ, leb_ℤ,
}
use hik_hcnet_http_bridge.Error.{
  Result, ok, Fault, bridge_error, ErrorCode, Returns, guard-Returns, guard, ◌>>◌,
  analog_channel_unsupported, analog_channel_out_of_range, analog_channel_disabled,
  digital_channel_unsupported, digital_channel_out_of_range, digital_channel_index_out_of_range,
}
use hik_hcnet_http_bridge.Request.{ChannelType}
use hik_hcnet_http_bridge.Topology.{
  NvrChannelTopology, ResolvedChannelType, resolve, resolve_analog, resolve_digital, resolve_index,
  resolve_auto, is_int, int_min, int_end, int_sum, is_disabled, is_analog, is_digital,
}

-- The channel lies in the range that its type has on the recorder; an analog one is enabled, if the
-- recorder told which are.
abbrev pub Serves : ℕ → NvrChannelTopology → ℤ × ResolvedChannelType → Type 0
Serves limit t (channel, ResolvedChannelType.analog) =
    (t.analog_start ≤ℤ channel)
    × (channel <ℤ t.analog_start +ℤ t.analog_count)
    × (is_disabled limit t channel ≡ false)
Serves limit t (channel, ResolvedChannelType.digital) =
    (t.digital_start ≤ℤ channel) × (channel <ℤ t.digital_start +ℤ t.digital_count)
Serves limit t (channel, ResolvedChannelType.unknown) = ⊥

-- The channel and its type are those that the request names.
abbrev pub Answers : NvrChannelTopology → ℤ → ChannelType → ℤ × ResolvedChannelType → Type 0
Answers t camera ChannelType.analog r = r ≡ (camera, ResolvedChannelType.analog)
Answers t camera ChannelType.digital r = r ≡ (camera, ResolvedChannelType.digital)
Answers t camera ChannelType.digital_index r =
    r ≡ (t.digital_start +ℤ camera, ResolvedChannelType.digital)
Answers t camera ChannelType.auto r = r.0 ≡ camera

abbrev pub Is422 : Fault → Type 0
Is422 e = (code : ErrorCode) × (e ≡ bridge_error 422 code)

-- The `int`s of the recorder's ranges do not overflow.
pub record HasInts (t : NvrChannelTopology) : Type 0 where
  pub analog_end : is_int (t.analog_start +ℤ t.analog_count) ≡ true
  pub digital_start : is_int t.digital_start ≡ true
  pub digital_end : is_int (t.digital_start +ℤ t.digital_count) ≡ true

int_sum_exact : (a b : ℤ) → is_int (a +ℤ b) ≡ true → int_sum a b ≡ a +ℤ b
unfolding int_sum
int_sum_exact a b e = simp e refl

between_bounds :
    (low high a b z : ℤ)
    → leb_ℤ low a && ltb_ℤ a high ≡ true
    → leb_ℤ low b && ltb_ℤ b high ≡ true
    → a ≤ℤ z
    → z ≤ℤ b
    → leb_ℤ low z && ltb_ℤ z high ≡ true
between_bounds low high a b z h k above below = ground arith

is_int_between : (a b z : ℤ) → is_int a ≡ true → is_int b ≡ true → a ≤ℤ z → z ≤ℤ b → is_int z ≡ true
unfolding is_int
is_int_between a b z h k above below = between_bounds int_min int_end a b z h k above below

below_end : (a b : ℤ) → a <ℤ b → a ≤ℤ b
below_end a b h = ground arith

shift_range :
    (start count camera : ℤ)
    → ltb_ℤ camera (pos 0) ≡ false
    → leb_ℤ count camera ≡ false
    → (start ≤ℤ start +ℤ camera) × (start +ℤ camera <ℤ start +ℤ count)
shift_range start count camera low high = (ground arith, ground arith)

not-true : (b : Bool) → not b ≡ true → b ≡ false
not-true true h = cc
not-true false h = refl

in_analog :
    (t : NvrChannelTopology) (camera : ℤ)
    → HasInts t
    → is_analog t camera ≡ true
    → (t.analog_start ≤ℤ camera) × (camera <ℤ t.analog_start +ℤ t.analog_count)
in_analog t camera ints h =
    (ground arith, ground (arith, int_sum_exact t.analog_start t.analog_count ints.analog_end))

in_digital :
    (t : NvrChannelTopology) (camera : ℤ)
    → HasInts t
    → is_digital t camera ≡ true
    → (t.digital_start ≤ℤ camera) × (camera <ℤ t.digital_start +ℤ t.digital_count)
in_digital t camera ints h =
    (ground arith, ground (arith, int_sum_exact t.digital_start t.digital_count ints.digital_end))

module _ (limit : ℕ) (t : NvrChannelTopology) (camera : ℤ) (ints : HasInts t) where
  abbrev Good : ChannelType → ℤ × ResolvedChannelType → Type 0
  Good wanted r = Serves limit t r × Answers t camera wanted r

  resolve_analog_good : Returns (Good ChannelType.analog) Is422 (resolve_analog limit t camera)
  unfolding resolve_analog
  resolve_analog_good =
      guard-Returns (Good ChannelType.analog) Is422 (ltb_ℤ (pos 0) t.analog_count) 422
        analog_channel_unsupported
        (guard (is_analog t camera) 422 analog_channel_out_of_range >> enabled) (λ _. (_, refl))
        λ _.
          guard-Returns (Good ChannelType.analog) Is422 (is_analog t camera) 422
            analog_channel_out_of_range enabled (λ _. (_, refl))
            λ inside.
              guard-Returns (Good ChannelType.analog) Is422 (not (is_disabled limit t camera)) 422
                analog_channel_disabled (ok (camera, ResolvedChannelType.analog)) (λ _. (_, refl))
                λ on.
                  let (low, high) = in_analog t camera ints inside in
                  ((low, high, not-true _ on), refl)
    where
      enabled : Result (ℤ × ResolvedChannelType)
      enabled =
          guard (not (is_disabled limit t camera)) 422 analog_channel_disabled
          >> ok (camera, ResolvedChannelType.analog)

  resolve_digital_good : Returns (Good ChannelType.digital) Is422 (resolve_digital limit t camera)
  unfolding resolve_digital
  resolve_digital_good =
      guard-Returns (Good ChannelType.digital) Is422 (ltb_ℤ (pos 0) t.digital_count) 422
        digital_channel_unsupported
        (guard (is_digital t camera) 422 digital_channel_out_of_range
          >> ok (camera, ResolvedChannelType.digital))
        (λ _. (_, refl))
        λ _.
          guard-Returns (Good ChannelType.digital) Is422 (is_digital t camera) 422
            digital_channel_out_of_range (ok (camera, ResolvedChannelType.digital)) (λ _. (_, refl))
            λ inside. (in_digital t camera ints inside, refl)

  resolve_index_good : Returns (Good ChannelType.digital_index) Is422 (resolve_index limit t camera)
  unfolding resolve_index
  resolve_index_good =
      let answer : Result (ℤ × ResolvedChannelType) =
        ok (int_sum t.digital_start camera, ResolvedChannelType.digital) in
      let inside : Bool = not (ltb_ℤ camera (pos 0) || leb_ℤ t.digital_count camera) in
      guard-Returns (Good ChannelType.digital_index) Is422 (ltb_ℤ (pos 0) t.digital_count) 422
        digital_channel_unsupported (guard inside 422 digital_channel_index_out_of_range >> answer)
        (λ _. (_, refl))
        λ _.
          guard-Returns (Good ChannelType.digital_index) Is422 inside 422
            digital_channel_index_out_of_range answer (λ _. (_, refl))
            λ h.
              let range =
                shift_range t.digital_start t.digital_count camera (ground arith) (ground arith) in
              let exact : int_sum t.digital_start camera ≡ t.digital_start +ℤ camera =
                int_sum_exact t.digital_start camera (
                  is_int_between t.digital_start (t.digital_start +ℤ t.digital_count) _
                    ints.digital_start ints.digital_end range.0
                    (below_end (t.digital_start +ℤ camera) (t.digital_start +ℤ t.digital_count)
                      range.1)) in
              subst (Good ChannelType.digital_index)
                (ap (λ z. (z, ResolvedChannelType.digital)) (sym exact)) (range, refl)

  resolve_auto_good : Returns (Good ChannelType.auto) Is422 (resolve_auto limit t camera)
  unfolding resolve_auto
  resolve_auto_good = elim (Bool-cases (is_analog t camera)) [
    | inl inside ↦ rw inside (
        guard-Returns (Good ChannelType.auto) Is422 (not (is_disabled limit t camera)) 422
          analog_channel_disabled (ok (camera, ResolvedChannelType.analog)) (λ _. (_, refl))
          λ on.
            let (low, high) = in_analog t camera ints inside in ((low, high, not-true _ on), refl))
    | inr outside ↦ rw outside (elim (Bool-cases (is_digital t camera)) [
      | inl inside ↦ rw inside (in_digital t camera ints inside, refl)
      | inr absent ↦ rw absent (_, refl)
    ])
  ]

-- If the ends of the recorder's ranges fit an int, resolve hands the SDK a channel that the recorder has
-- and that the request asked for, or throws with status 422.
pub resolve-Serves :
    (limit : ℕ) (t : NvrChannelTopology) (camera : ℤ) (wanted : ChannelType)
    → HasInts t
    → Returns
        (λ r. Serves limit t r × Answers t camera wanted r)
        Is422
        (resolve limit t camera wanted)
unfolding resolve
resolve-Serves limit t camera ChannelType.analog ints = resolve_analog_good limit t camera ints
resolve-Serves limit t camera ChannelType.digital ints = resolve_digital_good limit t camera ints
resolve-Serves limit t camera ChannelType.digital_index ints =
    resolve_index_good limit t camera ints
resolve-Serves limit t camera ChannelType.auto ints = resolve_auto_good limit t camera ints
