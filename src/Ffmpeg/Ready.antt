-- ===== src/Ffmpeg/Ready.antt =====
-- What the start of the output is when the bridge goes on with it.
use hik_hcnet_http_bridge.Common.{
  ◌≡◌, refl, sym, ap, ◌∙◌, Bool, true, false, ◌&&◌, ◌||◌, List, [], ◌∷◌, ◌++◌, append-nil,
  append_assoc, Option, none, some, leb, if◌then◌else◌, length, ◌⊎◌, inl, inr, Bool-cases,
}
use hik_hcnet_http_bridge.Text.{Bytes}
use hik_hcnet_http_bridge.Error.{
  Fault, Result, ok, err, throw, bridge_error, Returns, ffmpeg_no_media_fragment, ffmpeg_no_mp4,
}
use hik_hcnet_http_bridge.Ffmpeg.{
  Read, nothing, ended, bytes, ReadTurn, is_initialized, is_ready, size_limit, on_check, on_read,
  give_up, read_until_ready,
}

abbrev read_bytes : Read → Bytes
read_bytes (bytes part) = part
read_bytes _ = []

-- All that FFmpeg wrote in the turns, in order.
abbrev pub output : List ReadTurn → Bytes
output [] = []
output (turn ∷ turns) = read_bytes turn.read ++ output turns

-- The text is the start of the other.
abbrev pub Begins : Bytes → Bytes → Type 0
Begins xs ys = (rest : Bytes) × (ys ≡ xs ++ rest)

-- The text is ready, begins with what was there, and is the start of what there was and FFmpeg wrote.
pub record IsStart (require_media_fragment : Bool) (before : Bytes) (turns : List ReadTurn)
    (result : Bytes) : Type 0 where
  pub ready : is_ready require_media_fragment result ≡ true
  pub extends : Begins before result
  pub in_order : Begins result (before ++ output turns)

-- A checkpoint of a turn threw it.
abbrev pub Thrown : List ReadTurn → Fault → Type 0
Thrown [] e = ⊥
Thrown (turn ∷ turns) e = (turn.checked ≡ some e) ⊎ Thrown turns e

-- There is no output that the caller could use: 504 where the fragment alone is missing, else 502.
abbrev pub IsHopeless : Bool → Fault → Type 0
IsHopeless require_media_fragment e =
    (e ≡ bridge_error 502 ffmpeg_no_mp4)
    ⊎ (require_media_fragment ≡ true) × (e ≡ bridge_error 504 ffmpeg_no_media_fragment)

abbrev pub Fails : Bool → List ReadTurn → Fault → Type 0
Fails require_media_fragment turns e = IsHopeless require_media_fragment e ⊎ Thrown turns e

module _ (b : Bool) where
  give_up-Fails :
      (before result : Bytes) (turns : List ReadTurn)
      → Returns (IsStart b before turns) (Fails b turns) (give_up b result)
  give_up-Fails before result turns = given_up b (is_initialized result)
    where
      given_up :
          (d i : Bool)
          → Returns
              (IsStart b before turns)
              (λ e. IsHopeless d e ⊎ Thrown turns e)
              (if d && i then throw 504 ffmpeg_no_media_fragment else throw 502 ffmpeg_no_mp4)
      given_up true true = inl (inr (refl, refl))
      given_up true false = inl (inl refl)
      given_up false i = inl (inl refl)

  on_check-Returns :
      (P : Bytes → Type 0) (turn : ReadTurn) (turns : List ReadTurn) (k : Result Bytes)
      (c : Option Fault)
      → turn.checked ≡ c
      → Returns P (Fails b (turn ∷ turns)) k
      → Returns P (Fails b (turn ∷ turns)) (on_check c k)
  on_check-Returns P turn turns k none e h = h
  on_check-Returns P turn turns k (some f) e h = inr (inl e)

  later-Fails :
      (turn : ReadTurn) (turns : List ReadTurn) (e : Fault)
      → Fails b turns e
      → Fails b (turn ∷ turns) e
  later-Fails turn turns e (inl h) = inl h
  later-Fails turn turns e (inr h) = inr (inr h)

  -- A turn before those of the rest, which added `part`.
  earlier :
      (result part : Bytes) (turn : ReadTurn) (turns : List ReadTurn) (r : Result Bytes)
      → read_bytes turn.read ≡ part
      → Returns (IsStart b (result ++ part) turns) (Fails b turns) r
      → Returns (IsStart b result (turn ∷ turns)) (Fails b (turn ∷ turns)) r
  earlier result part turn turns (ok bs) e h = record {
    ready = h.ready;
    extends = (part ++ h.extends.0, h.extends.1 ∙ append_assoc result part h.extends.0);
    in_order = (
      h.in_order.0,
      ap (λ x. result ++ (x ++ output turns)) e
          ∙ sym (append_assoc result part (output turns))
          ∙ h.in_order.1,
    );
  }
  earlier result part turn turns (err f) e h = later-Fails turn turns f h

  -- The bridge goes on with an output only if it holds an initialization and, where it must, a first
  -- fragment. That output begins with what was read before and is, byte for byte, the start of what
  -- FFmpeg wrote; no byte is lost or doubled. Otherwise a checkpoint threw, or the error is 504
  -- FFMPEG_NO_MEDIA_FRAGMENT, only where a fragment is asked for, or 502 FFMPEG_NO_MP4.
  pub read_until_ready-IsStart :
      (result : Bytes) (turns : List ReadTurn)
      → Returns (IsStart b result turns) (Fails b turns) (read_until_ready b result turns)
  unfolding read_until_ready
  read_until_ready-IsStart result [] = give_up-Fails result result []
  read_until_ready-IsStart result (turn ∷ turns) =
      elim (Bool-cases (turn.late || leb size_limit (length result))) [
        | inl e ↦ simp e (give_up-Fails result result (turn ∷ turns))
        | inr e ↦ simp e (
            on_check-Returns (IsStart b result (turn ∷ turns)) turn turns _ turn.checked refl
              (reading (λ bs. read_until_ready-IsStart bs turns) turn.read refl))
      ]
    where
      reading :
          ((bs : Bytes)
            → Returns (IsStart b bs turns) (Fails b turns) (read_until_ready b bs turns))
          → (r : Read) → turn.read ≡ r
          → Returns (IsStart b result (turn ∷ turns)) (Fails b (turn ∷ turns)) (
              on_read
                (read_until_ready b result turns)
                (give_up b result)
                (λ part.
                  if is_ready b (result ++ part)
                  then ok (result ++ part)
                  else read_until_ready b (result ++ part) turns)
                r)
      reading later nothing e =
          earlier result [] turn turns _ (ap read_bytes e) (rw append-nil (later result))
      reading later ended e = give_up-Fails result result (turn ∷ turns)
      reading later (bytes part) e = elim (Bool-cases (is_ready b (result ++ part))) [
        | inl r ↦ simp r (record {
          ready = r;
          extends = (part, refl);
          in_order = (
            output turns,
            ap (λ x. result ++ (read_bytes x ++ output turns)) e
                ∙ sym (append_assoc result part (output turns)),
          );
        })
        | inr r ↦
            simp r (earlier result part turn turns _ (ap read_bytes e) (later (result ++ part)))
      ]
