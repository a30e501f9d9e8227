-- ===== src/Serving/Pieces.antt =====
-- The pieces of FFmpeg's output that the output loop of cpp-sdk-http-bridge-linux/src/main.cpp sends on.
use hik_hcnet_http_bridge.Common.{
  refl, not, List, [], ◌∷◌, if◌then◌else◌, is_empty, All, Bool-cases, inl, inr,
}
use hik_hcnet_http_bridge.Text.{Bytes}
use hik_hcnet_http_bridge.Error.{Result, ok, err}
use hik_hcnet_http_bridge.Response.Chunks.{NonEmpty}
use hik_hcnet_http_bridge.Ffmpeg.{read}
use hik_hcnet_http_bridge.Serving.{OutputLoopTurn}

-- The output up to where the loop ends: the pieces that FFmpeg gives, while the bridge runs.
abbrev pub parts_behind : Result Bytes → List Bytes → List Bytes
parts_behind (err e) rest = []
parts_behind (ok part) rest = if is_empty part then [] else part ∷ rest

abbrev pub parts_of : List OutputLoopTurn → List Bytes
parts_of [] = []
parts_of (turn ∷ turns) =
    if not turn.running then [] else parts_behind (read turn.reads) (parts_of turns)

pub parts_of-NonEmpty : (turns : List OutputLoopTurn) → All NonEmpty (parts_of turns)
parts_of-NonEmpty [] = tt
parts_of-NonEmpty (turn ∷ turns) = elim (Bool-cases turn.running) [
  | inr e ↦ simp e tt
  | inl e ↦ simp e (behind (read turn.reads) (parts_of turns) (parts_of-NonEmpty turns))
]
  where
    behind :
        (r : Result Bytes) (rest : List Bytes)
        → All NonEmpty rest
        → All NonEmpty (parts_behind r rest)
    behind (err e) rest h = tt
    behind (ok part) rest h = elim (Bool-cases (is_empty part)) [
      | inl e ↦ simp e tt
      | inr e ↦ simp e (refl, h)
    ]
