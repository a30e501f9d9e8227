-- ===== src/Response/Chunks.antt =====
-- The chunks of a response and what a client reads back from them.
use hik_hcnet_http_bridge.Common.{
  ℕ, zero, suc, ◌≡◌, refl, ap, ◌∙◌, false, [], ◌∷◌, ◌++◌, List, if◌then◌else◌, is_empty, length,
  All, take, drop, drop-append, take-append, Option, none, some, append_assoc, ◌==◌,
}
use hik_hcnet_http_bridge.Text.{Bytes}
use hik_hcnet_http_bridge.Text.Hex.{hex, hex_value_from, hex_value_from-hex, hex-Free}
use hik_hcnet_http_bridge.Text.Separated.{break_at, break_at_joined}
use hik_hcnet_http_bridge.Response.{crlf}

-- What send_chunk writes.
abbrev pub chunk : Bytes → Bytes
chunk data' = hex (length data') ++ (crlf ++ (data' ++ crlf))

abbrev pub chunks : List Bytes → Bytes
chunks [] = []
chunks (part ∷ parts) = chunk part ++ chunks parts

-- The last chunk, which has no data.
abbrev pub end_of_chunks : Bytes
end_of_chunks = b'0' ∷ (crlf ++ crlf)

abbrev pub joined : List Bytes → Bytes
joined [] = []
joined (part ∷ parts) = part ++ joined parts

abbrev onto : Bytes → Option Bytes → Option Bytes
onto part none = none
onto part (some rest) = some (part ++ rest)

-- Behind the text that must come first.
abbrev behind_text : Bytes → Bytes → Option Bytes
behind_text [] rest = some rest
behind_text (c ∷ cs) [] = none
behind_text (c ∷ cs) (d ∷ rest) = if d == c then behind_text cs rest else none

abbrev and_then : Option Bytes → (Bytes → Option Bytes) → Option Bytes
and_then none f = none
and_then (some rest) f = f rest

-- Behind a size line: the data, the end of the line, and the chunks that follow.
abbrev on_size : (Bytes → Option Bytes) → ℕ → Bytes → Option Bytes
on_size more zero rest = some []
on_size more (suc n) rest =
    onto (take (suc n) rest) (and_then (behind_text crlf (drop (suc n) rest)) more)

abbrev on_line : (Bytes → Option Bytes) → Bytes × Option Bytes → Option Bytes
on_line more (size, none) = none
on_line more (size, some rest) =
    and_then (behind_text (10 ∷ []) rest) (on_size more (hex_value_from 0 size))

-- How a client reads a chunked body: a size in hexadecimal, so much data, and so on up to the size 0.
unfoldable pub unchunk : ℕ → Bytes → Option Bytes
unchunk zero body = none
unchunk (suc fuel) body = on_line (unchunk fuel) (break_at 13 body)

abbrev pub NonEmpty : Bytes → Type 0
NonEmpty part = is_empty part ≡ false

chunk_shape :
    (part rest : Bytes)
    → chunk part ++ rest ≡ hex (length part) ++ 13 ∷ (10 ∷ (part ++ (crlf ++ rest)))
chunk_shape part rest =
    append_assoc (hex (length part)) (crlf ++ (part ++ crlf)) rest
    ∙ ap (λ t. hex (length part) ++ 13 ∷ (10 ∷ t)) (append_assoc part crlf rest)

-- Behind the size line, data that is not empty is taken as a whole.
on_size_data :
    (more : Bytes → Option Bytes) (part rest : Bytes)
    → NonEmpty part
    → on_size more (length part) (part ++ (crlf ++ rest)) ≡ onto part (more rest)
on_size_data more [] rest h = cc
on_size_data more (x ∷ xs) rest h =
    rw (drop-append xs (crlf ++ rest), take-append xs (crlf ++ rest)) refl

unchunk-chunk :
    (fuel : ℕ) (part rest : Bytes)
    → NonEmpty part
    → unchunk (suc fuel) (chunk part ++ rest) ≡ onto part (unchunk fuel rest)
unfolding unchunk
unchunk-chunk fuel part rest h =
    ap (λ t. on_line (unchunk fuel) (break_at 13 t)) (chunk_shape part rest)
    ∙ ap (on_line (unchunk fuel)) (
        break_at_joined 13 (hex (length part)) (10 ∷ (part ++ (crlf ++ rest)))
          (hex-Free 13 (length part) refl))
    ∙ ap (λ n. on_size (unchunk fuel) n (part ++ (crlf ++ rest))) (hex_value_from-hex (length part))
    ∙ on_size_data (unchunk fuel) part rest h

-- A client that reads chunk by chunk gets back the parts, one behind the other and nothing else, if
-- none of them is empty; with one step for each chunk and one for the last it reaches the end.
pub unchunk-chunks :
    (parts : List Bytes)
    → All NonEmpty parts
    → unchunk (suc (length parts)) (chunks parts ++ end_of_chunks) ≡ some (joined parts)
unchunk-chunks [] h = unfold unchunk break_at hex_value_from in refl
unchunk-chunks (part ∷ parts) h =
    ap (unchunk (suc (suc (length parts)))) (append_assoc (chunk part) (chunks parts) end_of_chunks)
    ∙ unchunk-chunk (suc (length parts)) part (chunks parts ++ end_of_chunks) h.0
    ∙ ap (onto part) (unchunk-chunks parts h.1)
