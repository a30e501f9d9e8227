-- ===== src/Query/Encoding.antt =====
-- Query strings that a client wrote by the rules of URL encoding are read back.
use hik_hcnet_http_bridge.Common.{
  ℕ, ◌+◌, ◌*◌, ◌≡◌, ◌≢◌, refl, ap, ◌∙◌, true, false, List, [], ◌∷◌, ◌++◌, arith, ◌==◌,
  if◌then◌else◌,
}
use hik_hcnet_http_bridge.Text.{Bytes, Free, Free-append}
use hik_hcnet_http_bridge.Text.Hex.{is_xdigit, xdigit_value}
use hik_hcnet_http_bridge.Text.Separated.{split, break_at_joined, split-Free, split_joined}
use hik_hcnet_http_bridge.Dict.{insert}
use hik_hcnet_http_bridge.Query.{url_decode, Query, add_part, add_parts, parse_query}

-- The text writes the bytes: `%` and two hexadecimal digits of either case, `+` for a space, or
-- the byte itself, unless it has a meaning in a query.
pub data Encodes : Bytes → Bytes → Type 0 where
  done : Encodes [] []
  escaped :
      {t s : Bytes} (h l : ℕ)
      → is_xdigit h ≡ true
      → is_xdigit l ≡ true
      → Encodes t s
      → Encodes (b'%' ∷ h ∷ l ∷ t) ((xdigit_value h * 16 + xdigit_value l) ∷ s)
  space : {t s : Bytes} → Encodes t s → Encodes (b'+' ∷ t) (32 ∷ s)
  plain :
      {t s : Bytes} (c : ℕ)
      → c ≢ b'%'
      → c ≢ b'+'
      → c ≢ b'&'
      → c ≢ b'='
      → Encodes t s
      → Encodes (c ∷ t) (c ∷ s)

-- A byte other than `%` stands for itself, a space if it is `+`.
url_decode_plain :
    (c : ℕ) (t : Bytes)
    → c ≢ b'%'
    → url_decode (c ∷ t) ≡ (if c == b'+' then 32 else c) ∷ url_decode t
unfolding url_decode
url_decode_plain c [] ne = refl
url_decode_plain c (d ∷ []) ne = refl
url_decode_plain c (h ∷ l ∷ t) ne = ground arith

url_decode_escape :
    (h l : ℕ) (t : Bytes)
    → is_xdigit h ≡ true
    → is_xdigit l ≡ true
    → url_decode (b'%' ∷ h ∷ l ∷ t) ≡ (xdigit_value h * 16 + xdigit_value l) ∷ url_decode t
unfolding url_decode
url_decode_escape h l t p q = rw p (rw q)

pub url_decode-Encodes : {t s : Bytes} → Encodes t s → url_decode t ≡ s
unfolding url_decode
url_decode-Encodes done = refl
url_decode-Encodes (escaped {t} h l p q e) =
    url_decode_escape h l t p q
    ∙ ap (◌∷◌ (xdigit_value h * 16 + xdigit_value l)) (url_decode-Encodes e)
url_decode-Encodes (space {t} e) =
    url_decode_plain b'+' t (λ p. omega arith) ∙ ap (◌∷◌ 32) (url_decode-Encodes e)
url_decode-Encodes (plain {t} c percent plus amp equals e) =
    url_decode_plain c t percent ∙ ground (arith, url_decode-Encodes e)

xdigit_ne : (c d : ℕ) → is_xdigit c ≡ true → is_xdigit d ≡ false → c ≢ d
xdigit_ne c d h k e = ground arith

Encodes-Free_amp : {t s : Bytes} → Encodes t s → Free b'&' t
Encodes-Free_amp done = tt
Encodes-Free_amp (escaped h l p q e) =
    ((λ x. omega arith), (xdigit_ne h b'&' p refl, (xdigit_ne l b'&' q refl, Encodes-Free_amp e)))
Encodes-Free_amp (space e) = ((λ x. omega arith), Encodes-Free_amp e)
Encodes-Free_amp (plain c percent plus amp equals e) = (amp, Encodes-Free_amp e)

Encodes-Free_equals : {t s : Bytes} → Encodes t s → Free b'=' t
Encodes-Free_equals done = tt
Encodes-Free_equals (escaped h l p q e) = (
  (λ x. omega arith),
  (xdigit_ne h b'=' p refl, (xdigit_ne l b'=' q refl, Encodes-Free_equals e)),
)
Encodes-Free_equals (space e) = ((λ x. omega arith), Encodes-Free_equals e)
Encodes-Free_equals (plain c percent plus amp equals e) = (equals, Encodes-Free_equals e)

-- A query string that lists these names and values, in order.
pub data Renders : Bytes → List (Bytes × Bytes) → Type 0 where
  last :
      {n v name value : Bytes}
      → Encodes n name
      → Encodes v value
      → Renders (n ++ b'=' ∷ v) ((name, value) ∷ [])
  more :
      {n v name value rest : Bytes} {fields : List (Bytes × Bytes)}
      → Encodes n name
      → Encodes v value
      → Renders rest fields
      → Renders ((n ++ b'=' ∷ v) ++ b'&' ∷ rest) ((name, value) ∷ fields)

-- The map that holds the fields, where a later value of a name replaces an earlier one.
abbrev pub add_fields : List (Bytes × Bytes) → Query → Query
add_fields [] query = query
add_fields ((name, value) ∷ fields) query = add_fields fields (insert name value query)

Free-field : {n v name value : Bytes} → Encodes n name → Encodes v value → Free b'&' (n ++ b'=' ∷ v)
Free-field {n} {v} e f =
    Free-append b'&' n (b'=' ∷ v) (Encodes-Free_amp e) ((λ x. omega arith), Encodes-Free_amp f)

add_part_field :
    {n v name value : Bytes} (query : Query)
    → Encodes n name
    → Encodes v value
    → add_part (n ++ b'=' ∷ v) query ≡ insert name value query
unfolding add_part
add_part_field {n} {v} query e f =
    rw (break_at_joined b'=' n v (Encodes-Free_equals e))
      (rw (url_decode-Encodes e) (rw (url_decode-Encodes f)))

add_parts-Renders :
    {text : Bytes} {fields : List (Bytes × Bytes)} (query : Query)
    → Renders text fields
    → add_parts (split b'&' text) query ≡ add_fields fields query
unfolding add_parts
add_parts-Renders query (last {n} {v} e f) =
    rw (split-Free b'&' (n ++ b'=' ∷ v) (Free-field e f)) (add_part_field query e f)
add_parts-Renders query (more {n} {v} {name} {value} {rest} e f r) =
    rw (split_joined b'&' (n ++ b'=' ∷ v) rest (Free-field e f)) (
      ap (add_parts (split b'&' rest)) (add_part_field query e f)
      ∙ add_parts-Renders (insert name value query) r)

-- A query string that a client wrote by these rules is read as the fields that it lists: every
-- name and value byte for byte, and the last value of a name that stands twice.
pub parse_query-Renders :
    {text : Bytes} {fields : List (Bytes × Bytes)}
    → Renders text fields
    → parse_query text ≡ add_fields fields []
unfolding parse_query
parse_query-Renders r = add_parts-Renders [] r
