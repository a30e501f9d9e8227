-- ===== src/Response/Json/RoundTrip.antt =====
-- What a client reads in the JSON body of an error.
use hik_hcnet_http_bridge.Common.{
  ℕ, ◌≡◌, refl, ap, ◌∙◌, Bool, true, false, ◌==◌, ◌||◌, ltb, All, [], ◌∷◌, ◌++◌, if◌then◌else◌,
  Option, none, some, arith, Bool-cases, inl, inr,
}
use hik_hcnet_http_bridge.Text.{Bytes, equal}
use hik_hcnet_http_bridge.Response.Json.{
  json_escape, field, code_name, message_name, request_id_name, request_id, error_body,
}

abbrev prepend : ℕ → Option (Bytes × Bytes) → Option (Bytes × Bytes)
prepend c none = none
prepend c (some (value, rest)) = some (c ∷ value, rest)

-- A string of JSON behind its opening quote, up to the closing one. Control bytes must not stand in it,
-- and of the escapes those are read that stand for themselves.
unfoldable pub read_string : Bool → Bytes → Option (Bytes × Bytes)
read_string escaped [] = none
read_string true (c ∷ cs) =
    let more = prepend c (read_string false cs) in
    if c == b'"' || (c == b'\\' || c == b'/') then more else none
read_string false (c ∷ cs) =
    let plain = prepend c (read_string false cs) in
    let behind_escape = read_string true cs in
    if ltb c 32
    then none
    else if c == b'"'
    then some ([], cs)
    else if c == b'\\'
    then behind_escape
    else plain

-- No byte of the text is a control byte.
abbrev pub HasNoControls : Bytes → Type 0
HasNoControls text = All (λ c. ltb c 32 ≡ false) text

-- A string of JSON gives back the value that was escaped into it, and what stands behind it.
read_string-json_escape :
    (value rest : Bytes)
    → HasNoControls value
    → read_string false (json_escape value ++ b'"' ∷ rest) ≡ some (value, rest)
unfolding read_string json_escape
read_string-json_escape [] rest h = refl
read_string-json_escape (c ∷ cs) rest h =
    let k = read_string-json_escape cs rest h.1 in
    elim (Bool-cases (c == b'"')) [
      | inl e ↦ simp (e, k) refl
      | inr e ↦ elim (Bool-cases (c == b'\\')) [
        | inl f ↦ simp (e, f, k) refl
        | inr f ↦ simp (e, f, k, h.0) refl
      ]
    ]

-- Behind the text that must come first.
unfoldable pub read_behind : Bytes → Bytes → Option Bytes
read_behind [] text = some text
read_behind (c ∷ cs) [] = none
read_behind (c ∷ cs) (d ∷ text) = if d == c then read_behind cs text else none

read_behind-append : (name text : Bytes) → read_behind name (name ++ text) ≡ some text
unfolding read_behind
read_behind-append [] text = refl
read_behind-append (c ∷ cs) text = ground (arith, read_behind-append cs text)

abbrev string_of : Option Bytes → Option (Bytes × Bytes)
string_of none = none
string_of (some text) = read_string false text

-- A string behind the text that announces it.
unfoldable pub read_field : Bytes → Bytes → Option (Bytes × Bytes)
read_field name text = string_of (read_behind name text)

read_field-field :
    (name value rest : Bytes)
    → HasNoControls value
    → read_field name (field name value rest) ≡ some (value, rest)
unfolding read_field
read_field-field name value rest h =
    ap string_of (read_behind-append name (json_escape value ++ b'"' ∷ rest))
    ∙ read_string-json_escape value rest h

-- The name of the request, where the body ends behind it.
abbrev named : Option (Bytes × Bytes) → Option Bytes
named none = none
named (some (sid, rest)) = if equal rest (b'}' ∷ []) then some sid else none

unfoldable pub read_request_id : Bytes → Option Bytes
read_request_id text =
    if equal text (b'}' ∷ []) then some [] else named (read_field request_id_name text)

read_request_id-request_id :
    (sid : Bytes) → HasNoControls sid → read_request_id (request_id sid) ≡ some sid
unfolding read_request_id equal
read_request_id-request_id [] h = refl
read_request_id-request_id (c ∷ cs) h =
    ap named (read_field-field request_id_name (c ∷ cs) (b'}' ∷ []) h)

abbrev with_message : Bytes → Option (Bytes × Bytes) → Option (Bytes × (Bytes × Bytes))
with_message code none = none
with_message code (some (message, rest)) = and_sid (read_request_id rest)
  where
    and_sid : Option Bytes → Option (Bytes × (Bytes × Bytes))
    and_sid none = none
    and_sid (some sid) = some (code, (message, sid))

abbrev with_code : Option (Bytes × Bytes) → Option (Bytes × (Bytes × Bytes))
with_code none = none
with_code (some (code, rest)) = with_message code (read_field message_name rest)

-- The code, the message and the name of the request; the name is empty where the body has none.
unfoldable pub read_error : Bytes → Option (Bytes × (Bytes × Bytes))
read_error body = with_code (read_field code_name body)

-- If neither the code, nor the message, nor the name of the request has a control byte, a client that
-- reads the strings of the body of an error, without control bytes in them and with their escapes undone,
-- gets back all three.
pub read_error-error_body :
    (code message sid : Bytes)
    → HasNoControls code
    → HasNoControls message
    → HasNoControls sid
    → read_error (error_body code message sid) ≡ some (code, (message, sid))
unfolding read_error error_body
read_error-error_body code message sid h k l =
    rw
      (
        read_field-field code_name code (field message_name message (request_id sid)) h,
        read_field-field message_name message (request_id sid) k,
        read_request_id-request_id sid l,
      )
      refl
