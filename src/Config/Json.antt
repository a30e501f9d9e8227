-- ===== src/Config/Json.antt =====
-- The hand-written lookups in the configuration file: trim, json_section, json_value, json_int,
-- json_bool and json_string of cpp-sdk-http-bridge-linux/src/main.cpp.
use hik_hcnet_http_bridge.Common.{
  ℕ, ◌+◌, ◌-◌, Bool, true, false, ◌&&◌, ◌||◌, not, [], ◌∷◌, ◌++◌, Option, none, some, ◌==◌,
  if◌then◌else◌, ℤ, ltb_ℤ, is_empty,
}
use hik_hcnet_http_bridge.Text.{Bytes, codes, equal, is_space}
use hik_hcnet_http_bridge.Text.Separated.{break_at}
use hik_hcnet_http_bridge.Text.Stoll.{stoll}
use hik_hcnet_http_bridge.Error.{Result, ok, throw, invalid_config}
use hik_hcnet_http_bridge.Query.{int32_min, int32_max}

-- A blank, a tabulator, or the end of a line.
abbrev pub is_blank : ℕ → Bool
is_blank c = c == 32 || c == 9 || c == 13 || c == 10

unfoldable pub skip : (ℕ → Bool) → Bytes → Bytes
skip test [] = []
skip test (c ∷ cs) = if test c then skip test cs else c ∷ cs

unfoldable pub trim_end : Bytes → Bytes
trim_end [] = []
trim_end (c ∷ cs) = let rest = trim_end cs in if is_blank c && is_empty rest then [] else c ∷ rest

unfoldable pub trim : Bytes → Bytes
unfolding skip trim_end
trim value = trim_end (skip is_blank value)

-- The rest of the text, where it begins with the key.
unfoldable pub strip : Bytes → Bytes → Option Bytes
strip [] text = some text
strip (k ∷ ks) [] = none
strip (k ∷ ks) (c ∷ cs) = if c == k then strip ks cs else none

abbrev pub or_later : Option Bytes → Option Bytes → Option Bytes
or_later none later = later
or_later (some rest) later = some rest

-- The text behind the first place of the key.
unfoldable pub behind_first : Bytes → Bytes → Option Bytes
unfolding strip
behind_first key [] = strip key []
behind_first key (c ∷ cs) = or_later (strip key (c ∷ cs)) (behind_first key cs)

abbrev pub chained : Option Bytes → (Bytes → Option Bytes) → Option Bytes
chained none f = none
chained (some text) f = f text

abbrev pub or_empty : Option Bytes → Bytes
or_empty none = []
or_empty (some text) = text

abbrev pub quoted_name : Bytes → Bytes
quoted_name name = b'"' ∷ (name ++ b'"' ∷ [])

abbrev onto : ℕ → Option Bytes → Option Bytes
onto c none = none
onto c (some rest) = some (c ∷ rest)

-- Up to the brace that closes the section: the byte before, how many braces are open, and whether
-- the place is in quotes. A quote behind a backslash does not count.
unfoldable pub section_of : ℕ → ℕ → Bool → Bytes → Option Bytes
section_of before depth quoted [] = none
section_of before depth quoted (c ∷ cs) =
    let quoted' = if c == b'"' && not (before == b'\\') then not quoted else quoted in
    let depth' =
      if quoted'
      then depth
      else if c == b'{'
      then depth + 1
      else if c == b'}'
      then depth - 1
      else depth in
    let rest = section_of c depth' quoted' cs in
    if not quoted' && c == b'}' && depth == 1 then some [] else onto c rest

unfoldable pub json_section : Bytes → Bytes → Bytes
unfolding behind_first section_of
json_section json name = or_empty (
    chained (behind_first (quoted_name name) json)
      λ rest. chained (behind_first (b'{' ∷ []) rest) λ text. section_of b'{' 1 false text)

abbrev pub ends_value : ℕ → Bool
ends_value c = c == b',' || c == b'}' || c == 13 || c == 10

unfoldable pub take_until : (ℕ → Bool) → Bytes → Bytes
take_until test [] = []
take_until test (c ∷ cs) = let rest = take_until test cs in if test c then [] else c ∷ rest

abbrev up_to : Bytes × Option Bytes → Option Bytes
up_to (before, none) = none
up_to (before, some after) = some before

-- At the value: one in quotes goes up to the next quote, another one up to a comma, a brace or the
-- end of the line.
unfoldable pub value_at : Bytes → Option Bytes
unfolding take_until trim
value_at [] = none
value_at (c ∷ cs) =
    if c == b'"' then up_to (break_at b'"' cs) else some (trim (take_until ends_value (c ∷ cs)))

unfoldable pub json_value : Bytes → Bytes → Option Bytes
unfolding behind_first skip value_at
json_value section name =
    chained (behind_first (quoted_name name) section)
      λ rest. chained (behind_first (b':' ∷ []) rest) λ text. value_at (skip is_space text)

-- std::stoi, which is std::stoll and the test of the range of an int
unfoldable pub stoi : Option (ℤ × ℕ) → Result ℤ
stoi none = throw 500 invalid_config
stoi (some (z, used)) =
    if ltb_ℤ z int32_min || ltb_ℤ int32_max z then throw 500 invalid_config else ok z

unfoldable pub int_of : Option Bytes → ℤ → Result ℤ
unfolding stoi
int_of none fallback = ok fallback
int_of (some value) fallback = stoi (stoll value)

unfoldable pub json_int : Bytes → Bytes → ℤ → Result ℤ
unfolding json_value int_of
json_int section name fallback = int_of (json_value section name) fallback

unfoldable pub bool_of : Option Bytes → Bool → Result Bool
bool_of none fallback = ok fallback
bool_of (some value) fallback =
    if equal value (codes "true")
    then ok true
    else if equal value (codes "false")
    then ok false
    else throw 500 invalid_config

unfoldable pub json_bool : Bytes → Bytes → Bool → Result Bool
unfolding json_value bool_of
json_bool section name fallback = bool_of (json_value section name) fallback

abbrev string_of : Option Bytes → Bytes → Bytes
string_of none fallback = fallback
string_of (some value) fallback = value

unfoldable pub json_string : Bytes → Bytes → Bytes → Bytes
unfolding json_value
json_string section name fallback = string_of (json_value section name) fallback
