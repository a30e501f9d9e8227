-- ===== src/CodecCache.antt =====
-- The memory of a channel's video codec: class VideoCodecCache of
-- cpp-sdk-http-bridge-linux/src/main.cpp. Every method holds the mutex, so each is one step. The clock
-- is a parameter, and the state file is its text. The order of std::map's rows is that of the list.
pub mod Keys
pub mod File
use hik_hcnet_http_bridge.Common.{
  ℕ, ◌+◌, ◌*◌, Bool, true, false, ◌&&◌, ◌||◌, List, [], ◌∷◌, ◌++◌, Option, none, some,
  if◌then◌else◌, ℤ, pos, leb_ℤ, ◌+ℤ◌, not, is_empty,
}
use hik_hcnet_http_bridge.Text.{Bytes, codes, equal}
use hik_hcnet_http_bridge.Text.Hex.{is_xdigit, xdigit_value, hex_byte}
use hik_hcnet_http_bridge.Text.Decimal.{to_string_ℤ}
use hik_hcnet_http_bridge.Text.Stoll.{stoll}
use hik_hcnet_http_bridge.Text.Separated.{break_at, split}
use hik_hcnet_http_bridge.Dict.{Dict, lookup, insert, erase}
use hik_hcnet_http_bridge.Request.{
  StreamRequest, ChannelType, auto, analog, digital, digital_index, StreamKind, main, sub,
}
use hik_hcnet_http_bridge.Device.{DetectedVideoCodec, unknown, h264, h265}

pub record Entry : Type 0 where
  pub codec : DetectedVideoCodec
  pub expires : ℤ

abbrev pub Entries : Type 0
Entries = Dict Entry

-- static_cast<int> of the two enumerations
abbrev pub channel_number : ChannelType → ℤ
channel_number auto = pos 0
channel_number analog = pos 1
channel_number digital = pos 2
channel_number digital_index = pos 3

abbrev pub stream_number : StreamKind → ℤ
stream_number main = pos 0
stream_number sub = pos 1

unfoldable pub make_key : StreamRequest → Bytes
make_key request =
    request.ip
    ++ 10
      ∷ (to_string_ℤ request.port
          ++ 10
            ∷ (to_string_ℤ request.camera
                ++ 10
                  ∷ (to_string_ℤ (channel_number request.channel_type)
                      ++ 10 ∷ to_string_ℤ (stream_number request.stream))))

unfoldable pub hex_encode : Bytes → Bytes
hex_encode [] = []
hex_encode (c ∷ cs) = hex_byte c ++ hex_encode cs

abbrev onto : ℕ → Option Bytes → Option Bytes
onto c none = none
onto c (some cs) = some (c ∷ cs)

unfoldable pub hex_decode : Bytes → Option Bytes
hex_decode [] = some []
hex_decode (h ∷ []) = none
hex_decode (h ∷ l ∷ rest) =
    let decoded = hex_decode rest in
    if is_xdigit h && is_xdigit l then onto (xdigit_value h * 16 + xdigit_value l) decoded else none

abbrev pub is_known : DetectedVideoCodec → Bool
is_known unknown = false
is_known _ = true

abbrev pub codec_text : DetectedVideoCodec → Bytes
codec_text h264 = codes "h264"
codec_text _ = codes "h265"

abbrev pub codec_from : Bytes → DetectedVideoCodec
codec_from text =
    if equal text (codes "h264") then h264 else if equal text (codes "h265") then h265 else unknown

-- One row of the state file.
unfoldable pub row : Bytes × Entry → Bytes
row (key, entry) = to_string_ℤ entry.expires ++ 9 ∷ (codec_text entry.codec ++ 9 ∷ hex_encode key)

-- The rows of the entries that have not expired.
unfoldable pub rows : ℤ → Entries → Bytes
unfolding row
rows now [] = []
rows now ((key, entry) ∷ items) =
    let rest = rows now items in
    if leb_ℤ entry.expires now then rest else row (key, entry) ++ 10 ∷ rest

-- std::getline with a separator: it fails where nothing is left.
unfoldable pub getline : ℕ → Bytes → Option (Bytes × Bytes)
getline c [] = none
getline c (x ∷ xs) = some ((break_at c (x ∷ xs)).0, rest_of (break_at c (x ∷ xs)).1)
  where
    rest_of : Option Bytes → Bytes
    rest_of none = []
    rest_of (some text) = text

with_key : Bytes → Bytes → Option (Bytes × Bytes) → Option (Bytes × Bytes × Bytes)
with_key expires codec none = none
with_key expires codec (some (key, rest)) = some (expires, codec, key)

with_codec : Bytes → Option (Bytes × Bytes) → Option (Bytes × Bytes × Bytes)
unfolding with_key
with_codec expires none = none
with_codec expires (some (codec, rest)) = with_key expires codec (getline 10 rest)

with_expires : Option (Bytes × Bytes) → Option (Bytes × Bytes × Bytes)
unfolding with_codec
with_expires none = none
with_expires (some (expires, rest)) = with_codec expires (getline 9 rest)

-- The three fields of a row, if all are there.
unfoldable pub read_row : Bytes → Option (Bytes × Bytes × Bytes)
unfolding with_expires
read_row line = with_expires (getline 9 line)

-- A row that names a key, a codec and a time to come is put into the map.
take_row : ℤ → Option (ℤ × ℕ) → Option Bytes → DetectedVideoCodec → Entries → Entries
take_row now (some (expires, used)) (some key) codec items =
    if leb_ℤ expires now || not_known codec
    then items
    else insert key (record { codec = codec; expires = expires }) items
  where
    not_known : DetectedVideoCodec → Bool
    not_known unknown = true
    not_known _ = false
take_row now _ _ codec items = items

use_row : ℤ → Entries → Option (Bytes × Bytes × Bytes) → Entries
unfolding take_row
use_row now items none = items
use_row now items (some (expires, codec, key)) =
    take_row now (stoll expires) (hex_decode key) (codec_from codec) items

unfoldable pub load_line : ℤ → Bytes → Entries → Entries
unfolding use_row
load_line now line items = use_row now items (read_row line)

load_lines : ℤ → List Bytes → Entries → Entries
unfolding load_line
load_lines now [] items = items
load_lines now (line ∷ lines) items = load_lines now lines (load_line now line items)

-- The empty line behind the last line break, which std::getline leaves out, is no row.
unfoldable pub load_rows : ℤ → Bytes → Entries → Entries
unfolding load_lines
load_rows now text items = load_lines now (split 10 text) items

-- `ttl_ <= 0 || cache_file_.empty()`
abbrev pub is_off : ℤ → Bytes → Bool
is_off ttl cache_file = leb_ℤ ttl (pos 0) || is_empty cache_file

-- Of a file that cannot be read nothing is loaded.
abbrev load_file : ℤ → Option Bytes → Entries → Entries
load_file now none items = items
load_file now (some text) items = load_rows now text items

unfoldable pub load : ℤ → Bytes → ℤ → Option Bytes → Entries → Entries
unfolding load_rows
load ttl cache_file now file items =
    if is_off ttl cache_file then items else load_file now file items

-- Whether the temporary file can be written, and whether the old file is removed and the new one takes its
-- place.
pub record FileAnswers : Type 0 where
  pub opened : Bool
  pub removed : Bool
  pub renamed : Bool

-- persist_locked: what the state file is behind it, `none` where there is none.
unfoldable pub persist : ℤ → Bytes → FileAnswers → ℤ → Entries → Option Bytes → Option Bytes
unfolding rows
persist ttl cache_file answers now items file =
    if is_off ttl cache_file || not answers.opened
    then file
    else if answers.renamed
    then some (rows now items)
    else if answers.removed
    then none
    else file

-- What try_get answers and leaves: `none` where it returns false.
found : ℤ → Bytes → Option Entry → Entries → Entries × Option DetectedVideoCodec
found now key none items = (items, none)
found now key (some entry) items =
    if leb_ℤ entry.expires now
    then (erase key items, none)
    else (items, if is_known entry.codec then some entry.codec else none)

module _ (ttl : ℤ) where
  unfoldable pub try_get : ℤ → StreamRequest → Entries → Entries × Option DetectedVideoCodec
  unfolding found
  try_get now request items =
      let key = make_key request in
      if leb_ℤ ttl (pos 0) then (items, none) else found now key (lookup key items) items

  unfoldable pub set : ℤ → StreamRequest → DetectedVideoCodec → Entries → Entries
  set now request codec items =
      if leb_ℤ ttl (pos 0)
      then items
      else if is_known codec
      then insert (make_key request) (record { codec = codec; expires = now +ℤ ttl }) items
      else items
