-- ===== src/CodecCache/File.antt =====
-- The state file brings the cache back.
use hik_hcnet_http_bridge.Common.{
  ℕ, ◌/◌, ◌%◌, ◌<◌, ◌≡◌, ◌≢◌, refl, Option, false, ap, ◌∙◌, true, false, [], ◌∷◌, ◌++◌, some, arith,
  if◌then◌else◌, ℤ, leb_ℤ, All, Bool-cases, inl, inr, length,
}
use hik_hcnet_http_bridge.Text.{Bytes, equal, Free, Free-append}
use hik_hcnet_http_bridge.Text.Hex.{lower_hex, lower_hex_digit, xdigit_value-lower_hex}
use hik_hcnet_http_bridge.Text.Decimal.{to_string_ℤ, to_string_ℤ-Free}
use hik_hcnet_http_bridge.Text.Stoll.{stoll, stoll-to_string_ℤ, IsLong}
use hik_hcnet_http_bridge.Text.Separated.{break_at_joined, break_at-Free, split, split_joined}
use hik_hcnet_http_bridge.Dict.{insert}
use hik_hcnet_http_bridge.Device.{DetectedVideoCodec, unknown, h264, h265}
use hik_hcnet_http_bridge.CodecCache.{
  Entry, Entries, hex_encode, hex_decode, is_known, codec_text, codec_from, row, rows, load_rows,
  is_off, FileAnswers, persist, getline, with_key, with_codec, with_expires, use_row, read_row,
  take_row, load_line, load_lines, load,
}

-- A key is of bytes and not empty; its entry names a codec and a time that fits 64 bits.
pub record IsStored (item : Bytes × Entry) : Type 0 where
  pub key_bytes : All (λ c. c < 256) item.0
  pub key_given : item.0 ≢ []
  pub codec_known : is_known item.1.codec ≡ true
  pub expires_long : IsLong item.1.expires

pub hex_decode-hex_encode :
    (key : Bytes) → All (λ c. c < 256) key → hex_decode (hex_encode key) ≡ some key
unfolding hex_encode hex_decode
hex_decode-hex_encode [] h = refl
hex_decode-hex_encode (c ∷ cs) h = rw (lower_hex_digit (c / 16) (omega (arith, h.0))) (
    rw (lower_hex_digit (c % 16) (omega arith)) (
      rw (hex_decode-hex_encode cs h.1) (
        rw (xdigit_value-lower_hex (c / 16) (omega (arith, h.0))) (
          rw (xdigit_value-lower_hex (c % 16) (omega arith))
            (ap (λ n. some (n ∷ cs)) (omega arith))))))

lower_hex-Free : (c d : ℕ) → d < 16 → c < b'0' → lower_hex d ≢ c
unfolding lower_hex
lower_hex-Free c d h k = ground arith

hex_encode-Free :
    (c : ℕ) (key : Bytes) → c < b'0' → All (λ c. c < 256) key → Free c (hex_encode key)
unfolding hex_encode
hex_encode-Free c [] k h = tt
hex_encode-Free c (x ∷ xs) k h = (
  lower_hex-Free c (x / 16) (omega (arith, h.0)) k,
  (lower_hex-Free c (x % 16) (omega arith) k, hex_encode-Free c xs k h.1),
)

-- The entries that have not expired, put into the map in their order.
abbrev pub add_fresh : ℤ → Entries → Entries → Entries
add_fresh now [] into = into
add_fresh now ((key, entry) ∷ items) into =
    if leb_ℤ entry.expires now
    then add_fresh now items into
    else add_fresh now items (insert key entry into)

getline_joined : (c : ℕ) (xs ys : Bytes) → Free c xs → getline c (xs ++ c ∷ ys) ≡ some (xs, ys)
unfolding getline
getline_joined c [] ys f = rw (break_at_joined c [] ys f)
getline_joined c (x ∷ xs) ys f = rw (break_at_joined c (x ∷ xs) ys f)

getline-Free : (c : ℕ) (xs : Bytes) → xs ≢ [] → Free c xs → getline c xs ≡ some (xs, [])
unfolding getline
getline-Free c [] given f = absurd (given refl)
getline-Free c (x ∷ xs) given f = rw (break_at-Free c (x ∷ xs) f)

codec_text-Free : (c : ℕ) (codec : DetectedVideoCodec) → c < b'0' → Free c (codec_text codec)
codec_text-Free c h264 h =
    ((λ e. omega arith), ((λ e. omega arith), ((λ e. omega arith), ((λ e. omega arith), tt))))
codec_text-Free c h265 h =
    ((λ e. omega arith), ((λ e. omega arith), ((λ e. omega arith), ((λ e. omega arith), tt))))
codec_text-Free c unknown h =
    ((λ e. omega arith), ((λ e. omega arith), ((λ e. omega arith), ((λ e. omega arith), tt))))

codec_from-codec_text :
    (codec : DetectedVideoCodec) → is_known codec ≡ true → codec_from (codec_text codec) ≡ codec
unfolding equal
codec_from-codec_text h264 h = refl
codec_from-codec_text h265 h = refl
codec_from-codec_text unknown h = cc h

hex_encode-ne-nil : (key : Bytes) → key ≢ [] → hex_encode key ≢ []
unfolding hex_encode
hex_encode-ne-nil [] h e = h refl
hex_encode-ne-nil (c ∷ cs) h e = cc e

read_row_fields :
    (line expires codec key rest rest' rest'' : Bytes)
    → getline 9 line ≡ some (expires, rest)
    → getline 9 rest ≡ some (codec, rest')
    → getline 10 rest' ≡ some (key, rest'')
    → read_row line ≡ some (expires, codec, key)
unfolding read_row with_expires with_codec with_key
read_row_fields line expires codec key rest rest' rest'' a b c =
    ap with_expires a ∙ ap (with_codec expires) b ∙ ap (with_key expires codec) c

read_row-row :
    (key : Bytes) (entry : Entry)
    → IsStored (key, entry)
    → read_row (row (key, entry))
      ≡ some (to_string_ℤ entry.expires, codec_text entry.codec, hex_encode key)
unfolding row
read_row-row key entry h =
    read_row_fields (row (key, entry)) _ _ _ _ (hex_encode key) []
      (getline_joined 9 (to_string_ℤ entry.expires) _
        (to_string_ℤ-Free 9 entry.expires refl (λ e. omega arith)))
      (getline_joined 9 (codec_text entry.codec) (hex_encode key)
        (codec_text-Free 9 entry.codec (omega arith)))
      (getline-Free 10 (hex_encode key) (hex_encode-ne-nil key h.key_given)
        (hex_encode-Free 10 key (omega arith) h.key_bytes))

row-Free : (key : Bytes) (entry : Entry) → IsStored (key, entry) → Free 10 (row (key, entry))
unfolding row
row-Free key entry h =
    Free-append 10 (to_string_ℤ entry.expires) _
      (to_string_ℤ-Free 10 entry.expires refl (λ e. omega arith))
      (
        (λ e. omega arith),
        Free-append 10 (codec_text entry.codec) _ (codec_text-Free 10 entry.codec (omega arith))
            ((λ e. omega arith), hex_encode-Free 10 key (omega arith) h.key_bytes),
      )

take_row_fresh :
    (now : ℤ) (used : ℕ) (key : Bytes) (entry : Entry) (items : Entries)
    → is_known entry.codec ≡ true
    → leb_ℤ entry.expires now ≡ false
    → take_row now (some (entry.expires, used)) (some key) entry.codec items
      ≡ insert key entry items
unfolding take_row
take_row_fresh now used key entry items known fresh =
    known_row entry.codec entry.expires known fresh
  where
    known_row :
        (codec : DetectedVideoCodec) (expires : ℤ)
        → is_known codec ≡ true
        → leb_ℤ expires now ≡ false
        → take_row now (some (expires, used)) (some key) codec items
          ≡ insert key (record { codec = codec; expires = expires }) items
    known_row h264 expires k f = rw f
    known_row h265 expires k f = rw f
    known_row unknown expires k f = cc k

load_line_fields :
    (now : ℤ) (line expires codec key : Bytes) (items : Entries)
    → read_row line ≡ some (expires, codec, key)
    → load_line now line items
      ≡ take_row now (stoll expires) (hex_decode key) (codec_from codec) items
unfolding load_line use_row take_row
load_line_fields now line expires codec key items e = ap (use_row now items) e

load_line-row :
    (now : ℤ) (key : Bytes) (entry : Entry) (items : Entries)
    → IsStored (key, entry)
    → leb_ℤ entry.expires now ≡ false
    → load_line now (row (key, entry)) items ≡ insert key entry items
load_line-row now key entry items h fresh =
    load_line_fields now (row (key, entry)) _ _ _ items (read_row-row key entry h)
    ∙ ap
        (λ x.
          take_row now x (hex_decode (hex_encode key)) (codec_from (codec_text entry.codec)) items)
        (stoll-to_string_ℤ entry.expires h.expires_long)
    ∙ ap
        (λ x.
          take_row now (some (entry.expires, length (to_string_ℤ entry.expires))) x
            (codec_from (codec_text entry.codec)) items)
        (hex_decode-hex_encode key h.key_bytes)
    ∙ ap
        (λ x.
          take_row now (some (entry.expires, length (to_string_ℤ entry.expires))) (some key) x
            items)
        (codec_from-codec_text entry.codec h.codec_known)
    ∙ take_row_fresh now _ key entry items h.codec_known fresh

load_lines_end : (now : ℤ) (items : Entries) → load_lines now (split 10 []) items ≡ items
unfolding load_lines load_line read_row getline split
load_lines_end now items = refl

load_rows-rows :
    (now : ℤ) (items into : Entries)
    → All IsStored items
    → load_rows now (rows now items) into ≡ add_fresh now items into
unfolding load_rows rows load_lines
load_rows-rows now [] into h = load_lines_end now into
load_rows-rows now ((key, entry) ∷ items) into h = elim (Bool-cases (leb_ℤ entry.expires now)) [
  | inl old ↦ rw old (load_rows-rows now items into h.1)
  | inr fresh ↦ rw fresh (
      rw (split_joined 10 (row (key, entry)) (rows now items) (row-Free key entry h.0)) (
        ap (load_lines now (split 10 (rows now items))) (load_line-row now key entry into h.0 fresh)
        ∙ load_rows-rows now items (insert key entry into) h.1))
]

-- What the cache writes to its file, it reads back: if the cache is not off, and the new file takes the
-- place of the old one, behind a restart at the same time the map holds exactly the entries that had not
-- expired, each under its key with its codec and its time.
pub load-persist :
    (ttl : ℤ) (cache_file : Bytes) (answers : FileAnswers) (now : ℤ) (items into : Entries)
    (file : Option Bytes)
    → is_off ttl cache_file ≡ false
    → answers.opened ≡ true
    → answers.renamed ≡ true
    → All IsStored items
    → load ttl cache_file now (persist ttl cache_file answers now items file) into
      ≡ add_fresh now items into
unfolding load persist
load-persist ttl cache_file answers now items into file on opened renamed h =
    simp (on, opened, renamed) (load_rows-rows now items into h)
