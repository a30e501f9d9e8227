-- ===== src/CodecCache/Keys.antt =====
-- The key of the cache tells the channels apart.
use hik_hcnet_http_bridge.Common.{◌≡◌, refl, sym, ◌∙◌, ◌∷◌, ◌++◌, append_assoc, arith, ℤ}
use hik_hcnet_http_bridge.Text.{Free}
use hik_hcnet_http_bridge.Text.Decimal.{to_string_ℤ, to_string_ℤ-Free, to_string_ℤ-injective}
use hik_hcnet_http_bridge.Text.Separated.{split_last}
use hik_hcnet_http_bridge.Request.{StreamRequest, ChannelType, StreamKind}
use hik_hcnet_http_bridge.CodecCache.{make_key, channel_number, stream_number}

channel_number-injective : (a b : ChannelType) → channel_number a ≡ channel_number b → a ≡ b
channel_number-injective a b e = ground arith

stream_number-injective : (a b : StreamKind) → stream_number a ≡ stream_number b → a ≡ b
stream_number-injective a b e = ground arith

line-Free : (z : ℤ) → Free 10 (to_string_ℤ z)
line-Free z = to_string_ℤ-Free 10 z refl (λ e. omega arith)

-- Two requests share an entry of the cache only if they name the same channel and stream of the same
-- recorder: address, port, channel number, channel type and stream are equal, whatever bytes the
-- address has.
pub make_key-injective :
    (a b : StreamRequest)
    → make_key a ≡ make_key b
    → (a.ip ≡ b.ip)
      × (a.port ≡ b.port)
      × (a.camera ≡ b.camera)
      × (a.channel_type ≡ b.channel_type)
      × (a.stream ≡ b.stream)
unfolding make_key
make_key-injective a b e =
    let (front, stream) =
      split_last 10 _ _ (line-Free (stream_number a.stream)) (line-Free (stream_number b.stream))
        (grouped a ∙ e ∙ sym (grouped b)) in
    let (front', kind) =
      split_last 10 _ _ (line-Free (channel_number a.channel_type))
        (line-Free (channel_number b.channel_type)) front in
    let (front'', camera) = split_last 10 _ _ (line-Free a.camera) (line-Free b.camera) front' in
    let (ip, port) = split_last 10 a.ip b.ip (line-Free a.port) (line-Free b.port) front'' in
    (
      ip,
      to_string_ℤ-injective _ _ port,
      to_string_ℤ-injective _ _ camera,
      channel_number-injective _ _ (to_string_ℤ-injective _ _ kind),
      stream_number-injective _ _ (to_string_ℤ-injective _ _ stream),
    )
  where
    grouped :
        (r : StreamRequest)
        → (((r.ip ++ 10 ∷ to_string_ℤ r.port) ++ 10 ∷ to_string_ℤ r.camera)
              ++ 10 ∷ to_string_ℤ (channel_number r.channel_type))
            ++ 10 ∷ to_string_ℤ (stream_number r.stream)
          ≡ make_key r
    grouped r = simp append_assoc refl
