-- ===== src/Examples/CodecCache.antt =====
-- The cache of video codecs, on concrete inputs.
use hik_hcnet_http_bridge.Common.{◌≡◌, refl, [], ◌∷◌, arith, pos, true, none}
use hik_hcnet_http_bridge.Text.{codes}
use hik_hcnet_http_bridge.Device.{h264, h265}
use hik_hcnet_http_bridge.CodecCache.{make_key, Entries, persist, load, FileAnswers}
use hik_hcnet_http_bridge.CodecCache.Keys.{make_key-injective}
use hik_hcnet_http_bridge.CodecCache.File.{add_fresh, load-persist}
use hik_hcnet_http_bridge.Examples.Request.{request}

make_key-injective_example :
    (request.ip ≡ request.ip)
    × (request.port ≡ request.port)
    × (request.camera ≡ request.camera)
    × (request.channel_type ≡ request.channel_type)
    × (request.stream ≡ request.stream)
make_key-injective_example =
    make_key-injective request (record request { username = codes "x" }) (unfold make_key in refl)

abbrev entries : Entries
entries =
    (codes "10.0.0.9", record { codec = h264; expires = pos 500 })
    ∷ (codes "10.0.0.8", record { codec = h265; expires = pos 100 })
    ∷ []

abbrev replaced : FileAnswers
replaced = record { opened = true; removed = true; renamed = true }

load-persist_example :
    load
      (pos 900)
      (codes "cache.tsv")
      (pos 200)
      (persist (pos 900) (codes "cache.tsv") replaced (pos 200) entries none)
      []
    ≡ add_fresh (pos 200) entries []
load-persist_example =
    load-persist (pos 900) (codes "cache.tsv") replaced (pos 200) entries [] none refl refl refl (
      record {
        key_bytes = (
          omega arith,
          (
            omega arith,
            (
              omega arith,
              (omega arith, (omega arith, (omega arith, (omega arith, (omega arith, tt))))),
            ),
          ),
        );
        key_given = λ e. cc e;
        codec_known = refl;
        expires_long = omega arith;
      },
      (
        record {
          key_bytes = (
            omega arith,
            (
              omega arith,
              (
                omega arith,
                (omega arith, (omega arith, (omega arith, (omega arith, (omega arith, tt))))),
              ),
            ),
          );
          key_given = λ e. cc e;
          codec_known = refl;
          expires_long = omega arith;
        },
        tt,
      ),
    )
