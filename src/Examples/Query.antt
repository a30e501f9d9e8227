-- ===== src/Examples/Query.antt =====
-- The reading of query strings and of numbers, on concrete inputs.
use hik_hcnet_http_bridge.Common.{ℕ, ◌≡◌, ◌≢◌, refl, [], ◌∷◌, ◌++◌, arith, pos}
use hik_hcnet_http_bridge.Text.{Bytes, codes, equal}
use hik_hcnet_http_bridge.Text.Decimal.{value_from}
use hik_hcnet_http_bridge.Text.Separated.{split, break_at}
use hik_hcnet_http_bridge.Text.Stoll.{stoll}
use hik_hcnet_http_bridge.Dict.{insert}
use hik_hcnet_http_bridge.Error.{ok}
use hik_hcnet_http_bridge.Query.{add_part, parse_query, parse_int}
use hik_hcnet_http_bridge.Query.Encoding.{
  Encodes, Renders, last, more, done, escaped, space, plain, add_fields, parse_query-Renders,
}

-- A query with an escape, a space and a name that stands twice.
abbrev text : Bytes
text = (codes "a" ++ b'=' ∷ codes "%4a+b") ++ b'&' ∷ (codes "a" ++ b'=' ∷ codes "x")

text-Renders : Renders text ((codes "a", codes "J b") ∷ (codes "a", codes "x") ∷ [])
text-Renders =
    more (letter b'a' (λ h. omega arith) (λ h. omega arith) (λ h. omega arith) (λ h. omega arith))
      (escaped b'4' b'a' refl refl (
        space (
          letter b'b' (λ h. omega arith) (λ h. omega arith) (λ h. omega arith) (λ h. omega arith))))
      (last
        (letter b'a' (λ h. omega arith) (λ h. omega arith) (λ h. omega arith) (λ h. omega arith))
        (letter b'x' (λ h. omega arith) (λ h. omega arith) (λ h. omega arith) (λ h. omega arith)))
  where
    letter : (c : ℕ) → c ≢ b'%' → c ≢ b'+' → c ≢ b'&' → c ≢ b'=' → Encodes (c ∷ []) (c ∷ [])
    letter c p q r s = plain c p q r s done

parse_query-Renders_example :
    parse_query text ≡ add_fields ((codes "a", codes "J b") ∷ (codes "a", codes "x") ∷ []) []
parse_query-Renders_example = parse_query-Renders text-Renders

parse_query_run : parse_query text ≡ (codes "a", codes "x") ∷ []
unfolding parse_query split add_part insert equal break_at
parse_query_run = refl

parse_int_554 : parse_int (codes "554") ≡ ok (pos 554)
unfolding parse_int stoll value_from
parse_int_554 = refl
