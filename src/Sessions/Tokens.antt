-- ===== src/Sessions/Tokens.antt =====
-- A cleanup makes every token that was out before it useless, for good.
use hik_hcnet_http_bridge.Common.{
  ℕ, ◌+◌, ◌^◌, ◌≤◌, ◌<◌, ◌≡◌, ◌≢◌, refl, sym, ap, ◌∙◌, subst, true, false, List, [], ◌∷◌, Option,
  arith, length, is_empty, append-cancel_left,
}
use hik_hcnet_http_bridge.Text.{Bytes, equal_ne}
use hik_hcnet_http_bridge.Text.Decimal.{to_string-injective}
use hik_hcnet_http_bridge.Error.{err, bridge_error, manual_restart_required}
use hik_hcnet_http_bridge.Sessions.{SessionRegistry, token, is_stale, reserve, clean, release}
use hik_hcnet_http_bridge.Sessions.Invariant.{
  IsValid, Step, reserves, cleans, releases, step, history, step-IsValid, history-keeps,
}

token-injective : (epoch : Bytes) (m n : ℕ) → token epoch m ≡ token epoch n → m ≡ n
unfolding token
token-injective epoch m n e = to_string-injective m n (cc (append-cancel_left epoch e))

token-ne-nil : (epoch : Bytes) (n : ℕ) → is_empty (token epoch n) ≡ false
unfolding token
token-ne-nil [] n = refl
token-ne-nil (c ∷ cs) n = refl

record Follows (r later : SessionRegistry) (n : ℕ) : Type 0 where
  same_epoch : later.epoch ≡ r.epoch
  no_less : r.sequence ≤ later.sequence
  no_more : later.sequence ≤ r.sequence + n
  still_cleaned : r.cleaned ≡ true → later.cleaned ≡ true

step-Follows : (r : SessionRegistry) (s : Step) → r.sequence + 1 < 2 ^ 64 → Follows r (step r s) 1
unfolding step reserve clean release
step-Follows r (reserves sid fd generation) h = ground arith
step-Follows r cleans h = record {
  same_epoch = refl;
  no_less = omega arith;
  no_more = omega arith;
  still_cleaned = λ _. refl;
}
step-Follows r (releases address) h = ground arith

history-Follows :
    (r : SessionRegistry) (ss : List Step)
    → r.sequence + length ss < 2 ^ 64
    → Follows r (history r ss) (length ss)
unfolding history
history-Follows r [] h = record {
  same_epoch = refl;
  no_less = omega arith;
  no_more = omega arith;
  still_cleaned = λ e. e;
}
history-Follows r (s ∷ ss) h =
    let one = step-Follows r s (omega arith) in
    let rest = history-Follows (step r s) ss (omega (arith, one.no_more)) in
    record {
      same_epoch = rest.same_epoch ∙ one.same_epoch;
      no_less = omega (arith, one.no_less, rest.no_less);
      no_more = omega (arith, one.no_more, rest.no_more);
      still_cleaned = λ e. rest.still_cleaned (one.still_cleaned e);
    }

refused :
    (r : SessionRegistry) (sid : Bytes) (fd : Option ℕ) (generation : Bytes)
    → is_stale r generation ≡ true
    → reserve r sid fd generation ≡ err (bridge_error 409 manual_restart_required)
unfolding reserve
refused r sid fd generation h = rw h

stale_other :
    (r : SessionRegistry) (generation : Bytes)
    → is_empty generation ≡ false
    → generation ≢ r.generation
    → is_stale r generation ≡ true
stale_other r generation given ne = rw (equal_ne generation r.generation ne) (rw given)

stale_none : (r : SessionRegistry) → r.cleaned ≡ true → is_stale r [] ≡ true
stale_none r h = rw h

cleans_moves :
    (r : SessionRegistry)
    → r.sequence + 1 < 2 ^ 64
    → ((step r cleans).sequence ≡ r.sequence + 1)
      × ((step r cleans).cleaned ≡ true)
      × ((step r cleans).epoch ≡ r.epoch)
unfolding step clean
cleans_moves r h = (omega arith, refl, refl)

-- After a cleanup, and whatever reservations, cleanups and releases follow it, a client that comes
-- with the token of before the cleanup, or with none, is refused with 409 MANUAL_RESTART_REQUIRED;
-- as long as the counter of cleanups does not wrap around at 64 bits.
pub reserve-clean_stale :
    (r : SessionRegistry) (ss : List Step) (sid : Bytes) (fd : Option ℕ)
    → IsValid r
    → r.sequence + 1 + length ss < 2 ^ 64
    → (reserve (history (step r cleans) ss) sid fd r.generation
        ≡ err (bridge_error 409 manual_restart_required))
      × (reserve (history (step r cleans) ss) sid fd []
          ≡ err (bridge_error 409 manual_restart_required))
reserve-clean_stale r ss sid fd v h =
    let (moved, swept, same) = cleans_moves r (omega arith) in
    let f = history-Follows (step r cleans) ss (omega arith) in
    let v' = history-keeps (step r cleans) ss (step-IsValid r cleans v) in
    let later = history (step r cleans) ss in
    let tokens : r.generation ≢ later.generation = λ e.
      let numbers = token-injective r.epoch r.sequence later.sequence (
        sym v.current_token
        ∙ e
        ∙ v'.current_token
        ∙ ap (λ x. token x later.sequence) (f.same_epoch ∙ same)) in
      absurd (omega (arith, f.no_less)) in
    (
      refused later sid fd r.generation (
          stale_other later r.generation
            (subst (λ g. is_empty g ≡ false) (sym v.current_token)
              (token-ne-nil r.epoch r.sequence))
            tokens),
      refused later sid fd [] (stale_none later (f.still_cleaned swept)),
    )
