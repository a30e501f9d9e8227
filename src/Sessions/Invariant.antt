-- ===== src/Sessions/Invariant.antt =====
-- What every history of reservations, cleanups and releases keeps true of the registry.
use hik_hcnet_http_bridge.Common.{
  ℕ, ◌+◌, ◌≤◌, ◌<◌, ◌≡◌, ◌≢◌, refl, Bool, false, not, List, [], ◌∷◌, ◌++◌, map, Option, arith, leb,
  ◌==◌, length, keep, length-append, length-keep-le, All, All-append, All-keep, Bool-cases, inl,
  inr,
}
use hik_hcnet_http_bridge.Text.{Bytes}
use hik_hcnet_http_bridge.Error.{Result, ok, err}
use hik_hcnet_http_bridge.Sessions.Cleaning.{cancel, clean_states_lem, length-cancel}
use hik_hcnet_http_bridge.Sessions.{
  State, SessionRegistry, token, new_registry, is_stale, new_state, reserve, clean, release,
}

-- A state stands at an address below the next free one, and a state that no cleanup has cancelled
-- carries the current token.
pub record IsCurrent (next : ℕ) (generation : Bytes) (s : State) : Type 0 where
  pub old_address : s.address < next
  pub same_token : s.cancelled ≡ false → s.generation ≡ generation

-- The addresses differ.
abbrev pub Distinct : List State → Type 0
Distinct [] = Unit {0}
Distinct (s ∷ ss) = All (λ t. t.address ≢ s.address) ss × Distinct ss

pub record IsValid (r : SessionRegistry) : Type 0 where
  pub capacity : length r.states ≤ r.maximum
  pub current_token : r.generation ≡ token r.epoch r.sequence
  pub current : All (IsCurrent r.next_address r.generation) r.states
  pub distinct : Distinct r.states

-- The steps, over the statuses that a cleanup marks.
pub data Step : Type 0 where
  reserves : Bytes → Option ℕ → Bytes → Step
  cleans : Step
  releases : ℕ → Step

abbrev after_reserve : SessionRegistry → Result (SessionRegistry × Option State) → SessionRegistry
after_reserve r (ok (r', lease)) = r'
after_reserve r (err e) = r

abbrev no_mark : Bytes → Unit {0} → Unit {0}
no_mark sid s = s

unfoldable pub step : SessionRegistry → Step → SessionRegistry
step r (reserves sid fd generation) = after_reserve r (reserve r sid fd generation)
step r cleans = (clean no_mark r tt).0
step r (releases address) = release r address

unfoldable pub history : SessionRegistry → List Step → SessionRegistry
history r [] = r
history r (s ∷ ss) = history (step r s) ss

new_registry-IsValid : (maximum : ℕ) (epoch : Bytes) → IsValid (new_registry maximum epoch)
unfolding new_registry
new_registry-IsValid maximum epoch = record {
  capacity = omega arith;
  current_token = refl;
  current = tt;
  distinct = tt;
}

IsCurrent-next :
    (next : ℕ) (g : Bytes) (ss : List State)
    → All (IsCurrent next g) ss
    → All (IsCurrent (next + 1) g) ss
IsCurrent-next next g [] h = tt
IsCurrent-next next g (s ∷ ss) h = (
  record { old_address = omega (arith, h.0.old_address); same_token = h.0.same_token },
  IsCurrent-next next g ss h.1,
)

Distinct-append :
    (next : ℕ) (g : Bytes) (ss : List State) (t : State)
    → All (IsCurrent next g) ss
    → t.address ≡ next
    → Distinct ss
    → Distinct (ss ++ t ∷ [])
Distinct-append next g [] t h e d = (tt, tt)
Distinct-append next g (s ∷ ss) t h e d = (
  All-append (λ u. u.address ≢ s.address) ss (t ∷ []) d.0
      ((λ p. omega (arith, h.0.old_address)), tt),
  Distinct-append next g ss t h.1 e d.1,
)

Distinct-keep : (p : State → Bool) (ss : List State) → Distinct ss → Distinct (keep p ss)
Distinct-keep p [] d = tt
Distinct-keep p (s ∷ ss) d =
    ground (arith, All-keep (λ u. u.address ≢ s.address) p ss d.0, Distinct-keep p ss d.1)

reserve-IsValid :
    (r : SessionRegistry) (sid : Bytes) (fd : Option ℕ) (generation : Bytes)
    → IsValid r
    → IsValid (after_reserve r (reserve r sid fd generation))
unfolding reserve
reserve-IsValid r sid fd generation v = elim (Bool-cases (is_stale r generation)) [
  | inl stale ↦ rw stale v
  | inr fresh ↦ rw fresh (elim (Bool-cases (leb r.maximum (length r.states))) [
    | inl full ↦ rw full v
    | inr room ↦ rw room (record {
      capacity = omega (arith, length-append r.states (new_state r sid fd ∷ []), below room);
      current_token = v.current_token;
      current =
          All-append _ r.states _ (IsCurrent-next r.next_address r.generation r.states v.current)
            (record { old_address = omega arith; same_token = λ _. refl }, tt);
      distinct = Distinct-append r.next_address r.generation r.states _ v.current refl v.distinct;
    })
  ])
]
  where
    below : leb r.maximum (length r.states) ≡ false → length r.states < r.maximum
    below h = ground arith

cancel-IsCurrent :
    (next : ℕ) (g g' : Bytes) (ss : List State)
    → All (IsCurrent next g) ss
    → All (IsCurrent next g') (map cancel ss)
cancel-IsCurrent next g g' [] h = tt
cancel-IsCurrent next g g' (s ∷ ss) h = (
  record { old_address = h.0.old_address; same_token = λ e. cc },
  cancel-IsCurrent next g g' ss h.1,
)

cancel_others :
    (a : ℕ) (ss : List State)
    → All (λ t. t.address ≢ a) ss
    → All (λ t. t.address ≢ a) (map cancel ss)
cancel_others a [] h = tt
cancel_others a (s ∷ ss) h = (h.0, cancel_others a ss h.1)

cancel-Distinct : (ss : List State) → Distinct ss → Distinct (map cancel ss)
cancel-Distinct [] d = tt
cancel-Distinct (s ∷ ss) d = (cancel_others s.address ss d.0, cancel-Distinct ss d.1)

clean-IsValid : (r : SessionRegistry) → IsValid r → IsValid (clean no_mark r tt).0
clean-IsValid r v =
    let states = (clean_states_lem no_mark r.states tt).0 in
    unfold clean in
    record {
      capacity = rw states (rw (length-cancel r.states) v.capacity);
      current_token = refl;
      current = rw states (cancel-IsCurrent r.next_address r.generation _ r.states v.current);
      distinct = rw states (cancel-Distinct r.states v.distinct);
    }

release-IsValid : (r : SessionRegistry) (address : ℕ) → IsValid r → IsValid (release r address)
unfolding release
release-IsValid r address v = record {
  capacity =
      omega
        (arith, length-keep-le (λ (s : State). not (s.address == address)) r.states, v.capacity);
  current_token = v.current_token;
  current = All-keep _ _ r.states v.current;
  distinct = Distinct-keep _ r.states v.distinct;
}

pub step-IsValid : (r : SessionRegistry) (s : Step) → IsValid r → IsValid (step r s)
unfolding step
step-IsValid r (reserves sid fd generation) v = reserve-IsValid r sid fd generation v
step-IsValid r cleans v = clean-IsValid r v
step-IsValid r (releases address) v = release-IsValid r address v

pub history-keeps : (r : SessionRegistry) (ss : List Step) → IsValid r → IsValid (history r ss)
unfolding history
history-keeps r [] v = v
history-keeps r (s ∷ ss) v = history-keeps (step r s) ss (step-IsValid r s v)

-- After any history of reservations, cleanups and releases the registry holds no more sessions than
-- its maximum, at distinct addresses, and every session that no cleanup has cancelled was reserved
-- under the token that is current now.
pub history-IsValid :
    (maximum : ℕ) (epoch : Bytes) (ss : List Step)
    → IsValid (history (new_registry maximum epoch) ss)
history-IsValid maximum epoch ss = history-keeps _ ss (new_registry-IsValid maximum epoch)
