-- ===== src/Sessions/Slots.antt =====
-- A lease takes one slot, and its destructor gives exactly that slot back.
use hik_hcnet_http_bridge.Common.{
  ℕ, ◌+◌, ◌<◌, ◌≡◌, refl, ap, false, not, List, [], ◌∷◌, ◌++◌, Option, some, arith, leb, ◌==◌,
  length, keep, All, Bool-cases, inl, inr, length-append,
}
use hik_hcnet_http_bridge.Text.{Bytes}
use hik_hcnet_http_bridge.Error.{ok}
use hik_hcnet_http_bridge.Sessions.{
  State, SessionRegistry, is_stale, new_state, reserve, release, counts,
}
use hik_hcnet_http_bridge.Sessions.Invariant.{IsValid, IsCurrent}

keep_old :
    (next : ℕ) (g : Bytes) (ss : List State) (t : State)
    → All (IsCurrent next g) ss
    → t.address ≡ next
    → keep (λ (s : State). not (s.address == next)) (ss ++ t ∷ []) ≡ ss
keep_old next g [] t h e = ground arith
keep_old next g (s ∷ ss) t h e =
    let old : (s.address == next) ≡ false = ground (arith, h.0.old_address) in
    simp old (ap (◌∷◌ s) (keep_old next g ss t h.1 e))

-- What a successful reservation is.
reserved :
    (r : SessionRegistry) (sid : Bytes) (fd : Option ℕ) (generation : Bytes) {r' : SessionRegistry}
    {s : State}
    → reserve r sid fd generation ≡ ok (r', some s)
    → (length r.states < r.maximum)
      × (s ≡ new_state r sid fd)
      × (r' ≡ record r {
        states = r.states ++ new_state r sid fd ∷ [];
        next_address = r.next_address + 1;
      })
unfolding reserve
reserved r sid fd generation h = elim (Bool-cases (is_stale r generation)) [
  | inl stale ↦ cc (rw stale at h)
  | inr fresh ↦ elim (Bool-cases (leb r.maximum (length r.states))) [
    | inl full ↦ cc (rw (fresh, full) at h)
    | inr room ↦ let e = rw (fresh, room) at h in (ground arith, cc e, cc e)
  ]
]

-- A lease takes one free slot and no more, for a session that starts under the current token and is
-- not cancelled; released at once, it leaves the sessions and the counts as they were.
pub release-reserve :
    (r : SessionRegistry) (sid : Bytes) (fd : Option ℕ) (generation : Bytes) {r' : SessionRegistry}
    {s : State}
    → IsValid r
    → reserve r sid fd generation ≡ ok (r', some s)
    → ((counts r').active ≡ (counts r).active + 1)
      × ((counts r').available + 1 ≡ (counts r).available)
      × (s.generation ≡ r.generation)
      × (s.cancelled ≡ false)
      × ((release r' s.address).states ≡ r.states)
      × (counts (release r' s.address) ≡ counts r)
unfolding counts release
release-reserve r sid fd generation {r'} {s} v h =
    let (room, is_new, grown) = reserved r sid fd generation h in
    let more = length-append r.states (new_state r sid fd ∷ []) in
    let back = keep_old r.next_address r.generation r.states (new_state r sid fd) v.current refl in
    rw (is_new, grown) (omega (arith, more), omega (arith, more), refl, refl, back, rw back)
