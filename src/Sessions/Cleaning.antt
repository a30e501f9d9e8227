-- ===== src/Sessions/Cleaning.antt =====
-- What a cleanup does to the states, the statuses and the sockets.
use hik_hcnet_http_bridge.Common.{
  ℕ, ◌≡◌, refl, ap, suc, true, not, List, [], ◌∷◌, ◌++◌, map, arith, length, keep, count_if,
  Bool-cases, inl, inr,
}
use mathlib.Core.Path.{ap₂}
use hik_hcnet_http_bridge.Text.{Bytes}
use hik_hcnet_http_bridge.Sessions.{
  State, SessionRegistry, socket_of, clean_states, clean, counts, cleaning,
}

abbrev pub live : List State → List State
live = keep (λ (s : State). not s.cancelled)

-- The statuses with every session's end noted, in order.
abbrev pub mark_all {ℓ} : {S : Type ℓ} → (Bytes → S → S) → List State → S → S
mark_all mark [] statuses = statuses
mark_all mark (s ∷ ss) statuses = mark_all mark ss (mark s.sid statuses)

abbrev pub sockets : List State → List ℕ
sockets [] = []
sockets (s ∷ ss) = socket_of s.fd ++ sockets ss

abbrev pub cancel : State → State
cancel s = record s { cancelled = true }

cancel_cancelled : (s : State) → s.cancelled ≡ true → s ≡ cancel s
cancel_cancelled s h = ground arith

pub length-cancel : (ss : List State) → length (map cancel ss) ≡ length ss
length-cancel [] = refl
length-cancel (s ∷ ss) = ap suc (length-cancel ss)

count-cancel : (ss : List State) → count_if (λ (s : State). s.cancelled) (map cancel ss) ≡ length ss
count-cancel [] = refl
count-cancel (s ∷ ss) = omega (arith, count-cancel ss)

module _ {ℓ} {S : Type ℓ} (mark : Bytes → S → S) where
  -- The loop of clean: it cancels every state and changes nothing else in one; it notes the end of
  -- those sessions that ran, once each and in order, counts them, and shuts their sockets down.
  pub clean_states_lem :
      (ss : List State) (statuses : S)
      → ((clean_states mark ss statuses).states ≡ map cancel ss)
        × ((clean_states mark ss statuses).statuses ≡ mark_all mark (live ss) statuses)
        × ((clean_states mark ss statuses).affected ≡ length (live ss))
        × ((clean_states mark ss statuses).shut ≡ sockets (live ss))
  unfolding clean_states
  clean_states_lem [] statuses = (refl, refl, refl, refl)
  clean_states_lem (s ∷ ss) statuses =
      let skipped = clean_states_lem ss statuses in
      let rest = clean_states_lem ss (mark s.sid statuses) in
      elim (Bool-cases s.cancelled) [
        | inl old ↦
            simp old (ap₂ ◌∷◌ (cancel_cancelled s old) skipped.0, skipped.1, skipped.2, skipped.3)
        | inr running ↦ simp running (
          ap (◌∷◌ (cancel s)) rest.0,
          rest.1,
          omega (arith, rest.2),
          ap (◌++◌ (socket_of s.fd)) rest.3,
        )
      ]

  -- A cleanup ends every session and frees no slot: all states are cancelled and still counted, the
  -- answer counts those that ran, and exactly these have their end noted and their sockets shut.
  pub clean_lem :
      (r : SessionRegistry) (statuses : S)
      → let (r', swept) = clean mark r statuses in
        (r'.states ≡ map cancel r.states)
        × (cleaning r' ≡ length r.states)
        × (counts r' ≡ counts r)
        × (swept.affected ≡ length (live r.states))
        × (swept.statuses ≡ mark_all mark (live r.states) statuses)
        × (swept.shut ≡ sockets (live r.states))
  unfolding clean cleaning counts
  clean_lem r statuses =
      let (states, marked, affected, shut) = clean_states_lem r.states statuses in
      (
        states,
        rw states (count-cancel r.states),
        rw states (rw (length-cancel r.states)),
        affected,
        marked,
        shut,
      )
