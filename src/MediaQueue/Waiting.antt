-- ===== src/MediaQueue/Waiting.antt =====
-- How a push that may wait ends.
use hik_hcnet_http_bridge.Common.{
  ◌≡◌, refl, Bool, true, false, List, [], ◌∷◌, ◌++◌, arith, Bool-cases, ◌⊎◌, inl, inr, append-nil,
}
use hik_hcnet_http_bridge.Text.{Bytes}
use hik_hcnet_http_bridge.MediaQueue.Fifo.{run_sections-append}
use hik_hcnet_http_bridge.MediaQueue.{
  ByteQueue, fits, push_ready, admit, count_backpressure, Section, waits_push, enters, run_section,
  run_sections, Wait, push_loop, push,
}

-- What runs before push decides: a prefix of its turns, the last one perhaps cut short before it
-- lets the others in.
pub data Turns : List Wait → List Section → Type 0 where
  at_once : {ws : List Wait} → Turns ws []
  cut : {ws : List Wait} → Turns ws (waits_push ∷ [])
  turn :
      {w : Wait} {ws : List Wait} {ss : List Section}
      → Turns ws ss
      → Turns (w ∷ ws) (waits_push ∷ (w.others ++ ss))

-- The outcome of a push that waits: it puts its packet behind all others, into an open queue that
-- has room for it, or it leaves the queue as the others made it.
pub record Outcome (q : ByteQueue) (packet : Bytes) (ws : List Wait) (r : ByteQueue × Bool)
    : Type 0 where
  pub before : List Section
  pub turns : Turns ws before
  pub decided :
      ((r.1 ≡ true)
        × ((run_sections q before).closed ≡ false)
        × (fits (run_sections q before) packet ≡ true)
        × (r.0.items ≡ (run_sections q before).items ++ packet ∷ []))
      ⊎ ((r.1 ≡ false) × (r.0 ≡ run_sections q before))

run_sections-turn :
    (q : ByteQueue) (others before : List Section)
    → run_sections q (waits_push ∷ (others ++ before))
      ≡ run_sections (run_sections (run_section q waits_push) others) before
unfolding run_sections
run_sections-turn q others before = run_sections-append (run_section q waits_push) others before

admit-Outcome :
    (q : ByteQueue) (packet : Bytes) (ws : List Wait)
    → push_ready q packet ≡ true
    → Outcome q packet ws (admit q packet)
unfolding run_sections admit
admit-Outcome q packet ws h = record { before = []; turns = at_once; decided = ground arith }

refused-Outcome :
    (q : ByteQueue) (packet : Bytes) (ws : List Wait)
    → Outcome q packet ws (count_backpressure q, false)
unfolding run_sections run_section
refused-Outcome q packet ws = record {
  before = waits_push ∷ [];
  turns = cut;
  decided = inr (refl, refl);
}

left-Outcome :
    (q : ByteQueue) (packet : Bytes) (w : Wait) (ws : List Wait)
    → Outcome q packet (w ∷ ws) (run_sections (count_backpressure q) w.others, false)
left-Outcome q packet w ws = record {
  before = waits_push ∷ (w.others ++ []);
  turns = turn at_once;
  decided = inr (refl, rw append-nil (unfold run_sections run_section in refl));
}

Outcome-turn :
    (q : ByteQueue) (packet : Bytes) (w : Wait) (ws : List Wait) (r : ByteQueue × Bool)
    → Outcome (run_sections (count_backpressure q) w.others) packet ws r
    → Outcome q packet (w ∷ ws) r
Outcome-turn q packet w ws r o =
    let same : run_sections q (waits_push ∷ (w.others ++ o.before))
        ≡ run_sections (run_sections (count_backpressure q) w.others) o.before =
      unfold run_section in run_sections-turn q w.others o.before in
    record {
      before = waits_push ∷ (w.others ++ o.before);
      turns = turn o.turns;
      decided = rw same o.decided;
    }

push_loop-Outcome :
    (q : ByteQueue) (packet : Bytes) (ws : List Wait) → Outcome q packet ws (push_loop q packet ws)
unfolding push_loop
push_loop-Outcome q packet [] = elim (Bool-cases (push_ready q packet)) [
  | inl e ↦ rw e (admit-Outcome q packet [] e)
  | inr e ↦ rw e (refused-Outcome q packet [])
]
push_loop-Outcome q packet (w ∷ ws) =
    let again =
      Outcome-turn q packet w ws _
        (push_loop-Outcome (run_sections (count_backpressure q) w.others) packet ws) in
    elim (Bool-cases (push_ready q packet)) [
      | inl e ↦ rw e (admit-Outcome q packet (w ∷ ws) e)
      | inr e ↦ rw e (elim (Bool-cases w.expired) [
        | inl late ↦ simp late (refused-Outcome q packet (w ∷ ws))
        | inr early ↦
            simp early
              (elim (Bool-cases
                (push_ready (run_sections (count_backpressure q) w.others) packet)) [
                  | inl room ↦ rw room again
                  | inr full ↦ rw full (left-Outcome q packet w ws)
                ])
      ])
    ]

-- A push ends in one of two ways, however it waits. It puts its packet behind all others, into a
-- queue that is open and has room for it; or it answers false and leaves the queue as the other
-- threads made it.
pub push-Outcome :
    (q : ByteQueue) (packet : Bytes) (ws : List Wait) → Outcome q packet ws (push q packet ws)
unfolding push
push-Outcome q packet ws = elim (Bool-cases (enters q packet)) [
  | inl e ↦ rw e (push_loop-Outcome q packet ws)
  | inr e ↦
      rw e
        (record { before = []; turns = at_once; decided = inr (refl, unfold run_sections in refl) })
]
