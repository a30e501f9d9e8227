-- ===== src/MediaQueue/Invariant.antt =====
-- The counters of the queue agree with its packets, whatever the threads do.
use hik_hcnet_http_bridge.Common.{
  ℕ, ◌+◌, ◌≤◌, ◌<◌, ◌≡◌, refl, true, ◌&&◌, List, [], ◌∷◌, ◌++◌, arith, length, All, All-append,
  subst, ap, ◌∙◌, Bool-cases, inl, inr,
}
use hik_hcnet_http_bridge.Text.{Bytes}
use hik_hcnet_http_bridge.MediaQueue.{
  ByteQueue, new_queue, push_ready, pop_ready, admit, take_from, take_first, count_backpressure,
  Section, ends_push, waits_push, ends_pop, closes, enters, run_section, run_sections, Wait,
  push_loop, push, pop,
}

abbrev pub total : List Bytes → ℕ
total [] = 0
total (packet ∷ packets) = length packet + total packets

pub total-append : (xs ys : List Bytes) → total (xs ++ ys) ≡ total xs + total ys
total-append [] ys = omega arith
total-append (x ∷ xs) ys = omega (arith, total-append xs ys)

abbrev pub IsPacket : Bytes → Type 0
IsPacket packet = 0 < length packet

-- The byte count is that of the packets, it never was above its peak, and the peak never above
-- the limit; no packet is empty.
pub record IsConsistent (q : ByteQueue) : Type 0 where
  pub counted : q.bytes ≡ total q.items
  pub peaked : q.bytes ≤ q.peak_bytes
  pub bounded : q.peak_bytes ≤ q.limit
  pub packets : All IsPacket q.items

pub new_queue-IsConsistent : (limit : ℕ) → IsConsistent (new_queue limit)
new_queue-IsConsistent limit = record {
  counted = refl;
  peaked = omega arith;
  bounded = omega arith;
  packets = tt;
}

admit-IsConsistent :
    (q : ByteQueue) (packet : Bytes)
    → IsConsistent q
    → IsPacket packet
    → push_ready q packet ≡ true
    → IsConsistent (admit q packet).0
unfolding admit
admit-IsConsistent q packet v p h = ground (
  arith,
  total-append q.items (packet ∷ []),
  All-append IsPacket q.items (packet ∷ []) v.packets (p, tt),
)

take_from-IsConsistent :
    (q : ByteQueue) (items : List Bytes)
    → q.items ≡ items
    → IsConsistent q
    → IsConsistent (take_from q items).0
unfolding take_from
take_from-IsConsistent q [] e v = v
take_from-IsConsistent q (packet ∷ rest) e v =
    let packets = subst (All IsPacket) e v.packets in
    let counted : q.bytes ≡ total (packet ∷ rest) = v.counted ∙ ap total e in
    record { counted = omega arith; peaked = omega arith; bounded = v.bounded; packets = packets.1 }

take_first-IsConsistent : (q : ByteQueue) → IsConsistent q → IsConsistent (take_first q).0
unfolding take_first
take_first-IsConsistent q v = take_from-IsConsistent q q.items refl v

IsPacket-of_enters : (q : ByteQueue) (packet : Bytes) → enters q packet ≡ true → IsPacket packet
IsPacket-of_enters q [] h = ground arith
IsPacket-of_enters q (c ∷ cs) h = omega arith

-- Any stretch of code under the mutex keeps the queue consistent.
pub run_section-IsConsistent :
    (q : ByteQueue) (s : Section) → IsConsistent q → IsConsistent (run_section q s)
unfolding run_section
run_section-IsConsistent q (ends_push packet) v =
    elim (Bool-cases (enters q packet && push_ready q packet)) [
      | inl e ↦ rw e (
          admit-IsConsistent q packet v (IsPacket-of_enters q packet (ground arith)) (ground arith))
      | inr e ↦ rw e v
    ]
run_section-IsConsistent q waits_push v = record {
  counted = v.counted;
  peaked = v.peaked;
  bounded = v.bounded;
  packets = v.packets;
}
run_section-IsConsistent q ends_pop v = elim (Bool-cases (pop_ready q)) [
  | inl e ↦ rw e (take_first-IsConsistent q v)
  | inr e ↦ rw e v
]
run_section-IsConsistent q closes v = record {
  counted = v.counted;
  peaked = v.peaked;
  bounded = v.bounded;
  packets = v.packets;
}

run_section_waits : (q : ByteQueue) → IsConsistent q → IsConsistent (count_backpressure q)
run_section_waits q v = record {
  counted = v.counted;
  peaked = v.peaked;
  bounded = v.bounded;
  packets = v.packets;
}

pub run_sections-IsConsistent :
    (q : ByteQueue) (ss : List Section) → IsConsistent q → IsConsistent (run_sections q ss)
unfolding run_sections
run_sections-IsConsistent q [] v = v
run_sections-IsConsistent q (s ∷ ss) v =
    run_sections-IsConsistent (run_section q s) ss (run_section-IsConsistent q s v)

push_loop-IsConsistent :
    (q : ByteQueue) (packet : Bytes) (ws : List Wait)
    → IsPacket packet
    → IsConsistent q
    → IsConsistent (push_loop q packet ws).0
unfolding push_loop
push_loop-IsConsistent q packet [] p v = elim (Bool-cases (push_ready q packet)) [
  | inl e ↦ rw e (admit-IsConsistent q packet v p e)
  | inr e ↦ rw e (run_section_waits q v)
]
push_loop-IsConsistent q packet (w ∷ ws) p v =
    let counted = run_section_waits q v in
    let woken = run_sections-IsConsistent (count_backpressure q) w.others counted in
    let again =
      push_loop-IsConsistent (run_sections (count_backpressure q) w.others) packet ws p woken in
    elim (Bool-cases (push_ready q packet)) [
      | inl e ↦ rw e (admit-IsConsistent q packet v p e)
      | inr e ↦ rw e (elim (Bool-cases w.expired) [
        | inl late ↦ rw late counted
        | inr early ↦
            rw early
              (elim (Bool-cases
                (push_ready (run_sections (count_backpressure q) w.others) packet)) [
                  | inl room ↦ rw room again
                  | inr full ↦ rw full woken
                ])
      ])
    ]

-- A push keeps the queue consistent: the bytes are the sum of the packets' sizes, within the limit and
-- the peak, and no packet is empty; however long it waits and whatever the others do meanwhile.
pub push-IsConsistent :
    (q : ByteQueue) (packet : Bytes) (ws : List Wait)
    → IsConsistent q
    → IsConsistent (push q packet ws).0
unfolding push
push-IsConsistent q packet ws v = elim (Bool-cases (enters q packet)) [
  | inl e ↦ rw e (push_loop-IsConsistent q packet ws (IsPacket-of_enters q packet e) v)
  | inr e ↦ rw e v
]

-- A pop keeps the queue consistent as well, whether it has to wait or not and whatever the others do
-- meanwhile.
pub pop-IsConsistent :
    (q : ByteQueue) (others : List Section) → IsConsistent q → IsConsistent (pop q others).0
unfolding pop
pop-IsConsistent q others v =
    let woken = run_sections-IsConsistent q others v in
    elim (Bool-cases (pop_ready q)) [
      | inl e ↦ rw e (take_first-IsConsistent q v)
      | inr e ↦ rw e (elim (Bool-cases (pop_ready (run_sections q others))) [
        | inl e' ↦ rw e' (take_first-IsConsistent _ woken)
        | inr e' ↦ rw e' woken
      ])
    ]
