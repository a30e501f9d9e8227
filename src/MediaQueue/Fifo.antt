-- ===== src/MediaQueue/Fifo.antt =====
-- First in, first out: what the queue takes in against what it gives out.
use hik_hcnet_http_bridge.Common.{
  ◌≡◌, refl, sym, ap, ◌∙◌, false, ◌&&◌, not, List, [], ◌∷◌, ◌++◌, arith, if◌then◌else◌, is_empty,
  Bool-cases, inl, inr, append-nil, append_assoc,
}
use hik_hcnet_http_bridge.Text.{Bytes}
use hik_hcnet_http_bridge.MediaQueue.{
  ByteQueue, push_ready, pop_ready, take_from, Section, ends_push, waits_push, ends_pop, closes,
  enters, run_section, run_sections,
}

abbrev first : List Bytes → List Bytes
first [] = []
first (packet ∷ rest) = packet ∷ []

-- The packet that a section puts in.
abbrev pub puts : ByteQueue → Section → List Bytes
puts q (ends_push packet) = if enters q packet && push_ready q packet then packet ∷ [] else []
puts q waits_push = []
puts q ends_pop = []
puts q closes = []

-- The packet that a section takes out.
abbrev pub takes : ByteQueue → Section → List Bytes
takes q (ends_push packet) = []
takes q waits_push = []
takes q ends_pop = first q.items
takes q closes = []

abbrev pub accepted : ByteQueue → List Section → List Bytes
accepted q [] = []
accepted q (s ∷ ss) = puts q s ++ accepted (run_section q s) ss

abbrev pub taken : ByteQueue → List Section → List Bytes
taken q [] = []
taken q (s ∷ ss) = takes q s ++ taken (run_section q s) ss

take_from_items :
    (q : ByteQueue) (items : List Bytes)
    → q.items ≡ items
    → q.items ≡ first items ++ (take_from q items).0.items
unfolding take_from
take_from_items q [] e = refl
take_from_items q (packet ∷ rest) e = e

first_of_empty : (items : List Bytes) → not (is_empty items) ≡ false → first items ≡ []
first_of_empty [] h = refl
first_of_empty (packet ∷ rest) h = cc

section_items :
    (q : ByteQueue) (s : Section) → q.items ++ puts q s ≡ takes q s ++ (run_section q s).items
unfolding run_section
section_items q (ends_push packet) = ground (arith, append-nil q.items)
section_items q waits_push = append-nil q.items
section_items q ends_pop = append-nil q.items ∙ elim (Bool-cases (pop_ready q)) [
  | inl e ↦ rw e (take_from_items q q.items refl)
  | inr e ↦ rw e (ground (arith, first_of_empty q.items))
]
section_items q closes = append-nil q.items

-- Whatever the threads do, the packets leave the queue in the order in which they came in: those
-- taken, then those still queued, are those queued before, then those accepted.
pub fifo :
    (q : ByteQueue) (ss : List Section)
    → q.items ++ accepted q ss ≡ taken q ss ++ (run_sections q ss).items
unfolding run_sections
fifo q [] = append-nil q.items
fifo q (s ∷ ss) =
    sym (append_assoc q.items (puts q s) (accepted (run_section q s) ss))
    ∙ ap (λ l. l ++ accepted (run_section q s) ss) (section_items q s)
    ∙ append_assoc (takes q s) (run_section q s).items (accepted (run_section q s) ss)
    ∙ ap (◌++◌ (takes q s)) (fifo (run_section q s) ss)
    ∙ sym (append_assoc (takes q s) (taken (run_section q s) ss) _)

pub run_sections-append :
    (q : ByteQueue) (xs ys : List Section)
    → run_sections q (xs ++ ys) ≡ run_sections (run_sections q xs) ys
unfolding run_sections
run_sections-append q [] ys = refl
run_sections-append q (x ∷ xs) ys = run_sections-append (run_section q x) xs ys
