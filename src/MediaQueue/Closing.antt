-- ===== src/MediaQueue/Closing.antt =====
-- Closing the queue: nothing comes in any more, and what is in it still comes out in order.
use hik_hcnet_http_bridge.Common.{
  ◌≡◌, refl, sym, ap, ◌∙◌, true, false, List, [], ◌∷◌, ◌++◌, arith, append-nil,
}
use hik_hcnet_http_bridge.Text.{Bytes}
use hik_hcnet_http_bridge.MediaQueue.Fifo.{puts, accepted, taken, fifo}
use hik_hcnet_http_bridge.MediaQueue.{
  ByteQueue, take_from, take_first, Section, ends_push, waits_push, ends_pop, closes, run_section,
  run_sections, Wait, push, pop,
}

take_first_closed : (q : ByteQueue) → (take_first q).0.closed ≡ q.closed
unfolding take_first
take_first_closed q = go q.items
  where
    go : (items : List Bytes) → (take_from q items).0.closed ≡ q.closed
    go [] = unfold take_from in refl
    go (packet ∷ rest) = unfold take_from in refl

closed_section :
    (q : ByteQueue) (s : Section)
    → q.closed ≡ true
    → ((run_section q s).closed ≡ true) × (puts q s ≡ [])
unfolding run_section
closed_section q (ends_push packet) h = ground arith
closed_section q waits_push h = (h, refl)
closed_section q ends_pop h = ground (arith, take_first_closed q)
closed_section q closes h = (refl, refl)

-- Once closed, the queue stays closed, and accepts nothing from any thread.
pub closed_sections :
    (q : ByteQueue) (ss : List Section)
    → q.closed ≡ true
    → ((run_sections q ss).closed ≡ true) × (accepted q ss ≡ [])
unfolding run_sections
closed_sections q [] h = (h, refl)
closed_sections q (s ∷ ss) h =
    let (still, nothing) = closed_section q s h in
    let (later, none_later) = closed_sections (run_section q s) ss still in
    (later, rw nothing none_later)

-- Once the queue is closed nothing more comes in, from any thread: a push answers false and changes
-- nothing, the packets still queued come out in their order whatever the threads do, and a pop
-- does not wait.
pub closed_drains :
    (q : ByteQueue) (packet : Bytes) (ws : List Wait) (ss others : List Section)
    → q.closed ≡ true
    → (push q packet ws ≡ (q, false))
      × (q.items ≡ taken q ss ++ (run_sections q ss).items)
      × (pop q others ≡ take_first q)
closed_drains q packet ws ss others h = (
  unfold push in rw h,
  sym (append-nil q.items) ∙ ap (◌++◌ q.items) (sym (closed_sections q ss h).1) ∙ fifo q ss,
  unfold pop in rw h,
)
