-- ===== src/Examples/Queue.antt =====
-- The queue of media packets, on concrete inputs.
use hik_hcnet_http_bridge.Common.{◌≡◌, refl, true, false, List, [], ◌∷◌, ◌++◌, arith}
use hik_hcnet_http_bridge.Text.{Bytes}
use hik_hcnet_http_bridge.MediaQueue.{
  ByteQueue, ends_push, ends_pop, Wait, push, pop, run_sections, take_first,
}
use hik_hcnet_http_bridge.MediaQueue.Invariant.{IsConsistent}
use hik_hcnet_http_bridge.MediaQueue.Fifo.{accepted, taken, fifo}
use hik_hcnet_http_bridge.MediaQueue.Waiting.{Outcome, push-Outcome}
use hik_hcnet_http_bridge.MediaQueue.Closing.{closed_drains}

-- A queue of ten bytes that holds a packet of six.
abbrev pub queue : ByteQueue
queue = record {
  limit = 10;
  items = (1 ∷ 2 ∷ 3 ∷ 4 ∷ 5 ∷ 6 ∷ []) ∷ [];
  bytes = 6;
  peak_bytes = 6;
  backpressure_events = 0;
  closed = false;
}

queue-IsConsistent : IsConsistent queue
queue-IsConsistent = record {
  counted = refl;
  peaked = omega arith;
  bounded = omega arith;
  packets = (omega arith, omega arith);
}

abbrev pub five : Bytes
five = 7 ∷ 7 ∷ 7 ∷ 7 ∷ 7 ∷ []

-- Five bytes have to wait until the six are taken.
abbrev waits : List Wait
waits = record { expired = false; others = ends_pop ∷ [] } ∷ []

push-Outcome_example : Outcome queue five waits (push queue five waits)
push-Outcome_example = push-Outcome queue five waits

fifo_example :
    queue.items ++ accepted queue (ends_push (9 ∷ []) ∷ ends_pop ∷ [])
    ≡ taken queue (ends_push (9 ∷ []) ∷ ends_pop ∷ [])
      ++ (run_sections queue (ends_push (9 ∷ []) ∷ ends_pop ∷ [])).items
fifo_example = fifo queue (ends_push (9 ∷ []) ∷ ends_pop ∷ [])

abbrev closed_queue : ByteQueue
closed_queue = record queue { closed = true }

closed_drains_example :
    (push closed_queue five waits ≡ (closed_queue, false))
    × (closed_queue.items
        ≡ taken closed_queue (ends_push five ∷ ends_pop ∷ [])
          ++ (run_sections closed_queue (ends_push five ∷ ends_pop ∷ [])).items)
    × (pop closed_queue (ends_pop ∷ []) ≡ take_first closed_queue)
closed_drains_example =
    closed_drains closed_queue five waits (ends_push five ∷ ends_pop ∷ []) (ends_pop ∷ []) refl
