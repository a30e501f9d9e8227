-- ===== src/MediaQueue.antt =====
-- The bounded packet queue between the SDK's callback and FFmpeg: class ByteQueue of
-- cpp-sdk-http-bridge-linux/src/main.cpp. The mutex makes each stretch of code between two
-- waits atomic; what other threads do during a wait is a list of such stretches.
pub mod Invariant
pub mod Fifo
pub mod Waiting
pub mod Closing
use hik_hcnet_http_bridge.Common.{
  ℕ, ◌+◌, ◌-◌, max, Bool, true, false, ◌&&◌, ◌||◌, not, List, [], ◌∷◌, ◌++◌, Option, none, some,
  ltb, leb, if◌then◌else◌, length, is_empty,
}
use hik_hcnet_http_bridge.Text.{Bytes}

pub record ByteQueue : Type 0 where
  pub limit : ℕ
  pub items : List Bytes
  pub bytes : ℕ
  pub peak_bytes : ℕ
  pub backpressure_events : ℕ
  pub closed : Bool

abbrev pub new_queue : ℕ → ByteQueue
new_queue limit = record {
  limit = limit;
  items = [];
  bytes = 0;
  peak_bytes = 0;
  backpressure_events = 0;
  closed = false;
}

abbrev pub fits : ByteQueue → Bytes → Bool
fits q packet = leb (q.bytes + length packet) q.limit

-- The wait of push is over.
abbrev pub push_ready : ByteQueue → Bytes → Bool
push_ready q packet = q.closed || fits q packet

-- The wait of pop is over.
abbrev pub pop_ready : ByteQueue → Bool
pop_ready q = q.closed || not (is_empty q.items)

-- The end of push, behind its loop.
unfoldable pub admit : ByteQueue → Bytes → ByteQueue × Bool
admit q packet = if q.closed then (q, false) else (
  record q {
    bytes = q.bytes + length packet;
    peak_bytes = max q.peak_bytes (q.bytes + length packet);
    items = q.items ++ packet ∷ [];
  },
  true,
)

-- The end of pop, behind its wait.
take_from : ByteQueue → List Bytes → ByteQueue × Option Bytes
take_from q [] = (q, none)
take_from q (packet ∷ rest) =
    (record q { bytes = q.bytes - length packet; items = rest }, some packet)

unfoldable pub take_first : ByteQueue → ByteQueue × Option Bytes
unfolding take_from
take_first q = take_from q q.items

abbrev pub count_backpressure : ByteQueue → ByteQueue
count_backpressure q = record q { backpressure_events = q.backpressure_events + 1 }

unfoldable pub close : ByteQueue → ByteQueue
close q = record q { closed = true }

-- What another thread can do while it holds the mutex: end a push, note a push that has to wait,
-- end a pop, close.
pub data Section : Type 0 where
  ends_push : Bytes → Section
  waits_push : Section
  ends_pop : Section
  closes : Section

abbrev pub enters : ByteQueue → Bytes → Bool
enters q packet = not (q.closed || is_empty packet || ltb q.limit (length packet))

unfoldable pub run_section : ByteQueue → Section → ByteQueue
unfolding admit take_first close
run_section q (ends_push packet) =
    if enters q packet && push_ready q packet then (admit q packet).0 else q
run_section q waits_push = count_backpressure q
run_section q ends_pop = if pop_ready q then (take_first q).0 else q
run_section q closes = close q

unfoldable pub run_sections : ByteQueue → List Section → ByteQueue
run_sections q [] = q
run_sections q (s ∷ ss) = run_sections (run_section q s) ss

-- One turn of the loop of push: is the deadline past, and what do others do during the wait?
pub record Wait : Type 0 where
  pub expired : Bool
  pub others : List Section

-- The loop of push. The list of turns is as long as the clock allows: behind its last one the
-- deadline is past.
unfoldable pub push_loop : ByteQueue → Bytes → List Wait → ByteQueue × Bool
push_loop q packet [] =
    if push_ready q packet then admit q packet else (count_backpressure q, false)
push_loop q packet (w ∷ ws) =
    let counted = count_backpressure q in
    let woken = run_sections counted w.others in
    let again = push_loop woken packet ws in
    if push_ready q packet
    then admit q packet
    else if w.expired
    then (counted, false)
    else if push_ready woken packet
    then again
    else (woken, false)

unfoldable pub push : ByteQueue → Bytes → List Wait → ByteQueue × Bool
push q packet waits = if enters q packet then push_loop q packet waits else (q, false)

-- wait_for looks at its condition first, and lets others run only if it does not hold.
unfoldable pub pop : ByteQueue → List Section → ByteQueue × Option Bytes
pop q others =
    let woken = run_sections q others in
    if pop_ready q
    then take_first q
    else if pop_ready woken
    then take_first woken
    else (woken, none)

unfoldable pub is_closed : ByteQueue → Bool
is_closed q = q.closed && is_empty q.items
