-- ===== src/Socket.antt =====
-- Writing to the client's socket: write_socket_all of cpp-sdk-http-bridge-linux/src/main.cpp. What the
-- socket, the client and the clock do in each turn of the loop is given.
pub mod Complete
use hik_hcnet_http_bridge.Common.{
  ℕ, zero, suc, ◌*◌, Bool, true, false, not, List, [], ◌∷◌, ◌++◌, Option, none, some, take, drop,
  min, if◌then◌else◌,
}
use hik_hcnet_http_bridge.Text.{Bytes}
use hik_hcnet_http_bridge.Error.{Fault, Result, ok, err, throw, client_write_timeout}

-- What ::send does: it takes some of the bytes that it is offered, or none, would block, is interrupted
-- or fails.
pub data Sent : Type 0 where
  sent : ℕ → Sent
  would_block interrupted failed : Sent

-- `checked` is what check_video_client throws; is the time without progress over?
pub record SendTurn : Type 0 where
  pub running : Bool
  pub send : Sent
  pub checked : Option Fault
  pub stalled : Bool

abbrev part_size : ℕ
part_size = 64 * 1024

-- The bytes that went out, and the outcome.
abbrev pub Written : Type 0
Written = Bytes × Result Bool

abbrev pub behind : Bytes → Written → Written
behind part w = (part ++ w.0, w.1)

-- The branch in which the socket takes nothing.
abbrev pub blocked : Option Fault → Bool → Written → Written
blocked (some e) stalled again = ([], err e)
blocked none stalled again = if stalled then ([], throw 504 client_write_timeout) else again

-- Of the bytes it is offered, the socket takes `n`.
abbrev pub taken_of : ℕ → ℕ
taken_of n = min n part_size

abbrev pub on_send : Bytes → (ℕ → Written) → Written → SendTurn → Sent → Written
on_send bytes more again turn (sent zero) = ([], ok false)
on_send bytes more again turn (sent (suc n)) =
    behind (take (taken_of (suc n)) bytes) (more (taken_of (suc n)))
on_send bytes more again turn would_block = blocked turn.checked turn.stalled again
on_send bytes more again turn interrupted = again
on_send bytes more again turn failed = ([], ok false)

-- Behind the turns the bridge has stopped.
unfoldable pub write_socket_all : Bytes → List SendTurn → Written
write_socket_all [] turns = ([], ok true)
write_socket_all (c ∷ cs) [] = ([], ok false)
write_socket_all (c ∷ cs) (turn ∷ turns) =
    let again = write_socket_all (c ∷ cs) turns in
    let more : ℕ → Written = λ n. write_socket_all (drop n (c ∷ cs)) turns in
    if not turn.running then ([], ok false) else on_send (c ∷ cs) more again turn turn.send
