-- ===== src/Workers.antt =====
-- The threads that serve HTTP connections: class ConnectionWorkers of
-- cpp-sdk-http-bridge-linux/src/main.cpp, with what the threads do to it as a step relation. Which
-- sockets were handed over and which were closed is written down in order; the system may
-- give the same number to a later socket. The accept loop has one thread, so its calls are single steps.
pub mod Accounting
use hik_hcnet_http_bridge.Common.{
  ℕ, suc, ◌≡◌, Bool, true, false, not, List, [], Option, none, some, ◌==◌, ◌∷◌, ◌++◌, leb,
  if◌then◌else◌, length, keep,
}

pub record Worker : Type 0 where
  pub socket : ℕ
  -- false: invalid_socket
  pub is_open : Bool
  pub done : Bool

pub record ConnectionWorkers : Type 0 where
  pub workers : List Worker
  pub maximum : ℕ
  pub accepted : List ℕ
  pub closed : List ℕ

unfoldable pub new_workers : ℕ → ConnectionWorkers
new_workers maximum = record { workers = []; maximum = maximum; accepted = []; closed = [] }

abbrev pub close_socket : ℕ → ConnectionWorkers → ConnectionWorkers
close_socket socket s = record s { closed = s.closed ++ socket ∷ [] }

-- A worker whose thread is done is joined and forgotten.
unfoldable pub reap : ConnectionWorkers → ConnectionWorkers
reap s = record s { workers = keep (λ (w : Worker). not w.done) s.workers }

abbrev pub new_worker : ℕ → Worker
new_worker client = record { socket = client; is_open = true; done = false }

-- `made` and `threaded` tell whether the worker and its thread could be made; without a thread the worker
-- is dropped again.
abbrev pub hand_over : Bool → Bool → ℕ → ConnectionWorkers → ConnectionWorkers × Bool
hand_over false threaded client s = (close_socket client s, false)
hand_over true false client s = (close_socket client s, false)
hand_over true true client s = (record s { workers = s.workers ++ new_worker client ∷ [] }, true)

-- Where there are too many workers, the client gets a short 503.
abbrev pub take_on : Bool → Bool → ℕ → ConnectionWorkers → ConnectionWorkers × Bool
take_on made threaded client s =
    if leb s.maximum (length s.workers)
    then (close_socket client s, false)
    else hand_over made threaded client s

abbrev pub accept : ℕ → ConnectionWorkers → ConnectionWorkers
accept client s = record s { accepted = s.accepted ++ client ∷ [] }

unfoldable pub start : Bool → Bool → Bool → ℕ → ConnectionWorkers → ConnectionWorkers × Bool
unfolding reap
start configured made threaded client s =
    if not configured
    then (close_socket client (accept client s), false)
    else take_on made threaded client (reap (accept client s))

abbrev pub socket_closed : Worker → Worker
socket_closed w = record w { is_open = false }

abbrev pub set_done : Worker → Worker
set_done w = record w { done = true }

-- The end of a thread, behind its handler: it closes the socket, then it is done.
pub data WorkerStep : ConnectionWorkers → ConnectionWorkers → Type 0 where
  closes :
      (s : ConnectionWorkers) (before after : List Worker) (w : Worker)
      → w.is_open ≡ true
      → WorkerStep
          (record s { workers = before ++ w ∷ after })
          (record s {
            workers = before ++ socket_closed w ∷ after;
            closed = s.closed ++ w.socket ∷ [];
          })
  sets_done :
      (s : ConnectionWorkers) (before after : List Worker) (w : Worker)
      → w.is_open ≡ false
      → w.done ≡ false
      → WorkerStep
          (record s { workers = before ++ w ∷ after })
          (record s { workers = before ++ set_done w ∷ after })

-- A step of the server: the accept loop or a thread.
pub data Step : ConnectionWorkers → ConnectionWorkers → Type 0 where
  starts :
      (configured made threaded : Bool) (client : ℕ) (s : ConnectionWorkers)
      → Step s (start configured made threaded client s).0
  rejects : (client : ℕ) (s : ConnectionWorkers) → Step s (close_socket client (accept client s))
  reaps : (s : ConnectionWorkers) → Step s (reap s)
  works : {s t : ConnectionWorkers} → WorkerStep s t → Step s t

pub data Reaches : ConnectionWorkers → ConnectionWorkers → Type 0 where
  here : (s : ConnectionWorkers) → Reaches s s
  step : {s t u : ConnectionWorkers} → Reaches s t → Step t u → Reaches s u

-- `some` is the address of an IPv4 client.
unfoldable pub is_local_ipv4_client : Option ℕ → Bool
is_local_ipv4_client none = false
is_local_ipv4_client (some address) = address == 0x7f000001

-- A connection: its socket, where it comes from, and how its worker could be made.
pub record Connection : Type 0 where
  pub client : ℕ
  pub peer : Option ℕ
  pub configured : Bool
  pub made : Bool
  pub threaded : Bool

-- What poll and accept give in a turn of run_server.
pub data Polled : Type 0 where
  poll_failed idle accept_failed : Polled
  connects : Connection → Polled

-- A turn of the accept loop; what the threads do meanwhile comes between the turns.
unfoldable pub accept_turn : Polled → ConnectionWorkers → ConnectionWorkers
unfolding reap is_local_ipv4_client start
accept_turn (connects c) s =
    if not (is_local_ipv4_client c.peer)
    then close_socket c.client (accept c.client (reap s))
    else (start c.configured c.made c.threaded c.client (reap s)).0
accept_turn _ s = reap s
