-- ===== src/Network.antt =====
-- The sockets that the bridge makes itself, and the look at the client's: probe_nvr_endpoint,
-- create_listener and check_video_client of cpp-sdk-http-bridge-linux/src/main.cpp. What the system
-- answers for each address is given; which sockets were made and closed is written down in order.
pub mod Closing
use hik_hcnet_http_bridge.Common.{
  ℕ, Bool, true, false, ◌&&◌, not, List, [], ◌∷◌, ◌++◌, Option, none, some, if◌then◌else◌,
}
use hik_hcnet_http_bridge.Error.{
  Result, ok, err, Fault, bridge_error, client_disconnected, nvr_unreachable, bind_failed,
}
use hik_hcnet_http_bridge.Effect.{Effect, pure, ◌>>=◌, ◌>>◌, modify, lift, look, unless, either}

pub record Sockets : Type 0 where
  pub made : List ℕ
  pub closed : List ℕ

abbrev pub no_sockets : Sockets
no_sockets = record { made = []; closed = [] }

abbrev pub make : ℕ → Sockets → Sockets
make fd s = record s { made = s.made ++ fd ∷ [] }

abbrev pub close : ℕ → Sockets → Sockets
close fd s = record s { closed = s.closed ++ fd ∷ [] }

pub data Connecting : Type 0 where
  connected would_block connect_failed : Connecting

-- What the probe is answered for an address: whether time remains, the socket, whether it could be made
-- nonblocking, how connect ends, and behind a poll that reports it whether SO_ERROR is zero.
pub record ProbeTurn : Type 0 where
  pub time_remains : Bool
  pub socket : Option ℕ
  pub nonblocking : Bool
  pub connecting : Connecting
  pub reported : Bool
  pub no_error : Bool

-- How connect ends: at once, behind a poll, or not; the first closes the socket by itself.
unfoldable pub on_connect : ProbeTurn → ℕ → Connecting → Effect Sockets Bool
on_connect t fd connected = modify (close fd) >> pure true
on_connect t fd would_block = modify (close fd) >> pure (t.reported && t.no_error)
on_connect t fd connect_failed = modify (close fd) >> pure false

-- One address: whether it connects.
unfoldable pub probe_socket : ProbeTurn → Option ℕ → Effect Sockets Bool
unfolding on_connect
probe_socket t none = pure false
probe_socket t (some fd) =
    modify (make fd)
    >> either (not t.nonblocking) (modify (close fd) >> pure false) (on_connect t fd t.connecting)

unfoldable pub probe_addresses : List ProbeTurn → Effect Sockets Bool
unfolding probe_socket
probe_addresses [] = pure false
probe_addresses (t ∷ turns) =
    either (not t.time_remains) (pure false)
      (probe_socket t t.socket >>= λ done. either done (pure true) (probe_addresses turns))

abbrev pub unreachable : Fault
unreachable = bridge_error 502 nvr_unreachable

-- `none`: the address could not be resolved.
unfoldable pub probe_nvr_endpoint : Option (List ProbeTurn) → Effect Sockets (Unit {0})
unfolding probe_addresses
probe_nvr_endpoint none = lift (err unreachable)
probe_nvr_endpoint (some turns) =
    probe_addresses turns >>= λ done. unless done (lift (err unreachable))

-- What create_listener is answered for an address.
pub record ListenTurn : Type 0 where
  pub socket : Option ℕ
  pub option_set : Bool
  pub bound : Bool
  pub listening : Bool

unfoldable pub listen_socket : ListenTurn → Option ℕ → Effect Sockets (Option ℕ)
listen_socket t none = pure none
listen_socket t (some fd) =
    modify (make fd)
    >> either (t.option_set && (t.bound && t.listening)) (pure (some fd))
        (modify (close fd) >> pure none)

unfoldable pub listen_found : Option ℕ → Effect Sockets (Option ℕ) → Effect Sockets (Option ℕ)
listen_found none later = later
listen_found (some fd) later = pure (some fd)

unfoldable pub listen_addresses : List ListenTurn → Effect Sockets (Option ℕ)
unfolding listen_socket listen_found
listen_addresses [] = pure none
listen_addresses (t ∷ turns) =
    listen_socket t t.socket >>= λ found. listen_found found (listen_addresses turns)

abbrev pub or_bind_failed : Option ℕ → Result ℕ
or_bind_failed none = err (bridge_error 500 bind_failed)
or_bind_failed (some fd) = ok fd

unfoldable pub create_listener : Option (List ListenTurn) → Effect Sockets ℕ
unfolding listen_addresses
create_listener none = lift (err (bridge_error 500 bind_failed))
create_listener (some turns) = listen_addresses turns >>= λ found. lift (or_bind_failed found)

-- What a look at the client's socket shows: an error of poll or recv may be an interruption, or for
-- recv that nothing is there.
pub data Polled : Type 0 where
  interrupted poll_failed nothing hung_up : Polled
  readable : Polled

pub data Peeked : Type 0 where
  byte end_of_stream nothing_yet peek_interrupted peek_failed : Peeked

abbrev pub on_peek : Peeked → Option Fault
on_peek end_of_stream = some client_disconnected
on_peek peek_failed = some client_disconnected
on_peek _ = none

abbrev pub on_poll : Polled → Peeked → Option Fault
on_poll poll_failed peeked = some client_disconnected
on_poll hung_up peeked = some client_disconnected
on_poll readable peeked = on_peek peeked
on_poll _ peeked = none

-- The exception that it throws, if any.
unfoldable pub check_video_client : Bool → Polled → Peeked → Option Fault
check_video_client running polled peeked =
    if not running then some client_disconnected else on_poll polled peeked
