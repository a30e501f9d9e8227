-- ===== src/Examples/Network.antt =====
-- Sockets of the bridge, on concrete answers of the system.
use hik_hcnet_http_bridge.Common.{◌≡◌, refl, true, false, List, [], ◌∷◌, ◌++◌, none, some}
use hik_hcnet_http_bridge.Error.{ok, bridge_error, client_disconnected, nvr_unreachable}
use hik_hcnet_http_bridge.Effect.{◌>>=◌, either, modify, pure, unless, lift}
use hik_hcnet_http_bridge.Effect.Ensures.{Outcome}
use hik_hcnet_http_bridge.Network.{
  no_sockets, ProbeTurn, would_block, connect_failed, probe_nvr_endpoint, probe_addresses,
  probe_socket, ListenTurn, create_listener, listen_addresses, listen_socket, listen_found,
  check_video_client, readable, end_of_stream, nothing_yet,
}
use hik_hcnet_http_bridge.Network.Closing.{
  IsReachable, probe_nvr_endpoint-IsReachable, create_listener-Closed,
}

-- The first address refuses, the second one answers behind a wait.
abbrev probe_turns : List ProbeTurn
probe_turns =
    record {
      time_remains = true;
      socket = some 5;
      nonblocking = true;
      connecting = connect_failed;
      reported = false;
      no_error = false;
    }
    ∷ record {
      time_remains = true;
      socket = some 6;
      nonblocking = true;
      connecting = would_block;
      reported = true;
      no_error = true;
    }
    ∷ []

probe_closes : (probe_nvr_endpoint (some probe_turns) no_sockets).0.closed ≡ 5 ∷ 6 ∷ []
unfolding probe_nvr_endpoint probe_addresses probe_socket ◌>>=◌ either modify pure unless
probe_closes = refl

probe_nvr_endpoint-IsReachable_example :
    Outcome
      (λ u s. (s.made ≡ s.closed) × IsReachable probe_turns)
      (λ e s.
        (s.made ≡ s.closed)
        × (e ≡ bridge_error 502 nvr_unreachable)
        × (¬ (IsReachable probe_turns)))
      (probe_nvr_endpoint (some probe_turns) no_sockets).0
      (probe_nvr_endpoint (some probe_turns) no_sockets).1
probe_nvr_endpoint-IsReachable_example = probe_nvr_endpoint-IsReachable probe_turns

-- The first address is taken by another program.
abbrev listen_turns : List ListenTurn
listen_turns =
    record { socket = some 3; option_set = true; bound = false; listening = false }
    ∷ record { socket = some 4; option_set = true; bound = true; listening = true }
    ∷ []

listens : (create_listener (some listen_turns) no_sockets).1 ≡ ok 4
unfolding create_listener listen_addresses listen_socket listen_found ◌>>=◌ modify either pure lift
listens = refl

create_listener-Closed_example :
    Outcome
      (λ fd s. s.made ≡ s.closed ++ fd ∷ [])
      (λ e s. s.made ≡ s.closed)
      (create_listener (some listen_turns) no_sockets).0
      (create_listener (some listen_turns) no_sockets).1
create_listener-Closed_example = create_listener-Closed (some listen_turns)

client_gone : check_video_client true readable end_of_stream ≡ some client_disconnected
unfolding check_video_client
client_gone = refl

client_there : check_video_client true readable nothing_yet ≡ none
unfolding check_video_client
client_there = refl
