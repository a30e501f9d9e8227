-- ===== src/Examples/Input.antt =====
-- A request that comes in two pieces, and a stream whose reader goes away.
use hik_hcnet_http_bridge.Common.{false, true, List, [], ◌∷◌, ◌++◌, none, some}
use hik_hcnet_http_bridge.Text.{codes}
use hik_hcnet_http_bridge.Error.{Returns}
use hik_hcnet_http_bridge.Http.Reading.{
  ReceiveTurn, Received, received, silent, read_http_request, IsUnread,
}
use hik_hcnet_http_bridge.Http.Spelling.{IsSent, read_http_request-IsSent}
use hik_hcnet_http_bridge.Pump.{PumpTurn, PumpEnd}

abbrev receive_turn : Received → ReceiveTurn
receive_turn r = record { running = true; late = false; receives = r }

abbrev receive_turns : List ReceiveTurn
receive_turns =
    receive_turn (received (codes "GET /healthz HT"))
    ∷ receive_turn silent
    ∷ receive_turn (received (codes "TP/1.1" ++ (13 ∷ 10 ∷ 13 ∷ 10 ∷ [])))
    ∷ []

read_http_request-IsSent_example :
    Returns (IsSent receive_turns) IsUnread (read_http_request receive_turns)
read_http_request-IsSent_example = read_http_request-IsSent receive_turns

abbrev pump_turn : PumpTurn
pump_turn = record {
  stopping = false;
  popped = some (1 ∷ 2 ∷ []);
  stop_later = false;
  closed = false;
  quiet = false;
  fails_behind = none;
}

-- The second packet cannot be written.
abbrev pump_turns : List PumpTurn
pump_turns = pump_turn ∷ record pump_turn { fails_behind = some 1 } ∷ []

abbrev open_end : PumpEnd
open_end = record { stopping = false; closed = false }
