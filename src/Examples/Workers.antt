-- ===== src/Examples/Workers.antt =====
-- Connections that come, are served and are turned away.
use hik_hcnet_http_bridge.Common.{true, some}
use hik_hcnet_http_bridge.Workers.{
  ConnectionWorkers, Connection, new_workers, accept_turn, connects, Reaches, here,
}
use hik_hcnet_http_bridge.Workers.Accounting.{IsAccounted, Reaches-IsAccounted, accept_turn-Reaches}

abbrev connection : Connection
connection = record {
  client = 7;
  peer = some 0x7f000001;
  configured = true;
  made = true;
  threaded = true;
}

-- Of three clients, two find a worker.
abbrev busy : ConnectionWorkers
busy = accept_turn (connects (record connection { client = 9 })) (
    accept_turn (connects (record connection { client = 8 }))
      (accept_turn (connects connection) (new_workers 2)))

busy-Reaches : Reaches (new_workers 2) busy
busy-Reaches =
    accept_turn-Reaches _ (accept_turn-Reaches _ (accept_turn-Reaches _ (here (new_workers 2))))

Reaches-IsAccounted_example : IsAccounted busy
Reaches-IsAccounted_example = Reaches-IsAccounted 2 busy-Reaches
