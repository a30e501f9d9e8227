-- ===== src/Pump/Ending.antt =====
-- What FFmpeg gets of the stream, and why its input ends.
use hik_hcnet_http_bridge.Common.{◌≡◌, true, ◌||◌, List, [], ◌∷◌, ◌++◌, Option, none, some, ◌⊎◌}
use hik_hcnet_http_bridge.Text.{Bytes}
use hik_hcnet_http_bridge.EndReason.{active, sdk_data_timeout}
use hik_hcnet_http_bridge.Ffmpeg.Ready.{Begins}
use hik_hcnet_http_bridge.Pump.{PumpTurn, PumpEnd, Pumped}

abbrev packet_of : Option Bytes → Bytes
packet_of none = []
packet_of (some packet) = packet

-- All that the turns took from the queue, in order.
abbrev pub packets : List PumpTurn → Bytes
packets [] = []
packets (turn ∷ turns) = packet_of turn.popped ++ packets turns

-- The input is the start of the packets, and the loop gives no reason but the missing data.
record IsPumped (all : Bytes) (p : Pumped) : Type 0 where
  begins : Begins p.input all
  reason : (p.input_end_reason ≡ active) ⊎ (p.input_end_reason ≡ sdk_data_timeout)

-- The end of the input: missing data, or none where the process was asked to stop or the queue is closed.
record IsEnded (turns : List PumpTurn) (end : PumpEnd) (p : Pumped) : Type 0 where
  in_order : Begins p.input (packets turns)
  reason :
      (p.input_end_reason ≡ sdk_data_timeout)
      ⊎ (p.input_end_reason ≡ active) × (end.stopping || end.closed ≡ true)
