-- ===== src/Pump.antt =====
-- The thread that hands the recorder's stream to FFmpeg: FfmpegProcess::start_pump of
-- cpp-sdk-http-bridge-linux/src/main.cpp. What the queue, the process and the clock do in each turn is
-- given.
pub mod Ending
use hik_hcnet_http_bridge.Common.{
  ℕ, Bool, true, false, ◌&&◌, ◌||◌, not, List, [], ◌∷◌, ◌++◌, Option, none, some, take,
  if◌then◌else◌,
}
use hik_hcnet_http_bridge.Text.{Bytes}
use hik_hcnet_http_bridge.EndReason.{StreamEndReason, active, sdk_data_timeout}
use hik_hcnet_http_bridge.Serving.{is_data_timeout}

-- `stopping` is stop_requested_ before the turn and `stop_later` behind the pop, `closed` the queue's
-- state there; `quiet`: for no_sdk_data_ms there was no packet; `fails_behind`: the write fails
-- behind so many bytes.
pub record PumpTurn : Type 0 where
  pub stopping : Bool
  pub popped : Option Bytes
  pub stop_later : Bool
  pub closed : Bool
  pub quiet : Bool
  pub fails_behind : Option ℕ

-- stop_requested_ and the queue's state behind the loop
pub record PumpEnd : Type 0 where
  pub stopping : Bool
  pub closed : Bool

-- The bytes that FFmpeg got, and input_end_reason_.
pub record Pumped : Type 0 where
  pub input : Bytes
  pub input_end_reason : StreamEndReason

abbrev pub without_input : StreamEndReason → Pumped
without_input reason = record { input = []; input_end_reason = reason }

abbrev pub on_write : Bytes → Option ℕ → Pumped → Pumped
on_write data' none rest = record rest { input = data' ++ rest.input }
on_write data' (some n) rest = record { input = take n data'; input_end_reason = active }

abbrev pub on_pop : PumpTurn → Option Bytes → Pumped → Pumped
on_pop turn none rest =
    if turn.stop_later || turn.closed
    then without_input active
    else if not turn.quiet
    then rest
    else without_input sdk_data_timeout
on_pop turn (some data') rest = on_write data' turn.fails_behind rest

-- Behind the turns the process is asked to stop.
unfoldable pub pump_loop : List PumpTurn → Pumped
pump_loop [] = without_input active
pump_loop (turn ∷ turns) =
    let rest = pump_loop turns in
    if turn.stopping then without_input active else on_pop turn turn.popped rest

-- `stopping`, `closed`, and the reason behind the loop: an input that ends for no other cause counts as
-- missing data.
abbrev pub end_of_input : Bool → Bool → StreamEndReason → StreamEndReason
end_of_input true closed reason = reason
end_of_input false true reason = reason
end_of_input false false reason = if is_data_timeout reason then reason else sdk_data_timeout

unfoldable pub start_pump : List PumpTurn → PumpEnd → Pumped
start_pump turns end =
    let p = pump_loop turns in
    record p { input_end_reason = end_of_input end.stopping end.closed p.input_end_reason }
