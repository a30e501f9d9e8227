-- ===== src/Examples/Service.antt =====
-- The life of the Windows service, on a concrete run: it starts, runs, is stopped and ends.
use hik_hcnet_http_bridge.Common.{◌≡◌, refl, none, some}
use hik_hcnet_http_bridge.Service.{
  Service, new_service, no_status, stop, control, register, work_ends, finish,
  windows_service_ready, report, next_status, on_stop, Reaches, here, step, registers,
  becomes_ready, controls, works, finishes,
}
use hik_hcnet_http_bridge.Service.Life.{Lives, Reaches-Lives, StopsOnce, Reaches-StopsOnce}

abbrev stopping : Service
stopping = (control stop 7 (windows_service_ready (register none new_service))).0

abbrev ended : Service
ended = finish (work_ends (some 0) stopping)

ended-Reaches : Reaches ended
unfolding register windows_service_ready control on_stop report next_status work_ends finish
ended-Reaches =
    step
      (step
        (step (step (step here refl (registers none refl)) refl becomes_ready) refl
          (controls stop 7))
        refl (works (some 0) refl refl))
      refl (finishes refl refl)

stopped_once : ended.stop_calls ≡ 1
unfolding register windows_service_ready control on_stop report next_status work_ends finish
stopped_once = refl

Reaches-Lives_example : Lives no_status ended.reports ended.status
Reaches-Lives_example = Reaches-Lives ended-Reaches

Reaches-StopsOnce_example : StopsOnce ended
Reaches-StopsOnce_example = Reaches-StopsOnce ended-Reaches
