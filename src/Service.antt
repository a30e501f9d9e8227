-- ===== src/Service.antt =====
-- The bridge as a Windows service: cpp-sdk-http-bridge-linux/src/windows-service.cpp. Each stretch under
-- status_mutex and each turn of a loop is one step; what the service manager, the worker thread and the
-- clock do in between comes as steps of its own. The statuses that were set and the calls of the stop
-- callback are written down in order.
pub mod Life
use hik_hcnet_http_bridge.Common.{
  ℕ, ◌+◌, ◌-◌, ◌%◌, ◌^◌, ◌≡◌, ◌≢◌, Bool, true, false, ◌&&◌, not, List, [], ◌∷◌, ◌++◌, Option, none,
  some, leb, ◌==◌, if◌then◌else◌,
}

-- dwCurrentState; before the first report it is zero.
pub data Phase : Type 0 where
  unreported start_pending running stop_pending stopped : Phase

-- SERVICE_STATUS, the parts that `report` changes.
pub record ServiceStatus : Type 0 where
  pub current_state : Phase
  -- SERVICE_ACCEPT_STOP | SERVICE_ACCEPT_SHUTDOWN, or nothing
  pub accepts_stop : Bool
  pub specific_exit_code : ℕ
  pub check_point : ℕ
  pub wait_hint : ℕ

-- Where service_main is: before its first block, in the loop that waits for the worker, or returned.
pub data MainAt : Type 0 where
  unstarted waiting returned : MainAt

pub record Service : Type 0 where
  pub at : MainAt
  pub status_handle : Bool
  pub status : ServiceStatus
  -- as the DWORD to which it is cast
  pub result_code : ℕ
  pub stop_started : ℕ
  pub finished : Bool
  pub terminated : Bool
  pub reports : List ServiceStatus
  pub stop_calls : ℕ

abbrev pub no_status : ServiceStatus
no_status = record {
  current_state = unreported;
  accepts_stop = false;
  specific_exit_code = 0;
  check_point = 0;
  wait_hint = 0;
}

abbrev pub new_service : Service
new_service = record {
  at = unstarted;
  status_handle = false;
  status = no_status;
  result_code = 1;
  stop_started = 0;
  finished = false;
  terminated = false;
  reports = [];
  stop_calls = 0;
}

abbrev pub is_running : Phase → Bool
is_running running = true
is_running _ = false

abbrev pub is_starting : Phase → Bool
is_starting start_pending = true
is_starting _ = false

abbrev pub is_pending : Phase → Bool
is_pending start_pending = true
is_pending stop_pending = true
is_pending _ = false

unfoldable pub next_status : Phase → ℕ → ServiceStatus → ServiceStatus
next_status state error old = record {
  current_state = state;
  accepts_stop = is_running state;
  specific_exit_code = error;
  check_point = if is_pending state then (old.check_point + 1) % 2 ^ 32 else 0;
  wait_hint = if is_pending state then 60000 else 0;
}

unfoldable pub report : Phase → ℕ → Service → Service
report state error s =
    let status = next_status state error s.status in
    record s { status = status; reports = s.reports ++ status ∷ [] }

-- The codes that the service manager sends.
pub data ControlCode : Type 0 where
  stop shutdown interrogate other_code : ControlCode

pub data ControlAnswer : Type 0 where
  no_error not_implemented : ControlAnswer

-- A stop at the time `tick`, if the service runs.
unfoldable pub on_stop : ℕ → Service → Service
unfolding report
on_stop tick s =
    if is_running s.status.current_state
    then record (report stop_pending 0 s) { stop_started = tick; stop_calls = s.stop_calls + 1 }
    else s

unfoldable pub control : ControlCode → ℕ → Service → Service × ControlAnswer
unfolding on_stop
control stop tick s = (on_stop tick s, no_error)
control shutdown tick s = (on_stop tick s, no_error)
control interrogate tick s = (s, no_error)
control other_code tick s = (s, not_implemented)

-- The first block of service_main: `some` is the error of a registration that failed.
unfoldable pub register : Option ℕ → Service → Service
unfolding report
register none s = report start_pending 0 (record s { status_handle = true; at = waiting })
register (some error) s = record s { result_code = error; at = returned }

-- The end of the worker thread: what run_callback returned, or an exception.
unfoldable pub work_ends : Option ℕ → Service → Service
work_ends (some code) s = record s { result_code = code; finished = true }
work_ends none s = record s { result_code = 1; finished = true }

-- A stop that takes a minute ends the process.
unfoldable pub is_overdue : ℕ → ℕ → Bool
is_overdue now started = not (started == 0) && leb 60000 ((now + 2 ^ 64 - started) % 2 ^ 64)

unfoldable pub watch : ℕ → Service → Service
watch now s = if is_overdue now s.stop_started then record s { terminated = true } else s

-- The last block of service_main.
unfoldable pub finish : Service → Service
unfolding report
finish s = record (report stopped s.result_code s) { status_handle = false; at = returned }

-- The handler of an exception of the thread's start.
unfoldable pub start_fails : Service → Service
unfolding finish
start_fails s = finish (record s { result_code = 1 })

unfoldable pub windows_service_start_progress : Service → Service
unfolding report
windows_service_start_progress s =
    if s.status_handle && is_starting s.status.current_state then report start_pending 0 s else s

unfoldable pub windows_service_ready : Service → Service
unfolding report
windows_service_ready s =
    if s.status_handle && is_starting s.status.current_state then report running 0 s else s

-- A step of the process while it lives: of the service manager, of service_main, or of the worker.
pub data Step (s : Service) : Service → Type 0 where
  controls : (code : ControlCode) (tick : ℕ) → Step s (control code tick s).0
  registers : (error : Option ℕ) → s.at ≡ unstarted → Step s (register error s)
  works : (code : Option ℕ) → s.at ≡ waiting → s.finished ≡ false → Step s (work_ends code s)
  watches : (now : ℕ) → s.at ≡ waiting → s.finished ≡ false → Step s (watch now s)
  finishes : s.at ≡ waiting → s.finished ≡ true → Step s (finish s)
  cannot_start : s.at ≡ waiting → s.finished ≡ false → Step s (start_fails s)
  progresses : Step s (windows_service_start_progress s)
  becomes_ready : Step s (windows_service_ready s)

pub data Reaches : Service → Type 0 where
  here : Reaches new_service
  step : {s t : Service} → Reaches s → s.terminated ≡ false → Step s t → Reaches t

-- run_windows_service: `some` is the error of a dispatcher that cannot connect; it returns when
-- service_main has.
unfoldable pub run_windows_service : Option ℕ → Service → ℕ
run_windows_service (some error) s = error
run_windows_service none s = s.result_code
