-- ===== src/Service/Life.antt =====
-- The life of the service as the service manager sees it: what it is told, and in which order.
use hik_hcnet_http_bridge.Common.{
  ◌≢◌, ◌&&◌, ℕ, ◌+◌, ◌%◌, ◌^◌, ◌≤◌, ◌≡◌, refl, Bool, true, false, List, [], ◌∷◌, ◌++◌, arith, ◌⊎◌,
  Option, inl, inr, none, some, if◌then◌else◌, Bool-cases, count_if, count_if-append,
}
use hik_hcnet_http_bridge.Service.{
  Phase, unreported, start_pending, running, stop_pending, stopped, ServiceStatus, ControlCode,
  unstarted, waiting, Service, no_status, no_status, is_running, is_starting, is_pending,
  next_status, report, control, on_stop, stop, shutdown, interrogate, other_code, register,
  work_ends, is_overdue, watch, finish, start_fails, windows_service_start_progress,
  windows_service_ready, Step, controls, registers, works, watches, finishes, cannot_start,
  progresses, becomes_ready, Reaches, here, step,
}

-- The life of a service, one step at a time.
infix 40 ◌⟶◌
pub data ◌⟶◌ : Phase → Phase → Type 0 where
  starts : unreported ⟶ start_pending
  goes_on : start_pending ⟶ start_pending
  runs : start_pending ⟶ running
  stops : running ⟶ stop_pending
  ends : {p : Phase} → p ≢ unreported → p ≢ stopped → p ⟶ stopped

-- What a report tells after another: the next phase of the life, a stop is accepted exactly while it
-- runs, and a phase that takes its time counts on its check point.
pub record Follows (before after : ServiceStatus) : Type 0 where
  pub phase : before.current_state ⟶ after.current_state
  pub accepts : after.accepts_stop ≡ is_running after.current_state
  pub counts :
      after.check_point
      ≡ (if is_pending after.current_state then (before.check_point + 1) % 2 ^ 32 else 0)

-- The reports lead from one status to another.
pub data Lives (from : ServiceStatus) : List ServiceStatus → ServiceStatus → Type 0 where
  born : Lives from [] from
  lives :
      {reports : List ServiceStatus} {before after : ServiceStatus}
      → Lives from reports before
      → Follows before after
      → Lives from (reports ++ after ∷ []) after

pub is_stop : ServiceStatus → Bool
is_stop status = is_stopping status.current_state
  where
    is_stopping : Phase → Bool
    is_stopping stop_pending = true
    is_stopping _ = false

-- What holds between two steps.
record Inv (s : Service) : Type 0 where
  alive : Lives no_status s.reports s.status
  absent : s.at ≡ unstarted → s.status.current_state ≡ unreported
  present :
      s.at ≡ waiting → (s.status.current_state ≢ unreported) × (s.status.current_state ≢ stopped)
  registered : s.status_handle ≡ true → s.at ≡ waiting
  unstopped :
      s.status.current_state ≢ stop_pending → s.status.current_state ≢ stopped → s.stop_calls ≡ 0
  once : s.stop_calls ≤ 1
  counted : s.stop_calls ≡ count_if is_stop s.reports
  timed : s.stop_started ≢ 0 → s.stop_calls ≡ 1
  killed : s.terminated ≡ true → s.stop_calls ≡ 1

running-⟶ : (p : Phase) → is_running p ≡ true → p ⟶ stop_pending
running-⟶ running e = stops
running-⟶ _ e = cc

starting-⟶ : (p : Phase) → is_starting p ≡ true → (p ⟶ start_pending) × (p ⟶ running)
starting-⟶ start_pending e = (goes_on, runs)
starting-⟶ _ e = cc

unreported-⟶ : (p : Phase) → p ≡ unreported → p ⟶ start_pending
unreported-⟶ unreported e = starts
unreported-⟶ _ e = cc

told :
    (p : Phase) (error : ℕ) (s : Service)
    → Lives no_status s.reports s.status
    → s.status.current_state ⟶ p
    → Lives no_status
        (s.reports ++ next_status p error s.status ∷ [])
        (next_status p error s.status)
unfolding next_status
told p error s alive edge = lives alive (record { phase = edge; accepts = refl; counts = refl })

counted_with :
    (s : Service) (p : Phase) (error : ℕ)
    → count_if is_stop (s.reports ++ next_status p error s.status ∷ [])
      ≡ count_if is_stop s.reports + count_if is_stop (next_status p error s.status ∷ [])
counted_with s p error = count_if-append is_stop s.reports (next_status p error s.status ∷ [])

on_stop-Inv : (tick : ℕ) (s : Service) → Inv s → Inv (on_stop tick s)
unfolding on_stop report next_status is_stop
on_stop-Inv tick s h = elim (Bool-cases (is_running s.status.current_state)) [
  | inl e ↦ rw e (record {
    alive = told stop_pending 0 s h.alive (running-⟶ s.status.current_state e);
    absent = ground arith;
    present = ground arith;
    registered = h.registered;
    unstopped = ground arith;
    once = ground arith;
    counted = ground (arith, counted_with s stop_pending 0);
    timed = ground arith;
    killed = ground arith;
  })
  | inr e ↦ rw e h
]

control-Inv : (code : ControlCode) (tick : ℕ) (s : Service) → Inv s → Inv (control code tick s).0
unfolding control
control-Inv stop tick s h = on_stop-Inv tick s h
control-Inv shutdown tick s h = on_stop-Inv tick s h
control-Inv interrogate tick s h = h
control-Inv other_code tick s h = h

register-Inv : (error : Option ℕ) (s : Service) → s.at ≡ unstarted → Inv s → Inv (register error s)
unfolding register report next_status is_stop
register-Inv none s e h = record {
  alive = told start_pending 0 s h.alive (unreported-⟶ s.status.current_state (h.absent e));
  absent = ground arith;
  present = ground arith;
  registered = ground arith;
  unstopped = ground arith;
  once = h.once;
  counted = ground (arith, counted_with s start_pending 0);
  timed = h.timed;
  killed = h.killed;
}
register-Inv (some error) s e h = record {
  alive = h.alive;
  absent = ground arith;
  present = ground arith;
  registered = ground arith;
  unstopped = h.unstopped;
  once = h.once;
  counted = h.counted;
  timed = h.timed;
  killed = h.killed;
}

work_ends-Inv : (code : Option ℕ) (s : Service) → Inv s → Inv (work_ends code s)
unfolding work_ends
work_ends-Inv none s h = ground arith
work_ends-Inv (some code) s h = ground arith

watch-Inv : (now : ℕ) (s : Service) → Inv s → Inv (watch now s)
unfolding watch is_overdue
watch-Inv now s h = ground arith

finish-Inv : (s : Service) → s.at ≡ waiting → Inv s → Inv (finish s)
unfolding finish report next_status is_stop
finish-Inv s e h = record {
  alive = told stopped s.result_code s h.alive (ends (h.present e).0 (h.present e).1);
  absent = ground arith;
  present = ground arith;
  registered = ground arith;
  unstopped = ground arith;
  once = h.once;
  counted = ground (arith, counted_with s stopped s.result_code);
  timed = h.timed;
  killed = h.killed;
}

start_fails-Inv : (s : Service) → s.at ≡ waiting → Inv s → Inv (start_fails s)
unfolding start_fails
start_fails-Inv s e h = finish-Inv (record s { result_code = 1 }) e (ground arith)

-- A report while the service starts.
started-Inv :
    (p : Phase) (s : Service)
    → s.status.current_state ⟶ p
    → (p ≡ start_pending) ⊎ (p ≡ running)
    → s.status_handle ≡ true
    → is_starting s.status.current_state ≡ true
    → Inv s
    → Inv (report p 0 s)
unfolding report next_status is_stop
started-Inv p s edge is held e h = record {
  alive = told p 0 s h.alive edge;
  absent = ground arith;
  present = ground arith;
  registered = h.registered;
  unstopped = ground arith;
  once = h.once;
  counted = ground (arith, counted_with s p 0);
  timed = h.timed;
  killed = h.killed;
}

while_starting :
    (p : Phase) (s : Service)
    → (is_starting s.status.current_state ≡ true → s.status.current_state ⟶ p)
    → (p ≡ start_pending) ⊎ (p ≡ running)
    → Inv s
    → Inv (if s.status_handle && is_starting s.status.current_state then report p 0 s else s)
while_starting p s edge is h = elim (Bool-cases s.status_handle) [
  | inr a ↦ simp a h
  | inl a ↦ elim (Bool-cases (is_starting s.status.current_state)) [
    | inr e ↦ simp (a, e) h
    | inl e ↦ simp (a, e) (started-Inv p s (edge e) is a e h)
  ]
]

Step-Inv : {s t : Service} → Step s t → Inv s → Inv t
Step-Inv {s} (controls code tick) h = control-Inv code tick s h
Step-Inv {s} (registers error e) h = register-Inv error s e h
Step-Inv {s} (works code e f) h = work_ends-Inv code s h
Step-Inv {s} (watches now e f) h = watch-Inv now s h
Step-Inv {s} (finishes e f) h = finish-Inv s e h
Step-Inv {s} (cannot_start e f) h = start_fails-Inv s e h
Step-Inv {s} progresses h =
    unfold windows_service_start_progress in
    while_starting start_pending s (λ e. (starting-⟶ _ e).0) (inl refl) h
Step-Inv {s} becomes_ready h =
    unfold windows_service_ready in while_starting running s (λ e. (starting-⟶ _ e).1) (inr refl) h

Reaches-Inv : {s : Service} → Reaches s → Inv s
unfolding is_stop
Reaches-Inv here = record {
  alive = born;
  absent = λ e. refl;
  present = λ e. cc;
  registered = λ e. cc;
  unstopped = λ e f. refl;
  once = omega arith;
  counted = refl;
  timed = λ e. absurd (e refl);
  killed = λ e. cc;
}
Reaches-Inv (step r live st) = Step-Inv st (Reaches-Inv r)

-- Whatever the service manager, the threads and the clock do, the service tells a life of which each
-- report is the next step of the last: it starts, it may run, it may be stopped while it runs, and it
-- ends; it never runs again behind a stop and tells nothing behind its end. It accepts a stop exactly
-- while it runs, and counts on its check point while it starts or stops.
pub Reaches-Lives : {s : Service} → Reaches s → Lives no_status s.reports s.status
Reaches-Lives r = (Reaches-Inv r).alive

-- The stop callback is called at most once, once for each report of a stop, and the process is only
-- ended by force behind such a call.
pub record StopsOnce (s : Service) : Type 0 where
  pub once : s.stop_calls ≤ 1
  pub counted : s.stop_calls ≡ count_if is_stop s.reports
  pub killed : s.terminated ≡ true → s.stop_calls ≡ 1

-- Whatever the service manager, the threads and the clock do, the stop callback is called at most once,
-- as often as a stop is reported, and the process is ended by force only behind that call.
pub Reaches-StopsOnce : {s : Service} → Reaches s → StopsOnce s
Reaches-StopsOnce r =
    let h = Reaches-Inv r in record { once = h.once; counted = h.counted; killed = h.killed }
