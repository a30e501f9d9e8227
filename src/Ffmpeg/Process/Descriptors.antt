-- ===== src/Ffmpeg/Process/Descriptors.antt =====
-- No descriptor of an FFmpeg process stays open, and none is closed twice.
use hik_hcnet_http_bridge.Common.{
  ℕ, ◌+◌, ◌≡◌, refl, ◌∙◌, Bool, true, false, none, arith, Bool-cases, inl, inr,
}
use hik_hcnet_http_bridge.Error.{Result, ok, err}
use hik_hcnet_http_bridge.Effect.{on_throw, rethrown}
use hik_hcnet_http_bridge.Effect.Ensures.{Outcome}
use hik_hcnet_http_bridge.Ffmpeg.Process.{
  Process, new_process, StartAnswers, start_linux, StopAnswers, Waited, reap, grace, stop_child,
  close_all, stop_process, new_ffmpeg_process, exited, still_running, interrupted, wait_failed,
}
use hik_hcnet_http_bridge.Ffmpeg.Process.Pipes.{times, times-append}
use hik_hcnet_http_bridge.Ffmpeg.Process.Owners.{owned, Owned, start_linux-Owned}

-- Every descriptor was closed as often as it was opened, and the object holds neither a descriptor nor a
-- process.
pub record IsReleased (s : Process) : Type 0 where
  pub books : (n : ℕ) → times n s.opened ≡ times n s.closed
  pub input : s.input_fd ≡ none
  pub output : s.output_fd ≡ none
  pub error : s.error_fd ≡ none
  pub child : s.child ≡ false

-- The books without the mark of the stop.
abbrev Kept : Process → Type 0
Kept s = (n : ℕ) → times n s.opened ≡ times n s.closed + owned n s

reaped :
    (w killed : Waited) (s : Process)
    → Kept s
    → Kept (reap w killed s) × ((reap w killed s).child ≡ false)
reaped exited killed s h = (h, refl)
reaped still_running killed s h = (h, refl)
reaped interrupted killed s h = (h, refl)
reaped wait_failed killed s h = (h, refl)

child_stopped :
    (immediate : Bool) (a : StopAnswers) (s : Process)
    → Kept s
    → Kept (stop_child immediate a s) × ((stop_child immediate a s).child ≡ false)
unfolding stop_child
child_stopped immediate a s h = elim (Bool-cases s.child) [
  | inr e ↦ simp e (h, refl)
  | inl e ↦ simp e (reaped (grace a.first a.turns) a.killed _ h)
]

all_closed : (s : Process) → Kept s → s.child ≡ false → IsReleased (close_all s)
all_closed s h e = record {
  books = λ n. simp (times-append n) (omega (arith, h n));
  input = refl;
  output = refl;
  error = refl;
  child = e;
}

stop_process_unstopped :
    (immediate : Bool) (a : StopAnswers) (s : Process)
    → Owned s
    → IsReleased (stop_process immediate a s)
unfolding stop_process
stop_process_unstopped immediate a s h =
    let stopped = child_stopped immediate a (record s { stop_requested = true }) h.books in
    simp h.running (all_closed _ stopped.0 stopped.1)

stop_process_again :
    (immediate : Bool) (a : StopAnswers) (s : Process)
    → IsReleased s
    → s.stop_requested ≡ true
    → IsReleased (stop_process immediate a s)
unfolding stop_process
stop_process_again immediate a s h e = simp e h

reap_mark : (w killed : Waited) (s : Process) → (reap w killed s).stop_requested ≡ s.stop_requested
reap_mark exited killed s = refl
reap_mark still_running killed s = refl
reap_mark interrupted killed s = refl
reap_mark wait_failed killed s = refl

stop_child_mark :
    (immediate : Bool) (a : StopAnswers) (s : Process)
    → s.stop_requested ≡ true
    → (stop_child immediate a s).stop_requested ≡ true
unfolding stop_child
stop_child_mark immediate a s h = elim (Bool-cases s.child) [
  | inr e ↦ simp e h
  | inl e ↦ simp e (reap_mark (grace a.first a.turns) a.killed _ ∙ h)
]

stop_requested_behind :
    (immediate : Bool) (a : StopAnswers) (s : Process)
    → (stop_process immediate a s).stop_requested ≡ true
unfolding stop_process
stop_requested_behind immediate a s = elim (Bool-cases s.stop_requested) [
  | inl e ↦ simp e refl
  | inr e ↦ simp e (stop_child_mark immediate a (record s { stop_requested = true }) refl)
]

-- However the start of FFmpeg ends, with a process or with any exception, behind the destructor every
-- descriptor was closed exactly as often as it was opened, and the object holds neither a descriptor
-- nor a process.
pub stop_process-new_ffmpeg_process :
    (start : StartAnswers) (stop again : StopAnswers) (immediate : Bool)
    → IsReleased (stop_process immediate again (new_ffmpeg_process start stop new_process).0)
unfolding new_ffmpeg_process on_throw
stop_process-new_ffmpeg_process start stop again immediate =
    go (start_linux start new_process).0 (start_linux start new_process).1 (
      (start_linux-Owned start).at new_process (record {
        balanced = record { books = λ n. refl; running = refl };
        input = refl;
        output = refl;
        error = refl;
        unowned = record { input = refl; output = refl; error = refl };
      }))
  where
    go :
        (s : Process) (r : Result (Unit {0}))
        → Outcome (λ _. Owned) (λ e. Owned) s r
        → IsReleased (stop_process immediate again (rethrown s r (λ e. stop_process true stop)).0)
    go s (ok u) h = stop_process_unstopped immediate again s h
    go s (err e) h =
        stop_process_again immediate again (stop_process true stop s)
          (stop_process_unstopped true stop s h) (stop_requested_behind true stop s)
