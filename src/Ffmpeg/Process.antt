-- ===== src/Ffmpeg/Process.antt =====
-- The FFmpeg process of one session on Linux: the constructor, start_linux, close_input and
-- stop_process of class FfmpegProcess in cpp-sdk-http-bridge-linux/src/main.cpp. What each call of the
-- system answers is given; which descriptors were opened and closed, and which signals were sent, is
-- written down in order. The threads that read and write the pipes are left out; that of the diagnostics
-- is taken to start.
pub mod Pipes
pub mod Owners
pub mod Descriptors
use hik_hcnet_http_bridge.Common.{
  ℕ, Bool, true, false, ◌&&◌, not, List, [], ◌∷◌, ◌++◌, Option, none, some, ltb, if◌then◌else◌,
}
use hik_hcnet_http_bridge.Error.{
  Result, ok, err, Fault, bridge_error, pipe_failed, ffmpeg_start_failed,
}
use hik_hcnet_http_bridge.Effect.{
  Effect, pure, ◌>>=◌, ◌>>◌, modify, lift, look, unless, either, on_throw, on_part,
}

-- int pipe[2]; an end of -1 is `none`.
pub record Pipe : Type 0 where
  pub read : Option ℕ
  pub write : Option ℕ

-- What becomes of the descriptors of one pipe.
pub record Desk : Type 0 where
  pub opened : List ℕ
  pub closed : List ℕ
  pub pipe : Pipe

pub data Signal : Type 0 where
  sigterm sigkill : Signal

pub record Process : Type 0 where
  pub opened : List ℕ
  pub closed : List ℕ
  pub input_pipe : Pipe
  pub output_pipe : Pipe
  pub error_pipe : Pipe
  pub input_fd : Option ℕ
  pub output_fd : Option ℕ
  pub error_fd : Option ℕ
  -- pid_: `true` while there is a child
  pub child : Bool
  pub signals : List Signal
  pub reaped : Bool
  pub stop_requested : Bool

abbrev pub no_pipe : Pipe
no_pipe = record { read = none; write = none }

abbrev pub new_process : Process
new_process = record {
  opened = [];
  closed = [];
  input_pipe = no_pipe;
  output_pipe = no_pipe;
  error_pipe = no_pipe;
  input_fd = none;
  output_fd = none;
  error_fd = none;
  child = false;
  signals = [];
  reaped = false;
  stop_requested = false;
}

-- What pipe2 gives, and F_DUPFD_CLOEXEC for each end that is among the first three.
pub record PipeAnswers : Type 0 where
  pub made : Option (ℕ × ℕ)
  pub raised_read : Option ℕ
  pub raised_write : Option ℕ

abbrev pub pipe_fault : Fault
pipe_fault = bridge_error 500 pipe_failed

abbrev pub start_fault : Fault
start_fault = bridge_error 500 ffmpeg_start_failed

unfoldable pub make_pipe : Option (ℕ × ℕ) → Effect Desk (ℕ × ℕ)
make_pipe none = lift (err pipe_fault)
make_pipe (some (r, w)) =
    modify (λ d. record d {
      opened = d.opened ++ r ∷ w ∷ [];
      pipe = record { read = some r; write = some w };
    })
    >> pure (r, w)

-- Another descriptor takes the place of an end; the old one is closed.
unfoldable pub raise : (ℕ → Pipe → Pipe) → ℕ → Option ℕ → Effect Desk (Unit {0})
raise put fd none = lift (err pipe_fault)
raise put fd (some raised) = modify λ d. record d {
  opened = d.opened ++ raised ∷ [];
  closed = d.closed ++ fd ∷ [];
  pipe = put raised d.pipe;
}

abbrev pub put_read : ℕ → Pipe → Pipe
put_read fd p = record p { read = some fd }

abbrev pub put_write : ℕ → Pipe → Pipe
put_write fd p = record p { write = some fd }

unfoldable pub open_pipe : PipeAnswers → Effect Desk (Unit {0})
unfolding make_pipe raise
open_pipe a = do
  (r, w) ← make_pipe a.made
  unless (not (ltb r 3)) (raise put_read r a.raised_read)
  unless (not (ltb w 3)) (raise put_write w a.raised_write)

pub record StartAnswers : Type 0 where
  pub input : PipeAnswers
  pub output : PipeAnswers
  pub error : PipeAnswers
  pub actions_made : Bool
  -- the answers of the nine calls that add a file action
  pub actions_added : List Bool
  pub spawned : Bool

abbrev pub set_input_pipe : Desk → Process → Process
set_input_pipe d s = record s { opened = d.opened; closed = d.closed; input_pipe = d.pipe }

abbrev pub set_output_pipe : Desk → Process → Process
set_output_pipe d s = record s { opened = d.opened; closed = d.closed; output_pipe = d.pipe }

abbrev pub set_error_pipe : Desk → Process → Process
set_error_pipe d s = record s { opened = d.opened; closed = d.closed; error_pipe = d.pipe }

abbrev pub desk_of : (Process → Pipe) → Process → Desk
desk_of pipe s = record { opened = s.opened; closed = s.closed; pipe = pipe s }

unfoldable pub start_check : Bool → Effect Process (Unit {0})
start_check done = unless done (lift (err start_fault))

unfoldable pub add_actions : List Bool → Effect Process (Unit {0})
unfolding start_check
add_actions [] = pure tt
add_actions (done ∷ rest) = start_check done >> add_actions rest

-- The parent's ends become the object's, and are taken from the guard.
abbrev pub take_over : Process → Process
take_over s = record s {
  child = true;
  input_fd = s.input_pipe.write;
  output_fd = s.output_pipe.read;
  error_fd = s.error_pipe.read;
  input_pipe = record s.input_pipe { write = none };
  output_pipe = record s.output_pipe { read = none };
  error_pipe = record s.error_pipe { read = none };
}

unfoldable pub spawn_child : StartAnswers → Effect Process (Unit {0})
unfolding open_pipe start_check add_actions
spawn_child a = do
  on_part (desk_of λ s. s.input_pipe) set_input_pipe (open_pipe a.input)
  on_part (desk_of λ s. s.output_pipe) set_output_pipe (open_pipe a.output)
  on_part (desk_of λ s. s.error_pipe) set_error_pipe (open_pipe a.error)
  start_check a.actions_made
  add_actions a.actions_added
  start_check a.spawned
  modify take_over

abbrev pub ends_of : Option ℕ → List ℕ
ends_of none = []
ends_of (some fd) = fd ∷ []

-- The destructor of PipeEnds.
abbrev pub close_ends : Process → Process
close_ends s = record s {
  closed =
      s.closed
      ++ (ends_of s.input_pipe.read
          ++ (ends_of s.input_pipe.write
              ++ (ends_of s.output_pipe.read
                  ++ (ends_of s.output_pipe.write
                      ++ (ends_of s.error_pipe.read ++ ends_of s.error_pipe.write)))));
  input_pipe = no_pipe;
  output_pipe = no_pipe;
  error_pipe = no_pipe;
}

unfoldable pub start_linux : StartAnswers → Effect Process (Unit {0})
unfolding spawn_child
start_linux a s = let done = spawn_child a s in (close_ends done.0, done.1)

-- What waitpid answers.
pub data Waited : Type 0 where
  exited still_running interrupted wait_failed : Waited

abbrev pub is_over : Waited → Bool
is_over exited = true
is_over wait_failed = true
is_over _ = false

-- The loop up to its deadline: the last answer.
unfoldable pub grace : Waited → List Waited → Waited
grace waited [] = waited
grace waited (next ∷ rest) = let later = grace next rest in if is_over waited then waited else later

-- What stop_process is answered: the turns of the loop, and how the wait behind SIGKILL ends.
pub record StopAnswers : Type 0 where
  pub first : Waited
  pub turns : List Waited
  pub killed : Waited

abbrev pub is_exited : Waited → Bool
is_exited exited = true
is_exited _ = false

abbrev pub reap : Waited → Waited → Process → Process
reap exited killed s = record s { reaped = true; child = false }
reap wait_failed killed s = record s { child = false }
reap _ killed s = record s {
  signals = s.signals ++ sigkill ∷ [];
  reaped = is_exited killed;
  child = false;
}

unfoldable pub stop_child : Bool → StopAnswers → Process → Process
unfolding grace
stop_child immediate a s =
    if s.child
    then reap (grace a.first a.turns) a.killed
        (record s { signals = s.signals ++ (if immediate then sigkill else sigterm) ∷ [] })
    else s

-- close_input, and the other two ends behind it.
abbrev pub close_all : Process → Process
close_all s = record s {
  closed = s.closed ++ (ends_of s.input_fd ++ (ends_of s.output_fd ++ ends_of s.error_fd));
  input_fd = none;
  output_fd = none;
  error_fd = none;
}

unfoldable pub stop_process : Bool → StopAnswers → Process → Process
unfolding stop_child
stop_process immediate a s =
    if s.stop_requested
    then s
    else close_all (stop_child immediate a (record s { stop_requested = true }))

-- The constructor, behind its checkpoint.
unfoldable pub new_ffmpeg_process : StartAnswers → StopAnswers → Effect Process (Unit {0})
unfolding start_linux stop_process
new_ffmpeg_process a b = on_throw (start_linux a) (λ e. stop_process true b)
