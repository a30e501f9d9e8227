-- ===== src/Ffmpeg/Process/Owners.antt =====
-- Who holds the descriptors of an FFmpeg process while it starts.
use hik_hcnet_http_bridge.Common.{
  ℕ, ◌+◌, ◌≡◌, refl, ap, ◌∙◌, Bool, false, List, [], ◌∷◌, none, arith,
}
use hik_hcnet_http_bridge.Error.{Result, ok, err, Fault}
use hik_hcnet_http_bridge.Effect.{on_part}
use hik_hcnet_http_bridge.Effect.Ensures.{
  Outcome, Ensures, Ensures-pure, Ensures-modify, Ensures-bind, Ensures-unless, Ensures-decided,
  Ensures-on_part,
}
use hik_hcnet_http_bridge.Ffmpeg.Process.{
  Process, no_pipe, PipeAnswers, open_pipe, StartAnswers, set_input_pipe, set_output_pipe,
  set_error_pipe, desk_of, start_check, add_actions, take_over, spawn_child, close_ends,
  start_linux,
}
use hik_hcnet_http_bridge.Ffmpeg.Process.Pipes.{
  times, at_end, times-append, Books, Empty, open_pipe-Books,
}

-- How often a descriptor is at an end of a pipe or at the object.
abbrev guarded : ℕ → Process → ℕ
guarded n s =
    at_end n s.input_pipe.read
    + at_end n s.input_pipe.write
    + (at_end n s.output_pipe.read + at_end n s.output_pipe.write)
    + (at_end n s.error_pipe.read + at_end n s.error_pipe.write)

abbrev pub owned : ℕ → Process → ℕ
owned n s = at_end n s.input_fd + at_end n s.output_fd + at_end n s.error_fd

pub record Balanced (s : Process) : Type 0 where
  pub books : (n : ℕ) → times n s.opened ≡ times n s.closed + guarded n s + owned n s
  pub running : s.stop_requested ≡ false

pub record Unowned (s : Process) : Type 0 where
  pub input : s.input_fd ≡ none
  pub output : s.output_fd ≡ none
  pub error : s.error_fd ≡ none

pub record Ready (s : Process) : Type 0 where
  pub balanced : Balanced s
  pub input : s.input_pipe ≡ no_pipe
  pub output : s.output_pipe ≡ no_pipe
  pub error : s.error_pipe ≡ no_pipe
  pub unowned : Unowned s

record WithInput (s : Process) : Type 0 where
  balanced : Balanced s
  output : s.output_pipe ≡ no_pipe
  error : s.error_pipe ≡ no_pipe
  unowned : Unowned s

record WithOutput (s : Process) : Type 0 where
  balanced : Balanced s
  error : s.error_pipe ≡ no_pipe
  unowned : Unowned s

record WithAll (s : Process) : Type 0 where
  balanced : Balanced s
  unowned : Unowned s

abbrev Thrown : Fault → Process → Type 0
Thrown e s = Balanced s

same_owner :
    (s t : Process)
    → Unowned s
    → t.input_fd ≡ s.input_fd
    → t.output_fd ≡ s.output_fd
    → t.error_fd ≡ s.error_fd
    → Unowned t
same_owner s t h e f g = record { input = e ∙ h.input; output = f ∙ h.output; error = g ∙ h.error }

open_input :
    (a : PipeAnswers)
    → Ensures Ready
        (on_part (desk_of λ s. s.input_pipe) set_input_pipe (open_pipe a))
        (λ _. WithInput)
        Thrown
open_input a =
    Ensures-on_part (λ s. Empty (λ n. besides n s)) (λ s _. Books (λ n. besides n s))
      (λ s e. Books (λ n. besides n s)) _ _ _ (λ s. open_pipe-Books (λ n. besides n s) a)
      (λ s h. record { books = λ n. omega (arith, h.balanced.books n); empty = h.input })
      (λ s u d h books. record {
        balanced = record { books = λ n. omega (arith, books n); running = h.balanced.running };
        output = h.output;
        error = h.error;
        unowned = same_owner _ _ h.unowned refl refl refl;
      })
      (λ s e d h books. record {
        books = λ n. omega (arith, books n);
        running = h.balanced.running;
      })
  where
    besides : ℕ → Process → ℕ
    besides n s =
        (at_end n s.output_pipe.read + at_end n s.output_pipe.write)
        + (at_end n s.error_pipe.read + at_end n s.error_pipe.write)
        + owned n s

open_output :
    (a : PipeAnswers)
    → Ensures WithInput
        (on_part (desk_of λ s. s.output_pipe) set_output_pipe (open_pipe a))
        (λ _. WithOutput)
        Thrown
open_output a =
    Ensures-on_part (λ s. Empty (λ n. besides n s)) (λ s _. Books (λ n. besides n s))
      (λ s e. Books (λ n. besides n s)) _ _ _ (λ s. open_pipe-Books (λ n. besides n s) a)
      (λ s h. record { books = λ n. omega (arith, h.balanced.books n); empty = h.output })
      (λ s u d h books. record {
        balanced = record { books = λ n. omega (arith, books n); running = h.balanced.running };
        error = h.error;
        unowned = same_owner _ _ h.unowned refl refl refl;
      })
      (λ s e d h books. record {
        books = λ n. omega (arith, books n);
        running = h.balanced.running;
      })
  where
    besides : ℕ → Process → ℕ
    besides n s =
        (at_end n s.input_pipe.read + at_end n s.input_pipe.write)
        + (at_end n s.error_pipe.read + at_end n s.error_pipe.write)
        + owned n s

open_error :
    (a : PipeAnswers)
    → Ensures WithOutput
        (on_part (desk_of λ s. s.error_pipe) set_error_pipe (open_pipe a))
        (λ _. WithAll)
        Thrown
open_error a =
    Ensures-on_part (λ s. Empty (λ n. besides n s)) (λ s _. Books (λ n. besides n s))
      (λ s e. Books (λ n. besides n s)) _ _ _ (λ s. open_pipe-Books (λ n. besides n s) a)
      (λ s h. record { books = λ n. omega (arith, h.balanced.books n); empty = h.error })
      (λ s u d h books. record {
        balanced = record { books = λ n. omega (arith, books n); running = h.balanced.running };
        unowned = same_owner _ _ h.unowned refl refl refl;
      })
      (λ s e d h books. record {
        books = λ n. omega (arith, books n);
        running = h.balanced.running;
      })
  where
    besides : ℕ → Process → ℕ
    besides n s =
        (at_end n s.input_pipe.read + at_end n s.input_pipe.write)
        + (at_end n s.output_pipe.read + at_end n s.output_pipe.write)
        + owned n s

start_check-WithAll : (done : Bool) → Ensures WithAll (start_check done) (λ _. WithAll) Thrown
unfolding start_check
start_check-WithAll done =
    Ensures-unless _ _ (λ e s h. h) (λ e. Ensures-decided _ (λ u f s h. h) (λ f s h. h.balanced))

add_actions-WithAll :
    (added : List Bool) → Ensures WithAll (add_actions added) (λ _. WithAll) Thrown
unfolding add_actions
add_actions-WithAll [] = Ensures-pure tt (λ s h. h)
add_actions-WithAll (done ∷ rest) =
    Ensures-bind (λ _. WithAll) _ _ (start_check-WithAll done) λ _. add_actions-WithAll rest

taken_over : (s : Process) → WithAll s → Balanced (take_over s)
taken_over s h = record {
  books = λ n.
      let none_owned : owned n s ≡ 0 = omega (
        arith,
        ap (at_end n) h.unowned.input,
        ap (at_end n) h.unowned.output,
        ap (at_end n) h.unowned.error,
      ) in
      omega (arith, h.balanced.books n, none_owned);
  running = h.balanced.running;
}

spawn_child-Balanced : (a : StartAnswers) → Ensures Ready (spawn_child a) (λ _. Balanced) Thrown
unfolding spawn_child
spawn_child-Balanced a =
    Ensures-bind (λ _. WithInput) _ _ (open_input a.input)
      λ _.
        Ensures-bind (λ _. WithOutput) _ _ (open_output a.output)
          λ _.
            Ensures-bind (λ _. WithAll) _ _ (open_error a.error)
              λ _.
                Ensures-bind (λ _. WithAll) _ _ (start_check-WithAll a.actions_made)
                  λ _.
                    Ensures-bind (λ _. WithAll) _ _ (add_actions-WithAll a.actions_added)
                      λ _.
                        Ensures-bind (λ _. WithAll) _ _ (start_check-WithAll a.spawned)
                          λ _. Ensures-modify take_over taken_over

-- The pipes are closed, so every descriptor that is open is at the object.
pub record Owned (s : Process) : Type 0 where
  pub books : (n : ℕ) → times n s.opened ≡ times n s.closed + owned n s
  pub running : s.stop_requested ≡ false

ends_closed : (s : Process) → Balanced s → Owned (close_ends s)
ends_closed s h = record {
  books = λ n. simp (times-append n) (omega (arith, h.books n));
  running = h.running;
}

pub start_linux-Owned : (a : StartAnswers) → Ensures Ready (start_linux a) (λ _. Owned) (λ e. Owned)
unfolding start_linux
start_linux-Owned a = record {
  at = λ s h. go (spawn_child a s).0 (spawn_child a s).1 ((spawn_child-Balanced a).at s h);
}
  where
    go :
        (s : Process) (r : Result (Unit {0}))
        → Outcome (λ _. Balanced) Thrown s r
        → Outcome (λ _. Owned) (λ e. Owned) (close_ends s) r
    go s (ok u) h = ends_closed s h
    go s (err e) h = ends_closed s h
