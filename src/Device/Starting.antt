-- ===== src/Device/Starting.antt =====
-- What a session holds behind its start, also where the start throws.
use hik_hcnet_http_bridge.Common.{
  ℕ, ◌≡◌, refl, Bool, true, false, ◌||◌, List, [], ◌∷◌, Option, none, some, if◌then◌else◌, All,
  Bool-cases, inl, inr,
}
use hik_hcnet_http_bridge.Error.{Result, ok, err, Fault, throw, sdk_stream_timeout}
use hik_hcnet_http_bridge.Effect.Keeps.{Keeps, Keeps-lift, Keeps-check, Keeps-modify, keeps_rules}
use hik_hcnet_http_bridge.Effect.Ensures.{
  Outcome, Ensures, Ensures-modify, Ensures-bind, Ensures-kept, Ensures-Keeps, Ensures-guarded,
}
use hik_hcnet_http_bridge.Request.{StreamRequest, StreamOption, real_play, playback}
use hik_hcnet_http_bridge.Device.{
  SessionEffect, HcSession, DeviceConfig, Answers, StartAnswers, WaitTurn, first_prepare, prepare,
  open_stream, start_stream, first_start, await_data, fail_on_overflow, wait_for_data,
  start_stream_and_wait_for_data, start,
}
use hik_hcnet_http_bridge.Device.Holding.{
  login, stream, Tidy, Fresh, LoggedIn, Ready, Holds-of, Fresh-Tidy, LoggedIn-Tidy, Ready-Tidy,
  LoginOutcome, Ends, log_in-Ensures, LoginOutcome-Tidy, login_error-Ensures, same_login,
}

clash : {b : Bool} → b ≡ false → b ≡ true → ⊥
clash e f = cc

module _ (config : DeviceConfig) (request : StreamRequest) where
  first_prepare-Ensures :
      (a : Answers) → Ensures Fresh (first_prepare config request a) (λ _. Ready) Ends
  unfolding first_prepare
  first_prepare-Ensures a =
      Ensures-kept _ _ (Keeps-lift a.probe) (λ _. Fresh-Tidy)
        λ _.
          Ensures-kept _ _ (Keeps-check (a.checks 1)) (λ _. Fresh-Tidy)
            λ _.
              Ensures-bind (λ _. LoginOutcome a.login) _ _ (log_in-Ensures a.login)
                λ _.
                  Ensures-kept _ _ (Keeps-check (a.checks 2)) (λ _. LoginOutcome-Tidy a.login)
                    λ _.
                      Ensures-bind (λ _. LoggedIn) _ _ (login_error-Ensures a.login)
                        λ _.
                          Ensures-kept _ _ (Keeps-check (a.checks 3)) (λ _. LoggedIn-Tidy)
                            λ _.
                              Ensures-kept _ _ (Keeps-lift _) (λ _. LoggedIn-Tidy)
                                λ channel.
                                  Ensures-kept _ _ (Keeps-modify _ (λ s l. same_login l))
                                    (λ _. LoggedIn-Tidy)
                                    λ _.
                                      Ensures-kept _ _ (Keeps-check (a.checks 4))
                                        (λ _. LoggedIn-Tidy)
                                        λ _. Ensures-modify _ (λ s l. record {
                                          logged_in = same_login l;
                                          prepared = refl;
                                        })

  prepare-Ensures : (a : Answers) → Ensures Fresh (prepare config request a) (λ _. Ready) Ends
  unfolding prepare
  prepare-Ensures a =
      Ensures-kept _ _ (Keeps-check (a.checks 0)) (λ _. Fresh-Tidy)
        λ _.
          Ensures-guarded (λ s. s.prepared) _ (λ s f e. absurd (clash f.unprepared e))
            (λ s f e. (first_prepare-Ensures a).at s f)

  prepare_again-Ensures : (a : Answers) → Ensures Ready (prepare config request a) (λ _. Ready) Ends
  unfolding prepare
  prepare_again-Ensures a =
      Ensures-kept _ _ (Keeps-check (a.checks 0)) (λ _. Ready-Tidy)
        λ _. Ensures-guarded (λ s. s.prepared) _ (λ s r e. r) (λ s r e. absurd (clash e r.prepared))

-- A turn of the wait leaves alone what the session holds: the callback only takes packets.
abbrev pub LeavesHandles : WaitTurn → Type 0
LeavesHandles turn = (s : HcSession) → Tidy s → Tidy (turn.meanwhile s)

open_stream-Ensures :
    (answer : Option ℕ) (failure : Result (Unit {0}))
    → Ensures Ready (open_stream answer failure) (λ _. Tidy) Ends
unfolding open_stream
open_stream-Ensures none failure = record { at = λ s r. both failure (unopened r) }
  where
    unopened : {s : HcSession} → Ready s → Tidy (record s { handle = none })
    unopened r = record {
      running = r.logged_in.running;
      holds = Holds-of r.logged_in.has_user refl r.logged_in.one_call login;
    }

    both : (f : Result (Unit {0})) {s : HcSession} → Tidy s → Outcome (λ _. Tidy) Ends s f
    both (ok t) h = h
    both (err e) h = h
open_stream-Ensures (some handle) failure = record {
  at = λ s r. record {
    running = r.logged_in.running;
    holds = Holds-of r.logged_in.has_user refl (rw r.logged_in.one_call) stream;
  };
}

-- What keeps a session tidy may also throw.
kept-Tidy : (m : SessionEffect (Unit {0})) → Keeps Tidy m → Ensures Tidy m (λ _. Tidy) Ends
kept-Tidy m keeps = Ensures-Keeps m keeps (λ e s t. t)

start_stream-Ensures :
    (request : StreamRequest) (a : StartAnswers) (option : StreamOption)
    → Ensures Ready (start_stream request a option) (λ _. Tidy) Ends
unfolding start_stream
start_stream-Ensures request a real_play = open_stream-Ensures a.opened _
start_stream-Ensures request a playback =
    Ensures-bind (λ _. Tidy) _ _ (open_stream-Ensures a.opened _)
      (λ _. kept-Tidy _ (search keeps_rules))

turn-Tidy :
    (checked : Option Fault) (late : Bool) (s : HcSession) (again : HcSession × Result (Unit {0}))
    → Tidy s
    → Tidy again.0
    → Tidy
        (elim checked as (λ _. HcSession × Result (Unit {0})) [
          | none ↦ if late then (s, throw 504 sdk_stream_timeout) else again
          | some e ↦ (s, err e)
        ]).0
turn-Tidy none true s again t h = t
turn-Tidy none false s again t h = h
turn-Tidy (some e) late s again t h = t

waiting :
    (turns : List WaitTurn)
    → All LeavesHandles turns
    → (s : HcSession) → Tidy s
    → Tidy (wait_for_data turns s).0
unfolding wait_for_data
waiting [] h s t = elim (Bool-cases (s.first_data || s.overflow)) [
  | inl e ↦ simp e t
  | inr e ↦ simp e t
]
waiting (turn ∷ turns) h s t =
    let again = waiting turns h.1 (turn.meanwhile s) (h.0 s t) in
    let waits = turn-Tidy turn.checked turn.late s _ t again in
    elim (Bool-cases (s.first_data || s.overflow)) [ inl e ↦ simp e t | inr e ↦ simp e waits ]

wait_for_data-Keeps :
    (turns : List WaitTurn) → All LeavesHandles turns → Keeps Tidy (wait_for_data turns)
wait_for_data-Keeps turns h = record { at = waiting turns h }

first_start-Ensures :
    (request : StreamRequest) (a : StartAnswers)
    → Ensures Ready (first_start request a) (λ _. Tidy) Ends
unfolding first_start
first_start-Ensures request a =
    Ensures-guarded (λ s. s.stream_started) _ (λ s r e. Ready-Tidy s r)
      (λ s r e.
        (Ensures-bind (λ _. Tidy) {T = λ _. Tidy} _ _
            (start_stream-Ensures request a request.option)
            (λ _. Ensures-modify _ (λ s' t. record { running = t.running; holds = t.holds }))).at
          s r)

await_data-Keeps :
    (a : StartAnswers) (turns : List WaitTurn)
    → All LeavesHandles turns
    → Keeps Tidy (await_data a turns)
unfolding await_data fail_on_overflow
await_data-Keeps a turns h = search (keeps_rules, wait_for_data-Keeps, h)

module _ (config : DeviceConfig) (request : StreamRequest) where
  start_stream-Tidy :
      (again : Answers) (a : StartAnswers) (turns : List WaitTurn)
      → All LeavesHandles turns
      → Ensures Ready (start_stream_and_wait_for_data config request again a turns) (λ _. Tidy) Ends
  unfolding start_stream_and_wait_for_data
  start_stream-Tidy again a turns h =
      Ensures-bind (λ _. Ready) _ _ (prepare_again-Ensures config request again)
        λ _.
          Ensures-kept _ _ (Keeps-check (a.checks 0)) (λ _. Ready-Tidy)
            λ _.
              Ensures-bind (λ _. Tidy) _ _ (first_start-Ensures request a)
                (λ _. kept-Tidy _ (await_data-Keeps a turns h))

  pub start-Tidy :
      (first again : Answers) (a : StartAnswers) (turns : List WaitTurn)
      → All LeavesHandles turns
      → Ensures Fresh (start config request first again a turns) (λ _. Tidy) Ends
  unfolding start
  start-Tidy first again a turns h =
      Ensures-bind (λ _. Ready) _ _ (prepare-Ensures config request first)
        (λ _. start_stream-Tidy again a turns h)
