-- ===== src/Upgrade/Rules.antt =====
-- What the calls of the upgrade ensure: of one service, and of the directories.
use hik_hcnet_http_bridge.Common.{
  ◌≡◌, refl, ap, sym, ◌∙◌, subst, Bool, true, false, ◌&&◌, not, List, [], ◌∷◌, Option, none, some,
  is_empty, arith,
}
use hik_hcnet_http_bridge.Text.{Bytes}
use hik_hcnet_http_bridge.Error.{Result, ok, err, Fault, other_exception}
use hik_hcnet_http_bridge.Effect.{Effect, ◌>>◌, modify, lift, look, unless, on_part}
use hik_hcnet_http_bridge.Effect.Ensures.{
  Outcome, Ensures, Silent, Any, Ensures-pure, Ensures-modify, Ensures-look, Ensures-bind,
  Ensures-lift, Ensures-unless, Ensures-skip, Ensures-seen,
}
use hik_hcnet_http_bridge.Upgrade.World.{
  World, Directory, Place, ServiceName, Settings, Registration, Snapshot, directory, put_directory,
  service, put_service, require, on_service, move, rename,
}
use hik_hcnet_http_bridge.Upgrade.Services.{
  Entry, Poll, wait_for, StopAnswers, stop_found, stop_entry, stop, RemoveAnswers, remove_found,
  remove, set_running, set_settings, RestoreAnswers, new_registration, register_again, start_again,
  restore_entry, restore,
}

-- The recovery settings are not empty, and a call that sets them replaces those that it finds.
pub record HasFailures (a : RestoreAnswers) (failures : Bytes) : Type 0 where
  pub given : is_empty failures ≡ false
  pub replaces : (before : Bytes) → a.failures_behind before failures ≡ failures

-- The service does not run.
abbrev pub Quiet : Entry → Type 0
Quiet none = Unit {0}
Quiet (some r) = r.running ≡ false

-- A test that throws leaves all as it is.
pub Ensures-require :
    {S : Type 0} {P : S → Type 0} {R : Fault → S → Type 0} (test : Bool)
    → ((e : Fault) (s : S) → P s → R e s)
    → Ensures P (require test) (λ _. P) R
unfolding require unless lift
Ensures-require true fails = record { at = λ s h. h }
Ensures-require false fails = record { at = λ s h. fails other_exception s h }

set_running-Quiet : (x : Entry) → Quiet (set_running false x)
set_running-Quiet none = tt
set_running-Quiet (some r) = refl

-- Code that goes by the registration that it finds.
Ensures-found :
    {A : Type 0} {P : Entry → Type 0} {Q : A → Entry → Type 0} (f : Entry → Effect Entry A)
    → ((found : Entry) → P found → Ensures (λ x. x ≡ found) (f found) Q Silent)
    → Ensures P (look (λ found. found) f) Q Silent
Ensures-found f k = Ensures-look (λ found. found) f (λ x h. (k x h).at x refl)

stop_found-Quiet :
    (a : StopAnswers) (found : Entry)
    → Ensures (λ x. x ≡ found) (stop_found a found) (λ _. Quiet) Silent
unfolding stop_found
stop_found-Quiet a none = Ensures-pure tt (λ x e. subst Quiet (sym e) tt)
stop_found-Quiet a (some r) = Ensures-skip _ _ λ _. Ensures-skip _ _ λ _. Ensures-skip _ _ λ _.
    Ensures-skip _ _ λ _. Ensures-skip _ _ λ _.
      Ensures-bind (λ _. Quiet) _ _ (Ensures-modify _ (λ x h. set_running-Quiet x))
        λ _. Ensures-require a.exited (λ e x h. tt)

pub stop_entry-Quiet : (a : StopAnswers) → Ensures Any (stop_entry a) (λ _. Quiet) Silent
unfolding stop_entry
stop_entry-Quiet a = Ensures-found _ (λ found h. stop_found-Quiet a found)

wait_for-same :
    {P : Entry → Type 0} (polls : List Poll) → Ensures P (wait_for polls) (λ _. P) Silent
unfolding wait_for
wait_for-same [] = Ensures-lift _ (λ x h. tt)
wait_for-same (Poll.query_failed ∷ polls) = Ensures-lift _ (λ x h. tt)
wait_for-same (Poll.other_state ∷ polls) = wait_for-same polls
wait_for-same (Poll.arrived ∷ polls) = Ensures-pure tt (λ x h. h)

abbrev Gone : Entry → Type 0
Gone x = x ≡ none

remove_found-Gone :
    (a : RemoveAnswers) (found : Entry)
    → Ensures (λ x. x ≡ found) (remove_found a found) (λ _. Gone) Silent
unfolding remove_found
remove_found-Gone a none = Ensures-pure tt (λ x e. e)
remove_found-Gone a (some r) = Ensures-skip _ _ λ _.
    Ensures-skip _ _
      λ _. Ensures-skip _ _ λ _. Ensures-skip _ _ λ _. Ensures-modify (λ _. none) (λ x h. refl)

module _ (s : Snapshot) where
  -- The registration that is being restored: not running, with the settings that are restored by now.
  record Partly (settings : Settings → Type 0) (x : Entry) : Type 0 where
    now : Settings
    there : x ≡ some (record { settings = now; running = false })
    restored : settings now

  abbrev Configured : Settings → Type 0
  Configured t = t.config ≡ s.settings.config

  abbrev Delayed : Settings → Type 0
  Delayed t = Configured t × (t.delayed ≡ s.settings.delayed)

  abbrev Described : Settings → Type 0
  Described t = Delayed t × (t.description ≡ s.settings.description)

  abbrev Recovered : Settings → Type 0
  Recovered t = Described t × (t.failures ≡ s.settings.failures)

  abbrev Whole : Settings → Type 0
  Whole t = Recovered t × (t.failure_flag ≡ s.settings.failure_flag)

  abbrev original : Registration
  original = record { settings = s.settings; running = s.running }

  sets :
      {A B : Settings → Type 0} (f : Settings → Settings)
      → ((t : Settings) → A t → B (f t))
      → Ensures (Partly A) (modify (set_settings f)) (λ _. Partly B) Silent
  sets f step = Ensures-modify _ (λ x h. record {
    now = f h.now;
    there = ap (set_settings f) h.there;
    restored = step h.now h.restored;
  })

  -- One setting, behind the test of the call that sets it.
  then_sets :
      {A B : Settings → Type 0} {Q : Unit {0} → Entry → Type 0} (done : Bool)
      (f : Settings → Settings) (rest : Effect Entry (Unit {0}))
      → ((t : Settings) → A t → B (f t))
      → Ensures (Partly B) rest Q Silent
      → Ensures (Partly A) (require done >> (modify (set_settings f) >> rest)) Q Silent
  then_sets {A} {B} done f rest step later =
      Ensures-bind (λ _. Partly A) _ _ (Ensures-require done (λ e x h. tt))
        λ _. Ensures-bind (λ _. Partly B) _ _ (sets f step) λ _. later

  whole : (t : Settings) → Whole t → t ≡ s.settings
  whole t h = ground (arith, h)

  start_again-Original :
      (a : RestoreAnswers)
      → s.running ≡ true
      → Ensures (Partly Whole) (start_again a) (λ _ x. x ≡ some original) Silent
  unfolding start_again
  start_again-Original a run =
      Ensures-bind (λ _. Partly Whole) _ _ (Ensures-require a.started (λ e x h. tt))
        λ _.
          Ensures-bind (λ _. Ran) _ _ (Ensures-modify _ (λ x h. ran x h))
            λ _.
              Ensures-bind (λ _. Ran) _ _ (wait_for-same a.polls)
                λ _. Ensures-modify _ (λ x h. runs x h)
    where
      Ran : Entry → Type 0
      Ran x = (b : Bool) × (x ≡ some (record { settings = s.settings; running = b }))

      ran : (x : Entry) → Partly Whole x → Ran (set_running a.runs x)
      ran x h = (
        a.runs,
        ap (set_running a.runs) h.there
            ∙ ap (λ (t : Settings). some (record { settings = t; running = a.runs }))
                (whole h.now h.restored),
      )

      runs : (x : Entry) → Ran x → set_running true x ≡ some original
      runs x (b, e) =
          ap (set_running true) e
          ∙ ap (λ (b : Bool). some (record { settings = s.settings; running = b })) (sym run)

  register_again-Configured :
      (a : RestoreAnswers) (found : Entry)
      → Quiet found
      → Ensures (λ x. x ≡ found) (register_again s a found) (λ _. Partly Configured) Silent
  unfolding register_again
  register_again-Configured a none q = Ensures-skip _ _ λ _. Ensures-modify _ (λ x h. record {
    now = (new_registration s.settings.config).settings;
    there = refl;
    restored = refl;
  })
  register_again-Configured a (some r) q =
      Ensures-bind (λ _ x. x ≡ some r) _ _ (Ensures-require (a.opened && a.changed) (λ e x h. tt))
        λ _. Ensures-modify _ (λ x h. record {
          now = record r.settings { config = s.settings.config };
          there = ground (arith, h, q);
          restored = refl;
        })

  -- A service that does not run is restored as it was, to its settings and its state.
  pub restore_entry-Original :
      (a : RestoreAnswers)
      → HasFailures a s.settings.failures
      → Ensures Quiet (restore_entry s a) (λ _ x. x ≡ some original) Silent
  unfolding restore_entry
  restore_entry-Original a given =
      Ensures-bind (λ _. Partly Configured) _ _
        (Ensures-found _ (λ found q. register_again-Configured a found q))
        λ _.
          then_sets a.delayed_set _ _ (λ t h. (h, refl))
            (then_sets a.description_set _ _ (λ t h. (h, refl))
              (Ensures-bind (λ _. Partly Recovered) _ _ failures
                λ _. then_sets a.flag_set _ _ (λ t h. (h, refl)) running))
    where
      failures :
          Ensures
            (Partly Described)
            (unless (is_empty s.settings.failures) (
              require a.failures_set
              >> modify (
                  set_settings
                    λ t. record t { failures = a.failures_behind t.failures s.settings.failures })))
            (λ _. Partly Recovered)
            Silent
      failures =
          Ensures-unless _ _ (λ e x h. cc (given.given, e))
            (λ e.
              Ensures-bind (λ _. Partly Described) _ _
                (Ensures-require a.failures_set (λ e x h. tt))
                λ _. sets _ (λ t h. (h, given.replaces t.failures)))

      running :
          Ensures
            (Partly Whole)
            (unless (not s.running) (start_again a))
            (λ _ x. x ≡ some original)
            Silent
      running =
          Ensures-unless _ _ (λ e x h. h.there ∙ ground (arith, whole h.now h.restored, e))
            (λ e. start_again-Original a (ground arith))

-- Calls that work on one service leave the rest of the world alone.
module _ {P : World → Type 0} {Q : Unit {0} → World → Type 0} {R : Fault → World → Type 0}
    (name : ServiceName) where
  Ensures-on_service :
      {E : Entry → Type 0} {F : Unit {0} → Entry → Type 0} (m : Effect Entry (Unit {0}))
      → Ensures E m F Silent
      → ((w : World) → P w → E (service name w))
      → ((w : World) (x : Entry) → P w → F tt x → Q tt (put_service name x w))
      → ((e : Fault) (w : World) (x : Entry) → P w → R e (put_service name x w))
      → Ensures P (on_service name m) Q R
  unfolding on_service on_part
  Ensures-on_service {E} {F} m k enters returns throws = record {
    at = λ w h.
        go w h (m (service name w)).0 (m (service name w)).1 (k.at (service name w) (enters w h));
  }
    where
      go :
          (w : World)
          → P w
          → (x : Entry) (r : Result (Unit {0})) → Outcome F Silent x r
          → Outcome Q R (put_service name x w) r
      go w h x (ok u) f = returns w x h f
      go w h x (err e) f = throws e w x h

  pub Ensures-stop :
      (a : StopAnswers)
      → ((w : World) (x : Entry) → P w → Quiet x → Q tt (put_service name x w))
      → ((e : Fault) (w : World) (x : Entry) → P w → R e (put_service name x w))
      → Ensures P (stop name a) Q R
  unfolding stop
  Ensures-stop a returns throws =
      Ensures-on_service _ (stop_entry-Quiet a) (λ w h. tt) returns throws

  pub Ensures-remove :
      (a : RemoveAnswers)
      → ((w : World) → P w → Q tt (put_service name none w))
      → ((e : Fault) (w : World) (x : Entry) → P w → R e (put_service name x w))
      → Ensures P (remove name a) Q R
  unfolding remove
  Ensures-remove a returns throws =
      Ensures-on_service _
        (Ensures-bind (λ _. Quiet) _ _ (stop_entry-Quiet a.stopping)
          λ _. Ensures-found _ (λ found h. remove_found-Gone a found))
        (λ w h. tt)
        (λ w x h gone. subst (λ y. Q tt (put_service name y w)) (sym gone) (returns w h)) throws

pub Ensures-restore :
    {P : World → Type 0} {Q : Unit {0} → World → Type 0} {R : Fault → World → Type 0} (s : Snapshot)
    (a : RestoreAnswers)
    → HasFailures a s.settings.failures
    → ((w : World) → P w → Quiet (service s.name w))
    → ((w : World)
        → P w
        → Q tt
            (put_service s.name (some (record { settings = s.settings; running = s.running })) w))
    → ((e : Fault) (w : World) (x : Entry) → P w → R e (put_service s.name x w))
    → Ensures P (restore s a) Q R
unfolding restore
Ensures-restore {P} {Q} {R} s a given quiet returns throws =
    Ensures-on_service s.name _ (restore_entry-Original s a given) quiet
      (λ w x h e. subst (λ y. Q tt (put_service s.name y w)) (sym e) (returns w h)) throws

-- A directory is moved where it is there and the other name is free, or all stays as it is.
pub Ensures-rename :
    {P : World → Type 0} {Q : Unit {0} → World → Type 0} {R : Fault → World → Type 0} (fine : Bool)
    (from to : Place)
    → ((w : World) (d : Directory)
        → P w
        → directory from w ≡ some d
        → Q tt (put_directory to (some d) (put_directory from none w)))
    → ((e : Fault) (w : World) → P w → R e w)
    → Ensures P (rename fine from to) Q R
unfolding rename
Ensures-rename {P} {Q} {R} fine from to moves fails =
    Ensures-bind (λ _. P) _ _ (Ensures-seen _ _ (λ free. Ensures-require (fine && free) fails))
      λ _. Ensures-look (directory from) _ (λ w h. found w h (directory from w) refl)
  where
    found :
        (w : World)
        → P w
        → (d : Option Directory) → directory from w ≡ d
        → Outcome Q R (move d from to w).0 (move d from to w).1
    found w h none e = unfold move lift in fails other_exception w h
    found w h (some d) e = unfold move modify in moves w d h e
