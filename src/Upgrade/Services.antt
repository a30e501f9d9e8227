-- ===== src/Upgrade/Services.antt =====
-- Stopping, removing and restoring a service: stop, remove and restore of
-- cpp-sdk-http-bridge-linux/src/windows-upgrade.cpp. Each call of the service manager is answered from
-- outside; a wait takes one answer for each turn before its deadline.
use hik_hcnet_http_bridge.Common.{
  Bool, true, false, ◌&&◌, ◌||◌, not, List, [], ◌∷◌, Option, none, some, is_empty,
}
use hik_hcnet_http_bridge.Text.{Bytes}
use hik_hcnet_http_bridge.Error.{err, other_exception}
use hik_hcnet_http_bridge.Effect.{Effect, pure, ◌>>◌, modify, lift, look, unless}
use hik_hcnet_http_bridge.Upgrade.World.{
  World, ServiceName, ServiceConfig, Settings, Registration, Snapshot, on_service, require,
}

-- The registration of a service, if there is one.
abbrev pub Entry : Type 0
Entry = Option Registration

-- What a turn of a wait sees: a query that fails, another state, or the state that is waited for.
pub data Poll : Type 0 where
  query_failed other_state arrived : Poll

unfoldable pub wait_for : List Poll → Effect Entry (Unit {0})
wait_for [] = lift (err other_exception)
wait_for (query_failed ∷ polls) = lift (err other_exception)
wait_for (other_state ∷ polls) = wait_for polls
wait_for (arrived ∷ polls) = pure tt

abbrev pub set_running : Bool → Entry → Entry
set_running running none = none
set_running running (some r) = some (record r { running = running })

pub record StopAnswers : Type 0 where
  pub opened : Bool
  pub queried : Bool
  pub controlled : Bool
  pub polls : List Poll
  pub exited : Bool
  -- whether it goes on where the wait fails
  pub runs_on : Bool

unfoldable pub stop_found : StopAnswers → Entry → Effect Entry (Unit {0})
unfolding require wait_for
stop_found a none = pure tt
stop_found a (some r) = do
  require a.opened
  require a.queried
  require (not r.running || a.controlled)
  modify (set_running (r.running && a.runs_on))
  wait_for a.polls
  modify (set_running false)
  require a.exited

unfoldable pub stop_entry : StopAnswers → Effect Entry (Unit {0})
unfolding stop_found
stop_entry a = look (λ found. found) λ found. stop_found a found

unfoldable pub stop : ServiceName → StopAnswers → Effect World (Unit {0})
unfolding stop_entry
stop name a = on_service name (stop_entry a)

pub record RemoveAnswers : Type 0 where
  pub stopping : StopAnswers
  pub opened : Bool
  pub deleted : Bool
  pub polls : List Poll
  -- whether it is gone all the same where the wait fails
  pub gone : Bool

unfoldable pub remove_found : RemoveAnswers → Entry → Effect Entry (Unit {0})
unfolding require wait_for
remove_found a none = pure tt
remove_found a (some r) = do
  require a.opened
  require a.deleted
  unless (not a.gone) (modify (λ _. none))
  wait_for a.polls
  modify (λ _. none)

unfoldable pub remove : ServiceName → RemoveAnswers → Effect World (Unit {0})
unfolding stop_entry remove_found
remove name a =
    on_service name (stop_entry a.stopping >> look (λ found. found) λ found. remove_found a found)

pub record RestoreAnswers : Type 0 where
  pub opened : Bool
  pub created : Bool
  pub changed : Bool
  pub delayed_set : Bool
  pub description_set : Bool
  pub failures_set : Bool
  -- what the call makes of the recovery settings that it finds and those that it is given
  pub failures_behind : Bytes → Bytes → Bytes
  pub flag_set : Bool
  pub started : Bool
  pub polls : List Poll
  -- whether it runs where the wait fails
  pub runs : Bool

-- A service that CreateServiceW makes.
abbrev pub new_registration : ServiceConfig → Registration
new_registration config = record {
  settings = record {
    config = config;
    delayed = false;
    description = [];
    failures = [];
    failure_flag = false;
  };
  running = false;
}

abbrev pub set_settings : (Settings → Settings) → Entry → Entry
set_settings f none = none
set_settings f (some r) = some (record r { settings = f r.settings })

-- A registration that cannot be opened is made anew, which fails where there is one.
unfoldable pub register_again : Snapshot → RestoreAnswers → Entry → Effect Entry (Unit {0})
unfolding require
register_again s a none = require a.created >> modify λ _. some (new_registration s.settings.config)
register_again s a (some r) =
    require (a.opened && a.changed)
    >> modify (set_settings λ t. record t { config = s.settings.config })

unfoldable pub start_again : RestoreAnswers → Effect Entry (Unit {0})
unfolding require wait_for
start_again a = do
  require a.started
  modify (set_running a.runs)
  wait_for a.polls
  modify (set_running true)

unfoldable pub restore_entry : Snapshot → RestoreAnswers → Effect Entry (Unit {0})
unfolding register_again require start_again
restore_entry s a = do
  look (λ found. found) λ found. register_again s a found
  require a.delayed_set
  modify (set_settings λ t. record t { delayed = s.settings.delayed })
  require a.description_set
  modify (set_settings λ t. record t { description = s.settings.description })
  unless (is_empty s.settings.failures) (
      require a.failures_set
      >> modify (
          set_settings
            λ t. record t { failures = a.failures_behind t.failures s.settings.failures }))
  require a.flag_set
  modify (set_settings λ t. record t { failure_flag = s.settings.failure_flag })
  unless (not s.running) (start_again a)

unfoldable pub restore : Snapshot → RestoreAnswers → Effect World (Unit {0})
unfolding restore_entry
restore s a = on_service s.name (restore_entry s a)
