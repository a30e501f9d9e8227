-- ===== src/Upgrade/Transaction.antt =====
-- The upgrade as a whole: discover, execute and wmain of
-- cpp-sdk-http-bridge-linux/src/windows-upgrade.cpp.
use hik_hcnet_http_bridge.Common.{
  ℕ, Bool, true, false, ◌&&◌, not, List, [], ◌∷◌, Option, none, some, has_value, if◌then◌else◌,
}
use hik_hcnet_http_bridge.Text.{Bytes, codes, equal}
use hik_hcnet_http_bridge.Error.{Result, ok, err, other_exception}
use hik_hcnet_http_bridge.Effect.{
  Effect, pure, ◌>>=◌, ◌>>◌, modify, lift, look, unless, either, recovering,
}
use hik_hcnet_http_bridge.Upgrade.World.{
  World, Directory, target, backup, staged, failed, ServiceName, native_name, managed_name,
  Registration, Snapshot, service, require, rename,
}
use hik_hcnet_http_bridge.Upgrade.Services.{
  StopAnswers, stop, set_running, RemoveAnswers, remove, RestoreAnswers, restore,
}
use hik_hcnet_http_bridge.Upgrade.Files.{CopyAnswers, copy_all}
use hik_hcnet_http_bridge.Upgrade.Snapshots.{SnapshotAnswers, snapshot}
use hik_hcnet_http_bridge.Upgrade.Verify.{VerifyTurn, verify, is_native}

-- The one service that is registered.
abbrev pub only_one : Bool → Bool → Option ServiceName
only_one true false = some native_name
only_one false true = some managed_name
only_one _ _ = none

unfoldable pub discovered : SnapshotAnswers → Option ServiceName → Effect World Snapshot
unfolding snapshot
discovered a none = lift (err other_exception)
discovered a (some name) = look (λ w. snapshot a name (service name w)) lift

unfoldable pub discover : SnapshotAnswers → Effect World Snapshot
unfolding discovered
discover a =
    look (λ w. only_one (has_value w.native_service) (has_value w.managed_service))
      λ found. discovered a found

-- HIK_BRIDGE_VERSION of version.h
abbrev pub hik_bridge_version : Bytes
hik_bridge_version = codes "0.9.1.260922"

-- What the tests before the upgrade are answered, in their order.
pub record Preflight : Type 0 where
  pub admin : Bool
  pub locked : Bool
  pub package_complete : Bool
  pub native_package : Bool
  pub configuration_valid : Bool
  pub version : Result Bytes
  pub port_valid : Bool
  pub manager_opened : Bool
  pub inspectable : Bool
  pub snapshot : SnapshotAnswers
  pub paths_valid : Bool
  pub no_tasks : Bool
  pub source_link_free : Bool
  pub target_link_free : Bool

-- The tests of the package; the answer is its version.
unfoldable pub check_package : Preflight → Effect World Bytes
unfolding require
check_package a = do
  require a.admin
  require a.locked
  require a.package_complete
  require a.native_package
  require a.configuration_valid
  expected ← lift a.version
  require (equal expected hik_bridge_version)
  require a.port_valid
  require a.manager_opened
  require a.inspectable
  pure expected

unfoldable pub check_installation : Preflight → Effect World (Unit {0})
unfolding require
check_installation a = do
  require a.paths_valid
  require a.no_tasks
  require a.source_link_free
  require a.target_link_free

unfoldable pub preflight : Preflight → Effect World (Snapshot × Bytes)
unfolding check_package discover check_installation
preflight a = do
  expected ← check_package a
  old ← discover a.snapshot
  check_installation a
  pure (old, expected)

pub record RollbackAnswers : Type 0 where
  pub stopping_new : StopAnswers
  pub removing_new : RemoveAnswers
  pub stopping_old : StopAnswers
  pub sets_failed_aside : Bool
  pub moves_back : Bool
  pub restoring : RestoreAnswers

-- How far the installation script came with the managed service, which it stops and removes.
pub data ScriptReach : Type 0 where
  left_alone stopped removed : ScriptReach

abbrev pub reached : ScriptReach → Option Registration → Option Registration
reached left_alone found = found
reached stopped found = set_running false found
reached removed found = none

-- What the steps of the upgrade are answered. The installation script is a program of its own: it may
-- leave the native service and the files of the new directory in any state.
pub record UpgradeAnswers : Type 0 where
  pub preflight : Preflight
  pub copying : CopyAnswers
  pub staged_valid : Bool
  pub registry_exported : Bool
  pub stopping : StopAnswers
  pub moves_old : Bool
  pub moves_new : Bool
  pub target_valid : Bool
  pub removing : RemoveAnswers
  pub script_service : Option Registration
  pub script_managed : ScriptReach
  pub script_files : Directory → Directory
  pub script_succeeds : Bool
  pub turns : List VerifyTurn
  pub rollback : RollbackAnswers

abbrev pub changed_by : (Directory → Directory) → Option Directory → Option Directory
changed_by f none = none
changed_by f (some d) = some (f d)

abbrev pub run_script : UpgradeAnswers → World → World
run_script a w = record w {
  native_service = a.script_service;
  managed_service = reached a.script_managed w.managed_service;
  target_directory = changed_by a.script_files w.target_directory;
}

abbrev pub set_moved : World → World
set_moved w = record w { moved = true }

abbrev pub set_installed : World → World
set_installed w = record w { installed = true }

-- The body of the try block.
unfoldable pub transaction : Snapshot → Bytes → UpgradeAnswers → Effect World (Unit {0})
unfolding stop rename require remove
transaction old expected a = do
  stop old.name a.stopping
  rename a.moves_old target backup
  modify set_moved
  rename a.moves_new staged target
  require a.target_valid
  unless (is_native old.kind) (remove old.name a.removing)
  modify set_installed
  modify (run_script a)
  require a.script_succeeds
  lift (verify expected a.turns)

abbrev pub is_native_name : ServiceName → Bool
is_native_name native_name = true
is_native_name managed_name = false

unfoldable pub undo_services : ServiceName → RollbackAnswers → Bool → Effect World (Unit {0})
unfolding stop remove
undo_services name a installed =
    either installed
      (stop native_name a.stopping_new
        >> unless (is_native_name name) (remove native_name a.removing_new))
      (stop name a.stopping_old)

unfoldable pub undo_directories : RollbackAnswers → Bool → Effect World (Unit {0})
unfolding rename
undo_directories a moved = unless (not moved) (do
  look (λ w. has_value w.target_directory)
      λ there. unless (not there) (rename a.sets_failed_aside target failed)
  rename a.moves_back backup target)

-- The handler: what was done is undone, as far as it got.
unfoldable pub rollback : Snapshot → RollbackAnswers → Effect World (Unit {0})
unfolding undo_services undo_directories restore
rollback old a = do
  look (λ w. w.installed) λ installed. undo_services old.name a installed
  look (λ w. w.moved) λ moved. undo_directories a moved
  restore old a.restoring

-- How a run ends.
pub data Verdict : Type 0 where
  refused checked upgraded restored incomplete : Verdict

abbrev pub exit_code : Verdict → ℕ
exit_code checked = 0
exit_code upgraded = 0
exit_code _ = 1

unfoldable pub attempt : Snapshot → Bytes → UpgradeAnswers → Effect World Verdict
unfolding transaction rollback
attempt old expected a =
    recovering (transaction old expected a >> pure upgraded)
      λ e. recovering (rollback old a.rollback >> pure restored) λ f. pure incomplete

abbrev pub is_unused : World → Bool
is_unused w =
    not (has_value w.backup_directory)
    && (not (has_value w.staged_directory) && not (has_value w.failed_directory))

abbrev pub set_marks : World → World
set_marks w = record w { moved = false; installed = false }

unfoldable pub replace : Directory → Snapshot → Bytes → UpgradeAnswers → Effect World Verdict
unfolding require copy_all attempt
replace source old expected a = do
  look is_unused require
  copy_all a.copying source
  require a.staged_valid
  require a.registry_exported
  modify set_marks
  attempt old expected a

unfoldable pub execute : Directory → UpgradeAnswers → Bool → Effect World Verdict
unfolding preflight replace
execute source a check = do
  (old, expected) ← preflight a.preflight
  either check (pure checked) (replace source old expected a)

-- The arguments behind the name of the program.
abbrev pub check_option : List Bytes → Result Bool
check_option [] = ok false
check_option (argument ∷ []) =
    if equal argument (codes "/check") then ok true else err other_exception
check_option _ = err other_exception

unfoldable pub wmain : Directory → UpgradeAnswers → List Bytes → Effect World Verdict
unfolding execute
wmain source a arguments =
    recovering (do check ← lift (check_option arguments); execute source a check) λ e. pure refused
