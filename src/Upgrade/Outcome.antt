-- ===== src/Upgrade/Outcome.antt =====
-- How a run of the upgrade tool ends, and what it then leaves.
use hik_hcnet_http_bridge.Common.{
  ◌≡◌, refl, sym, ap, ◌∙◌, subst, Bool, ◌⊎◌, inl, inr, List, none, some,
}
use hik_hcnet_http_bridge.Text.{Bytes}
use hik_hcnet_http_bridge.Error.{ok}
use hik_hcnet_http_bridge.Effect.{pure, either}
use hik_hcnet_http_bridge.Effect.Ensures.{
  Outcome, Ensures, Ensures-total, Ensures-excused, Ensures-pure, Ensures-bind, Ensures-modify,
  Ensures-seen, Ensures-either, Ensures-before, Ensures-decided, Ensures-recovering,
}
use hik_hcnet_http_bridge.Upgrade.World.{
  World, Directory, ServiceName, native_name, managed_name, Registration, Snapshot, service,
}
use hik_hcnet_http_bridge.Upgrade.Verify.{verify}
use hik_hcnet_http_bridge.Upgrade.Transaction.{
  hik_bridge_version, UpgradeAnswers, Verdict, refused, checked, upgraded, restored, incomplete,
  attempt, replace, execute, check_option, wmain, set_marks,
}
use hik_hcnet_http_bridge.Upgrade.Rules.{HasFailures, Ensures-require}
use hik_hcnet_http_bridge.Upgrade.Undoing.{other, Safe, Restored, rollback-Restored}
use hik_hcnet_http_bridge.Upgrade.Atomic.{then_required, Begun, Broken, Done, transaction-Done}
use hik_hcnet_http_bridge.Upgrade.Finding.{IsFound, Same, Ready, preflight-Ready}
use hik_hcnet_http_bridge.Upgrade.Copying.{
  SameServices, Untouched, Copied, Refusable, copy_all-Copied,
}

-- The promise of the tool, by the way that a run ends, from what was installed when it began.
module _ (source : Directory) (a : UpgradeAnswers) (start : World) where
  abbrev pub Promised : Verdict → World → Type 0
  Promised refused w = Untouched start w
  Promised checked w = w ≡ start
  Promised upgraded w =
      (w.target_directory ≡ some (a.script_files source))
      × (w.backup_directory ≡ start.target_directory)
      × (verify hik_bridge_version a.turns ≡ ok tt)
  Promised restored w = (w.target_directory ≡ start.target_directory) × SameServices start w
  Promised incomplete w =
      (w.target_directory ≡ start.target_directory) ⊎ (w.backup_directory ≡ start.target_directory)

  module _ (tree : Directory) (installed : start.target_directory ≡ some tree) where
    begun :
        (name : ServiceName) (w : World)
        → service (other name) start ≡ none
        → Copied start source w
        → Begun source tree a name (set_marks w)
    begun native_name w apart h = record {
      target = h.rest.0 ∙ installed;
      staged = h.staged;
      moved = refl;
      installed = refl;
      fits = h.rest.2.1 ∙ apart;
    }
    begun managed_name w apart h = record {
      target = h.rest.0 ∙ installed;
      staged = h.staged;
      moved = refl;
      installed = refl;
      fits = h.rest.2.0 ∙ apart;
    }

    same_services :
        (name : ServiceName) (w : World)
        → service name w ≡ service name start
        → service (other name) w ≡ service (other name) start
        → SameServices start w
    same_services native_name w e f = (e, f)
    same_services managed_name w e f = (f, e)

    upgraded-Promised : (w : World) → Done source tree a hik_bridge_version w → Promised upgraded w
    upgraded-Promised w h = (h.target, h.backup ∙ sym installed, h.verified)

    rollback-Promised :
        (old : Snapshot) (w : World) → IsFound start old → Restored tree old w → Promised restored w
    rollback-Promised old w found h = (
      h.target ∙ sym installed,
      same_services old.name w (h.replaced ∙ sym found.there) (h.apart ∙ sym found.apart),
    )

    incomplete-Promised : (w : World) → Safe tree w → Promised incomplete w
    incomplete-Promised w (inl h) = inl (h ∙ sym installed)
    incomplete-Promised w (inr h) = inr (h ∙ sym installed)

    attempt-Promised :
        (old : Snapshot)
        → IsFound start old
        → HasFailures a.rollback.restoring old.settings.failures
        → Ensures
            (Begun source tree a old.name)
            (attempt old hik_bridge_version a)
            Promised
            (Refusable start)
    unfolding attempt
    attempt-Promised old found given =
        Ensures-recovering (Broken source tree a old.name) _ _
          (Ensures-bind (λ _. Done source tree a hik_bridge_version) _ _
            (transaction-Done source tree a old hik_bridge_version)
            λ _. Ensures-pure upgraded upgraded-Promised)
          λ e.
            Ensures-recovering (λ f. Safe tree) _ _
              (Ensures-bind (λ _. Restored tree old) _ _
                (rollback-Restored tree old a.rollback given)
                λ _. Ensures-pure restored (λ w. rollback-Promised old w found))
              λ f. Ensures-pure incomplete incomplete-Promised

    -- The recovery settings of a registered service are not empty, and the rollback's call that sets them
    -- replaces those that it finds. ChangeServiceConfig2W does so for settings that name a list of
    -- actions, a message and a command; it leaves as it is what they do not name.
    abbrev pub HasRecovery : Type 0
    HasRecovery =
        (name : ServiceName) (r : Registration)
        → service name start ≡ some r
        → HasFailures a.rollback.restoring r.settings.failures

    replace-Promised :
        (old : Snapshot)
        → IsFound start old
        → HasFailures a.rollback.restoring old.settings.failures
        → Ensures (Same start) (replace source old hik_bridge_version a) Promised (Refusable start)
    unfolding replace
    replace-Promised old found given =
        Ensures-bind (λ _. Untouched start) _ _
          (Ensures-seen _ _ (λ unused.
            Ensures-before (λ w h. simp h (refl, refl, (refl, refl)))
              (Ensures-require unused (λ e w h. h))))
          λ _.
            Ensures-bind (λ _. Copied start source) _ _ (copy_all-Copied start a.copying source)
              λ _.
                then_required a.staged_valid _ (λ e w h. h.rest)
                  (then_required a.registry_exported _ (λ e w h. h.rest)
                    (Ensures-bind (λ _. Begun source tree a old.name) _ _
                      (Ensures-modify set_marks (λ w h. begun old.name w found.apart h))
                      λ _. attempt-Promised old found given))

    untouched : (w : World) → Same start w → Promised refused w
    untouched w h = (
      ap (λ (v : World). v.target_directory) h,
      ap (λ (v : World). v.backup_directory) h,
      (ap (λ (v : World). v.native_service) h, ap (λ (v : World). v.managed_service) h),
    )

    chosen-Promised :
        (check : Bool) (old : Snapshot) (version : Bytes)
        → HasRecovery
        → Ensures
            (Ready start (old, version))
            (either check (pure checked) (replace source old version a))
            Promised
            (Refusable start)
    chosen-Promised check old version recovery =
        Ensures-either check _ _ (Ensures-pure checked (λ w h. h.0.0)) (record {
          at = λ w h.
              subst
                (λ v.
                  Outcome Promised (Refusable start) (replace source old v a w).0
                    (replace source old v a w).1)
                (sym h.1)
                ((replace-Promised old h.0.1 (recovery old.name _ h.0.1.there)).at w h.0.0);
        })

    execute-Promised :
        (check : Bool)
        → HasRecovery
        → Ensures (Same start) (execute source a check) Promised (Refusable start)
    unfolding execute
    execute-Promised check recovery =
        Ensures-bind (Ready start) _ _
          (Ensures-excused (λ e. untouched) (preflight-Ready start a.preflight))
          λ found. chosen-Promised check found.0 found.1 recovery

    wmain-Ensures :
        (arguments : List Bytes)
        → HasRecovery
        → Ensures (Same start) (wmain source a arguments) Promised (λ e w. ⊥)
    unfolding wmain
    wmain-Ensures arguments recovery =
        Ensures-recovering (Refusable start) _ _
          (Ensures-bind (λ _. Same start) _ _
            (Ensures-decided (check_option arguments) (λ check e w h. h) (λ e w h. untouched w h))
            λ check. execute-Promised check recovery)
          λ e. Ensures-pure refused (λ w h. h)

    -- Whatever the calls of the system answer, if there is an installed directory, and the recovery
    -- settings of the registered services are not empty and replace those that they are set over, the
    -- tool keeps its promise: it refuses and
    -- leaves that directory, the backup and the services alone; or it only checks and changes nothing;
    -- or it has replaced the directory by the package, as the installation script leaves it, kept the
    -- old one as the backup and verified the new service; or it has put back the directory and both
    -- services, with their settings and their running state; or, if the rollback itself failed, it has
    -- still kept the old directory, in its place or as the backup.
    pub wmain-Promised :
        (arguments : List Bytes)
        → HasRecovery
        → (v : Verdict) × ((wmain source a arguments start).1 ≡ ok v)
          × Promised v (wmain source a arguments start).0
    wmain-Promised arguments recovery = Ensures-total start (wmain-Ensures arguments recovery) refl
