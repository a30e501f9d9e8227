-- ===== src/Upgrade/Finding.antt =====
-- What the tool has found when its preflight is over.
use hik_hcnet_http_bridge.Common.{
  ◌≡◌, refl, sym, subst, Bool, true, false, Option, none, some, has_value, ◌==◌,
}
use hik_hcnet_http_bridge.Text.{Bytes, equal, eq_of_equal}
use hik_hcnet_http_bridge.Error
use hik_hcnet_http_bridge.Error.{Returns, >>=-Returns, Result, ok, err, Fault, other_exception}
use hik_hcnet_http_bridge.Effect.{lift, look}
use hik_hcnet_http_bridge.Effect.Ensures.{
  Outcome, Ensures, Ensures-pure, Ensures-bind, Ensures-decided, Ensures-given,
}
use hik_hcnet_http_bridge.Upgrade.World.{
  World, ServiceName, native_name, managed_name, Registration, Snapshot, service,
}
use hik_hcnet_http_bridge.Upgrade.Verify.{required}
use hik_hcnet_http_bridge.Upgrade.Transaction.{
  discovered, discover, only_one, Preflight, preflight, check_package, check_installation,
  hik_bridge_version,
}
use hik_hcnet_http_bridge.Upgrade.Snapshots.{
  SnapshotAnswers, snapshot, snapshot_found, identify, lower, own_process, is_system_account,
}
use hik_hcnet_http_bridge.Upgrade.Rules.{Ensures-require}
use hik_hcnet_http_bridge.Upgrade.Undoing.{other}
use hik_hcnet_http_bridge.Upgrade.Atomic.{then_required, then_known}

absent : (x : Option Registration) → has_value x ≡ false → x ≡ none
absent none e = refl
absent (some r) e = cc

behind_required :
    (P : Snapshot → Type 0) (k : Result Snapshot) (test : Bool)
    → Returns P (λ _. Unit {0}) k
    → Returns P (λ _. Unit {0}) (Error.◌>>◌ (required test) k)
behind_required P k true h = h
behind_required P k false h = tt

module _ (start : World) where
  -- One service of the two is registered, as the snapshot tells.
  pub record IsFound (old : Snapshot) : Type 0 where
    pub there :
        service old.name start ≡ some (record { settings = old.settings; running = old.running })
    pub apart : service (other old.name) start ≡ none

  abbrev pub Same : World → Type 0
  Same w = w ≡ start

  abbrev pub SameThrown : Fault → World → Type 0
  SameThrown e = Same

  snapshot-IsFound :
      (answers : SnapshotAnswers) (name : ServiceName)
      → service (other name) start ≡ none
      → (found : Option Registration) → service name start ≡ found
      → Outcome (λ old w. Same w × IsFound old) SameThrown start (snapshot answers name found)
  unfolding snapshot
  snapshot-IsFound answers name apart none e = refl
  snapshot-IsFound answers name apart (some r) e = outcome (snapshot_found answers name r) (
      unfold snapshot_found in
      behind_required IsFound _ answers.queried (
        behind_required IsFound _ answers.stable (
          behind_required IsFound _ answers.absolute (
            behind_required IsFound _ answers.link_free (
              >>=-Returns IsFound (λ _. Unit {0})
                (identify answers.file_name answers.program answers.words) _ (λ e f. tt)
                λ kind found. behind_required IsFound _ (r.settings.config.type == own_process) (
                  behind_required IsFound _ (is_system_account (lower r.settings.config.account))
                    (record { there = e; apart = apart })))))))
    where
      outcome :
          (result : Result Snapshot)
          → Returns IsFound (λ _. Unit {0}) result
          → Outcome (λ old w. Same w × IsFound old) SameThrown start result
      outcome (ok old) h = (refl, h)
      outcome (err e) h = refl

  discovered-IsFound :
      (answers : SnapshotAnswers) (n m : Bool)
      → has_value start.native_service ≡ n
      → has_value start.managed_service ≡ m
      → Outcome
          (λ old w. Same w × IsFound old)
          SameThrown
          (discovered answers (only_one n m) start).0
          (discovered answers (only_one n m) start).1
  unfolding discovered look lift
  discovered-IsFound answers true true e f = refl
  discovered-IsFound answers false false e f = refl
  discovered-IsFound answers true false e f =
      snapshot-IsFound answers native_name (absent start.managed_service f) start.native_service
        refl
  discovered-IsFound answers false true e f =
      snapshot-IsFound answers managed_name (absent start.native_service e) start.managed_service
        refl

  discover-IsFound :
      (answers : SnapshotAnswers)
      → Ensures Same (discover answers) (λ old w. Same w × IsFound old) SameThrown
  unfolding discover look
  discover-IsFound answers = record {
    at = λ w h.
        subst
          (λ v.
            Outcome (λ old w. Same w × IsFound old) SameThrown (discover answers v).0
              (discover answers v).1)
          (sym h)
          (discovered-IsFound answers (has_value start.native_service)
            (has_value start.managed_service) refl refl);
  }

  abbrev pub Ready : Snapshot × Bytes → World → Type 0
  Ready found w = (Same w × IsFound found.0) × (found.1 ≡ hik_bridge_version)

  same_thrown : (e : Fault) (w : World) → Same w → SameThrown e w
  same_thrown e w h = h

  check_package-Same :
      (p : Preflight)
      → Ensures Same
          (check_package p)
          (λ version w. Same w × (version ≡ hik_bridge_version))
          SameThrown
  unfolding check_package
  check_package-Same p = then_required p.admin _ same_thrown (
      then_required p.locked _ same_thrown (
        then_required p.package_complete _ same_thrown (
          then_required p.native_package _ same_thrown (
            then_required p.configuration_valid _ same_thrown (
              Ensures-bind (λ _. Same) _ _
                (Ensures-decided p.version (λ version e w h. h) same_thrown)
                λ version. then_known (equal version hik_bridge_version) _ same_thrown λ e.
                  then_required p.port_valid _ same_thrown (
                    then_required p.manager_opened _ same_thrown (
                      then_required p.inspectable _ same_thrown (
                        Ensures-pure version
                          (λ w h. (h, eq_of_equal version hik_bridge_version e))))))))))

  check_installation-Keeps :
      {P : World → Type 0} (p : Preflight)
      → ((w : World) → P w → Same w)
      → Ensures P (check_installation p) (λ _. P) SameThrown
  unfolding check_installation
  check_installation-Keeps p same =
      then_required p.paths_valid _ (λ e. same)
        (then_required p.no_tasks _ (λ e. same)
          (then_required p.source_link_free _ (λ e. same)
            (Ensures-require p.target_link_free (λ e. same))))

  pub preflight-Ready : (p : Preflight) → Ensures Same (preflight p) Ready SameThrown
  unfolding preflight
  preflight-Ready p =
      Ensures-bind (λ version w. Same w × (version ≡ hik_bridge_version)) _ _ (check_package-Same p)
        λ version.
          Ensures-bind (λ old w. (Same w × IsFound old) × (version ≡ hik_bridge_version)) _ _
            (Ensures-given (discover-IsFound p.snapshot))
            λ old.
              Ensures-bind (λ _ w. (Same w × IsFound old) × (version ≡ hik_bridge_version)) _ _
                (check_installation-Keeps p (λ w h. h.0.0))
                λ _. Ensures-pure (old, version) (λ w h. h)
