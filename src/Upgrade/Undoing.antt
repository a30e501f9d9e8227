-- ===== src/Upgrade/Undoing.antt =====
-- What the rollback ensures: a directory that was moved is moved back, and the old service is restored.
use hik_hcnet_http_bridge.Common.{
  ◌≡◌, refl, sym, ◌∙◌, subst, Bool, true, false, ◌⊎◌, inl, inr, none, some, arith,
}
use hik_hcnet_http_bridge.Effect.{unless, either}
use hik_hcnet_http_bridge.Effect.Ensures.{
  Ensures, Ensures-bind, Ensures-known, Ensures-unless, Ensures-seen, Ensures-before,
}
use hik_hcnet_http_bridge.Upgrade.World.{
  World, Directory, target, backup, failed, ServiceName, native_name, managed_name, Snapshot,
  service, put_service,
}
use hik_hcnet_http_bridge.Upgrade.Services.{Entry}
use hik_hcnet_http_bridge.Upgrade.Transaction.{
  RollbackAnswers, undo_services, undo_directories, rollback,
}
use hik_hcnet_http_bridge.Upgrade.Rules.{
  HasFailures, Quiet, Ensures-stop, Ensures-remove, Ensures-restore, Ensures-rename,
}

-- The other service of the two.
abbrev pub other : ServiceName → ServiceName
other native_name = managed_name
other managed_name = native_name

-- What is known of the services, the native and the managed one: until the script runs, there is only
-- the one that is replaced; behind it, the old one does not run, where it is not the new one.
abbrev FitsEntries : ServiceName → Bool → Entry → Entry → Type 0
FitsEntries native_name installed n m = m ≡ none
FitsEntries managed_name false n m = n ≡ none
FitsEntries managed_name true n m = Quiet m

abbrev pub Fits : ServiceName → Bool → World → Type 0
Fits name installed w = FitsEntries name installed w.native_service w.managed_service

pub Fits-put :
    (name : ServiceName) (x : Entry) (w : World)
    → Fits name false w
    → Fits name false (put_service name x w)
Fits-put native_name x w h = h
Fits-put managed_name x w h = h

pub service-put :
    (name : ServiceName) (x : Entry) (w : World) → service name (put_service name x w) ≡ x
service-put native_name x w = refl
service-put managed_name x w = refl

other-put :
    (name : ServiceName) (x : Entry) (w : World)
    → service (other name) (put_service name x w) ≡ service (other name) w
other-put native_name x w = refl
other-put managed_name x w = refl

module _ (tree : Directory) where
  -- The old directory is where the mark tells.
  abbrev pub Kept : World → Type 0
  Kept w =
      ((w.moved ≡ false) × (w.target_directory ≡ some tree))
      ⊎ ((w.moved ≡ true) × (w.backup_directory ≡ some tree))

  abbrev pub Safe : World → Type 0
  Safe w = (w.target_directory ≡ some tree) ⊎ (w.backup_directory ≡ some tree)

  Kept-Safe : (w : World) → Kept w → Safe w
  Kept-Safe w (inl h) = inl h.1
  Kept-Safe w (inr h) = inr h.1

  -- Only the old service is there, and it does not run.
  record Alone (name : ServiceName) (w : World) : Type 0 where
    kept : Kept w
    quiet : Quiet (service name w)
    apart : service (other name) w ≡ none

  undo_services-Alone :
      (name : ServiceName) (a : RollbackAnswers) (installed : Bool)
      → Ensures
          (λ w. Kept w × Fits name installed w)
          (undo_services name a installed)
          (λ _. Alone name)
          (λ _. Safe)
  unfolding undo_services either unless
  undo_services-Alone native_name a true =
      Ensures-bind (λ _. Alone native_name) _ _
        (Ensures-stop native_name a.stopping_new
          (λ w x h q. record { kept = h.0; quiet = q; apart = h.1 }) (λ e w x h. Kept-Safe w h.0))
        λ _. record { at = λ w h. h }
  undo_services-Alone managed_name a true =
      Ensures-bind (λ _ w. Kept w × Quiet w.managed_service) _ _
        (Ensures-stop native_name a.stopping_new (λ w x h q. h) (λ e w x h. Kept-Safe w h.0))
        λ _.
          Ensures-remove native_name a.removing_new
            (λ w h. record { kept = h.0; quiet = h.1; apart = refl }) (λ e w x h. Kept-Safe w h.0)
  undo_services-Alone native_name a false =
      Ensures-stop native_name a.stopping_old
        (λ w x h q. record { kept = h.0; quiet = q; apart = h.1 }) (λ e w x h. Kept-Safe w h.0)
  undo_services-Alone managed_name a false =
      Ensures-stop managed_name a.stopping_old
        (λ w x h q. record { kept = h.0; quiet = q; apart = h.1 }) (λ e w x h. Kept-Safe w h.0)

  record Undone (name : ServiceName) (w : World) : Type 0 where
    target : w.target_directory ≡ some tree
    quiet : Quiet (service name w)
    apart : service (other name) w ≡ none

  record Aside (name : ServiceName) (w : World) : Type 0 where
    backup : w.backup_directory ≡ some tree
    quiet : Quiet (service name w)
    apart : service (other name) w ≡ none

  unmoved : (name : ServiceName) (w : World) → Alone name w → w.moved ≡ false → Undone name w
  unmoved name w h e = record { target = in_place h.kept; quiet = h.quiet; apart = h.apart }
    where
      in_place : Kept w → w.target_directory ≡ some tree
      in_place (inl k) = k.1
      in_place (inr k) = cc (k.0, e)

  put_by : (name : ServiceName) (w : World) → Alone name w → w.moved ≡ true → Aside name w
  put_by name w h e = record { backup = aside h.kept; quiet = h.quiet; apart = h.apart }
    where
      aside : Kept w → w.backup_directory ≡ some tree
      aside (inl k) = cc (k.0, e)
      aside (inr k) = k.1

  undo_directories-Undone :
      (name : ServiceName) (a : RollbackAnswers) (moved : Bool)
      → Ensures
          (λ w. Alone name w × (w.moved ≡ moved))
          (undo_directories a moved)
          (λ _. Undone name)
          (λ _. Safe)
  unfolding undo_directories
  undo_directories-Undone name a moved =
      Ensures-unless _ _ (λ e w h. unmoved name w h.0 (h.1 ∙ ground arith))
        (λ e.
          Ensures-bind (λ _. Aside name) _ _
            (Ensures-seen _ _ (λ there.
              Ensures-unless _ _ (λ f w h. put_by name w h.0 (h.1 ∙ ground arith))
                (λ f.
                  Ensures-rename a.sets_failed_aside target failed
                    (λ w d h found.
                      let aside = put_by name w h.0 (h.1 ∙ ground arith) in
                      record { backup = aside.backup; quiet = aside.quiet; apart = aside.apart })
                    (λ e w h. Kept-Safe w h.0.kept))))
            λ _.
              Ensures-rename a.moves_back backup target
                (λ w d h found. record {
                  target = sym found ∙ h.backup;
                  quiet = h.quiet;
                  apart = h.apart;
                })
                (λ e w h. inr h.backup))

  pub record Restored (old : Snapshot) (w : World) : Type 0 where
    pub target : w.target_directory ≡ some tree
    pub replaced :
        service old.name w ≡ some (record { settings = old.settings; running = old.running })
    pub apart : service (other old.name) w ≡ none

  -- A rollback that returns has put back the old directory and the old service, running if it ran; one
  -- that throws has at least kept the old directory.
  pub rollback-Restored :
      (old : Snapshot) (a : RollbackAnswers)
      → HasFailures a.restoring old.settings.failures
      → Ensures
          (λ w. Kept w × Fits old.name w.installed w)
          (rollback old a)
          (λ _. Restored old)
          (λ _. Safe)
  unfolding rollback
  rollback-Restored old a given =
      Ensures-bind (λ _. Alone old.name) _ _
        (Ensures-known _ _ (λ installed.
          Ensures-before (λ w h. (h.0.0, subst (λ b. Fits old.name b w) h.1 h.0.1))
            (undo_services-Alone old.name a installed)))
        λ _.
          Ensures-bind (λ _. Undone old.name) _ _
            (Ensures-known _ _ (λ moved. undo_directories-Undone old.name a moved))
            λ _.
              Ensures-restore old a.restoring given (λ w h. h.quiet)
                (λ w h. record {
                  target = h.target;
                  replaced = service-put old.name _ w;
                  apart = other-put old.name _ w ∙ h.apart;
                })
                (λ e w x h. inl h.target)
