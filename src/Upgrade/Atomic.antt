-- ===== src/Upgrade/Atomic.antt =====
-- An upgrade is done or undone.
use hik_hcnet_http_bridge.Common.{
  ◌≡◌, refl, ap, sym, ◌∙◌, subst, Bool, true, false, inl, inr, none, some, arith,
}
use hik_hcnet_http_bridge.Text.{Bytes}
use hik_hcnet_http_bridge.Error.{ok, Fault, other_exception}
use hik_hcnet_http_bridge.Effect.{Effect, ◌>>=◌, ◌>>◌, modify, lift, unless}
use hik_hcnet_http_bridge.Effect.Ensures.{
  Ensures, Ensures-bind, Ensures-modify, Ensures-unless, Ensures-decided,
}
use hik_hcnet_http_bridge.Upgrade.World.{
  World, Directory, target, backup, staged, ServiceName, native_name, managed_name, Snapshot,
  service, put_service, require,
}
use hik_hcnet_http_bridge.Upgrade.Services.{Entry, remove}
use hik_hcnet_http_bridge.Upgrade.Verify.{verify, is_native}
use hik_hcnet_http_bridge.Upgrade.Transaction.{
  ScriptReach, left_alone, stopped, removed, reached, UpgradeAnswers, transaction, run_script,
  set_moved, set_installed,
}
use hik_hcnet_http_bridge.Upgrade.Rules.{
  Quiet, Ensures-require, Ensures-stop, Ensures-remove, Ensures-rename,
}
use hik_hcnet_http_bridge.Upgrade.Undoing.{Fits, Fits-put, service-put, Kept}

-- One test, and then the rest.
pub then_required :
    {S A : Type 0} {P : S → Type 0} {R : Fault → S → Type 0} {Q : A → S → Type 0} (test : Bool)
    (rest : Effect S A)
    → ((e : Fault) (s : S) → P s → R e s)
    → Ensures P rest Q R
    → Ensures P (require test >> rest) Q R
then_required {S} {A} {P} test rest fails later =
    Ensures-bind (λ _. P) _ _ (Ensures-require test fails) λ _. later

-- One test that the rest goes by.
pub then_known :
    {S A : Type 0} {P : S → Type 0} {R : Fault → S → Type 0} {Q : A → S → Type 0} (test : Bool)
    (rest : Effect S A)
    → ((e : Fault) (s : S) → P s → R e s)
    → (test ≡ true → Ensures P rest Q R)
    → Ensures P (require test >> rest) Q R
unfolding require unless lift ◌>>=◌
then_known true rest fails later = record { at = λ s p. (later refl).at s p }
then_known false rest fails later = record { at = λ s p. fails other_exception s p }

reached-none : (reach : ScriptReach) → reached reach none ≡ none
reached-none left_alone = refl
reached-none stopped = refl
reached-none removed = refl

reached-Quiet : (reach : ScriptReach) (x : Entry) → Quiet x → Quiet (reached reach x)
reached-Quiet left_alone x quiet = quiet
reached-Quiet stopped none quiet = tt
reached-Quiet stopped (some r) quiet = refl
reached-Quiet removed x quiet = tt

module _ (source tree : Directory) (a : UpgradeAnswers) where
  -- The world on the way through the try block, for the service that is replaced.
  pub record Begun (name : ServiceName) (w : World) : Type 0 where
    pub target : w.target_directory ≡ some tree
    pub staged : w.staged_directory ≡ some source
    pub moved : w.moved ≡ false
    pub installed : w.installed ≡ false
    pub fits : Fits name false w

  record Stopped (name : ServiceName) (w : World) : Type 0 where
    begun : Begun name w
    quiet : Quiet (service name w)

  record Aside (name : ServiceName) (mark : Bool) (w : World) : Type 0 where
    backup : w.backup_directory ≡ some tree
    staged : w.staged_directory ≡ some source
    moved : w.moved ≡ mark
    installed : w.installed ≡ false
    fits : Fits name false w
    quiet : Quiet (service name w)

  record Swapped (name : ServiceName) (w : World) : Type 0 where
    backup : w.backup_directory ≡ some tree
    target : w.target_directory ≡ some source
    moved : w.moved ≡ true
    installed : w.installed ≡ false
    fits : Fits name false w
    quiet : Quiet (service name w)

  record Installed (name : ServiceName) (files : Directory) (w : World) : Type 0 where
    backup : w.backup_directory ≡ some tree
    target : w.target_directory ≡ some files
    moved : w.moved ≡ true
    installed : w.installed ≡ true
    fits : Fits name true w

  abbrev pub Broken : ServiceName → Fault → World → Type 0
  Broken name e w = Kept tree w × Fits name w.installed w

  Begun-Broken : (name : ServiceName) (e : Fault) (w : World) → Begun name w → Broken name e w
  Begun-Broken name e w h =
      (inl (h.moved, h.target), subst (λ b. Fits name b w) (sym h.installed) h.fits)

  Begun-put :
      (name : ServiceName) (x : Entry) (w : World)
      → Begun name w
      → Begun name (put_service name x w)
  Begun-put name x w h = record {
    target = h.target;
    staged = h.staged;
    moved = h.moved;
    installed = h.installed;
    fits = Fits-put name x w h.fits;
  }

  -- The old service does not run: it does not matter once the script has run.
  Fits-installed :
      (name : ServiceName) (w : World)
      → Fits name false w
      → Quiet (service name w)
      → Fits name true w
  Fits-installed native_name w fits quiet = fits
  Fits-installed managed_name w fits quiet = quiet

  Fits-script :
      (name : ServiceName) (w : World) → Fits name true w → Fits name true (run_script a w)
  Fits-script native_name w fits =
      ap (reached a.script_managed) fits ∙ reached-none a.script_managed
  Fits-script managed_name w fits = reached-Quiet a.script_managed w.managed_service fits

  away :
      (name : ServiceName) (e : Fault) (w : World)
      → w.backup_directory ≡ some tree
      → w.moved ≡ true
      → w.installed ≡ false
      → Fits name false w
      → Broken name e w
  away name e w aside mark unmarked fits =
      (inr (mark, aside), subst (λ b. Fits name b w) (sym unmarked) fits)

  Installed-Broken :
      (name : ServiceName) (files : Directory) (e : Fault) (w : World)
      → Installed name files w
      → Broken name e w
  Installed-Broken name files e w h =
      (inr (h.moved, h.backup), subst (λ b. Fits name b w) (sym h.installed) h.fits)

  -- The old directory is beside the new one, as the script left it, and the new service was verified.
  pub record Done (expected : Bytes) (w : World) : Type 0 where
    pub backup : w.backup_directory ≡ some tree
    pub target : w.target_directory ≡ some (a.script_files source)
    pub verified : verify expected a.turns ≡ ok tt

  module _ (old : Snapshot) (expected : Bytes) where
    removing :
        Ensures
          (Swapped old.name)
          (unless (is_native old.kind) (remove old.name a.removing))
          (λ _. Swapped old.name)
          (Broken old.name)
    removing =
        Ensures-unless _ _ (λ e w h. h)
          (λ e.
            Ensures-remove old.name a.removing
              (λ w h. record {
                backup = h.backup;
                target = h.target;
                moved = h.moved;
                installed = h.installed;
                fits = Fits-put old.name none w h.fits;
                quiet = subst Quiet (sym (service-put old.name none w)) tt;
              })
              (λ e w x h.
                away old.name e (put_service old.name x w) h.backup h.moved h.installed
                  (Fits-put old.name x w h.fits)))

    installing :
        Ensures
          (Swapped old.name)
          (modify set_installed
            >> (modify (run_script a)
                >> (require a.script_succeeds >> lift (verify expected a.turns))))
          (λ _. Done expected)
          (Broken old.name)
    installing =
        Ensures-bind (λ _. Installed old.name source) _ _
          (Ensures-modify _ (λ w h. record {
            backup = h.backup;
            target = h.target;
            moved = h.moved;
            installed = refl;
            fits = Fits-installed old.name w h.fits h.quiet;
          }))
          λ _.
            Ensures-bind (λ _. Installed old.name (a.script_files source)) _ _
              (Ensures-modify _ (λ w h. record {
                backup = h.backup;
                target = ground (arith, h.target);
                moved = h.moved;
                installed = h.installed;
                fits = Fits-script old.name w h.fits;
              }))
              λ _.
                then_required a.script_succeeds _
                  (Installed-Broken old.name (a.script_files source))
                  (Ensures-decided (verify expected a.turns)
                    (λ u passed w h. record {
                      backup = h.backup;
                      target = h.target;
                      verified = passed;
                    })
                    (Installed-Broken old.name (a.script_files source)))

    pub transaction-Done :
        Ensures (Begun old.name) (transaction old expected a) (λ _. Done expected) (Broken old.name)
    unfolding transaction
    transaction-Done =
        Ensures-bind (λ _. Stopped old.name) _ _
          (Ensures-stop old.name a.stopping
            (λ w x h q. record {
              begun = Begun-put old.name x w h;
              quiet = subst Quiet (sym (service-put old.name x w)) q;
            })
            (λ e w x h.
              Begun-Broken old.name e (put_service old.name x w) (Begun-put old.name x w h)))
          λ _.
            Ensures-bind (λ _. Aside old.name false) _ _
              (Ensures-rename a.moves_old target backup
                (λ w d h found. record {
                  backup = sym found ∙ h.begun.target;
                  staged = h.begun.staged;
                  moved = h.begun.moved;
                  installed = h.begun.installed;
                  fits = h.begun.fits;
                  quiet = h.quiet;
                })
                (λ e w h. Begun-Broken old.name e w h.begun))
              λ _.
                Ensures-bind (λ _. Aside old.name true) _ _
                  (Ensures-modify set_moved (λ w h. record {
                    backup = h.backup;
                    staged = h.staged;
                    moved = refl;
                    installed = h.installed;
                    fits = h.fits;
                    quiet = h.quiet;
                  }))
                  λ _.
                    Ensures-bind (λ _. Swapped old.name) _ _
                      (Ensures-rename a.moves_new staged target
                        (λ w d h found. record {
                          backup = h.backup;
                          target = sym found ∙ h.staged;
                          moved = h.moved;
                          installed = h.installed;
                          fits = h.fits;
                          quiet = h.quiet;
                        })
                        (λ e w h. away old.name e w h.backup h.moved h.installed h.fits))
                      λ _.
                        then_required a.target_valid _
                          (λ e w h. away old.name e w h.backup h.moved h.installed h.fits)
                          (Ensures-bind (λ _. Swapped old.name) _ _ removing λ _. installing)
