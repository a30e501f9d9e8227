-- ===== src/Upgrade/Copying.antt =====
-- What the copy of the package leaves alone.
use hik_hcnet_http_bridge.Common.{
  ◌≡◌, refl, sym, ap, subst, [], ◌∷◌, ◌++◌, append_assoc, append-nil, some, arith,
}
use hik_hcnet_http_bridge.Text.{Bytes}
use hik_hcnet_http_bridge.Error.{Fault}
use hik_hcnet_http_bridge.Effect.Ensures.{
  Ensures, Ensures-pure, Ensures-bind, Ensures-modify, Ensures-seen, Ensures-before,
  Ensures-decided, Ensures-weaken,
}
use hik_hcnet_http_bridge.Upgrade.World.{World, Directory}
use hik_hcnet_http_bridge.Upgrade.Files.{copy_files, copy_all, CopyAnswers, equal_file, add_file}
use hik_hcnet_http_bridge.Upgrade.Files.Copies.{equal_file-eq}
use hik_hcnet_http_bridge.Upgrade.Rules.{Ensures-require}
use hik_hcnet_http_bridge.Upgrade.Atomic.{then_required, then_known}

module _ (start : World) where
  -- Both services are as they were.
  abbrev pub SameServices : World → Type 0
  SameServices w =
      (w.native_service ≡ start.native_service) × (w.managed_service ≡ start.managed_service)

  -- Only what lies beside the installed directory may have changed.
  abbrev pub Untouched : World → Type 0
  Untouched w =
      (w.target_directory ≡ start.target_directory)
      × (w.backup_directory ≡ start.backup_directory)
      × SameServices w

  -- Before the try block only the copy of the package changes.
  pub record Copied (d : Directory) (w : World) : Type 0 where
    pub staged : w.staged_directory ≡ some d
    pub rest : Untouched w

  abbrev pub Refusable : Fault → World → Type 0
  Refusable e w = Untouched w

  copy_files-Copied :
      (answers : CopyAnswers) (done files : Directory)
      → Ensures (Copied done) (copy_files answers files) (λ _. Copied (done ++ files)) Refusable
  unfolding copy_files
  copy_files-Copied answers done [] =
      Ensures-pure tt (λ w h. subst (λ d. Copied d w) (sym (append-nil done)) h)
  copy_files-Copied answers done ((path, content) ∷ files) =
      then_required (answers.link_free path) _ (λ e w h. h.rest)
        (then_required (answers.regular path) _ (λ e w h. h.rest)
          (Ensures-bind (λ _. Copied done) _ _
            (Ensures-decided (answers.copied path) (λ c e w h. h) (λ e w h. h.rest))
            λ copied.
              Ensures-bind (λ _. Copied (done ++ (path, copied) ∷ [])) _ _
                (Ensures-modify (add_file path copied)
                  (λ w h. record { staged = ground (arith, h.staged); rest = h.rest }))
                λ _.
                  then_known (equal_file content copied) _ (λ e w h. h.rest)
                    λ same.
                      Ensures-before
                        (λ w h.
                          subst (λ d. Copied d w)
                            (one_more content copied ((equal_file-eq content copied).0 same)) h)
                        (Ensures-weaken
                          (λ u w h.
                            subst (λ d. Copied d w) (append_assoc done ((path, content) ∷ []) files)
                              h)
                          (copy_files-Copied answers (done ++ (path, content) ∷ []) files))))
    where
      one_more : (c d : Bytes) → c ≡ d → done ++ (path, d) ∷ [] ≡ done ++ (path, c) ∷ []
      one_more c d e = ap (λ b. done ++ (path, b) ∷ []) (sym e)

  pub copy_all-Copied :
      (answers : CopyAnswers) (source : Directory)
      → Ensures Untouched (copy_all answers source) (λ _. Copied source) Refusable
  unfolding copy_all
  copy_all-Copied answers source =
      Ensures-bind (λ _. Untouched) _ _
        (Ensures-seen _ _ (λ free. Ensures-require free (λ e w h. h)))
        λ _.
          Ensures-bind (λ _. Copied []) _ _
            (Ensures-modify _ (λ w h. record { staged = refl; rest = h }))
            λ _. copy_files-Copied answers [] source
