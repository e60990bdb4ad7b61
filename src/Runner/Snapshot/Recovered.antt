-- ===== src/Runner/Snapshot/Recovered.antt =====
-- Adding the recovered downloads to a selection keeps its checkpoint.
use csaf_trove.Base.{
  ◌≡◌, refl, ◌∙◌, sym, ap, Option, none, some, List, [], ◌∷◌, inl, inr, Bool-cases, ℕ, zero, suc,
}
use csaf_trove.Base.Text.{Text}
use csaf_trove.Base.Effect.{Result, ok, ok-injective, Result-cases}
use csaf_trove.Processing.Paths.{ProcessingSelection}
use csaf_trove.Runner.World.{World, ◌>>=◌, ◌>>◌, pure, read, branch}
use csaf_trove.Runner.Snapshot.{
  Inputs, include_path, include_urls, include_recovered_downloads, check_downloads, recovered,
  on_page,
}
use csaf_trove.Runner.Snapshot.Outcomes.{bind-ok, next-ok}
use csaf_trove.Base.{◌+◌, length, last?}
use csaf_trove.Storage.PathSet.{advance}
use csaf_trove.Runner.Snapshot.{show_progress}

module _ {D : Type 0} (inputs : Inputs D) where
  pub pair-fst :
      {A : Type 0} {r : Result A} {a : A} {w w' : World D}
      → ◌≡◌ {A = Result A × World D} (r, w) (ok a, w')
      → r ≡ ok a
  pair-fst h = cc

  pub pair-snd :
      {A : Type 0} {r : Result A} {a : A} {w w' : World D}
      → ◌≡◌ {A = Result A × World D} (r, w) (ok a, w')
      → w ≡ w'
  pair-snd h = cc

  include_path-checkpoint :
      (domain : Text) (path : Option Text) (d : D) (selection : ProcessingSelection)
      → (include_path inputs domain path d selection).checkpoint ≡ selection.checkpoint
  unfolding include_path
  include_path-checkpoint domain none d selection = refl
  include_path-checkpoint domain (some path) d selection =
      elim (Bool-cases (inputs.services.downloaded domain path d)) [
        | inl there ↦ rw there
        | inr absent ↦ rw absent
      ]

  included-checkpoint :
      (domain : Text) (urls : List Text) (d : D) (selection selection' : ProcessingSelection)
      → include_urls inputs domain urls d selection ≡ ok selection'
      → selection'.checkpoint ≡ selection.checkpoint
  unfolding include_urls
  included-checkpoint domain [] d selection selection' h =
      ap (λ (s : ProcessingSelection). s.checkpoint) (sym (ok-injective h))
  included-checkpoint domain (url ∷ urls) d selection selection' h =
      elim (Result-cases (inputs.url_to_git_path url)) [
        | inl (path, parsed) ↦
            included-checkpoint domain urls d (include_path inputs domain path d selection)
              selection' (rw (parsed, include_urls) at h)
            ∙ include_path-checkpoint domain path d selection
        | inr (e, failed) ↦ let h' = rw (failed, include_urls) at h in cc
      ]

  include_recovered-checkpoint :
      (domain : Text) (urls : List Text) (selection selection' : ProcessingSelection)
      (w w' : World D)
      → include_recovered_downloads inputs domain urls selection w ≡ (ok selection', w')
      → selection'.checkpoint ≡ selection.checkpoint
  unfolding include_recovered_downloads branch pure read
  include_recovered-checkpoint domain urls selection selection' w w' h =
      elim (Bool-cases selection.full) [
        | inl full ↦
            let h' = simp full at h in
            ap (λ (s : ProcessingSelection). s.checkpoint) (sym (ok-injective (pair-fst h')))
        | inr part ↦
            let h' = simp part at h in
            included-checkpoint domain urls w.rest selection selection' (pair-fst h')
      ]

  check_downloads-checkpoint :
      (fuel : ℕ) (domain cursor : Text) (checked : ℕ) (selection selection' : ProcessingSelection)
      (w w' : World D)
      → check_downloads inputs fuel domain cursor checked selection w ≡ (ok selection', w')
      → selection'.checkpoint ≡ selection.checkpoint
  unfolding check_downloads pure read
  check_downloads-checkpoint zero domain cursor checked selection selection' w w' h = cc
  check_downloads-checkpoint (suc fuel) domain cursor checked selection selection' w w' h =
      let (urls, v, asked, h1) = bind-ok _ _ w w' selection' h in
      page urls v h1
        (λ v1 included h2. check_downloads-checkpoint fuel domain _ _ included selection' v1 w' h2)
    where
      page :
          (urls : List Text) (v : World D)
          → on_page inputs urls
              (pure selection)
              (include_recovered_downloads inputs domain urls selection >>= λ included.
                show_progress inputs domain (checked + length urls) 0
                >> check_downloads inputs fuel domain
                    (advance cursor (last? urls))
                    (checked + length urls)
                    included)
              v
            ≡ (ok selection', w')
          → ((v1 : World D) (included : ProcessingSelection)
              → check_downloads inputs fuel domain
                  (advance cursor (last? urls))
                  (checked + length urls)
                  included
                  v1
                ≡ (ok selection', w')
              → selection'.checkpoint ≡ included.checkpoint)
          → selection'.checkpoint ≡ selection.checkpoint
      page [] v h1 again =
          ap (λ (s : ProcessingSelection). s.checkpoint) (sym (ok-injective (pair-fst h1)))
      page (url ∷ urls) v h1 again =
          let (included, v1, ran, h2) = bind-ok _ _ v w' selection' h1 in
          let (u, v2, shown, h3) = next-ok _ _ v1 w' selection' h2 in
          again v2 included h3
          ∙ include_recovered-checkpoint domain (url ∷ urls) selection included v v1 ran

  pub recovered-checkpoint :
      (domain : Text) (selection selection' : ProcessingSelection) (w w' : World D)
      → recovered inputs domain selection w ≡ (ok selection', w')
      → selection'.checkpoint ≡ selection.checkpoint
  unfolding recovered branch pure read
  recovered-checkpoint domain selection selection' w w' h = elim (Bool-cases selection.full) [
    | inl full ↦
        let h' = simp full at h in
        ap (λ (s : ProcessingSelection). s.checkpoint) (sym (ok-injective (pair-fst h')))
    | inr part ↦
        check_downloads-checkpoint inputs.pages domain [] 0 selection selection' w w'
          (simp part at h)
  ]
