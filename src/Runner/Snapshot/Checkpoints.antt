-- ===== src/Runner/Snapshot/Checkpoints.antt =====
-- When a pass publishes a checkpoint, and what an interrupted pass leaves of the old one.
use mathlib.Core.Option
use mathlib.Core.Path.{subst}
use csaf_trove.Base.{
  ◌≡◌, refl, ◌∙◌, sym, ap, Bool, true, false, Option, none, some, List, ◌⊎◌, inl, inr,
}
use csaf_trove.Base.Text.{Text, text_eq_refl}
use csaf_trove.Base.Map
use csaf_trove.Base.Map.{Map}
use csaf_trove.Base.Effect.{Result, ok, err}
use csaf_trove.Processing.Paths.{ProcessingCheckpoint}
use csaf_trove.Runner.World.{World, Action, Source, RetrievalFailure, ◌>>=◌, ◌>>◌, branch, when}
use csaf_trove.Runner.Snapshot.{
  Inputs, processing_checkpoint, clear_processing_checkpoint, save_processing_checkpoint,
  choose_inputs, process_selection, process_snapshot,
}
use csaf_trove.Runner.Snapshot.Keeps.{
  Keeps, Keeps-trans, made_from, call-Keeps, read-Keeps, processing_checkpoint-Keeps,
  choose_inputs-Keeps, process_selection-Keeps,
}
use csaf_trove.Runner.Snapshot.Outcomes.{
  Fails, Moves-Fails, bind-err, next-err, next-ok, bind-Fails, next-Fails, total-Fails,
}

module _ {D : Type 0} where
  -- A failure changes nothing but `summary_dirty`.
  abbrev pub FailsKeep : {A : Type 0} → Action D A → Type 0
  FailsKeep m = Fails (λ w v. Keeps w v) m

module _ {D : Type 0} (inputs : Inputs D) where
  save-FailsKeep :
      (domain : Text) (c : ProcessingCheckpoint)
      → FailsKeep (save_processing_checkpoint inputs domain c)
  unfolding save_processing_checkpoint
  save-FailsKeep domain c =
      next-Fails (λ w v. Keeps w v) Keeps-trans _ _ (call-Keeps _ _)
        (total-Fails (λ w v. Keeps w v) _ (λ w. (tt, _, refl)))

  -- The pass behind the checkpoint that it reads.
  abbrev work : Source → Bool → List RetrievalFailure → Option ProcessingCheckpoint → Action D Unit
  work source force_full failures previous =
      choose_inputs inputs source previous force_full >>= λ selection.
      process_selection inputs source previous failures selection
      >> save_processing_checkpoint inputs source.domain selection.checkpoint

  work-FailsKeep :
      (source : Source) (force_full : Bool) (failures : List RetrievalFailure)
      (previous : Option ProcessingCheckpoint)
      → FailsKeep (work source force_full failures previous)
  work-FailsKeep source force_full failures previous =
      bind-Fails (λ w v. Keeps w v) Keeps-trans _ _
        (choose_inputs-Keeps inputs source previous force_full)
        (λ selection.
          next-Fails (λ w v. Keeps w v) Keeps-trans _ _
            (process_selection-Keeps inputs source previous failures selection)
            (save-FailsKeep source.domain selection.checkpoint))

  -- A pass that is not forced and fails, at whichever step, leaves the sync states, the locks, the
  -- events, and the commit and fingerprint of every checkpoint as they were: the next pass selects
  -- the same changes again.
  pub process_snapshot-Keeps :
      (source : Source) (failures : List RetrievalFailure) (w : World D) (e : Text) (w' : World D)
      → process_snapshot inputs source false failures w ≡ (err e, w')
      → Keeps w w'
  unfolding process_snapshot when branch
  process_snapshot-Keeps source failures =
      (bind-Fails (λ w v. Keeps w v) Keeps-trans _ _
        (processing_checkpoint-Keeps inputs source.domain)
        (λ previous.
          next-Fails (λ w v. Keeps w v) Keeps-trans _ _ (read-Keeps _)
            (work-FailsKeep source false failures previous))).fails

  pub map-none : (o : Option ProcessingCheckpoint) → Option.map made_from o ≡ none → o ≡ none
  map-none none h = refl
  map-none (some c) h = cc

  -- The pass failed with `e` when it read the checkpoint, or when it cleared it.
  abbrev pub NotCleared : Text → World D → Text → World D → Type 0
  NotCleared domain w e w' =
      (processing_checkpoint inputs domain w ≡ (err e, w'))
      ⊎ ((previous : Option ProcessingCheckpoint) × (v : World D) × (processing_checkpoint inputs
              domain w
            ≡ (ok previous, v))
          × (clear_processing_checkpoint inputs domain v ≡ (err e, w')))

  -- What a forced pass that fails leaves: no checkpoint of the provider, unless it could not clear
  -- the one that was stored, which it then keeps.
  abbrev pub Invalidated : Text → World D → Text → World D → Type 0
  Invalidated domain w e w' =
      (Map.get domain w'.checkpoints ≡ none) ⊎ (NotCleared domain w e w' × Keeps w w')

  clear-FailsKeep : (domain : Text) → FailsKeep (clear_processing_checkpoint inputs domain)
  unfolding clear_processing_checkpoint
  clear-FailsKeep domain =
      next-Fails (λ w v. Keeps w v) Keeps-trans _ _ (call-Keeps _ _)
        (total-Fails (λ w v. Keeps w v) _ (λ w. (tt, _, refl)))

  clear-gone :
      (domain : Text) (w v : World D)
      → clear_processing_checkpoint inputs domain w ≡ (ok tt, v)
      → Map.get domain v.checkpoints ≡ none
  unfolding clear_processing_checkpoint
  clear-gone domain w v h =
      let (u, v1, called, removed) = next-ok _ _ w v tt h in
      ap (λ (r : Result Unit × World D). Map.get domain r.1.checkpoints) (sym removed)
      ∙ Map.get-remove domain domain v1.checkpoints
      ∙ rw text_eq_refl

  -- A forced pass that fails, at whichever step, leaves no checkpoint of the provider. Only a failure
  -- to read or to clear the stored checkpoint may leave it, and then the sync states, the locks, the
  -- events, and the commit and fingerprint of every checkpoint are as before.
  pub process_snapshot-Invalidated :
      (source : Source) (failures : List RetrievalFailure) (w : World D) (e : Text) (w' : World D)
      → process_snapshot inputs source true failures w ≡ (err e, w')
      → Invalidated source.domain w e w'
  unfolding process_snapshot when branch
  process_snapshot-Invalidated source failures w e w' ends = elim (bind-err _ _ w w' e ends) [
    | inl h ↦ inr (inl h, (reads.fails w e w' h))
    | inr (previous, v, read_ok, h) ↦ elim (next-err _ _ v w' e h) [
      | inl stuck ↦ inr (
        inr (previous, v, read_ok, stuck),
        Keeps-trans w v w'
            (subst (λ (r : Result _ × World D). Keeps w r.1) read_ok
              ((processing_checkpoint-Keeps inputs source.domain).moves w))
            ((clear-FailsKeep source.domain).fails v e w' stuck),
      )
      | inr (u, cleared, done, rest) ↦ inl (
          map-none _ (
            ((work-FailsKeep source true failures previous).fails cleared e w' rest).stored
              source.domain
            ∙ ap (Option.map made_from) (clear-gone source.domain v cleared done)))
    ]
  ]
    where
      reads : FailsKeep (processing_checkpoint inputs source.domain)
      reads = Moves-Fails (λ w v. Keeps w v) _ (processing_checkpoint-Keeps inputs source.domain)
