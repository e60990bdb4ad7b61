-- ===== src/Runner/Snapshot/Resumed.antt =====
-- The pass behind an interrupted revalidation.
use mathlib.Core.Option
use csaf_trove.Base.{◌≡◌, refl, sym, ◌∙◌, ap, Bool, true, false, none, List, ◌⊎◌, inl, inr}
use csaf_trove.Base.Text.{Text}
use csaf_trove.Base.Effect.{ok, err, ok-injective}
use csaf_trove.Processing.Paths.{ProcessingSelection}
use csaf_trove.Processing.Incremental.{select_processing-baseline}
use csaf_trove.Runner.World.{World, Action, Source, RetrievalFailure, pure, read, branch}
use csaf_trove.Runner.Snapshot.{Inputs, recovered, process_snapshot}
use csaf_trove.Runner.Snapshot.Keeps.{made_from, stored_inputs}
use csaf_trove.Runner.Snapshot.Checkpoints.{NotCleared, map-none, process_snapshot-Invalidated}
use csaf_trove.Runner.Snapshot.Recovered.{pair-fst}
use csaf_trove.Runner.Snapshot.Published.{IsPublished, process_snapshot-IsPublished}

module _ {D : Type 0} (inputs : Inputs D) where
  -- The pass processes everything: it ignores what was stored, its selection is a full baseline, and
  -- no recovered download changes that selection.
  pub record Revalidates (source : Source) (force_full : Bool) (failures : List RetrievalFailure)
      (w w' : World D) : Type 0 where
    pub published : IsPublished inputs source force_full failures w w'
    pub fresh : published.previous ≡ none
    pub full : published.selection.full ≡ true
    pub baseline : published.selection.baseline ≡ true
    pub unchanged : published.processed ≡ published.selection

  branch-true : {A : Type 0} (b : Bool) (m k : Action D A) → b ≡ true → branch b m k ≡ m
  unfolding branch
  branch-true true m k h = refl
  branch-true false m k h = cc

  recovered-full :
      (domain : Text) (selection processed : ProcessingSelection) (w w' : World D)
      → selection.full ≡ true
      → recovered inputs domain selection w ≡ (ok processed, w')
      → processed ≡ selection
  unfolding recovered pure read
  recovered-full domain selection processed w w' full h =
      let ran = ap (λ (m : Action D ProcessingSelection). m w) (branch-true _ _ _ full) in
      sym (ok-injective (pair-fst inputs (sym ran ∙ h)))

  IsPublished-Revalidates :
      (source : Source) (force_full : Bool) (failures : List RetrievalFailure) (w w' : World D)
      → stored_inputs source.domain w ≡ none
      → IsPublished inputs source force_full failures w w'
      → Revalidates source force_full failures w w'
  IsPublished-Revalidates source force_full failures w w' missing p =
      let fresh : p.previous ≡ none = map-none inputs p.previous (p.as_stored ∙ missing) in
      let chosen =
        select_processing-baseline inputs.digests inputs.commits inputs.levels
          (inputs.repository source.domain p.choosing.rest) p.head p.previous p.identity
          p.selection.checkpoint.fingerprint force_full p.at_head p.printed (rw fresh refl) in
      let same = ok-injective (sym p.selects ∙ chosen) in
      let full : p.selection.full ≡ true = ap (λ (s : ProcessingSelection). s.full) same in
      record {
        published = p;
        fresh = fresh;
        full = full;
        baseline = ap (λ (s : ProcessingSelection). s.baseline) same;
        unchanged =
            recovered-full source.domain p.selection p.processed p.checking p.between full
              p.recovers;
      }

  -- A forced pass fails, a later pass, forced or not, starts with the commit and the fingerprint of
  -- the checkpoint that the failure left, if it left one, and succeeds. Then the later pass uses no
  -- stored checkpoint and processes a full baseline, unless the forced pass failed at its first
  -- steps, which read and clear the stored checkpoint.
  pub process_snapshot-Revalidates :
      (source : Source) (force_full : Bool) (failures later : List RetrievalFailure)
      (w w1 v v1 : World D) (e : Text)
      → process_snapshot inputs source true failures w ≡ (err e, w1)
      → stored_inputs source.domain v ≡ stored_inputs source.domain w1
      → process_snapshot inputs source force_full later v ≡ (ok tt, v1)
      → NotCleared inputs source.domain w e w1 ⊎ Revalidates source force_full later v v1
  process_snapshot-Revalidates source force_full failures later w w1 v v1 e ends same ran =
      elim (process_snapshot-Invalidated inputs source failures w e w1 ends) [
        | inl gone ↦ inr (
            IsPublished-Revalidates source force_full later v v1
              (same ∙ ap (Option.map made_from) gone)
              (process_snapshot-IsPublished inputs source force_full later v v1 ran))
        | inr (stuck, keeps) ↦ inl stuck
      ]
