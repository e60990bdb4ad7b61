-- ===== src/Runner/Snapshot/Published.antt =====
-- What a successful pass publishes: the checkpoint of the selection that it processed.
use csaf_trove.Runner.Snapshot.Keeps.{made_from, stored_inputs, call-Keeps}
use csaf_trove.Processing.Select.{select_processing}
use mathlib.Core.Option
use csaf_trove.Base.{◌≡◌, ◌∙◌, sym, ap, Bool, false, Option, some, List}
use csaf_trove.Base.Text.{Text, text_eq_refl}
use csaf_trove.Base.Map
use csaf_trove.Base.Map.{Map}
use csaf_trove.Base.Effect.{ok, ok-injective}
use csaf_trove.Processing.Paths.{ProcessingCheckpoint, ProcessingSelection}
use csaf_trove.Runner.World.{
  World, Action, when, Source, RetrievalFailure, call, ◌>>=◌, ◌>>◌, pure, read,
}
use csaf_trove.Runner.Snapshot.{
  Inputs, enter, clear_processing_checkpoint, processing_checkpoint, process_selection,
  save_processing_checkpoint, choose_inputs, process_snapshot, recovered, run_selection,
}
use csaf_trove.Runner.Snapshot.Outcomes.{bind-ok, next-ok, bind-run, next-run}
use csaf_trove.Storage.TreeDiff.Repository.{Commit}
use csaf_trove.Processing.Select.{fingerprint_of}
use csaf_trove.Processing.Incremental.{select_processing-checkpoint}
use csaf_trove.Jobs.{clean_selection, select_inputs, check_recovered_downloads}
use csaf_trove.Runner.Snapshot.Recovered.{pair-fst, pair-snd, recovered-checkpoint}

module _ {D : Type 0} (inputs : Inputs D) where
  -- The stored checkpoint that a pass reads, up to the mark that the database is dirty.
  processing_checkpoint-stored :
      (domain : Text) (previous : Option ProcessingCheckpoint) (w v : World D)
      → processing_checkpoint inputs domain w ≡ (ok previous, v)
      → Option.map made_from previous ≡ stored_inputs domain w
  unfolding processing_checkpoint read
  processing_checkpoint-stored domain previous w v h =
      let (u, v1, called, answered) = next-ok _ _ w v previous h in
      ap (Option.map made_from) (sym (ok-injective (pair-fst inputs answered)))
      ∙ ap (stored_inputs domain) (sym (pair-snd inputs called))
      ∙ ((call-Keeps domain (inputs.services.access domain)).moves w).stored domain

  -- What a pass does before it selects; it goes on with the stored checkpoint.
  abbrev pub prepared : Source → Bool → Action D (Option ProcessingCheckpoint)
  prepared source force_full = processing_checkpoint inputs source.domain >>= λ previous.
      when force_full (clear_processing_checkpoint inputs source.domain)
      >> (enter inputs source.domain clean_selection
          >> (call source.domain (inputs.services.clean_selection source.domain)
              >> (enter inputs source.domain select_inputs >> pure previous)))

  run_selection-ok :
      (source : Source) (previous : Option ProcessingCheckpoint) (force_full : Bool)
      (identity : Text) (selection : ProcessingSelection) (w v : World D)
      → run_selection inputs source previous force_full identity w ≡ (ok selection, v)
      → select_processing inputs.digests inputs.commits inputs.levels
          (inputs.repository source.domain w.rest)
          previous
          identity
          force_full
        ≡ ok selection
  unfolding run_selection call
  run_selection-ok source previous force_full identity selection w v h = pair-fst inputs h

  prepared-run :
      (source : Source) (force_full : Bool) (previous : Option ProcessingCheckpoint)
      (w w1 w2 v2 v3 v4 : World D)
      → processing_checkpoint inputs source.domain w ≡ (ok previous, w1)
      → when force_full (clear_processing_checkpoint inputs source.domain) w1 ≡ (ok tt, w2)
      → enter inputs source.domain clean_selection w2 ≡ (ok tt, v2)
      → call source.domain (inputs.services.clean_selection source.domain) v2 ≡ (ok tt, v3)
      → enter inputs source.domain select_inputs v3 ≡ (ok tt, v4)
      → prepared source force_full w ≡ (ok previous, v4)
  unfolding pure read
  prepared-run source force_full previous w w1 w2 v2 v3 v4 h1 h2 h3 h4 h5 =
      bind-run _ _ w w1 previous h1
      ∙ next-run _ _ w1 w2 tt h2
      ∙ next-run _ _ w2 v2 tt h3
      ∙ next-run _ _ v2 v3 tt h4
      ∙ next-run _ _ v3 v4 tt h5

  -- The checkpoint in `w'` belongs to a pass from `w`: the pass selected in `choosing`, from the
  -- checkpoint that it had read, added recovered downloads, processed the selection, and then saved
  -- the checkpoint of the same selection.
  pub record IsPublished (source : Source) (force_full : Bool) (failures : List RetrievalFailure)
      (w w' : World D) : Type 0 where
    pub previous : Option ProcessingCheckpoint
    pub as_stored : Option.map made_from previous ≡ stored_inputs source.domain w
    pub identity : Text
    pub identified : inputs.services.validator_identity source ≡ ok identity
    pub choosing : World D
    pub prepares : prepared source force_full w ≡ (ok previous, choosing)
    pub selection : ProcessingSelection
    pub chosen : World D
    pub selecting :
        run_selection inputs source previous force_full identity choosing ≡ (ok selection, chosen)
    pub selects :
        select_processing inputs.digests inputs.commits inputs.levels
          (inputs.repository source.domain choosing.rest)
          previous
          identity
          force_full
        ≡ ok selection
    pub checking : World D
    pub checks : enter inputs source.domain check_recovered_downloads chosen ≡ (ok tt, checking)
    pub between : World D
    pub processed : ProcessingSelection
    pub recovers : recovered inputs source.domain selection checking ≡ (ok processed, between)
    pub end : World D
    pub processes :
        process_selection inputs source previous failures processed between ≡ (ok tt, end)
    pub saves :
        save_processing_checkpoint inputs source.domain processed.checkpoint end ≡ (ok tt, w')
    pub stored :
        Map.get source.domain w'.checkpoints
        ≡ some (record selection.checkpoint { summary_dirty = false })
    pub head : Commit
    pub at_head : (inputs.repository source.domain choosing.rest).head ≡ ok head
    pub committed : selection.checkpoint.commit_id ≡ head.id
    pub printed :
        fingerprint_of inputs.digests
          (inputs.repository source.domain choosing.rest)
          head.tree
          identity
        ≡ ok selection.checkpoint.fingerprint

  saved-stored :
      (domain : Text) (c : ProcessingCheckpoint) (w w' : World D)
      → save_processing_checkpoint inputs domain c w ≡ (ok tt, w')
      → Map.get domain w'.checkpoints ≡ some (record c { summary_dirty = false })
  unfolding save_processing_checkpoint
  saved-stored domain c w w' h =
      let (u, v, called, done) = next-ok _ _ w w' tt h in
      ap (λ (x : World D). Map.get domain x.checkpoints) (sym (pair-snd inputs done))
      ∙ Map.get-insert domain domain (record c { summary_dirty = false }) v.checkpoints
      ∙ rw text_eq_refl

  -- A pass that succeeds, forced or not, saves the checkpoint of the very selection that it
  -- processed, made from the stored checkpoint and from the repository as the pass found it behind its
  -- first steps. The saved checkpoint names the head and the fingerprint of that repository and is
  -- not dirty, however often the results were marked as changed.
  pub process_snapshot-IsPublished :
      (source : Source) (force_full : Bool) (failures : List RetrievalFailure) (w w' : World D)
      → process_snapshot inputs source force_full failures w ≡ (ok tt, w')
      → IsPublished source force_full failures w w'
  unfolding process_snapshot choose_inputs read
  process_snapshot-IsPublished source force_full failures w w' h =
      let (previous, w1, h1, k1) = bind-ok _ _ w w' tt h in
      let (u2, w2, h2, k2) = next-ok _ _ w1 w' tt k1 in
      let (processed, w3, chosen, k3) = bind-ok _ _ w2 w' tt k2 in
      let (u4, w4, h4, k4) = next-ok _ _ w3 w' tt k3 in
      let (identity, v1, j1, l1) = bind-ok _ _ w2 w3 processed chosen in
      let (u6, v2, j2, l2) = next-ok _ _ v1 w3 processed l1 in
      let (u7, v3, j3, l3) = next-ok _ _ v2 w3 processed l2 in
      let (u8, v4, j4, l4) = next-ok _ _ v3 w3 processed l3 in
      let (selection, v5, j5, l5) = bind-ok _ _ v4 w3 processed l4 in
      let (u9, v6, j6, l6) = next-ok _ _ v5 w3 processed l5 in
      let (head, at_head, committed, printed) =
        select_processing-checkpoint inputs.digests inputs.commits inputs.levels
          (inputs.repository source.domain v4.rest) previous identity force_full selection
          (run_selection-ok source previous force_full identity selection v4 v5 j5) in
      record {
        previous = previous;
        as_stored = processing_checkpoint-stored source.domain previous w w1 h1;
        identity = identity;
        identified = pair-fst inputs j1;
        choosing = v4;
        prepares =
            prepared-run source force_full previous w w1 w2 v2 v3 v4 h1 h2
              (ap (enter inputs source.domain clean_selection) (pair-snd inputs j1) ∙ j2) j3 j4;
        selection = selection;
        chosen = v5;
        selecting = j5;
        checks = j6;
        selects = run_selection-ok source previous force_full identity selection v4 v5 j5;
        checking = v6;
        between = w3;
        processed = processed;
        recovers = l6;
        end = w4;
        processes = h4;
        saves = k4;
        stored =
            saved-stored source.domain processed.checkpoint w4 w' k4
            ∙ ap (λ (c : ProcessingCheckpoint). some (record c { summary_dirty = false }))
                (recovered-checkpoint inputs source.domain selection processed v6 w3 l6);
        head = head;
        at_head = at_head;
        committed = committed;
        printed = printed;
      }
