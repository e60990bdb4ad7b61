-- ===== src/GitRepo/Staging/Whole.antt =====
-- What a staging of a whole worktree leaves in the index, in the batches and as progress.
use mathlib.Core.Path.{subst}
use mathlib.Core.List.{append_assoc, append-nil}
use csaf_trove.Base.{
  ℕ, suc, ◌+◌, ◌≡◌, refl, sym, ap, ◌∙◌, Bool, ◌&&◌, Option, none, some, List, [], ◌∷◌, ◌++◌, length,
  All, arith, Bool-cases, inl, inr, if◌then◌else◌,
}
use csaf_trove.Base.Text.{Text, text_eq, text_eq_iff}
use csaf_trove.Base.Map
use csaf_trove.Base.Map.{Map}
use csaf_trove.Base.Effect.{Result, ok, err, >>=-eq-ok, for_each, ok-injective}
use csaf_trove.Storage.TreeDiff.Repository.{Oid}
use csaf_trove.GitRepo.Scratch.{logical_path}
use csaf_trove.GitRepo.Staging.{
  Entry, Worktree, Staging, count_files, is_key, remove_keys, flush_mempack, stage_file,
  stage_entry, fresh, stage_all,
}
use csaf_trove.GitRepo.Staging.Lookups.{is_dropped, get-stage}
use csaf_trove.GitRepo.Staging.Packs.{
  concat, held, IsFilled, IsStaged, stage_file-IsStaged, flush_mempack-IsFlushed,
}

-- A file that is staged: its path in the repository, and its content's blob.
abbrev pub Staged : Type 0
Staged = Text × Oid

abbrev file_blob : (Text → Oid) → Text → Result Text → List Staged
file_blob blob_id logical (err e) = []
file_blob blob_id logical (ok content) = (logical, blob_id content) ∷ []

abbrev entry_files : (Text → Oid) → Result Entry → List Staged
entry_files blob_id (err e) = []
entry_files blob_id (ok entry) =
    if entry.is_file then file_blob blob_id (logical_path entry.relative) entry.content else []

-- The readable files of a walk, in order.
abbrev pub staged_files : (Text → Oid) → List (Result Entry) → List Staged
staged_files blob_id [] = []
staged_files blob_id (e ∷ es) = entry_files blob_id e ++ staged_files blob_id es

-- What a path leads to behind the staging of the files: the last word has the last file that is
-- the path's own, or an advisory that came without this sidecar.
abbrev pub lookup_after : (Text → Bool) → Text → List Staged → Option Oid → Option Oid
lookup_after exists p [] found = found
lookup_after exists p ((logical, blob) ∷ files) found =
    lookup_after exists p files
      (if text_eq logical p then some blob else if is_dropped exists logical p then none else found)

lookup_after-append :
    (exists : Text → Bool) (p : Text) (xs ys : List Staged) (found : Option Oid)
    → lookup_after exists p (xs ++ ys) found
      ≡ lookup_after exists p ys (lookup_after exists p xs found)
lookup_after-append exists p [] ys found = refl
lookup_after-append exists p ((logical, blob) ∷ xs) ys found =
    lookup_after-append exists p xs ys
      (if text_eq logical p then some blob else if is_dropped exists logical p then none else found)

-- The reports of a count that goes up by one with each file.
abbrev pub progress : ℕ → ℕ → List Staged → List (ℕ × ℕ)
progress done total [] = []
progress done total (file ∷ files) = (suc done, total) ∷ progress (suc done) total files

abbrev pub blobs : List Staged → List Oid
blobs [] = []
blobs ((logical, blob) ∷ files) = blob ∷ blobs files

-- From one state of the loop to a later one, over some files.
record IsDone (exists : Text → Bool) (total : ℕ) (files : List Staged) (s s' : Staging)
    : Type 0 where
  lookups : (p : Text) → Map.get p s'.index ≡ lookup_after exists p files (Map.get p s.index)
  staged : s'.staged ≡ length files + s.staged
  reports : s'.reports ≡ s.reports ++ progress s.staged total files
  objects : held s' ≡ held s ++ blobs files
  filled : All IsFilled s.packs → All IsFilled s'.packs

IsDone-nil : (exists : Text → Bool) (total : ℕ) (s : Staging) → IsDone exists total [] s s
IsDone-nil exists total s = record {
  lookups = λ p. refl;
  staged = omega arith;
  reports = sym (append-nil s.reports);
  objects = sym (append-nil (held s));
  filled = λ h. h;
}

IsDone-cons :
    (exists : Text → Bool) (total : ℕ) (logical : Text) (blob : Oid) (files : List Staged)
    (next : Map Oid) (s t u : Staging)
    → ((p : Text)
        → Map.get p next ≡ (
            if text_eq logical p
            then some blob
            else if is_dropped exists logical p
            then none
            else Map.get p s.index))
    → IsStaged blob next total s t
    → IsDone exists total files t u
    → IsDone exists total ((logical, blob) ∷ files) s u
IsDone-cons exists total logical blob files next s t u look one rest = record {
  lookups =
      λ p. rest.lookups p ∙ ap (lookup_after exists p files) (ap (Map.get p) one.index ∙ look p);
  staged = omega (arith, rest.staged, one.staged);
  reports = rest.reports ∙ rw (one.reports, one.staged) (simp append_assoc);
  objects = rest.objects ∙ rw one.objects (simp append_assoc);
  filled = λ h. rest.filled (one.filled h);
}

module _ (blob_id : Text → Oid) (write_pack : List Oid → Result (Unit {0})) where
  stage_entries-IsDone :
      (threshold total : ℕ) (w : Worktree) (walk : List (Result Entry)) (s s' : Staging)
      → for_each (stage_entry blob_id write_pack threshold total w) walk s ≡ ok s'
      → IsDone w.exists total (staged_files blob_id walk) s s'
        × (count_files walk ≡ length (staged_files blob_id walk))
  unfolding for_each stage_entry
  stage_entries-IsDone threshold total w [] s s' ran =
      (subst (IsDone w.exists total [] s) (ok-injective ran) (IsDone-nil w.exists total s), refl)
  stage_entries-IsDone threshold total w (err e ∷ walk) s s' ran = cc
  stage_entries-IsDone threshold total w (ok entry ∷ walk) s s' ran =
      elim (Bool-cases entry.is_file) [
        | inr other ↦
            let (done, count) =
              stage_entries-IsDone threshold total w walk s s' (rw other at ran) in
            (rw other done, rw other count)
        | inl file ↦
            let (t, one, rest) =
              >>=-eq-ok (stage_file blob_id write_pack threshold total w entry s)
                (for_each (stage_entry blob_id write_pack threshold total w) walk)
                (rw file at ran) in
            let (content, read, staged) =
              stage_file-IsStaged blob_id write_pack threshold total w entry s t one in
            let (done, count) = stage_entries-IsDone threshold total w walk t s' rest in
            (
              rw (file, read)
                  (IsDone-cons w.exists total (logical_path entry.relative) (blob_id content)
                    (staged_files blob_id walk) _ s t s'
                    (λ p.
                      get-stage w.exists (logical_path entry.relative) p (blob_id content) s.index)
                    staged done),
              rw (file, read) (ap suc count),
            )
      ]

get-remove_keys :
    (p : Text) (index : Map Oid)
    → Map.get p (remove_keys index) ≡ (if is_key p then none else Map.get p index)
unfolding remove_keys Map.get
get-remove_keys p [] = ground arith
get-remove_keys p ((path, id) ∷ index) = ground (arith, text_eq_iff path p, get-remove_keys p index)

-- What a path leads to before the files are staged: a directory of keys replaces the old keys.
abbrev pub lookup_before : Worktree → Text → Map Oid → Option Oid
lookup_before w p index = if w.has_keys && is_key p then none else Map.get p index

get-kept :
    (w : Worktree) (p : Text) (index : Map Oid)
    → Map.get p (if w.has_keys then remove_keys index else index) ≡ lookup_before w p index
get-kept w p index = ground (arith, get-remove_keys p index)

-- What a staging of a worktree with these files leaves.
pub record IsComplete (w : Worktree) (files : List Staged) (index : Map Oid) (s : Staging)
    : Type 0 where
  pub lookups :
      (p : Text) → Map.get p s.index ≡ lookup_after w.exists p files (lookup_before w p index)
  pub objects : concat s.packs ≡ blobs files
  pub filled : All IsFilled s.packs
  pub counted : s.staged ≡ count_files w.walk
  pub reports : s.reports ≡ progress 0 (count_files w.walk) files

module _ (blob_id : Text → Oid) (write_pack : List Oid → Result (Unit {0})) where
  -- A staging that succeeds leaves every path with the last file of the walk that stands for it,
  -- or without one if its advisory came without this sidecar, and else as it was, but for keys
  -- that a new set replaces. The batches that were written, none of them empty, hold the blobs of
  -- all files in order, whatever the threshold; and each file is counted and reported once.
  pub stage_all-IsComplete :
      (threshold : ℕ) (w : Worktree) (index : Map Oid) (s : Staging)
      → stage_all blob_id write_pack threshold w index ≡ ok s
      → IsComplete w (staged_files blob_id w.walk) index s
  unfolding stage_all
  stage_all-IsComplete threshold w index s ran =
      let kept = if w.has_keys then remove_keys index else index in
      let (t, looped, flushed) =
        >>=-eq-ok
          (for_each (stage_entry blob_id write_pack threshold (count_files w.walk) w) w.walk
            (fresh kept))
          (flush_mempack blob_id write_pack) ran in
      let (done, count) =
        stage_entries-IsDone blob_id write_pack threshold (count_files w.walk) w w.walk (fresh kept)
          t looped in
      let last = flush_mempack-IsFlushed blob_id write_pack t s flushed in
      record {
        lookups = λ p.
            ap (Map.get p) last.index
            ∙ done.lookups p
            ∙ ap (lookup_after w.exists p (staged_files blob_id w.walk)) (get-kept w p index);
        objects = last.objects ∙ done.objects;
        filled = last.filled (done.filled tt);
        counted = omega (arith, last.staged, done.staged, count);
        reports = last.reports ∙ done.reports;
      }
