-- ===== src/Processing/Incremental.antt =====
-- `resolve_changes` and `select_processing` against an independent description of their outcome.
use csaf_trove.Base.{
  ℕ, suc, ◌≤◌, ◌≡◌, refl, sym, ◌∙◌, ap, Bool, true, false, ◌||◌, ◌&&◌, not, Option, none, some,
  List, [], ◌∷◌, arith, length, any, retain, Bool-cases, inl, inr,
}
use csaf_trove.Base.Text.{Text, text_eq, text_eq_iff, text_eq_refl, text_lt, text_lt-nil}
use csaf_trove.Base.Effect.{Result, ok, >>=-eq-ok, ok-injective}
use csaf_trove.Storage.PathSet.{PathSet, batch, path_batch, chunks, new, for_pages}
use csaf_trove.Storage.PathSet.Rows.{contains, IsValid, new-IsValid}
use csaf_trove.Storage.PathSet.Pages.{read_rows, beyond, for_pages-chunks}
use csaf_trove.Storage.TreeDiff.Repository.{Oid, Tree, Commit, Repository}
use csaf_trove.Processing.Paths.{ProcessingCheckpoint, ProcessingSelection, advisory_path}
use csaf_trove.Processing.Select.{
  Digests, fingerprint_of, Sets, no_sets, resolve_page, resolve_changes, or_stuck, collect_changes,
  previous_oid, same_fingerprint, scan_history, select_processing,
}
use csaf_trove.Processing.History.{
  Step, touched, IsLinear, scan_changes-Linear, contains-collect_changes, collect_changes-IsValid,
}
use csaf_trove.Processing.Resolve.{Answers, SetsValid, for_each-resolve_page}
use csaf_trove.Processing.Outcome.{
  names, is_found, is_selected, is_historic, is_deleted, selected_all, historic_all, deleted_all,
}

pub length-retain : (p : Text → Bool) (rows : List Text) → length (retain p rows) ≤ length rows
length-retain p [] = omega arith
length-retain p (row ∷ rows) = elim (Bool-cases (p row)) [
  | inl h ↦ rw h (omega (arith, length-retain p rows))
  | inr h ↦ rw h (omega (arith, length-retain p rows))
]

-- The three sets hold what the snapshot and the changed paths say.
abbrev pub Resolves : Bool → Repository → Tree → List Text → Sets → Type 0
Resolves full repo tree paths sets =
    (p : Text)
    → (contains p sets.advisories.rows ≡ is_selected full repo tree p paths)
      × (contains p sets.history.rows ≡ is_historic full repo tree p paths)
      × (contains p sets.deleted.rows ≡ is_deleted full repo tree p paths)

resolve_changes-read_rows :
    (full : Bool) (repo : Repository) (tree : Tree) (changes : PathSet)
    → Answers full repo tree
    → IsValid changes
    → (sets : Sets) × (resolve_changes full repo tree changes ≡ ok sets)
      × SetsValid full repo tree sets
      × Resolves full repo tree (read_rows changes) sets
unfolding resolve_changes contains new
resolve_changes-read_rows full repo tree changes answers valid =
    let (ran, flat) =
      for_pages-chunks (suc (length changes.rows)) changes (resolve_page full repo tree) no_sets
        valid.sorted (omega (arith, length-retain (text_lt []) changes.rows)) in
    let (sets, run, valid', holds) =
      for_each-resolve_page full repo tree (chunks path_batch (read_rows changes)) no_sets answers
        (new-IsValid, new-IsValid, new-IsValid) in
    (
      sets,
      ap (λ (o : Option (Result Sets)). or_stuck o) ran ∙ run,
      valid',
      (λ p.
          let (a, h, d) = rw flat at (holds p) in
          (
            ground (arith, a, selected_all full repo tree p (read_rows changes)),
            ground (arith, h, historic_all full repo tree p (read_rows changes)),
            ground (arith, d, deleted_all full repo tree p (read_rows changes)),
          )),
    )

-- Two lists with the same texts, but for the empty one, have the same witnesses of a test that
-- the empty text fails.
any-member :
    (f : Text → Bool) (xs : List Text)
    → any f xs ≡ true
    → (x : Text) × (f x ≡ true) × (contains x xs ≡ true)
unfolding contains
any-member f [] h = cc
any-member f (x ∷ xs) h = elim (Bool-cases (f x)) [
  | inl holds ↦ (x, holds, rw text_eq_refl)
  | inr fails ↦
      let (y, holds, inside) = any-member f xs (rw fails at h) in (y, holds, ground (arith, inside))
]

member-any :
    (f : Text → Bool) (x : Text) (xs : List Text)
    → f x ≡ true
    → contains x xs ≡ true
    → any f xs ≡ true
unfolding contains
member-any f x [] holds inside = cc
member-any f x (y ∷ ys) holds inside = elim (Bool-cases (text_eq y x)) [
  | inl same ↦ let e : y ≡ x = (text_eq_iff y x).0 same in rw (e, holds)
  | inr other ↦ ground (arith, member-any f x ys holds (rw other at inside))
]

any-step :
    (f : Text → Bool) (xs ys : List Text)
    → ((x : Text) → f x ≡ true → contains x xs ≡ true → contains x ys ≡ true)
    → any f xs ≡ true
    → any f ys ≡ true
any-step f xs ys sub h =
    let (x, holds, inside) = any-member f xs h in member-any f x ys holds (sub x holds inside)

Bool-antisym : (a b : Bool) → (a ≡ true → b ≡ true) → (b ≡ true → a ≡ true) → a ≡ b
Bool-antisym true b f g = sym (f refl)
Bool-antisym false true f g = g refl
Bool-antisym false false f g = refl

contains-beyond :
    (p : Text) (rows : List Text) → contains p (beyond [] rows) ≡ (text_lt [] p && contains p rows)
unfolding contains
contains-beyond p [] = ground arith
contains-beyond p (row ∷ rows) = elim (Bool-cases (text_lt [] row)) [
  | inl kept ↦ rw kept (ground (arith, contains-beyond p rows, text_eq_iff row p, kept))
  | inr empty ↦ rw empty (ground (arith, contains-beyond p rows, text_eq_iff row p, empty))
]

any-read_rows :
    (f : Text → Bool) (changes : PathSet) (paths : List Text)
    → f [] ≡ false
    → ((p : Text) → contains p changes.rows ≡ contains p paths)
    → any f (read_rows changes) ≡ any f paths
any-read_rows f changes paths empty same =
    Bool-antisym _ _
      (any-step f (read_rows changes) paths
        (λ x holds inside. ground (arith, contains-beyond x changes.rows, same x, inside)))
      (any-step f paths (read_rows changes) (λ x holds inside. elim (Bool-cases (text_lt [] x)) [
        | inl above ↦ ground (arith, contains-beyond x changes.rows, same x, inside)
        | inr below ↦ cc (text_lt-nil x below, holds, empty)
      ]))

advisory_path-nil : advisory_path [] ≡ none
unfolding advisory_path text_eq
advisory_path-nil = refl

-- For a valid set of changes with the same paths as a list, and a snapshot that answers every
-- lookup, resolving succeeds with valid sets. They hold exactly: the advisories present in the
-- snapshot that a path of the list names, itself or by a sidecar, unless everything is selected
-- anyway; the changed paths that are advisories; and the URLs of those that the snapshot lacks.
pub resolve_changes_lem :
    (full : Bool) (repo : Repository) (tree : Tree) (changes : PathSet) (paths : List Text)
    → Answers full repo tree
    → IsValid changes
    → ((p : Text) → contains p changes.rows ≡ contains p paths)
    → (sets : Sets) × (resolve_changes full repo tree changes ≡ ok sets)
      × SetsValid full repo tree sets
      × Resolves full repo tree paths sets
resolve_changes_lem full repo tree changes paths answers valid same =
    let (sets, ran, valid', holds) =
      resolve_changes-read_rows full repo tree changes answers valid in
    (
      sets,
      ran,
      valid',
      (λ p.
          let (a, h, d) = holds p in
          (
            a
                ∙ ap (λ (b : Bool). not full && (is_found (repo.get_path tree p) && b))
                    (any-read_rows (λ c. names p (advisory_path c)) changes paths
                      (rw advisory_path-nil) same),
            h
                ∙ any-read_rows (λ c. text_eq c p && names p (advisory_path c)) changes paths
                    (rw advisory_path-nil (ground arith)) same,
            d ∙ any-read_rows _ changes paths (rw advisory_path-nil) same,
          )),
    )

-- The record that `select_processing` builds.
abbrev pub selected : Oid → Text → Bool → Bool → Sets → ProcessingSelection
selected head fingerprint full baseline sets = record {
  checkpoint = record { commit_id = head; fingerprint = fingerprint; summary_dirty = false };
  full = full;
  baseline = baseline;
  advisories = sets.advisories;
  history = sets.history;
  deleted = sets.deleted;
}

-- The selection from its parts; `full` is what its test computes to.
select_processing-parts :
    (digests : Digests) (commits levels : ℕ) (repo : Repository) (head : Commit)
    (previous : Option ProcessingCheckpoint) (identity fingerprint : Text)
    (force_full baseline full : Bool) (changes : PathSet) (sets : Sets)
    → repo.head ≡ ok head
    → fingerprint_of digests repo head.tree identity ≡ ok fingerprint
    → scan_history commits levels repo head.id (previous_oid repo previous) ≡ ok (baseline, changes)
    → (baseline || (force_full || not (same_fingerprint fingerprint previous))) ≡ full
    → resolve_changes full repo head.tree changes ≡ ok sets
    → select_processing digests commits levels repo previous identity force_full
      ≡ ok (selected head.id fingerprint full baseline sets)
unfolding select_processing
select_processing-parts digests commits levels repo head previous identity fingerprint force_full
      baseline full changes sets at_head printed scanned chosen ran =
    simp (at_head, printed, scanned, chosen, ran)

-- With a checkpoint whose commit is found behind the head over a linear history, whose
-- fingerprint is the one of the head, and with fuel for that history, the selection succeeds. It
-- is never a baseline, is full exactly when that is forced, and its sets are those of the paths
-- that the commits since the checkpoint touched, whatever the cache and the paging do.
pub select_processing-Linear :
    (digests : Digests) (commits levels : ℕ) (repo : Repository) (head : Commit) (oid : Oid)
    (checkpoint : ProcessingCheckpoint) (identity : Text) (force_full : Bool) (steps : List Step)
    → repo.head ≡ ok head
    → repo.find_commit head.id ≡ ok head
    → repo.parse_oid checkpoint.commit_id ≡ some oid
    → IsLinear repo levels oid head steps
    → length steps ≤ commits
    → fingerprint_of digests repo head.tree identity ≡ ok checkpoint.fingerprint
    → Answers force_full repo head.tree
    → (sets : Sets) × (select_processing digests commits levels repo
          (some checkpoint)
          identity
          force_full
        ≡ ok (selected head.id checkpoint.fingerprint force_full false sets))
      × SetsValid force_full repo head.tree sets
      × Resolves force_full repo head.tree (touched steps) sets
unfolding select_processing scan_history contains new
select_processing-Linear digests commits levels repo head oid checkpoint identity force_full steps
      at_head found parsed linear le printed answers =
    let (sent, scanned, all) =
      scan_changes-Linear commits levels repo oid head steps found linear le in
    let changes = collect_changes sent new in
    let (sets, ran, valid, holds) =
      resolve_changes_lem force_full repo head.tree changes (touched steps) answers
        (collect_changes-IsValid sent new new-IsValid)
        (λ p. contains-collect_changes p sent new ∙ ground arith ∙ ap (contains p) all) in
    (
      sets,
      select_processing-parts digests commits levels repo head (some checkpoint) identity
          checkpoint.fingerprint force_full false force_full changes sets at_head printed
          (rw (parsed, scanned)) (rw text_eq_refl (ground arith)) ran,
      valid,
      holds,
    )

-- Without a checkpoint, or with one whose commit id is no object id, the selection of a head that
-- can be read is a full baseline that lists no paths, whatever the stored fingerprint is.
pub select_processing-baseline :
    (digests : Digests) (commits levels : ℕ) (repo : Repository) (head : Commit)
    (previous : Option ProcessingCheckpoint) (identity fingerprint : Text) (force_full : Bool)
    → repo.head ≡ ok head
    → fingerprint_of digests repo head.tree identity ≡ ok fingerprint
    → previous_oid repo previous ≡ none
    → select_processing digests commits levels repo previous identity force_full
      ≡ ok (selected head.id fingerprint true true no_sets)
unfolding scan_history resolve_changes for_pages new batch
select_processing-baseline digests commits levels repo head previous identity fingerprint force_full
      at_head printed no_oid =
    select_processing-parts digests commits levels repo head previous identity fingerprint
      force_full true true new no_sets at_head printed (rw no_oid) refl refl

-- A selection's checkpoint is the head, with the fingerprint of its snapshot, and is not dirty.
pub select_processing-checkpoint :
    (digests : Digests) (commits levels : ℕ) (repo : Repository)
    (previous : Option ProcessingCheckpoint) (identity : Text) (force_full : Bool)
    (selection : ProcessingSelection)
    → select_processing digests commits levels repo previous identity force_full ≡ ok selection
    → (head : Commit) × (repo.head ≡ ok head)
      × (selection.checkpoint.commit_id ≡ head.id)
      × (fingerprint_of digests repo head.tree identity ≡ ok selection.checkpoint.fingerprint)
unfolding select_processing
select_processing-checkpoint digests commits levels repo previous identity force_full selection h =
    let (head, at_head, h1) = >>=-eq-ok repo.head _ h in
    let (fingerprint, printed, h2) =
      >>=-eq-ok (fingerprint_of digests repo head.tree identity) _ h1 in
    let ((baseline, changes), scanned, h3) =
      >>=-eq-ok (scan_history commits levels repo head.id (previous_oid repo previous)) _ h2 in
    let full = baseline || (force_full || not (same_fingerprint fingerprint previous)) in
    let (sets, ran, h4) = >>=-eq-ok (resolve_changes full repo head.tree changes) _ h3 in
    let e : selected head.id fingerprint full baseline sets ≡ selection = ok-injective h4 in
    (
      head,
      at_head,
      ap (λ (s : ProcessingSelection). s.checkpoint.commit_id) (sym e),
      printed ∙ ap (λ (s : ProcessingSelection). ok s.checkpoint.fingerprint) e,
    )
