-- ===== src/Processing/Resolve.antt =====
-- How changed paths become advisories to validate, histories to record and results to delete.
use mathlib.Core.List.{append_assoc, append-nil}
use csaf_trove.Base.{
  ◌≡◌, refl, sym, ◌∙◌, ap, ◌≢◌, Bool, true, false, ◌||◌, not, Option, none, some, List, [], ◌∷◌,
  ◌++◌, arith,
}
use csaf_trove.Base.Text.{Text, text_eq}
use csaf_trove.Base.Effect.{ok, for_each}
use csaf_trove.Storage.PathSet.{insert_batch}
use csaf_trove.Storage.PathSet.Rows.{
  contains, contains-insert_batch, contains-append, IsValid, insert_batch-IsValid, flatten,
}
use csaf_trove.Storage.TreeDiff.Repository.{Tree, Repository, Lookup, found, not_found, failed}
use csaf_trove.Processing.Paths.{advisory_path, path_url}
use csaf_trove.Processing.Select.{
  Resolved, unresolved, Sets, resolve_lookup, resolve_advisory, resolve_path, resolve_page, push_if,
}

module _ (full : Bool) (repo : Repository) (tree : Tree) where
  -- The snapshot answers every lookup with an entry or with its absence.
  abbrev pub Answers : Type 0
  Answers = (path : Text) (e : Text) → repo.get_path tree path ≢ failed e

  -- What one changed path adds to the vectors.
  abbrev pub found_advisory : Lookup → Text → List Text
  found_advisory (found id) a = push_if (not full) [] a
  found_advisory _ a = []

  abbrev pub missing_url : Lookup → Bool → Text → List Text
  missing_url not_found itself a = push_if itself [] (path_url a)
  missing_url _ itself a = []

  abbrev pub added : Text → Option Text → Resolved
  added path none = unresolved
  added path (some a) = record {
    advisories = found_advisory (repo.get_path tree a) a;
    history = push_if (text_eq path a) [] a;
    deleted = missing_url (repo.get_path tree a) (text_eq path a) a;
  }

  abbrev join : Resolved → Resolved → Resolved
  join r s = record {
    advisories = r.advisories ++ s.advisories;
    history = r.history ++ s.history;
    deleted = r.deleted ++ s.deleted;
  }

  abbrev pub added_all : List Text → Resolved
  added_all [] = unresolved
  added_all (path ∷ paths) = join (added path (advisory_path path)) (added_all paths)

  push_if-append : (b : Bool) (xs : List Text) (x : Text) → push_if b xs x ≡ xs ++ push_if b [] x
  push_if-append true xs x = refl
  push_if-append false xs x = rw append-nil

  resolve_lookup-added :
      (itself : Bool) (path a : Text) (r : Resolved) (l : Lookup)
      → ((e : Text) → l ≢ failed e)
      → resolve_lookup full itself a l (record r { history = push_if itself r.history a })
        ≡ ok (
            join r (record {
              advisories = found_advisory l a;
              history = push_if itself [] a;
              deleted = missing_url l itself a;
            }))
  unfolding resolve_lookup
  resolve_lookup-added itself path a r (found id) answers =
      rw (push_if-append (not full) r.advisories a, push_if-append itself r.history a, append-nil)
  resolve_lookup-added itself path a r not_found answers =
      rw (
        push_if-append itself r.deleted (path_url a),
        push_if-append itself r.history a,
        append-nil,
      )
  resolve_lookup-added itself path a r (failed e) answers = absurd (answers e refl)

  resolve_advisory-added :
      (path : Text) (advisory : Option Text) (r : Resolved)
      → Answers
      → resolve_advisory full repo tree path advisory r ≡ ok (join r (added path advisory))
  unfolding resolve_advisory
  resolve_advisory-added path none r answers = simp append-nil
  resolve_advisory-added path (some a) r answers =
      resolve_lookup-added (text_eq path a) path a r (repo.get_path tree a) (answers a)

  join_assoc : (r s t : Resolved) → join (join r s) t ≡ join r (join s t)
  join_assoc r s t = simp append_assoc

  for_each-resolve_path :
      (paths : List Text) (r : Resolved)
      → Answers
      → for_each (resolve_path full repo tree) paths r ≡ ok (join r (added_all paths))
  unfolding for_each resolve_path
  for_each-resolve_path [] r answers = simp append-nil
  for_each-resolve_path (path ∷ paths) r answers =
      rw (resolve_advisory-added path (advisory_path path) r answers) (
        for_each-resolve_path paths (join r (added path (advisory_path path))) answers
        ∙ ap (λ x. ok x) (join_assoc r (added path (advisory_path path)) (added_all paths)))

  abbrev pub SetsValid : Sets → Type 0
  SetsValid sets = IsValid sets.advisories × IsValid sets.history × IsValid sets.deleted

  -- The sets hold what they held and what the paths add.
  abbrev pub Holds : Sets → Resolved → Sets → Type 0
  Holds old r sets =
      (p : Text)
      → (contains p sets.advisories.rows
          ≡ (contains p r.advisories || contains p old.advisories.rows))
        × (contains p sets.history.rows ≡ (contains p r.history || contains p old.history.rows))
        × (contains p sets.deleted.rows ≡ (contains p r.deleted || contains p old.deleted.rows))

  resolve_page-Holds :
      (paths : List Text) (old : Sets)
      → Answers
      → SetsValid old
      → (sets : Sets) × (resolve_page full repo tree paths old ≡ ok sets)
        × SetsValid sets
        × Holds old (added_all paths) sets
  unfolding resolve_page
  resolve_page-Holds paths old answers valid =
      let r = added_all paths in
      (
        record {
          advisories = insert_batch r.advisories old.advisories;
          history = insert_batch r.history old.history;
          deleted = insert_batch r.deleted old.deleted;
        },
        rw (for_each-resolve_path paths unresolved answers),
        (
          insert_batch-IsValid r.advisories old.advisories valid.0,
          insert_batch-IsValid r.history old.history valid.1,
          insert_batch-IsValid r.deleted old.deleted valid.2,
        ),
        (λ p. (
          contains-insert_batch p r.advisories old.advisories,
          contains-insert_batch p r.history old.history,
          contains-insert_batch p r.deleted old.deleted,
        )),
      )

  added_all-append : (xs ys : List Text) → added_all (xs ++ ys) ≡ join (added_all xs) (added_all ys)
  added_all-append [] ys = refl
  added_all-append (x ∷ xs) ys =
      ap (join (added x (advisory_path x))) (added_all-append xs ys)
      ∙ sym (join_assoc (added x (advisory_path x)) (added_all xs) (added_all ys))

  chain :
      (p : Text) (xs ys : List Text) (late mid early : Bool) (zs : List Text)
      → late ≡ (contains p ys || mid)
      → mid ≡ (contains p xs || early)
      → zs ≡ xs ++ ys
      → late ≡ (contains p zs || early)
  chain p xs ys late mid early zs h k e = rw e (ground (arith, contains-append p xs ys))

  pub for_each-resolve_page :
      (pages : List (List Text)) (old : Sets)
      → Answers
      → SetsValid old
      → (sets : Sets) × (for_each (resolve_page full repo tree) pages old ≡ ok sets)
        × SetsValid sets
        × Holds old (added_all (flatten pages)) sets
  unfolding for_each contains
  for_each-resolve_page [] old answers valid = (old, refl, valid, (λ p. (refl, refl, refl)))
  for_each-resolve_page (page ∷ pages) old answers valid =
      let (mid, ran, valid', holds) = resolve_page-Holds page old answers valid in
      let (sets, ran', valid'', holds') = for_each-resolve_page pages mid answers valid' in
      (
        sets,
        rw ran ran',
        valid'',
        (λ p.
            let (a, h, d) = holds p in
            let (a', h', d') = holds' p in
            let e = added_all-append page (flatten pages) in
            (
              chain p (added_all page).advisories (added_all (flatten pages)).advisories _ _ _ _ a'
                  a (ap (λ (r : Resolved). r.advisories) e),
              chain p (added_all page).history (added_all (flatten pages)).history _ _ _ _ h' h
                  (ap (λ (r : Resolved). r.history) e),
              chain p (added_all page).deleted (added_all (flatten pages)).deleted _ _ _ _ d' d
                  (ap (λ (r : Resolved). r.deleted) e),
            )),
      )
