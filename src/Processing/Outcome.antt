-- ===== src/Processing/Outcome.antt =====
-- Which paths the three sets of `select_processing` hold in the end, by an independent description.
use csaf_trove.Base.{
  ◌≡◌, refl, Bool, true, false, ◌&&◌, not, Option, none, some, List, [], ◌∷◌, arith, any,
  Bool-cases, inl, inr,
}
use csaf_trove.Base.Text.{Text, text_eq, text_eq_iff}
use csaf_trove.Storage.PathSet.Rows.{contains, contains-append}
use csaf_trove.Storage.TreeDiff.Repository.{Tree, Repository, Lookup, found, not_found, failed}
use csaf_trove.Processing.Paths.{advisory_path, path_url}
use csaf_trove.Base.Text.{text_eq_refl}
use csaf_trove.Processing.Resolve.{added, added_all, found_advisory, missing_url}

abbrev pub names : Text → Option Text → Bool
names p none = false
names p (some a) = text_eq a p

abbrev pub is_found : Lookup → Bool
is_found (found id) = true
is_found _ = false

abbrev pub is_missing : Lookup → Bool
is_missing not_found = true
is_missing _ = false

module _ (full : Bool) (repo : Repository) (tree : Tree) where
  contains-found_advisory :
      (l : Lookup) (p a : Text)
      → contains p (found_advisory full repo tree l a) ≡ (not full && (is_found l && text_eq a p))
  unfolding contains
  contains-found_advisory (found id) p a = ground arith
  contains-found_advisory not_found p a = ground arith
  contains-found_advisory (failed e) p a = ground arith

  contains-missing_url :
      (l : Lookup) (itself : Bool) (u a : Text)
      → contains u (missing_url full repo tree l itself a)
        ≡ (itself && (is_missing l && text_eq (path_url a) u))
  unfolding contains
  contains-missing_url (found id) itself u a = ground arith
  contains-missing_url not_found itself u a = ground arith
  contains-missing_url (failed e) itself u a = ground arith

  -- A changed path, the advisory itself or a sidecar of it, selects the advisory if the snapshot
  -- has it.
  abbrev pub is_selected : Text → List Text → Bool
  is_selected p changes =
      not full && (is_found (repo.get_path tree p) && any (λ c. names p (advisory_path c)) changes)

  -- Only a change of the advisory itself is part of its history.
  abbrev pub is_historic : Text → List Text → Bool
  is_historic p changes = any (λ c. text_eq c p && names p (advisory_path c)) changes

  -- A changed advisory that the snapshot has no more is deleted under its URL.
  abbrev pub is_deleted : Text → List Text → Bool
  is_deleted u changes =
      any
        (λ c.
          names c (advisory_path c)
          && (is_missing (repo.get_path tree c) && text_eq (path_url c) u))
        changes

  added-selected :
      (p path : Text) (o : Option Text)
      → contains p (added full repo tree path o).advisories
        ≡ (not full && (is_found (repo.get_path tree p) && names p o))
  unfolding contains
  added-selected p path none = ground arith
  added-selected p path (some a) = elim (Bool-cases (text_eq a p)) [
    | inl same ↦
        let e : a ≡ p = (text_eq_iff a p).0 same in
        rw e (contains-found_advisory (repo.get_path tree p) p p)
    | inr other ↦
        rw other (rw (contains-found_advisory (repo.get_path tree a) p a, other) (ground arith))
  ]

  added-historic :
      (p path : Text) (o : Option Text)
      → contains p (added full repo tree path o).history ≡ (text_eq path p && names p o)
  unfolding contains
  added-historic p path none = ground arith
  added-historic p path (some a) =
      ground (arith, text_eq_iff path a, text_eq_iff a p, text_eq_iff path p)

  added-deleted :
      (u path : Text) (o : Option Text)
      → contains u (added full repo tree path o).deleted
        ≡ (names path o && (is_missing (repo.get_path tree path) && text_eq (path_url path) u))
  unfolding contains
  added-deleted u path none = refl
  added-deleted u path (some a) = elim (Bool-cases (text_eq a path)) [
    | inl same ↦
        let e : a ≡ path = (text_eq_iff a path).0 same in
        rw (e, text_eq_refl) (contains-missing_url (repo.get_path tree path) true u path)
    | inr other ↦
        rw (contains-missing_url (repo.get_path tree a) (text_eq path a) u a, other)
          (ground (arith, text_eq_iff path a, text_eq_iff a path))
  ]

  pub selected_all :
      (p : Text) (paths : List Text)
      → contains p (added_all full repo tree paths).advisories ≡ is_selected p paths
  unfolding contains
  selected_all p [] = ground arith
  selected_all p (path ∷ paths) = ground (
    arith,
    contains-append p (added full repo tree path (advisory_path path)).advisories
        (added_all full repo tree paths).advisories,
    added-selected p path (advisory_path path),
    selected_all p paths,
  )

  pub historic_all :
      (p : Text) (paths : List Text)
      → contains p (added_all full repo tree paths).history ≡ is_historic p paths
  unfolding contains
  historic_all p [] = refl
  historic_all p (path ∷ paths) = ground (
    arith,
    contains-append p (added full repo tree path (advisory_path path)).history
        (added_all full repo tree paths).history,
    added-historic p path (advisory_path path),
    historic_all p paths,
  )

  pub deleted_all :
      (u : Text) (paths : List Text)
      → contains u (added_all full repo tree paths).deleted ≡ is_deleted u paths
  unfolding contains
  deleted_all u [] = refl
  deleted_all u (path ∷ paths) = ground (
    arith,
    contains-append u (added full repo tree path (advisory_path path)).deleted
        (added_all full repo tree paths).deleted,
    added-deleted u path (advisory_path path),
    deleted_all u paths,
  )
