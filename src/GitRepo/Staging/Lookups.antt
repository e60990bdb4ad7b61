-- ===== src/GitRepo/Staging/Lookups.antt =====
-- What the index holds for a path behind the staging of one file.
use csaf_trove.Base.{
  ◌≡◌, Bool, ◌&&◌, ◌||◌, not, Option, none, some, List, [], ◌∷◌, any, arith, Bool-cases, inl, inr,
  if◌then◌else◌,
}
use csaf_trove.Base.Text.{Text, text_eq, text_eq_iff}
use csaf_trove.Base.Map
use csaf_trove.Base.Map.{Map}
use csaf_trove.Storage.TreeDiff.Repository.{Oid}
use csaf_trove.GitRepo.Scratch.{is_advisory, in_metadata, with_added_extension}
use csaf_trove.GitRepo.Staging.{suffixes, drop_sidecar, drop_sidecars, without_stale}

-- Whether the path is a sidecar of the advisory that the worktree does not hold.
abbrev pub is_dropped : (Text → Bool) → Text → Text → Bool
is_dropped exists logical p =
    (is_advisory logical && not (in_metadata logical))
    && (not (exists p) && any (λ suffix. text_eq (with_added_extension logical suffix) p) suffixes)

get-drop_sidecar :
    (exists : Text → Bool) (sidecar p : Text) (index : Map Oid)
    → Map.get p (drop_sidecar exists sidecar index)
      ≡ (if not (exists p) && text_eq sidecar p then none else Map.get p index)
unfolding drop_sidecar
get-drop_sidecar exists sidecar p index =
    ground (arith, text_eq_iff sidecar p, Map.get-remove sidecar p index)

drop_twice :
    {A : Type 0} (gone a b : Bool) (found : Option A)
    → (if gone && b then none else if gone && a then none else found)
      ≡ (if gone && (a || b) then none else found)
drop_twice gone a b found = ground arith

get-drop_sidecars :
    (exists : Text → Bool) (logical p : Text) (rest : List Text) (index : Map Oid)
    → Map.get p (drop_sidecars exists logical rest index) ≡ (
        if not (exists p) && any (λ suffix. text_eq (with_added_extension logical suffix) p) rest
        then none
        else Map.get p index)
unfolding drop_sidecars
get-drop_sidecars exists logical p [] index = ground arith
get-drop_sidecars exists logical p (suffix ∷ rest) index =
    rw
      (
        get-drop_sidecars exists logical p rest
            (drop_sidecar exists (with_added_extension logical suffix) index),
        get-drop_sidecar exists (with_added_extension logical suffix) p index,
      )
      (drop_twice (not (exists p)) (text_eq (with_added_extension logical suffix) p)
        (any (λ suffix. text_eq (with_added_extension logical suffix) p) rest) (Map.get p index))

get-without_stale :
    (exists : Text → Bool) (logical p : Text) (index : Map Oid)
    → Map.get p (without_stale exists logical index)
      ≡ (if is_dropped exists logical p then none else Map.get p index)
unfolding without_stale
get-without_stale exists logical p index =
    elim (Bool-cases (is_advisory logical && not (in_metadata logical))) [
      | inl advisory ↦ rw advisory (get-drop_sidecars exists logical p suffixes index)
      | inr other ↦ rw other
    ]

-- Staging a file sets its own path, takes its stale sidecars away, and leaves the rest alone.
pub get-stage :
    (exists : Text → Bool) (logical p : Text) (blob : Oid) (index : Map Oid)
    → Map.get p (Map.insert logical blob (without_stale exists logical index)) ≡ (
        if text_eq logical p
        then some blob
        else if is_dropped exists logical p
        then none
        else Map.get p index)
get-stage exists logical p blob index = rw (
  Map.get-insert logical p blob (without_stale exists logical index),
  get-without_stale exists logical p index,
)
