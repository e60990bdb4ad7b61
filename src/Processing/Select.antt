-- ===== src/Processing/Select.antt =====
-- `select_processing_with_progress`. Progress reports and log lines are left out.
use csaf_trove.Base.{
  ℕ, suc, Bool, true, false, ◌||◌, not, Option, none, some, List, [], ◌∷◌, ◌++◌, length,
}
use csaf_trove.Base.Text.{Text, bytes, text_eq}
use csaf_trove.Base.Effect.{Result, ok, err, ◌>>=◌, for_each}
use csaf_trove.Storage.PathSet.{PathSet, new, insert_batch, for_pages}
use csaf_trove.Storage.TreeDiff.Repository.{Oid, Tree, Repository, Lookup, found, not_found, failed}
use csaf_trove.Storage.TreeDiff.Compare.{out_of_levels}
use csaf_trove.Processing.Paths.{ProcessingCheckpoint, ProcessingSelection, advisory_path, path_url}
use csaf_trove.Processing.Scan.{Batch, scan_changes}

-- The libraries that the fingerprint is made with: `serde_json` reads the provider metadata and
-- writes the value of one key, and `Sha256` with `hex` digests what was fed to it.
pub record Digests : Type 0 where
  pub metadata_value : Text → Text → Result Text
  pub sha256_hex : List Text → Text

abbrev pub metadata_file : Text
metadata_file = bytes "metadata/provider-metadata.json"

abbrev pub keys_directory : Text
keys_directory = bytes "metadata/keys"

module _ (digests : Digests) (repo : Repository) where
  -- Only the inputs that affect validation; metadata that cannot be looked up is left out.
  unfoldable pub metadata_inputs : Lookup → Result (List Text)
  metadata_inputs (found id) = do
    blob ← repo.find_blob id
    distributions ← digests.metadata_value blob (bytes "distributions")
    keys ← digests.metadata_value blob (bytes "public_openpgp_keys")
    ok (distributions ∷ keys ∷ [])
  metadata_inputs _ = ok []

  abbrev keys_input : Lookup → List Text
  keys_input (found id) = id ∷ []
  keys_input _ = []

  unfoldable pub fingerprint_of : Tree → Text → Result Text
  unfolding metadata_inputs
  fingerprint_of tree identity = do
    inputs ← metadata_inputs (repo.get_path tree metadata_file)
    ok (digests.sha256_hex ((identity ∷ inputs) ++ keys_input (repo.get_path tree keys_directory)))

-- The channel is drained into the set of changes.
unfoldable pub collect_changes : List Batch → PathSet → PathSet
unfolding insert_batch
collect_changes [] changes = changes
collect_changes ((paths, visited) ∷ rest) changes =
    collect_changes rest (insert_batch paths changes)

-- The vectors that one page of changes fills.
pub record Resolved : Type 0 where
  pub advisories : List Text
  pub history : List Text
  pub deleted : List Text

abbrev pub unresolved : Resolved
unresolved = record { advisories = []; history = []; deleted = [] }

abbrev pub push_if : Bool → List Text → Text → List Text
push_if true xs x = xs ++ (x ∷ [])
push_if false xs x = xs

-- The `match` on the lookup of the advisory; `itself` says that the changed path is the advisory.
unfoldable pub resolve_lookup : Bool → Bool → Text → Lookup → Resolved → Result Resolved
resolve_lookup full itself advisory (found id) r =
    ok (record r { advisories = push_if (not full) r.advisories advisory })
resolve_lookup full itself advisory not_found r =
    ok (record r { deleted = push_if itself r.deleted (path_url advisory) })
resolve_lookup full itself advisory (failed e) r = err e

unfoldable pub resolve_advisory :
    Bool → Repository → Tree → Text → Option Text → Resolved → Result Resolved
unfolding resolve_lookup
resolve_advisory full repo tree path none r = ok r
resolve_advisory full repo tree path (some advisory) r =
    let itself = text_eq path advisory in
    resolve_lookup full itself advisory (repo.get_path tree advisory)
      (record r { history = push_if itself r.history advisory })

-- The body of the loop over the paths of a page.
unfoldable pub resolve_path : Bool → Repository → Tree → Text → Resolved → Result Resolved
unfolding resolve_advisory advisory_path
resolve_path full repo tree path r = resolve_advisory full repo tree path (advisory_path path) r

-- The sets that the pages fill.
pub record Sets : Type 0 where
  pub advisories : PathSet
  pub history : PathSet
  pub deleted : PathSet

abbrev pub no_sets : Sets
unfolding new
no_sets = record { advisories = new; history = new; deleted = new }

-- The body of the loop over the pages.
unfoldable pub resolve_page : Bool → Repository → Tree → List Text → Sets → Result Sets
unfolding for_each resolve_path insert_batch
resolve_page full repo tree paths sets = do
  r ← for_each (resolve_path full repo tree) paths unresolved
  ok (record {
    advisories = insert_batch r.advisories sets.advisories;
    history = insert_batch r.history sets.history;
    deleted = insert_batch r.deleted sets.deleted;
  })

abbrev pub or_stuck {ℓ} : {A : Type ℓ} → Option (Result A) → Result A
or_stuck none = err out_of_levels
or_stuck (some r) = r

-- Enough rounds to read a set: one for each row and one for the empty page.
unfoldable pub resolve_changes : Bool → Repository → Tree → PathSet → Result Sets
unfolding for_pages resolve_page
resolve_changes full repo tree changes =
    or_stuck
      (for_pages (suc (length changes.rows)) changes (resolve_page full repo tree) [] no_sets)

abbrev pub previous_oid : Repository → Option ProcessingCheckpoint → Option Oid
previous_oid repo none = none
previous_oid repo (some p) = repo.parse_oid p.commit_id

abbrev pub same_fingerprint : Text → Option ProcessingCheckpoint → Bool
same_fingerprint fingerprint none = false
same_fingerprint fingerprint (some p) = text_eq p.fingerprint fingerprint

-- Whether a baseline is needed, and the changes since the checkpoint.
unfoldable pub scan_history : ℕ → ℕ → Repository → Oid → Option Oid → Result (Bool × PathSet)
unfolding scan_changes collect_changes new
scan_history commits levels repo head none = ok (true, new)
scan_history commits levels repo head (some oid) = do
  (baseline, sent) ← scan_changes commits levels repo head (some oid)
  ok (baseline, collect_changes sent new)

-- `commits` bounds the history behind the head, and `levels` the nesting of directories.
unfoldable pub select_processing :
    Digests
    → ℕ
    → ℕ
    → Repository
    → Option ProcessingCheckpoint
    → Text
    → Bool
    → Result ProcessingSelection
unfolding fingerprint_of scan_history resolve_changes
select_processing digests commits levels repo previous identity force_full = do
  head ← repo.head
  fingerprint ← fingerprint_of digests repo head.tree identity
  (baseline, changes) ← scan_history commits levels repo head.id (previous_oid repo previous)
  let full = baseline || (force_full || not (same_fingerprint fingerprint previous))
  sets ← resolve_changes full repo head.tree changes
  ok (record {
    checkpoint = record { commit_id = head.id; fingerprint = fingerprint; summary_dirty = false };
    full = full;
    baseline = baseline;
    advisories = sets.advisories;
    history = sets.history;
    deleted = sets.deleted;
  })
