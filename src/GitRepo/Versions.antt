-- ===== src/GitRepo/Versions.antt =====
-- `collect_versions` of server/src/storage/git_repo.rs: the advisory versions of each commit.
use mathlib.Core.List.{reverse}
use csaf_trove.Base.{
  ℕ, zero, suc, Bool, false, ◌||◌, ◌&&◌, Option, none, some, List, [], ◌∷◌, ◌++◌, ◌==◌,
  if◌then◌else◌,
}
use csaf_trove.Base.Text.{Text, text_eq}
use csaf_trove.Base.Int.{ℤ}
use csaf_trove.Base.Effect.{Result, ok, err, ◌>>=◌, for_each}
use csaf_trove.Storage.TreeDiff.Repository.{Oid, Tree, TreeDelta, Commit, Repository}
use csaf_trove.Storage.TreeDiff.Compare.{same_oid, out_of_levels}
use csaf_trove.Storage.TreeDiff.Cache.{TreeDiffCache, empty, diff}
use csaf_trove.Processing.Paths.{advisory_path, path_url}

pub record TrackingSummary : Type 0 where
  pub status : Option Text
  pub version : Option Text
  pub current_release_date : Option Text

-- The values of `serde_json` that `scalar_text` tells apart; a number is its printed form.
pub data JsonValue : Type 0 where
  string number : Text → JsonValue
  other : JsonValue

-- `CsafTracking`
pub record CsafTracking : Type 0 where
  pub status : Option JsonValue
  pub version : Option JsonValue
  pub current_release_date : Option JsonValue

abbrev pub no_tracking : CsafTracking
no_tracking = record { status = none; version = none; current_release_date = none }

unfoldable pub scalar_text : Option JsonValue → Option Text
scalar_text none = none
scalar_text (some (string s)) = some s
scalar_text (some (number n)) = some n
scalar_text (some other) = none

abbrev or_default : Option CsafTracking → CsafTracking
or_default none = no_tracking
or_default (some t) = t

-- `envelope` is the deserialization of `CsafEnvelope` by serde.
unfoldable pub parse_tracking : (Text → Option CsafTracking) → Text → TrackingSummary
unfolding scalar_text
parse_tracking envelope blob =
    let tracking = or_default (envelope blob) in
    record {
      status = scalar_text tracking.status;
      version = scalar_text tracking.version;
      current_release_date = scalar_text tracking.current_release_date;
    }

pub record ChangedDocument : Type 0 where
  pub url : Text
  pub blob_id : Text
  pub tracking : TrackingSummary

pub record CommitVersions : Type 0 where
  pub commit_id : Text
  pub timestamp : ℤ
  pub message : Text
  pub documents : List ChangedDocument

-- What the function reads: `head` is none where `repo.head()` fails, and else the outcome of
-- `peel_to_commit`.
pub record History : Type 0 where
  pub repo : Repository
  pub head : Option (Result Commit)
  pub time : Oid → ℤ
  pub message : Oid → Option Text
  pub envelope : Text → Option CsafTracking

abbrev found_commit : Result Commit → Option Commit
found_commit (ok c) = some c
found_commit (err e) = none

-- `commit.parents().next()`: a parent that cannot be read ends the iteration of `git2`.
abbrev pub first_parent_of : Repository → List Oid → Option Commit
first_parent_of repo [] = none
first_parent_of repo (p ∷ ps) = found_commit (repo.find_commit p)

unfoldable pub first_parent : Repository → Commit → Option Commit
first_parent repo c = first_parent_of repo c.parents

-- The loop that pushes the commits from the head down to `since`, with fuel for their number.
unfoldable pub walk_commits : ℕ → Repository → Option Oid → Commit → Result (List Commit)
unfolding same_oid first_parent
walk_commits zero repo since c = if same_oid (some c.id) since then ok [] else err out_of_levels
walk_commits (suc fuel) repo since c =
    if same_oid (some c.id) since then ok [] else elim (first_parent repo c) [
      | none ↦ ok (c ∷ [])
      | some parent ↦ walk_commits fuel repo since parent >>= λ cs. ok (c ∷ cs)
    ]

-- `Delta::Added` and `Delta::Modified`
abbrev pub is_written : ℕ → Bool
is_written status = status == 1 || status == 3

-- `advisory_path(path).as_deref() == Some(path)`
abbrev pub is_advisory_itself : Text → Option Text → Bool
is_advisory_itself path none = false
is_advisory_itself path (some advisory) = text_eq advisory path

unfoldable pub changed_document : History → TreeDelta → Text → Result ChangedDocument
unfolding path_url parse_tracking
changed_document h d path = do
  blob ← h.repo.find_blob d.new_id
  ok (record { url = path_url path; blob_id = d.new_id; tracking = parse_tracking h.envelope blob })

unfoldable pub push_document :
    History → TreeDelta → Option Text → List ChangedDocument → Result (List ChangedDocument)
unfolding changed_document advisory_path
push_document h d none documents = ok documents
push_document h d (some path) documents =
    if is_written d.status && is_advisory_itself path (advisory_path path)
    then (changed_document h d path >>= λ document. ok (documents ++ (document ∷ [])))
    else ok documents

-- The loop over the deltas of a commit.
unfoldable pub commit_documents : History → List TreeDelta → Result (List ChangedDocument)
unfolding push_document for_each
commit_documents h ds = for_each (λ d documents. push_document h d d.new_path documents) ds []

abbrev pub parent_tree : Option Commit → Option Tree
parent_tree none = none
parent_tree (some p) = some p.tree

abbrev pub or_empty : Option Text → Text
or_empty none = []
or_empty (some t) = t

unfoldable pub commit_versions : History → Commit → List ChangedDocument → CommitVersions
commit_versions h c documents = record {
  commit_id = c.id;
  timestamp = h.time c.id;
  message = or_empty (h.message c.id);
  documents = documents;
}

module _ {ℓ} {S : Type ℓ} (levels : ℕ) (h : History) (emit : CommitVersions → S → Result S) where
  -- A commit without documents is not emitted.
  unfoldable pub emit_documents : Commit → List ChangedDocument → S → Result S
  unfolding commit_versions
  emit_documents c [] s = ok s
  emit_documents c (d ∷ ds) s = emit (commit_versions h c (d ∷ ds)) s

  -- The body of the loop over the commits, with the comparison cache.
  unfoldable pub emit_commit : Commit → S × TreeDiffCache → Result (S × TreeDiffCache)
  unfolding diff first_parent commit_documents emit_documents
  emit_commit c (s, cache) = do
    (deltas, cache') ← diff h.repo levels (parent_tree (first_parent h.repo c)) c.tree cache
    documents ← commit_documents h deltas
    s' ← emit_documents c documents s
    ok (s', cache')

  unfoldable pub emit_commits : List Commit → S → Result S
  unfolding for_each emit_commit empty
  emit_commits commits s = for_each emit_commit (reverse commits) (s, empty) >>= λ r. ok r.0

  -- `Oid::from_str` of `since`.
  unfoldable pub parse_since : Option Text → Result (Option Oid)
  parse_since none = ok none
  parse_since (some text) = elim (h.repo.parse_oid text) [
    | none ↦ err text
    | some oid ↦ ok (some oid)
  ]

  unfoldable pub collect_from : ℕ → Option Text → Result Commit → S → Result S
  unfolding parse_since walk_commits emit_commits
  collect_from fuel since tip s = do
    stop ← parse_since since
    head ← tip
    commits ← walk_commits fuel h.repo stop head
    emit_commits commits s

  -- A repository without a head has no versions.
  unfoldable pub collect_at : ℕ → Option Text → Option (Result Commit) → S → Result S
  unfolding collect_from
  collect_at fuel since none s = ok s
  collect_at fuel since (some tip) s = collect_from fuel since tip s

  unfoldable pub collect_versions : ℕ → Option Text → S → Result S
  unfolding collect_at
  collect_versions fuel since s = collect_at fuel since h.head s
