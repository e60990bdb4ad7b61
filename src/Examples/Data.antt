-- ===== src/Examples/Data.antt =====
-- A small repository of two commits, a checkpoint, jobs and services.
use csaf_trove.Base.{ℕ, ◌+◌, true, false, none, some, List, [], ◌∷◌, if◌then◌else◌}
use csaf_trove.Base.Text.{Text, bytes, text_eq}
use csaf_trove.Base.Effect.{Result, ok}
use csaf_trove.Jobs.{JobStatus, Registry, running, discover}
use csaf_trove.Storage.TreeDiff.Repository.{
  Tree, TreeEntry, blob_kind, TreeDelta, Commit, Repository, found, not_found,
}
use csaf_trove.Processing.Paths.{ProcessingCheckpoint}
use csaf_trove.Processing.Select.{Digests}
use csaf_trove.Runner.World.{World, Call, Services, Source}
use csaf_trove.Runner.Snapshot.{Inputs}

abbrev pub advisory : Text
advisory = bytes "a.json"

abbrev pub sidecar : Text
sidecar = bytes "a.json.asc"

abbrev pub gone : Text
gone = bytes "b.json"

abbrev pub entry : Text → Text → TreeEntry
entry name id = record { name = some name; kind = blob_kind; id = id; filemode = 33188 }

abbrev pub old_tree : Tree
old_tree = record {
  id = bytes "t1";
  entries = entry advisory (bytes "a1") ∷ entry gone (bytes "b1") ∷ [];
}

abbrev pub new_tree : Tree
new_tree = record {
  id = bytes "t2";
  entries = entry advisory (bytes "a1") ∷ entry sidecar (bytes "s1") ∷ [];
}

abbrev pub old_commit : Commit
old_commit = record { id = bytes "c1"; parents = []; tree = old_tree }

abbrev pub new_commit : Commit
new_commit = record { id = bytes "c2"; parents = bytes "c1" ∷ []; tree = new_tree }

-- The sidecar of `a.json` came, and `b.json` went.
abbrev pub deltas : List TreeDelta
deltas =
    record { status = 1; old_path = some sidecar; new_path = some sidecar; new_id = bytes "s1" }
    ∷ record { status = 2; old_path = some gone; new_path = none; new_id = [] }
    ∷ []

abbrev pub repository : Repository
repository = record {
  head = ok new_commit;
  find_commit = λ id. if text_eq id (bytes "c2") then ok new_commit else ok old_commit;
  find_tree = λ id. if text_eq id (bytes "t2") then ok new_tree else ok old_tree;
  find_blob = λ id. ok id;
  get_path = λ tree path. if text_eq path advisory then found (bytes "a1") else not_found;
  diff_tree_to_tree = λ old new. ok deltas;
  parse_oid = λ text. some text;
}

abbrev pub digests : Digests
digests = record { metadata_value = λ text key. ok text; sha256_hex = λ parts. bytes "f" }

abbrev pub checkpoint : ProcessingCheckpoint
checkpoint = record { commit_id = bytes "c1"; fingerprint = bytes "f"; summary_dirty = true }

abbrev pub domain : Text
domain = bytes "example.com"

abbrev pub job : JobStatus
job = record {
  status = running;
  started_at = 5;
  completed_at = none;
  phase = some discover;
  documents_synced = 0;
  documents_validated = 0;
  documents_missing = 0;
  documents_total = 0;
  distributions_total = 0;
  distribution_index = 0;
  distribution_documents_current = 0;
  distribution_documents_total = 0;
  phase_current = 0;
  phase_total = 0;
  error = none;
  completed_phases = [];
  last_completed_at = none;
  phase_started_at = some 5;
}

abbrev pub registry : Registry
registry = record { jobs = (domain, job) ∷ []; notified = 0 }

abbrev pub source : Source
source = record {
  domain = domain;
  enabled = true;
  accept_v3_signatures = false;
  retries = none;
  aggregator_include = none;
  skip_directories = [];
  note = none;
  user_agent = none;
}

-- A call that returns its value; the rest of the world counts the calls.
abbrev pub answer : {A : Type 0} → A → Call ℕ A
answer a n = record { result = ok a; reports = []; dirtied = false; rest = n + 1 }

-- The services, with the outcome of writing the report.
abbrev pub services : Result (Unit {0}) → Services ℕ
services reported = record {
  now_utc = λ n. (n, n + 1);
  access = λ d. answer tt;
  maintain_repository = λ d. answer tt;
  prepare_worktree = λ d. answer tt;
  walk = λ s token retry. answer ([], [], []);
  commit_snapshot = λ d. answer tt;
  persist_provider_metadata = λ d. answer tt;
  save_distribution_errors = λ d es. answer tt;
  save_distribution_membership = λ d m. answer tt;
  refresh_distribution_health = λ d. answer tt;
  retrieval_failures = λ d. answer [];
  document_count = λ d. answer 1;
  validator_identity = λ s. ok (bytes "v5");
  clean_selection = λ d. answer tt;
  clean_validation_files = λ d. answer tt;
  retrieval_error_urls = λ d after. answer [];
  downloaded = λ d path n. false;
  delete_all_documents = λ d. answer tt;
  delete_document_urls = λ d urls. answer tt;
  validate_provider = λ s count. answer tt;
  versions_missing = λ d. answer false;
  record_versions = λ d since. answer tt;
  save_retrieval_errors = λ d fs. answer true;
  has_summary = λ d. answer true;
  build_summary = λ d. answer (bytes "{}");
  save_summary = λ d text. answer tt;
  generate_report =
      λ d n. record { result = reported; reports = []; dirtied = false; rest = n + 1 };
  save_sync_run = λ d at changed missing took. answer tt;
  cleanup_worktree = λ d. answer tt;
}

abbrev pub inputs : Result (Unit {0}) → Inputs ℕ
inputs reported = record {
  services = services reported;
  digests = digests;
  repository = λ d n. repository;
  selection_reports = λ d n. [];
  url_to_git_path = λ url. ok none;
  materialize = λ d selection. answer 1;
  commits = 3;
  levels = 2;
  pages = 2;
}

abbrev pub world : World ℕ
world = record {
  registry = registry;
  held = [];
  sync_states = [];
  checkpoints = (domain, checkpoint) ∷ [];
  finished = [];
  rest = 100;
}
