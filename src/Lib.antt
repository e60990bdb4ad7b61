-- ===== src/Lib.antt =====
-- csaf-trove mirrors the security advisories of CSAF providers. A scheduled job for each provider
-- downloads what changed, commits it to a bare Git repository, validates what the commits since the
-- last pass touched, and publishes results, a summary and a report. These modules model the server's
-- core: the status map, the selection of what to validate, and the jobs that tie both together.
--
-- Base: lists, texts, maps and arithmetic over the native numbers, and results with an error text.
--   Texts are lists of bytes. A map is an association list. A `u64` wraps around.
-- Jobs: server/src/models/state.rs, the phases of common/src/lib.rs, and the methods of `AppState` in
--   server/src/main.rs that change the status map. The locks of the map make each method one step.
--   Jobs/History: the phases that a job goes through, over any sequence of reports.
-- Storage/PathSet: server/src/storage/path_set.rs. A SQLite table of paths is the list of its rows;
--   `INSERT OR IGNORE` and the affected rows are functions on it. Rows and Pages: its laws.
-- Storage/TreeDiff: server/src/storage/git_changes.rs. Repository holds what is read through `git2`,
--   as a record of functions; Compare and Cache are the comparison and the cache in front of it;
--   Traces, Replays, Sound and Visits prove that the cache is not seen.
-- Storage/Documents: the tables of server/src/storage/documents.rs as lists of rows, with
--   `delete_document_urls` of server/src/storage/processing.rs. Store saves, Failures notes failed
--   downloads, Load reads. A transaction succeeds as a whole; serde's JSON is a parameter. Rows, Valid
--   and Kept are about keys, Details about the columns of profiles.
-- Storage/Identifiers: the identifiers that documents.rs makes from others and from URLs.
-- Storage/Membership: server/src/storage/membership.rs. The table of members is a list of rows with
--   their primary key. Queries and Inserts: what its statements do.
-- Storage/Versions: `record_versions` of server/src/storage/versions.rs, on the tables of documents and
--   of versions. Its channel hands on one commit after the other. GitRepo/Emits carries an invariant
--   through the walk of the history.
-- Processing: server/src/storage/git_processing.rs. Paths maps files to advisories, Scan walks the
--   history (`scan_changes`; the bounded channel is the list of its messages), Select is
--   `select_processing_with_progress`. History, Resolve, Outcome and Incremental prove what it selects.
--   Materialize counts and extracts the selected files; the walk of a tree and the writing of files
--   are parameters.
-- Runner: server/src/scheduler/runner.rs. Progress is `BlockingProgress`, with its timer and its
--   samples as an explicit sequence of events. World is the state of a job, with the functions of other
--   components as calls that can fail, report progress, and set the checkpoint's `summary_dirty`.
--   Snapshot is `process_snapshot` with the checkpoint of server/src/storage/processing.rs; Pipeline is
--   `run_job`, `run_pipeline` and `run_revalidation`, with the token of server/src/pipeline/sync.rs.
--   Snapshot/Published, Checkpoints and Resumed follow a pass that succeeds, one that fails, and the
--   one behind an interrupted revalidation.
--   An action keeps what it has done when it fails. Moves, Keeps, Outcomes, Stays and Locks carry
--   properties along chains of actions.
-- Retrieval: server/src/pipeline/membership.rs, and the closures of server/src/pipeline/sync.rs that
--   the walker of csaf_walker calls. Index: the recorded membership; Distributions: counts and errors.
-- Overview: common/src/document_checks.rs, the aggregation of server/src/api/overview.rs, where a rate
--   is the pair of counts that it is computed from, and server/src/models/metrics.rs.
-- GitRepo: server/src/storage/git_repo.rs and scratch.rs. Scratch holds the names of files; Staging fills
--   an index, a map from paths to blobs, from the files of a worktree; Refs is the interface of
--   references and commits, with what `git2` documents of them; Snapshots prepares and commits, with
--   other writers as a parameter; Versions walks the history for the advisory versions of each commit.
-- Locations: where a document lies, from `advisory_path` of server/src/pipeline/store.rs and
--   `url_to_git_path` of server/src/storage/git_repo.rs to `try_reconstruct_url` of
--   server/src/pipeline/validate.rs; the parsing of URLs is a parameter. Components: the parts of paths.
-- Validation: server/src/pipeline/validate.rs. The verification of csaf_walker is the list of its
--   results, with the outcomes of its checks, digests and signatures. Integrity assesses those, Documents
--   makes a document of one result, Profiles details its profiles and validates a provider.
-- Startup: server/src/startup.rs and the guarded paths of server/src/rate_limit.rs.
-- Sources: `sanitize_domain` of server/src/models/source.rs.
-- RateLimit: the keys, the waiting and the middleware of server/src/rate_limit.rs; the budgets of the
--   governor crate and the parsing of an address are parameters.
-- Examples: the theorems at concrete data.
--
-- Loops: a page loop over a path set has fuel for one page more than the set has rows, which is enough
-- (Storage/PathSet/Pages). A scan has fuel for the commits behind the head, and a comparison for the
-- levels of directories; theorems about them take as much fuel as the history and the trees need. The
-- loop over failed downloads, whose pages come from the database, takes its number of pages as a
-- parameter; when it is used up the pass fails, as it would on an error of the database.
--
-- Not modelled: log lines and timings, the CSAF checks and the content of advisories, the queries on
-- documents that only read for the interface, the HTTP interface, the dashboard, and the maintenance of
-- repositories. `spawn_blocking` and `await` are calls in sequence, since a job holds its provider's
-- lock.
pub mod Base
pub mod Jobs
pub mod Storage
pub mod Processing
pub mod Runner
pub mod Retrieval
pub mod Overview
pub mod GitRepo
pub mod Locations
pub mod Validation
pub mod Startup
pub mod Sources
pub mod RateLimit
pub mod Examples
