-- ===== src/Storage/Versions.antt =====
-- `record_versions` in server/src/storage/versions.rs: the versions that the history of a repository
-- has of each document. A table is the list of its rows; a transaction that fails changes nothing.
pub mod Counts
pub mod Refreshed
use csaf_trove.Base.{
  ℕ, suc, ◌+◌, Bool, true, false, ◌&&◌, not, Option, none, some, List, [], ◌∷◌, ◌++◌, any, length,
  ◌==◌, if◌then◌else◌,
}
use csaf_trove.Base.Text.{Text, text_eq}
use csaf_trove.Base.Int.{ℤ}
use csaf_trove.Base.Effect.{Result, ok, err, ◌>>=◌}
use csaf_trove.GitRepo.Versions.{
  TrackingSummary, ChangedDocument, CommitVersions, History, collect_versions,
}
use csaf_trove.Storage.PathSet.{insert_row, chunks}
use csaf_trove.Storage.PathSet.Rows.{contains}
use csaf_trove.Storage.Documents.{DocumentRow}

-- A row of `document_versions`.
pub record VersionRow : Type 0 where
  pub id : ℕ
  pub url : Text
  pub commit_id : Text
  pub timestamp : ℤ
  pub message : Text
  pub blob_id : Text
  pub tracking : TrackingSummary

-- The two tables that the function writes, and the next key of the second.
pub record VersionTables : Type 0 where
  pub documents : List DocumentRow
  pub versions : List VersionRow
  pub next_id : ℕ

-- The tables and `touched` while the commits are received.
pub record Recording : Type 0 where
  pub tables : VersionTables
  pub touched : List Text

-- The unique index on URL and commit.
abbrev pub is_version : Text → Text → VersionRow → Bool
is_version url commit_id row = text_eq row.url url && text_eq row.commit_id commit_id

abbrev pub new_version : ℕ → CommitVersions → ChangedDocument → VersionRow
new_version id commit doc = record {
  id = id;
  url = doc.url;
  commit_id = commit.commit_id;
  timestamp = commit.timestamp;
  message = commit.message;
  blob_id = doc.blob_id;
  tracking = doc.tracking;
}

-- `INSERT OR IGNORE` of one row.
unfoldable pub insert_version : CommitVersions → ChangedDocument → VersionTables → VersionTables
insert_version commit doc t =
    if any (is_version doc.url commit.commit_id) t.versions then t else record t {
      versions = t.versions ++ (new_version t.next_id commit doc ∷ []);
      next_id = suc t.next_id;
    }

unfoldable pub record_document : CommitVersions → ChangedDocument → Recording → Recording
unfolding insert_version insert_row
record_document commit doc r = record {
  tables = insert_version commit doc r.tables;
  touched = insert_row doc.url r.touched;
}

-- One statement with several rows.
unfoldable pub record_chunk : CommitVersions → List ChangedDocument → Recording → Recording
unfolding record_document
record_chunk commit [] r = r
record_chunk commit (doc ∷ docs) r = record_chunk commit docs (record_document commit doc r)

unfoldable pub record_chunks : CommitVersions → List (List ChangedDocument) → Recording → Recording
unfolding record_chunk
record_chunks commit [] r = r
record_chunks commit (chunk ∷ rest) r = record_chunks commit rest (record_chunk commit chunk r)

-- `INSERT_CHUNK` and `URL_CHUNK`
abbrev pub insert_chunk_size : ℕ
insert_chunk_size = 500

abbrev pub url_chunk_size : ℕ
url_chunk_size = 500

-- The body of the loop over the commits that are received.
unfoldable pub record_commit : CommitVersions → Recording → Recording
unfolding record_chunks chunks
record_commit commit r = record_chunks commit (chunks insert_chunk_size commit.documents) r

-- `COUNT(*)` of the group of a URL.
unfoldable pub count_versions : Text → List VersionRow → ℕ
count_versions url [] = 0
count_versions url (row ∷ rows) =
    let rest = count_versions url rows in if text_eq row.url url then suc rest else rest

-- Whether the filter of a refresh admits a URL.
abbrev pub admits : Option (List Text) → Text → Bool
admits none url = true
admits (some urls) url = contains url urls

-- A row without a group, or whose count is up to date, is not written.
abbrev pub refresh_row : Option (List Text) → List VersionRow → DocumentRow → DocumentRow
refresh_row urls versions row =
    if admits urls row.url && not (count_versions row.url versions == 0)
    then record row { version_count = count_versions row.url versions }
    else row

unfoldable pub refresh_rows :
    Option (List Text) → List VersionRow → List DocumentRow → List DocumentRow
unfolding contains count_versions
refresh_rows urls versions [] = []
refresh_rows urls versions (row ∷ rows) =
    refresh_row urls versions row ∷ refresh_rows urls versions rows

unfoldable pub refresh_version_counts : Option (List Text) → VersionTables → VersionTables
unfolding refresh_rows
refresh_version_counts urls t = record t { documents = refresh_rows urls t.versions t.documents }

unfoldable pub refresh_chunks : List (List Text) → VersionTables → VersionTables
unfolding refresh_version_counts
refresh_chunks [] t = t
refresh_chunks (chunk ∷ rest) t = refresh_chunks rest (refresh_version_counts (some chunk) t)

-- Without a checkpoint all rows are made again.
abbrev pub start_recording : Option Text → VersionTables → Recording
start_recording none t = record { tables = record t { versions = [] }; touched = [] }
start_recording (some since) t = record { tables = t; touched = [] }

unfoldable pub finish_recording : Option Text → Recording → VersionTables
unfolding refresh_version_counts refresh_chunks chunks
finish_recording none r = refresh_version_counts none r.tables
finish_recording (some since) r = refresh_chunks (chunks url_chunk_size r.touched) r.tables

-- `exists` says that there is a repository. The channel hands on one commit after the other.
unfoldable pub record_versions :
    ℕ → History → ℕ → Bool → Option Text → VersionTables → Result VersionTables
unfolding collect_versions record_commit finish_recording
record_versions levels h fuel exists since t =
    if exists
    then (collect_versions levels h (λ commit r. ok (record_commit commit r)) fuel since
          (start_recording since t)
        >>= λ r. ok (finish_recording since r))
    else ok t

unfoldable pub versions_missing : VersionTables → Bool
versions_missing t = not (length t.documents == 0) && (length t.versions == 0)
