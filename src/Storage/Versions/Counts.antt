-- ===== src/Storage/Versions/Counts.antt =====
-- The version counts of documents are those of their recorded versions.
use csaf_trove.Base.{
  ◌≡◌, refl, sym, ap, ◌∙◌, suc, false, ◌&&◌, List, [], ◌∷◌, ◌++◌, any, ◌⊎◌, inl, inr, All,
  All-append, Bool-cases, or-false,
}
use csaf_trove.Base.Text.{Text, text_eq, text_eq_comm}
use csaf_trove.GitRepo.Versions.{ChangedDocument, CommitVersions}
use csaf_trove.Storage.PathSet.{chunks}
use csaf_trove.Storage.PathSet.Rows.{contains, contains-insert_row}
use csaf_trove.Storage.Documents.{DocumentRow}
use csaf_trove.Storage.Versions.{
  VersionRow, VersionTables, Recording, is_version, new_version, insert_version, record_document,
  record_chunk, record_chunks, record_commit, count_versions, insert_chunk_size,
}

-- A document without recorded versions may have any count.
abbrev pub Counted : List VersionRow → DocumentRow → Type 0
Counted versions row =
    (count_versions row.url versions ≡ 0) ⊎ (row.version_count ≡ count_versions row.url versions)

-- A commit makes one version of a URL.
abbrev pub IsUnique : List VersionRow → Type 0
IsUnique [] = Unit
IsUnique (row ∷ rows) =
    All (λ other. is_version row.url row.commit_id other ≡ false) rows × IsUnique rows

pub record IsCounted (t : VersionTables) : Type 0 where
  pub counts : All (Counted t.versions) t.documents
  pub unique : IsUnique t.versions

-- What recording does to the tables.
pub record Records (r r' : Recording) : Type 0 where
  pub untouched :
      (url : Text)
      → contains url r'.touched ≡ false
      → (contains url r.touched ≡ false)
        × (count_versions url r'.tables.versions ≡ count_versions url r.tables.versions)
  pub documents : r'.tables.documents ≡ r.tables.documents
  pub unique : IsUnique r.tables.versions → IsUnique r'.tables.versions

pub Records-refl : (r : Recording) → Records r r
Records-refl r = record { untouched = λ url h. (h, refl); documents = refl; unique = λ u. u }

pub Records-trans : (a b c : Recording) → Records a b → Records b c → Records a c
Records-trans a b c first second = record {
  untouched = λ url h.
      let (here, same) = second.untouched url h in
      let (there, before) = first.untouched url here in (there, same ∙ before);
  documents = second.documents ∙ first.documents;
  unique = λ u. second.unique (first.unique u);
}

count_versions-append :
    (url : Text) (rows : List VersionRow) (new : VersionRow)
    → text_eq new.url url ≡ false
    → count_versions url (rows ++ (new ∷ [])) ≡ count_versions url rows
unfolding count_versions
count_versions-append url [] new other = rw other
count_versions-append url (row ∷ rows) new other = elim (Bool-cases (text_eq row.url url)) [
  | inl this ↦ rw this (ap (λ n. suc n) (count_versions-append url rows new other))
  | inr not_this ↦ rw not_this (count_versions-append url rows new other)
]

append-IsUnique :
    (rows : List VersionRow) (new : VersionRow)
    → any (is_version new.url new.commit_id) rows ≡ false
    → IsUnique rows
    → IsUnique (rows ++ (new ∷ []))
append-IsUnique [] new fresh unique = (tt, tt)
append-IsUnique (row ∷ rows) new fresh unique =
    let (this, rest) = or-false (is_version new.url new.commit_id row) _ fresh in
    (
      All-append (λ other. is_version row.url row.commit_id other ≡ false) rows (new ∷ []) unique.0
          (
            ap (λ b. b && text_eq new.commit_id row.commit_id) (text_eq_comm new.url row.url)
                ∙ ap (λ b. text_eq row.url new.url && b) (text_eq_comm new.commit_id row.commit_id)
                ∙ this,
            tt,
          ),
      append-IsUnique rows new rest unique.1,
    )

insert_version-untouched :
    (commit : CommitVersions) (doc : ChangedDocument) (t : VersionTables) (url : Text)
    → text_eq doc.url url ≡ false
    → count_versions url (insert_version commit doc t).versions ≡ count_versions url t.versions
unfolding insert_version
insert_version-untouched commit doc t url other =
    elim (Bool-cases (any (is_version doc.url commit.commit_id) t.versions)) [
      | inl known ↦ rw known
      | inr new ↦
          rw new (count_versions-append url t.versions (new_version t.next_id commit doc) other)
    ]

insert_version-documents :
    (commit : CommitVersions) (doc : ChangedDocument) (t : VersionTables)
    → (insert_version commit doc t).documents ≡ t.documents
unfolding insert_version
insert_version-documents commit doc t =
    elim (Bool-cases (any (is_version doc.url commit.commit_id) t.versions)) [
      | inl known ↦ rw known
      | inr new ↦ rw new
    ]

insert_version-IsUnique :
    (commit : CommitVersions) (doc : ChangedDocument) (t : VersionTables)
    → IsUnique t.versions
    → IsUnique (insert_version commit doc t).versions
unfolding insert_version
insert_version-IsUnique commit doc t unique =
    elim (Bool-cases (any (is_version doc.url commit.commit_id) t.versions)) [
      | inl known ↦ rw known unique
      | inr new ↦ rw new (append-IsUnique t.versions (new_version t.next_id commit doc) new unique)
    ]

record_document-Records :
    (commit : CommitVersions) (doc : ChangedDocument) (r : Recording)
    → Records r (record_document commit doc r)
unfolding record_document
record_document-Records commit doc r = record {
  untouched = λ url h.
      let (other, rest) =
        or-false (text_eq doc.url url) (contains url r.touched)
          (sym (contains-insert_row url doc.url r.touched) ∙ h) in
      (rest, insert_version-untouched commit doc r.tables url other);
  documents = insert_version-documents commit doc r.tables;
  unique = insert_version-IsUnique commit doc r.tables;
}

record_chunk-Records :
    (commit : CommitVersions) (docs : List ChangedDocument) (r : Recording)
    → Records r (record_chunk commit docs r)
unfolding record_chunk
record_chunk-Records commit [] r = Records-refl r
record_chunk-Records commit (doc ∷ docs) r =
    Records-trans r (record_document commit doc r) _ (record_document-Records commit doc r)
      (record_chunk-Records commit docs (record_document commit doc r))

record_chunks-Records :
    (commit : CommitVersions) (pages : List (List ChangedDocument)) (r : Recording)
    → Records r (record_chunks commit pages r)
unfolding record_chunks
record_chunks-Records commit [] r = Records-refl r
record_chunks-Records commit (page ∷ pages) r =
    Records-trans r (record_chunk commit page r) _ (record_chunk-Records commit page r)
      (record_chunks-Records commit pages (record_chunk commit page r))

pub record_commit-Records :
    (commit : CommitVersions) (r : Recording) → Records r (record_commit commit r)
unfolding record_commit
record_commit-Records commit r =
    record_chunks-Records commit (chunks insert_chunk_size commit.documents) r
