-- ===== src/Storage/Versions/Refreshed.antt =====
-- After a recording the version counts are those of the recorded versions.
use mathlib.Core.Path.{subst}
use csaf_trove.Base.{
  ◌≡◌, refl, sym, ◌∙◌, ℕ, Bool, true, false, Option, none, some, List, [], ◌∷◌, ◌++◌, ◌==◌, ==_iff,
  ◌⊎◌, inl, inr, All, Bool-cases,
}
use csaf_trove.Base.Text.{Text}
use csaf_trove.Base.Effect.{Result, ok, >>=-eq-ok, ok-injective}
use csaf_trove.GitRepo.Versions.{CommitVersions, History, collect_versions}
use csaf_trove.GitRepo.Emits.{collect_versions-keeps}
use csaf_trove.Storage.PathSet.{chunks}
use csaf_trove.Storage.PathSet.Rows.{contains, contains-append, flatten, flatten-chunks}
use csaf_trove.Storage.Documents.{DocumentRow}
use csaf_trove.Storage.Versions.{
  VersionRow, VersionTables, Recording, record_commit, count_versions, admits, refresh_row,
  refresh_rows, refresh_version_counts, refresh_chunks, start_recording, finish_recording,
  record_versions,
}
use csaf_trove.Storage.Versions.Counts.{
  Counted, IsUnique, IsCounted, Records, Records-refl, Records-trans, record_commit-Records,
}

-- The refresh of a row that the filter admits.
refresh_row-Counted :
    (urls : Option (List Text)) (versions : List VersionRow) (row : DocumentRow)
    → (admits urls row.url ≡ false → Counted versions row)
    → Counted versions (refresh_row urls versions row)
refresh_row-Counted urls versions row outside = elim (Bool-cases (admits urls row.url)) [
  | inl admitted ↦ elim (Bool-cases (count_versions row.url versions == 0)) [
    | inl empty ↦ rw (admitted, empty) (inl ((==_iff (count_versions row.url versions) 0).0 empty))
    | inr some_versions ↦ rw (admitted, some_versions) (inr refl)
  ]
  | inr not_admitted ↦ rw not_admitted (outside not_admitted)
]

refresh_rows-Counted :
    (urls : Option (List Text)) (versions : List VersionRow) (rows : List DocumentRow)
    → All (λ row. admits urls row.url ≡ false → Counted versions row) rows
    → All (Counted versions) (refresh_rows urls versions rows)
unfolding refresh_rows
refresh_rows-Counted urls versions [] outside = tt
refresh_rows-Counted urls versions (row ∷ rows) outside = (
  refresh_row-Counted urls versions row outside.0,
  refresh_rows-Counted urls versions rows outside.1,
)

-- One chunk: a row that it does not admit stays, one that it admits is counted.
refresh_row-rest :
    (chunk : List Text) (rest : List (List Text)) (versions : List VersionRow) (row : DocumentRow)
    → (contains row.url (chunk ++ flatten rest) ≡ false → Counted versions row)
    → contains (refresh_row (some chunk) versions row).url (flatten rest) ≡ false
    → Counted versions (refresh_row (some chunk) versions row)
refresh_row-rest chunk rest versions row outside = elim (Bool-cases (contains row.url chunk)) [
  | inl admitted ↦ λ later.
      refresh_row-Counted (some chunk) versions row
        (λ missing. let wrong : true ≡ false = sym admitted ∙ missing in cc)
  | inr not_admitted ↦
      rw not_admitted
        (λ later. outside (contains-append row.url chunk (flatten rest) ∙ rw (not_admitted, later)))
]

refresh_rows-rest :
    (chunk : List Text) (rest : List (List Text)) (versions : List VersionRow)
    (rows : List DocumentRow)
    → All (λ row. contains row.url (chunk ++ flatten rest) ≡ false → Counted versions row) rows
    → All
        (λ row. contains row.url (flatten rest) ≡ false → Counted versions row)
        (refresh_rows (some chunk) versions rows)
unfolding refresh_rows
refresh_rows-rest chunk rest versions [] outside = tt
refresh_rows-rest chunk rest versions (row ∷ rows) outside = (
  refresh_row-rest chunk rest versions row outside.0,
  refresh_rows-rest chunk rest versions rows outside.1,
)

refreshed-empty :
    (versions : List VersionRow) (rows : List DocumentRow)
    → All (λ row. contains row.url [] ≡ false → Counted versions row) rows
    → All (Counted versions) rows
unfolding contains
refreshed-empty versions [] outside = tt
refreshed-empty versions (row ∷ rows) outside =
    (outside.0 refl, refreshed-empty versions rows outside.1)

refresh_chunks-IsCounted :
    (pages : List (List Text)) (t : VersionTables)
    → IsUnique t.versions
    → All (λ row. contains row.url (flatten pages) ≡ false → Counted t.versions row) t.documents
    → IsCounted (refresh_chunks pages t)
unfolding refresh_chunks refresh_version_counts
refresh_chunks-IsCounted [] t unique outside = record {
  counts = refreshed-empty t.versions t.documents outside;
  unique = unique;
}
refresh_chunks-IsCounted (chunk ∷ rest) t unique outside =
    refresh_chunks-IsCounted rest _ unique
      (refresh_rows-rest chunk rest t.versions t.documents outside)

-- Rows whose URL was not touched are counted as before.
untouched-Counted :
    (r r' : Recording) (rows : List DocumentRow)
    → Records r r'
    → All (Counted r.tables.versions) rows
    → All (λ row. contains row.url r'.touched ≡ false → Counted r'.tables.versions row) rows
untouched-Counted r r' [] records counted = tt
untouched-Counted r r' (row ∷ rows) records counted = (
  λ outside.
      subst (λ n. (n ≡ 0) ⊎ (row.version_count ≡ n)) (sym (records.untouched row.url outside).1)
        counted.0,
  untouched-Counted r r' rows records counted.1,
)

finish_recording-IsCounted :
    (since : Option Text) (t : VersionTables) (r : Recording)
    → IsUnique t.versions
    → (since ≡ none) ⊎ All (Counted t.versions) t.documents
    → Records (start_recording since t) r
    → IsCounted (finish_recording since r)
unfolding finish_recording refresh_version_counts
finish_recording-IsCounted none t r unique counted records = record {
  counts =
      refresh_rows-Counted none r.tables.versions r.tables.documents
        (All-admitted r.tables.versions r.tables.documents);
  unique = records.unique tt;
}
  where
    All-admitted :
        (versions : List VersionRow) (rows : List DocumentRow)
        → All (λ row. admits none row.url ≡ false → Counted versions row) rows
    All-admitted versions [] = tt
    All-admitted versions (row ∷ rows) = (λ wrong. cc, All-admitted versions rows)
finish_recording-IsCounted (some since) t r unique (inl whole) records = cc
finish_recording-IsCounted (some since) t r unique (inr counted) records =
    refresh_chunks-IsCounted (chunks 500 r.touched) r.tables (records.unique unique) (
      subst
        (λ (urls : List Text).
          All (λ row. contains row.url urls ≡ false → Counted r.tables.versions row)
            r.tables.documents)
        (sym (flatten-chunks 499 r.touched))
        (subst
          (λ (rows : List DocumentRow).
            All (λ row. contains row.url r.touched ≡ false → Counted r.tables.versions row) rows)
          (sym records.documents)
          (untouched-Counted (start_recording (some since) t) r t.documents records counted)))

-- A recording that succeeds leaves at most one version for a URL and a commit, and every document
-- that has recorded versions with their number as its version count, if one of these holds: it scans
-- the whole history of a repository that exists, or the counts were right before.
pub record_versions-IsCounted :
    (levels : ℕ) (h : History) (fuel : ℕ) (exists : Bool) (since : Option Text)
    (t t' : VersionTables)
    → IsUnique t.versions
    → ((exists ≡ true) × (since ≡ none)) ⊎ All (Counted t.versions) t.documents
    → record_versions levels h fuel exists since t ≡ ok t'
    → IsCounted t'
unfolding record_versions
record_versions-IsCounted levels h fuel false since t t' unique (inl (wrong, whole)) ran = cc
record_versions-IsCounted levels h fuel false since t t' unique (inr counted) ran =
    subst IsCounted (ok-injective ran) (record { counts = counted; unique = unique })
record_versions-IsCounted levels h fuel true since t t' unique counted ran =
    let emit : CommitVersions → Recording → Result Recording =
      λ commit r. ok (record_commit commit r) in
    let (r, collected, done) =
      >>=-eq-ok (collect_versions levels h emit fuel since (start_recording since t)) _ ran in
    let records : Records (start_recording since t) r =
      collect_versions-keeps (Records (start_recording since t)) levels h emit
        (λ commit s s' kept one.
          Records-trans _ s s' kept
            (subst (Records s) (ok-injective one) (record_commit-Records commit s)))
        fuel since (start_recording since t) r (Records-refl _) collected in
    subst IsCounted (ok-injective done)
      (finish_recording-IsCounted since t r unique (counts-from counted) records)
  where
    counts-from :
        ((true ≡ true) × (since ≡ none)) ⊎ All (Counted t.versions) t.documents
        → (since ≡ none) ⊎ All (Counted t.versions) t.documents
    counts-from (inl (there, whole)) = inl whole
    counts-from (inr before) = inr before
