-- ===== src/Processing/Materialize/Counts.antt =====
-- What a materialization counts and extracts.
use csaf_trove.Base.{
  ℕ, ◌+◌, ◌≡◌, refl, sym, ◌∙◌, ap, Bool, some, List, [], ◌∷◌, arith, length, if◌then◌else◌, retain,
}
use csaf_trove.Base.Effect.{Result, ok, err, ◌>>=◌, ◌>>◌, for_each}
use csaf_trove.Storage.PathSet.Rows.{IsValid}
use csaf_trove.Storage.TreeDiff.Repository.{Oid, Commit, Repository}
use csaf_trove.Processing.Paths.{ProcessingSelection, advisory_path}
use csaf_trove.Processing.Materialize.{
  File, Extraction, visit_processing_files, Extracted, is_advisory, count_file, extract_file,
  materialize_processing,
}
use csaf_trove.Base.Effect.{>>=-eq-ok, ok-injective}
use csaf_trove.Processing.Materialize.Files.{ending, ending-ok, IsTrace}
use csaf_trove.Processing.Materialize.Visits.{processing_files-HasTrace}

-- A file that is an advisory, no sidecar and no metadata.
abbrev pub is_document : File → Bool
is_document file = is_advisory file.0 (advisory_path file.0)

module _ {F : Type 0} (extraction : Extraction F) (repo : Repository) where
  count-files :
      (files : List File) (n : ℕ)
      → for_each (count_file extraction repo) files n ≡ ok (n + length files)
  unfolding for_each count_file
  count-files [] n = ap (λ (k : ℕ). ok k) (omega arith)
  count-files (file ∷ files) n = count-files files (n + 1) ∙ ap (λ (k : ℕ). ok k) (omega arith)

  extract-files :
      (files : List File) (x x' : Extracted F)
      → for_each (extract_file extraction repo) files x ≡ ok x'
      → (x'.total ≡ x.total)
        × (x'.files ≡ x.files + length files)
        × (x'.documents ≡ x.documents + length (retain is_document files))
  unfolding for_each extract_file
  extract-files [] x x' ran =
      let same : x ≡ x' = ok-injective ran in
      (
        ap (λ (y : Extracted F). y.total) (sym same),
        ap (λ (y : Extracted F). y.files) (sym same) ∙ omega arith,
        ap (λ (y : Extracted F). y.documents) (sym same) ∙ omega arith,
      )
  extract-files (file ∷ files) x x' ran =
      let (y, first, rest) = >>=-eq-ok (extract_file extraction repo file x) _ ran in
      let (content, got, first') = >>=-eq-ok (repo.find_blob file.1) _ first in
      let (output, wrote, first'') =
        >>=-eq-ok (extraction.write file.0 content x.output) _ first' in
      let same = ok-injective first'' in
      let (total, count, documents) = extract-files files y x' rest in
      let step : y.documents ≡ (if is_document file then x.documents + 1 else x.documents) =
        ap (λ (z : Extracted F). z.documents) (sym same) in
      let steps : y.files ≡ x.files + 1 = ap (λ (z : Extracted F). z.files) (sym same) in
      (
        total ∙ ap (λ (z : Extracted F). z.total) (sym same),
        omega (arith, count, steps),
        ground (arith, documents, step),
      )

  abbrev start : List File → F → Extracted F
  start files output = record { total = length files; files = 0; documents = 0; output = output }

  -- The selected files of the snapshot are a list that does not depend on the pass: both passes
  -- visit exactly them, in order, and end alike. So the total that the counting pass announces is
  -- the number of files, and the materialization is the extraction of each file in turn, unless the
  -- visit ends with an error, which then comes before anything is extracted.
  pub materialize_processing_lem :
      (selection : ProcessingSelection) (output : F) (oid : Oid) (commit : Commit)
      → repo.parse_oid selection.checkpoint.commit_id ≡ some oid
      → repo.find_commit oid ≡ ok commit
      → IsValid selection.advisories
      → (files : List File) × (end : Result (Unit {0})) × IsTrace
          (λ S v. visit_processing_files extraction repo commit.tree selection v)
          files
          end
        × (materialize_processing extraction repo selection output
            ≡ (end >> for_each (extract_file extraction repo) files (start files output)))
  unfolding materialize_processing
  materialize_processing_lem selection output oid commit parses finds valid =
      let traced = processing_files-HasTrace extraction repo commit.tree selection valid.sorted in
      (
        traced.files,
        traced.end,
        traced.trace,
        rw
            (
              parses,
              finds,
              traced.trace.same ℕ (count_file extraction repo) 0,
              count-files traced.files 0,
            )
            (by_end traced.end traced.trace),
      )
    where
      by_end :
          {files : List File} (end : Result (Unit {0}))
          → IsTrace
              (λ S v. visit_processing_files extraction repo commit.tree selection v)
              files
              end
          → (ending end (ok (0 + length files)) >>= λ total.
              visit_processing_files extraction repo commit.tree selection
                (extract_file extraction repo)
                (record { total = total; files = 0; documents = 0; output = output }))
            ≡ (end >> for_each (extract_file extraction repo) files (start files output))
      by_end {files} (err e) t = refl
      by_end {files} (ok u) t =
          t.same (Extracted F) (extract_file extraction repo) _
          ∙ ending-ok (for_each (extract_file extraction repo) files _)
          ∙ ap
              (λ (n : ℕ).
                for_each (extract_file extraction repo) files
                  (record { total = n; files = 0; documents = 0; output = output }))
              (omega arith)

  -- A materialization that succeeds has extracted as many files as it had counted before, and
  -- returns the number of advisories among them.
  pub materialize_processing-counts :
      (selection : ProcessingSelection) (output : F) (oid : Oid) (commit : Commit) (x : Extracted F)
      → repo.parse_oid selection.checkpoint.commit_id ≡ some oid
      → repo.find_commit oid ≡ ok commit
      → IsValid selection.advisories
      → materialize_processing extraction repo selection output ≡ ok x
      → (files : List File) × IsTrace
          (λ S v. visit_processing_files extraction repo commit.tree selection v)
          files
          (ok tt)
        × (x.total ≡ length files)
        × (x.files ≡ x.total)
        × (x.documents ≡ length (retain is_document files))
  materialize_processing-counts selection output oid commit x parses finds valid ran =
      let (files, end, trace, same) =
        materialize_processing_lem selection output oid commit parses finds valid in
      by_end files end trace (sym same ∙ ran)
    where
      by_end :
          (files : List File) (end : Result (Unit {0}))
          → IsTrace
              (λ S v. visit_processing_files extraction repo commit.tree selection v)
              files
              end
          → (end >> for_each (extract_file extraction repo) files (start files output)) ≡ ok x
          → (files : List File) × IsTrace
              (λ S v. visit_processing_files extraction repo commit.tree selection v)
              files
              (ok tt)
            × (x.total ≡ length files)
            × (x.files ≡ x.total)
            × (x.documents ≡ length (retain is_document files))
      by_end files (err e) trace done = cc
      by_end files (ok u) trace done =
          let (total, count, documents) = extract-files files (start files output) x done in
          (files, trace, total, omega (arith, count, total), omega (arith, documents))
