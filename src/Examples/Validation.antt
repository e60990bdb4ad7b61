-- ===== src/Examples/Validation.antt =====
-- Validation and the locations of documents on small inputs.
use csaf_trove.Base.{
  ℕ, suc, ◌+◌, ◌<◌, ◌≡◌, refl, Bool, true, false, Option, none, some, List, [], ◌∷◌, ◌++◌, length,
  All, arith, u64_mod,
}
use csaf_trove.Base.Text.{Text, bytes, to_decimal, text_eq}
use csaf_trove.Base.Effect.{Result, ok, err, for_each}
use csaf_trove.Processing.Paths.{path_url}
use csaf_trove.Locations.{
  join, advisory_file, url_to_git_path, try_reconstruct_url, try_reconstruct_path, components,
}
use csaf_trove.Locations.Components.{IsComponent}
use csaf_trove.Locations.Agree.{locations-Agree}
use csaf_trove.Validation.Documents.{
  CsafVersionTag, v2_0, no_metadata, Verified, Verification, verified, parsing, check, CheckError,
  DocumentResult, document_result, verified_result,
}
use csaf_trove.Validation.Profiles.{
  DocumentValidation, DocumentProfileDetail, build_document_validation, build_doc_profile_detail,
  validate_provider,
}
use csaf_trove.Validation.Provider.{Results, store, validate_provider-Walked}
use csaf_trove.Validation.Consistent.{IsConsistent, verified_result-IsConsistent}

to_decimal_tests : to_decimal 1050 ≡ bytes "1050"
unfolding to_decimal
to_decimal_tests = refl

abbrev a_file : Text
a_file = bytes "/work/a.example/csaf/a.json"

falls_back_on_domain_only : try_reconstruct_path (bytes "/work") (bytes "/work/a.example") ≡ none
unfolding try_reconstruct_path components text_eq
falls_back_on_domain_only = refl

skips_metadata_directory :
    try_reconstruct_path (bytes "/work") (bytes "/work/metadata/provider-metadata.json") ≡ none
unfolding try_reconstruct_path components text_eq
skips_metadata_directory = refl

abbrev a_path : List Text
a_path = bytes "a.json" ∷ []

abbrev proper_path : All IsComponent (bytes "a.example" ∷ bytes "csaf" ∷ a_path)
unfolding text_eq
proper_path = (
  record { normal = refl; whole = refl },
  (record { normal = refl; whole = refl }, (record { normal = refl; whole = refl }, tt)),
)

elsewhere : text_eq (bytes "a.example") (bytes "metadata") ≡ false
unfolding text_eq
elsewhere = refl

locations-Agree_example :
    (git : Text) × (url_to_git_path
        (λ url. ok (record { host = some (bytes "a.example"); path = bytes "/csaf/a.json" }))
        (bytes "https://a.example/csaf/a.json")
      ≡ ok (some git))
    × (advisory_file
          (bytes "/work")
          (record { host = some (bytes "a.example"); path = bytes "/csaf/a.json" })
        ≡ some (join (bytes "/work") git))
    × (try_reconstruct_url
          (λ url. some a_file)
          (bytes "file:///work/a.example/csaf/a.json")
          (bytes "/work")
        ≡ some (bytes "https://a.example/csaf/a.json"))
    × (path_url git ≡ bytes "https://a.example/csaf/a.json")
locations-Agree_example =
    locations-Agree 47 (bytes "work") (bytes "a.example") (bytes "csaf") a_path proper_path
      elsewhere
      (λ url. ok (record { host = some (bytes "a.example"); path = bytes "/csaf/a.json" }))
      (λ url. some a_file) (bytes "file:///work/a.example/csaf/a.json") refl refl

-- A document with two digests, of which the second differs, and a signature that nobody made.
abbrev a_document : Verified ℕ
a_document = record {
  url = bytes "file:///work/a.example/csaf/a.json";
  tracking_id = bytes "a";
  title = bytes "A";
  version = v2_0;
  metadata = no_metadata;
  vulnerabilities = ok (7 ∷ []);
  sha256 = some (record { expected = bytes "12"; actual = bytes "12"; mismatch = none });
  sha512 = some (record {
    expected = bytes "34";
    actual = bytes "56";
    mismatch = some (bytes "34", bytes "56");
  });
  signature = some (bytes "sig");
  signature_check = err (bytes "unknown key");
  errors =
      (
        bytes "basic",
        record { id = bytes "6.1.1"; message = bytes "m" }
            ∷ record { id = bytes "6.1.1"; message = bytes "n" }
            ∷ [],
      )
      ∷ [];
  warnings = [];
  infos = [];
  successes = bytes "full" ∷ [];
}

verified_result-IsConsistent_example :
    IsConsistent a_document (verified_result (λ url. url) a_document)
verified_result-IsConsistent_example = verified_result-IsConsistent (λ url. url) a_document

abbrev a_walk : List (Verification ℕ)
a_walk =
    verified a_document ∷ parsing (bytes "file:///work/a.example/csaf/b.json") (bytes "eof") ∷ []

-- A database that keeps the titles of the documents, and counts for the job.
abbrev save : DocumentValidation ℕ → List Text × ℕ → Result (List Text × ℕ)
save v s = ok (v.title ∷ s.0, s.1)

abbrev count_one : List Text × ℕ → List Text × ℕ
count_one s = (s.0, s.1 + 1)

abbrev tests_in_preset : CsafVersionTag → Text → Option ℕ
tests_in_preset version profile = some 40

abbrev a_database : List Text × ℕ
a_database = (bytes "Parse error: eof" ∷ bytes "A" ∷ [], 2)

ran :
    validate_provider tests_in_preset
      (λ url. url)
      save
      count_one
      (bytes "a.example")
      (λ total s. s)
      (λ s. ok (length s.0))
      a_walk
      2
      ([], 0)
    ≡ ok (a_database, 2)
unfolding csaf_trove.Validation.Profiles.validate_document
    csaf_trove.Validation.Profiles.validate_provider for_each document_result verified_result
    csaf_trove.Validation.Documents.failed_result csaf_trove.Base.add_u64
ran = refl

validate_provider-Walked_example :
    (docs : List (DocumentResult ℕ)) × Results (λ url. url) a_walk docs
    × (length a_walk ≡ 2)
    × (for_each (store tests_in_preset save count_one) docs ([], 0) ≡ ok a_database)
    × (ok (length a_database.0) ≡ ok 2)
validate_provider-Walked_example =
    validate_provider-Walked tests_in_preset (λ url. url) save count_one (bytes "a.example")
      (λ total s. s) (λ s. ok (length s.0)) a_walk 2 ([], 0) a_database 2 (omega arith) ran
