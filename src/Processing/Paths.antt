-- ===== src/Processing/Paths.antt =====
-- Advisory paths and URLs, and the records of server/src/storage/processing.rs and git_processing.rs.
use csaf_trove.Base.{Bool, Option, none, some, List, [], ◌∷◌, ◌++◌, or_option, if◌then◌else◌}
use csaf_trove.Base.Text.{Text, bytes, starts_with, strip_suffix, ends_with}
use csaf_trove.Storage.PathSet.{PathSet}

-- `ProcessingCheckpoint`
pub record ProcessingCheckpoint : Type 0 where
  pub commit_id : Text
  pub fingerprint : Text
  pub summary_dirty : Bool

-- `ProcessingSelection`
pub record ProcessingSelection : Type 0 where
  pub checkpoint : ProcessingCheckpoint
  pub full : Bool
  pub baseline : Bool
  pub advisories : PathSet
  pub history : PathSet
  pub deleted : PathSet

abbrev pub sidecar_suffixes : List Text
sidecar_suffixes = bytes ".asc" ∷ bytes ".sha256" ∷ bytes ".sha512" ∷ []

-- `find_map(|suffix| path.strip_suffix(suffix))`
abbrev pub strip_any : Text → List Text → Option Text
strip_any path [] = none
strip_any path (suffix ∷ suffixes) = or_option (strip_suffix path suffix) (strip_any path suffixes)

abbrev json_only : Text → Option Text
json_only path = if ends_with path (bytes ".json") then some path else none

abbrev unwrap_or : Option Text → Text → Text
unwrap_or none path = path
unwrap_or (some stripped) path = stripped

unfoldable pub advisory_path : Text → Option Text
unfolding starts_with strip_suffix ends_with
advisory_path path =
    if starts_with path (bytes "metadata/")
    then none
    else json_only (unwrap_or (strip_any path sidecar_suffixes) path)

unfoldable pub path_url : Text → Text
path_url path = bytes "https://" ++ path
