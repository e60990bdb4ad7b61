-- ===== src/GitRepo/Scratch.antt =====
-- server/src/storage/scratch.rs: the names of scratch files. A path is its text, with `/` between
-- its components.
pub mod Names
use csaf_trove.Base.{
  Bool, true, false, ◌&&◌, ◌||◌, not, Option, none, some, List, [], ◌∷◌, ◌++◌, ◌==◌, is_some,
  if◌then◌else◌,
}
use csaf_trove.Base.Text.{Text, bytes, text_eq, starts_with, strip_suffix, ends_with}

-- `Path::file_name`: what follows the last separator.
abbrev name_from : Text → Text → Text
name_from name [] = name
name_from name (c ∷ s) =
    let later = name_from [] s in
    let same = name_from (name ++ (c ∷ [])) s in if c == 47 then later else same

unfoldable pub file_name : Text → Text
file_name path = name_from [] path

abbrev is_blank : Text → Bool
is_blank [] = true
is_blank (c ∷ s) = false

abbrev has_stem : Option Text → Bool
has_stem none = false
has_stem (some stem) = not (is_blank stem)

-- Whether `Path::extension` is the one given: a leading dot does not begin an extension.
unfoldable pub has_extension : Text → Text → Bool
unfolding file_name strip_suffix
has_extension path extension = has_stem (strip_suffix (file_name path) (46 ∷ extension))

-- `with_added_extension`
unfoldable pub with_added_extension : Text → Text → Text
with_added_extension path extension = path ++ (46 ∷ extension)

unfoldable pub compressed_path : Text → Text
unfolding with_added_extension
compressed_path path = with_added_extension path (bytes "zst")

abbrev or_path : Text → Option Text → Text
or_path path none = path
or_path path (some stripped) = stripped

-- Of a name that ends with `.json.zst`, `with_extension("")` takes the last extension away.
unfoldable pub logical_path : Text → Text
unfolding strip_suffix ends_with
logical_path path =
    if ends_with path (bytes ".json.zst")
    then or_path path (strip_suffix path (bytes ".zst"))
    else path

unfoldable pub is_advisory : Text → Bool
unfolding logical_path has_extension
is_advisory path = has_extension (logical_path path) (bytes "json")

-- `Path::starts_with("metadata")` goes by components.
unfoldable pub in_metadata : Text → Bool
unfolding text_eq starts_with
in_metadata path = text_eq path (bytes "metadata") || starts_with path (bytes "metadata/")

-- The file that `write` creates for a path.
unfoldable pub written_path : Text → Text
unfolding has_extension in_metadata compressed_path
written_path relative =
    if has_extension relative (bytes "json") && not (in_metadata relative)
    then compressed_path relative
    else relative
