-- ===== src/Locations.antt =====
-- Where a document lies: the file of server/src/pipeline/store.rs, the Git path of
-- server/src/storage/git_repo.rs, and the way back to the URL in server/src/pipeline/validate.rs.
-- Texts are UTF-8; the parsing of URLs by the url crate is a parameter.
pub mod Components
pub mod Agree
use csaf_trove.Base.{
  Bool, true, false, ◌&&◌, ◌||◌, not, Option, none, some, List, [], ◌∷◌, ◌++◌, ◌==◌, retain,
  if◌then◌else◌,
}
use csaf_trove.Base.Text.{Text, bytes, text_eq}
use csaf_trove.Base.Effect.{Result, ok, err, ◌>>=◌, map_error}

-- `host_str` and `path` of a parsed URL.
pub record UrlParts : Type 0 where
  pub host : Option Text
  pub path : Text

-- `trim_start_matches('/')`
abbrev pub trim_slashes : Text → Text
trim_slashes [] = []
trim_slashes (c ∷ s) = let rest = trim_slashes s in if c == 47 then rest else c ∷ s

-- `Path::join` with a relative path, below a path that does not end with a separator.
abbrev pub join : Text → Text → Text
join base relative = base ++ (47 ∷ relative)

abbrev pub joined : Text → Text → Text → Option Text
joined base domain [] = none
joined base domain (c ∷ s) = some (join (join base domain) (c ∷ s))

-- `TroveStoreVisitor::advisory_path`
unfoldable pub advisory_file : Text → UrlParts → Option Text
advisory_file base url = elim url.host [
  | none ↦ none
  | some domain ↦ joined base domain (trim_slashes url.path)
]

abbrev pub below : Text → Text → Option Text
below domain [] = none
below domain (c ∷ s) = some (join domain (c ∷ s))

abbrev pub path_of : UrlParts → Option Text
path_of parsed = elim parsed.host [
  | none ↦ none
  | some domain ↦ below domain (trim_slashes parsed.path)
]

-- `url_to_git_path`
unfoldable pub url_to_git_path : (Text → Result UrlParts) → Text → Result (Option Text)
url_to_git_path parse url =
    map_error (λ e. bytes "invalid document URL") (parse url) >>= λ parsed. ok (path_of parsed)

-- The parts of a path between its separators.
abbrev pub split : Text → Text → List Text
split part [] = part ∷ []
split part (c ∷ s) =
    let next = split [] s in
    let more = split (part ++ (c ∷ [])) s in if c == 47 then part ∷ next else more

abbrev pub is_blank : Text → Bool
is_blank [] = true
is_blank (c ∷ s) = false

-- Empty parts and `.` are no components.
abbrev pub is_normal : Text → Bool
is_normal part = not (is_blank part) && not (text_eq part (bytes "."))

abbrev pub root : Text → List Text
root [] = []
root (c ∷ s) = if c == 47 then bytes "/" ∷ [] else []

-- `Path::components`
unfoldable pub components : Text → List Text
components path = root path ++ retain is_normal (split [] path)

-- `Path::strip_prefix`
abbrev pub strip_components : List Text → List Text → Option (List Text)
strip_components [] path = some path
strip_components (b ∷ base) [] = none
strip_components (b ∷ base) (p ∷ path) =
    let rest = strip_components base path in if text_eq b p then rest else none

-- The components collected into a path.
abbrev pub collect_path : List Text → Text
collect_path [] = []
collect_path (p ∷ []) = p
collect_path (p ∷ q ∷ path) = join p (collect_path (q ∷ path))

abbrev pub https : Text → Text → Option Text
https domain [] = none
https domain (c ∷ s) = some (bytes "https://" ++ (domain ++ (47 ∷ c ∷ s)))

-- What is made of the components below the worktree.
abbrev pub reconstruct : List Text → Option Text
reconstruct [] = none
reconstruct (domain ∷ rest) =
    if text_eq domain (bytes "metadata") then none else https domain (collect_path rest)

abbrev pub reconstruct_below : Option (List Text) → Option Text
reconstruct_below none = none
reconstruct_below (some relative) = reconstruct relative

unfoldable pub try_reconstruct_path : Text → Text → Option Text
unfolding components
try_reconstruct_path worktree path =
    reconstruct_below (strip_components (components worktree) (components path))

abbrev pub reconstruct_at : Text → Option Text → Option Text
reconstruct_at worktree none = none
reconstruct_at worktree (some path) = try_reconstruct_path worktree path

-- `try_reconstruct_url`
unfoldable pub try_reconstruct_url : (Text → Option Text) → Text → Text → Option Text
unfolding try_reconstruct_path
try_reconstruct_url to_file_path file_url worktree = reconstruct_at worktree (to_file_path file_url)

abbrev or_url : Text → Option Text → Text
or_url url none = url
or_url url (some original) = original

unfoldable pub reconstruct_original_url : (Text → Option Text) → Text → Text → Text
unfolding try_reconstruct_url
reconstruct_original_url to_file_path file_url worktree =
    or_url file_url (try_reconstruct_url to_file_path file_url worktree)
