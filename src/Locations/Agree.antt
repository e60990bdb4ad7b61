-- ===== src/Locations/Agree.antt =====
-- The file of a stored document, its Git path and its `https` URL lead to one another.
use mathlib.Core.List.{append_assoc}
use csaf_trove.Base.{◌≡◌, refl, ap, ◌∙◌, ℕ, false, Option, some, List, ◌∷◌, ◌++◌, All}
use csaf_trove.Base.Text.{Text, bytes, text_eq}
use csaf_trove.Base.Effect.{Result, ok}
use csaf_trove.Processing.Paths.{path_url}
use csaf_trove.Locations.{
  UrlParts, join, advisory_file, url_to_git_path, components, strip_components, collect_path,
  try_reconstruct_path, reconstruct_below, reconstruct_at, try_reconstruct_url,
}
use csaf_trove.Locations.Components.{
  IsComponent, StartsPlain, collect_path-StartsPlain, joined-plain, below-plain, https-plain,
  components-join, strip_components-append,
}

-- The `https` URL, without a port, of a document on a domain.
abbrev pub document_url : Text → List Text → Text
document_url domain path = bytes "https://" ++ join domain (collect_path path)

module _ (c : ℕ) (base : Text) (domain part : Text) (path : List Text)
    (proper : All IsComponent (domain ∷ part ∷ path))
    (elsewhere : text_eq domain (bytes "metadata") ≡ false) where
  abbrev parts : UrlParts
  parts = record { host = some domain; path = 47 ∷ collect_path (part ∷ path) }

  starts : StartsPlain (collect_path (part ∷ path))
  starts = collect_path-StartsPlain part path proper.1.0

  abbrev file : Text
  file = join (join (c ∷ base) domain) (collect_path (part ∷ path))

  advisory_file-parts : advisory_file (c ∷ base) parts ≡ some file
  unfolding advisory_file
  advisory_file-parts = joined-plain (c ∷ base) domain (collect_path (part ∷ path)) starts

  -- The components of the file are those of the worktree and then those of the URL.
  components-file : components file ≡ components (c ∷ base) ++ (domain ∷ part ∷ path)
  components-file =
      ap components (append_assoc (c ∷ base) (47 ∷ domain) (47 ∷ collect_path (part ∷ path)))
      ∙ components-join c base domain (part ∷ path) proper

  try_reconstruct_path-file :
      try_reconstruct_path (c ∷ base) file ≡ some (document_url domain (part ∷ path))
  unfolding try_reconstruct_path
  try_reconstruct_path-file =
      ap (λ (p : List Text). reconstruct_below (strip_components (components (c ∷ base)) p))
        components-file
      ∙ ap reconstruct_below
          (strip_components-append (components (c ∷ base)) (domain ∷ part ∷ path))
      ∙ rw elsewhere (https-plain domain (collect_path (part ∷ path)) starts)

  -- For a document at `https://<host>/<path>`, without a port, a query or a fragment, where the host
  -- and the parts of the path, of which there is at least one, are proper components and the host is
  -- not `metadata`: it is stored in the worktree below the Git path of its URL. Validation finds the
  -- URL again from the file, and the history finds it from the Git path.
  pub locations-Agree :
      (parse : Text → Result UrlParts) (to_file_path : Text → Option Text) (file_url : Text)
      → parse (document_url domain (part ∷ path)) ≡ ok parts
      → to_file_path file_url ≡ some file
      → (git : Text) × (url_to_git_path parse (document_url domain (part ∷ path)) ≡ ok (some git))
        × (advisory_file (c ∷ base) parts ≡ some (join (c ∷ base) git))
        × (try_reconstruct_url to_file_path file_url (c ∷ base)
            ≡ some (document_url domain (part ∷ path)))
        × (path_url git ≡ document_url domain (part ∷ path))
  unfolding url_to_git_path path_url try_reconstruct_url
  locations-Agree parse to_file_path file_url parsed opened = (
    join domain (collect_path (part ∷ path)),
    rw parsed
        (ap (λ (o : Option Text). ok o) (below-plain domain (collect_path (part ∷ path)) starts)),
    advisory_file-parts
        ∙ ap (λ (f : Text). some f)
            (append_assoc (c ∷ base) (47 ∷ domain) (47 ∷ collect_path (part ∷ path))),
    ap (reconstruct_at (c ∷ base)) opened ∙ try_reconstruct_path-file,
    refl,
  )
