-- ===== src/GitRepo/Scratch/Names.antt =====
-- The name of a scratch file leads back to the path that it stands for.
use mathlib.Core.List.{append_assoc, append-nil}
use csaf_trove.Base.{
  ◌≡◌, sym, ap, ◌∙◌, true, false, [], ◌∷◌, ◌++◌, ◌==◌, Bool-cases, Option-cases, inl, inr,
}
use csaf_trove.Base.Text.{Text, bytes, strip_suffix, ends_with}
use csaf_trove.Base.Suffixes.{strip_suffix-append, strip_suffix-eq-some, ends_with-append}
use csaf_trove.GitRepo.Scratch.{
  name_from, file_name, has_extension, with_added_extension, compressed_path, logical_path,
  in_metadata, written_path,
}

name_from-splits : (name s : Text) → (before : Text) × (name ++ s ≡ before ++ name_from name s)
name_from-splits name [] = ([], append-nil name)
name_from-splits name (c ∷ s) = elim (Bool-cases (c == 47)) [
  | inl slash ↦
      let (before, e) = name_from-splits [] s in
      (
        name ++ (c ∷ before),
        rw slash (
            ap (λ (t : Text). name ++ (c ∷ t)) e
            ∙ sym (append_assoc name (c ∷ before) (name_from [] s))),
      )
  | inr other ↦
      let (before, e) = name_from-splits (name ++ (c ∷ [])) s in
      (before, rw other (sym (append_assoc name (c ∷ []) s) ∙ e))
]

-- A path with an extension ends with it.
has_extension-append :
    (path extension : Text)
    → has_extension path extension ≡ true
    → (before : Text) × (path ≡ before ++ (46 ∷ extension))
unfolding has_extension file_name
has_extension-append path extension h =
    let (dir, split) = name_from-splits [] path in
    elim (Option-cases (strip_suffix (name_from [] path) (46 ∷ extension))) [
      | inl missing ↦ let wrong : false ≡ true = rw missing at h in cc
      | inr (stem, found) ↦ (
        dir ++ stem,
        split
            ∙ ap (λ (t : Text). dir ++ t) (strip_suffix-eq-some _ _ found)
            ∙ sym (append_assoc dir stem (46 ∷ extension)),
      )
    ]

extended :
    (path : Text)
    → has_extension path (bytes "json") ≡ true
    → logical_path (compressed_path path) ≡ path
unfolding logical_path compressed_path with_added_extension
extended path json =
    let (before, split) = has_extension-append path (bytes "json") json in
    let whole : path ++ bytes ".zst" ≡ before ++ bytes ".json.zst" =
      ap (λ (t : Text). t ++ bytes ".zst") split
      ∙ append_assoc before (bytes ".json") (bytes ".zst") in
    let ends : ends_with (path ++ bytes ".zst") (bytes ".json.zst") ≡ true =
      ap (λ (t : Text). ends_with t (bytes ".json.zst")) whole
      ∙ ends_with-append before (bytes ".json.zst") in
    rw (ends, strip_suffix-append path (bytes ".zst"))

plain : (path : Text) → ends_with path (bytes ".json.zst") ≡ false → logical_path path ≡ path
unfolding logical_path
plain path other = rw other

-- A path that does not itself end like a compressed advisory is the one that its scratch file
-- stands for, compressed or not.
pub logical_path-written_path :
    (path : Text)
    → ends_with path (bytes ".json.zst") ≡ false
    → logical_path (written_path path) ≡ path
unfolding written_path
logical_path-written_path path other = elim (Bool-cases (has_extension path (bytes "json"))) [
  | inr not_json ↦ rw not_json (plain path other)
  | inl json ↦ elim (Bool-cases (in_metadata path)) [
    | inl inside ↦ rw (json, inside) (plain path other)
    | inr outside ↦ rw (json, outside) (extended path json)
  ]
]
