-- ===== src/Locations/Components.antt =====
-- The components of a joined path are those of its parts.
use mathlib.Core.List.{append_assoc, append-nil}
use csaf_trove.Base.{
  ◌≡◌, refl, sym, ◌∙◌, ℕ, true, false, some, List, [], ◌∷◌, ◌++◌, ◌==◌, any, retain, All,
  Bool-cases, or-false, inl, inr,
}
use csaf_trove.Base.Text.{Text, bytes, text_eq_refl}
use csaf_trove.Locations.{
  joined, below, https, trim_slashes, join, split, is_normal, root, components, strip_components,
  collect_path,
}

-- A part that is a component, and holds no separator.
pub record IsComponent (part : Text) : Type 0 where
  pub normal : is_normal part ≡ true
  pub whole : any (λ c. c == 47) part ≡ false

split-join : (part s t : Text) → split part (s ++ (47 ∷ t)) ≡ split part s ++ split [] t
split-join part [] t = refl
split-join part (c ∷ s) t = elim (Bool-cases (c == 47)) [
  | inl slash ↦ rw (slash, split-join [] s t)
  | inr other ↦ rw (other, split-join (part ++ (c ∷ [])) s t)
]

split-whole : (part s : Text) → any (λ c. c == 47) s ≡ false → split part s ≡ (part ++ s) ∷ []
split-whole part [] free = rw append-nil
split-whole part (c ∷ s) free =
    let (other, rest) = or-false (c == 47) (any (λ c. c == 47) s) free in
    rw other (split-whole (part ++ (c ∷ [])) s rest ∙ rw append_assoc)

retain-append :
    (xs ys : List Text) → retain is_normal (xs ++ ys) ≡ retain is_normal xs ++ retain is_normal ys
retain-append [] ys = refl
retain-append (x ∷ xs) ys = elim (Bool-cases (is_normal x)) [
  | inl keep ↦ rw (keep, retain-append xs ys)
  | inr drop ↦ rw (drop, retain-append xs ys)
]

-- The components of a relative path that is collected from them.
retain-split-collect_path :
    (part : Text) (path : List Text)
    → All IsComponent (part ∷ path)
    → retain is_normal (split [] (collect_path (part ∷ path))) ≡ part ∷ path
retain-split-collect_path part [] h = rw (split-whole [] part h.0.whole, h.0.normal)
retain-split-collect_path part (next ∷ path) h = rw (
  split-join [] part (collect_path (next ∷ path)),
  split-whole [] part h.0.whole,
  h.0.normal,
  retain-split-collect_path next path h.1,
)

-- Below a path that is not empty, the components of a relative path follow.
pub components-join :
    (c : ℕ) (base : Text) (part : Text) (path : List Text)
    → All IsComponent (part ∷ path)
    → components (join (c ∷ base) (collect_path (part ∷ path)))
      ≡ components (c ∷ base) ++ (part ∷ path)
unfolding components
components-join c base part path h =
    rw
      (
        split-join [] (c ∷ base) (collect_path (part ∷ path)),
        retain-append (split [] (c ∷ base)) (split [] (collect_path (part ∷ path))),
        retain-split-collect_path part path h,
      )
      (sym (append_assoc (root (c ∷ base)) (retain is_normal (split [] (c ∷ base))) (part ∷ path)))

pub strip_components-append :
    (base path : List Text) → strip_components base (base ++ path) ≡ some path
strip_components-append [] path = refl
strip_components-append (b ∷ base) path = rw (text_eq_refl b, strip_components-append base path)

-- What a relative path of components begins with.
pub record StartsPlain (path : Text) : Type 0 where
  pub first : ℕ
  pub rest : Text
  pub splits : path ≡ first ∷ rest
  pub plain : (first == 47) ≡ false

pub collect_path-StartsPlain :
    (part : Text) (path : List Text) → IsComponent part → StartsPlain (collect_path (part ∷ path))
collect_path-StartsPlain [] path h = let wrong : false ≡ true = h.normal in cc
collect_path-StartsPlain (c ∷ part) [] h = record {
  first = c;
  rest = part;
  splits = refl;
  plain = (or-false (c == 47) (any (λ d. d == 47) part) h.whole).0;
}
collect_path-StartsPlain (c ∷ part) (next ∷ path) h = record {
  first = c;
  rest = part ++ (47 ∷ collect_path (next ∷ path));
  splits = refl;
  plain = (or-false (c == 47) (any (λ d. d == 47) part) h.whole).0;
}

pub joined-plain :
    (base domain p : Text)
    → StartsPlain p
    → joined base domain (trim_slashes p) ≡ some (join (join base domain) p)
joined-plain base domain p start = rw start.splits (rw start.plain)

pub below-plain :
    (domain p : Text) → StartsPlain p → below domain (trim_slashes p) ≡ some (join domain p)
below-plain domain p start = rw start.splits (rw start.plain)

pub https-plain :
    (domain p : Text) → StartsPlain p → https domain p ≡ some (bytes "https://" ++ join domain p)
https-plain domain p start = rw start.splits
