-- ===== src/Base/Map.antt =====
-- `HashMap` and `BTreeMap` keyed by texts, as association lists; iteration order is that of the list.
use mathlib.Core.Path.{◌≡◌, refl}
use mathlib.Core.Option
use mathlib.Core.Option.{Option, none, some}
use mathlib.Core.List.{List, [], ◌∷◌}
use native.Mathlib.Omega.{arith}
use csaf_trove.Base.Tests.{if◌then◌else◌}
use csaf_trove.Base.Text.{Text, text_eq, text_eq_iff}

abbrev pub Map {ℓ} : Type ℓ → Type ℓ
Map V = List (Text × V)

module _ {ℓ} {V : Type ℓ} where
  unfoldable pub get : Text → Map V → Option V
  get k [] = none
  get k ((j, v) ∷ m) = if text_eq j k then some v else get k m

  unfoldable pub insert : Text → V → Map V → Map V
  insert k v [] = (k, v) ∷ []
  insert k v ((j, w) ∷ m) = if text_eq j k then (k, v) ∷ m else (j, w) ∷ insert k v m

  unfoldable pub remove : Text → Map V → Map V
  remove k [] = []
  remove k ((j, w) ∷ m) = let rest = remove k m in if text_eq j k then rest else (j, w) ∷ rest

  abbrev pub values : Map V → List V
  values [] = []
  values ((k, v) ∷ m) = v ∷ values m

  pub get-insert :
      (k j : Text) (v : V) (m : Map V)
      → get j (insert k v m) ≡ (if text_eq k j then some v else get j m)
  unfolding get insert
  get-insert k j v [] = refl
  get-insert k j v ((i, w) ∷ m) =
      ground (arith, text_eq_iff k j, text_eq_iff i k, text_eq_iff i j, get-insert k j v m)

  pub get-remove :
      (k j : Text) (m : Map V) → get j (remove k m) ≡ (if text_eq k j then none else get j m)
  unfolding get remove
  get-remove k j [] = ground arith
  get-remove k j ((i, w) ∷ m) =
      ground (arith, text_eq_iff k j, text_eq_iff i k, text_eq_iff i j, get-remove k j m)

  -- A change through `get_mut`.
  unfoldable pub modify : Text → (V → V) → Map V → Map V
  modify k f [] = []
  modify k f ((j, w) ∷ m) = if text_eq j k then (j, f w) ∷ m else (j, w) ∷ modify k f m

  pub get-modify :
      (k j : Text) (f : V → V) (m : Map V)
      → get j (modify k f m) ≡ (if text_eq k j then Option.map f (get j m) else get j m)
  unfolding get modify
  get-modify k j f [] = ground arith
  get-modify k j f ((i, w) ∷ m) =
      ground (arith, text_eq_iff k j, text_eq_iff i k, text_eq_iff i j, get-modify k j f m)

  pub modify-modify :
      (k : Text) (f g : V → V) (m : Map V) → modify k g (modify k f m) ≡ modify k (λ v. g (f v)) m
  unfolding modify
  modify-modify k f g [] = refl
  modify-modify k f g ((i, w) ∷ m) = ground (arith, modify-modify k f g m)
