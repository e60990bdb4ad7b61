-- ===== src/Base/Effect.antt =====
-- `anyhow::Result`, whose error is its message, and steps that change a state and can fail.
use mathlib.Core.Path.{◌≡◌, refl, subst}
use mathlib.Core.Logic.{◌⊎◌, inl, inr}
use mathlib.Core.Bool.{Bool, true, false}
use mathlib.Core.List.{List, [], ◌∷◌, ◌++◌}
use csaf_trove.Base.Text.{Text}

-- The message of `anyhow::Error` is all that the server looks at.
pub data Result {ℓ} (V : Type ℓ) : Type ℓ where
  err : (message : Text) → Result V
  ok : (value : V) → Result V

-- Whether an operation succeeded.
abbrev pub is_ok {ℓ} : {V : Type ℓ} → Result V → Bool
is_ok (err message) = false
is_ok (ok value) = true

module _ {ℓ κ} {V : Type ℓ} {W : Type κ} where
  infixl 5 ◌>>=◌ ◌>>◌
  -- `?` followed by the rest of the function.
  abbrev pub ◌>>=◌ : Result V → (V → Result W) → Result W
  ◌>>=◌ (err message) rest = err message
  ◌>>=◌ (ok value) rest = rest value

  abbrev pub ◌>>◌ : Result V → Result W → Result W
  ◌>>◌ (err message) rest = err message
  ◌>>◌ (ok value) rest = rest

  pub >>=-eq-ok :
      (r : Result V) (rest : V → Result W) {w : W}
      → (r >>= rest) ≡ ok w
      → (v : V) × (r ≡ ok v) × (rest v ≡ ok w)
  >>=-eq-ok (err message) rest ran = cc
  >>=-eq-ok (ok value) rest ran = (value, refl, ran)

-- `for x in xs { body }` where the body can fail.
module _ {ℓ κ} {A : Type ℓ} {S : Type κ} where
  unfoldable pub for_each : (A → S → Result S) → List A → S → Result S
  for_each body [] s = ok s
  for_each body (x ∷ xs) s = body x s >>= for_each body xs

pub Result-cases {ℓ} :
    {A : Type ℓ} (r : Result A) → ((a : A) × (r ≡ ok a)) ⊎ ((e : Text) × (r ≡ err e))
Result-cases (ok a) = inl (a, refl)
Result-cases (err e) = inr (e, refl)

module _ {ℓ κ} {A : Type ℓ} {S : Type κ} where
  pub for_each-append :
      (body : A → S → Result S) (xs ys : List A) (s : S)
      → for_each body (xs ++ ys) s ≡ (for_each body xs s >>= for_each body ys)
  unfolding for_each
  for_each-append body [] ys s = refl
  for_each-append body (x ∷ xs) ys s = elim (Result-cases (body x s)) [
    | inl (s', h) ↦ rw h (for_each-append body xs ys s')
    | inr (e, h) ↦ rw h
  ]

pub ok-injective {ℓ} : {A : Type ℓ} {a b : A} → ok a ≡ ok b → a ≡ b
ok-injective h = cc

module _ {ℓ κ} {A : Type ℓ} {S : Type κ} where
  pub for_each_nil : (body : A → S → Result S) (s : S) → for_each body [] s ≡ ok s
  unfolding for_each
  for_each_nil body s = refl

  pub for_each_single :
      (body : A → S → Result S) (x : A) (s : S) → for_each body (x ∷ []) s ≡ body x s
  unfolding for_each
  for_each_single body x s = elim (Result-cases (body x s)) [
    | inl (s', h) ↦ rw h
    | inr (e, h) ↦ rw h
  ]

-- `map_err`, and `context` with a text that does not depend on the error.
module _ {ℓ} {V : Type ℓ} where
  abbrev pub map_error : (Text → Text) → Result V → Result V
  map_error f (err message) = err (f message)
  map_error f (ok value) = ok value

  pub map_error-eq-ok : (f : Text → Text) (r : Result V) {v : V} → map_error f r ≡ ok v → r ≡ ok v
  map_error-eq-ok f (err message) ran = cc
  map_error-eq-ok f (ok value) ran = ran

-- What every step keeps, a loop keeps.
pub for_each-keeps {ℓ κ μ} :
    {A : Type ℓ} {S : Type κ} (P : S → Type μ) (body : A → S → Result S)
    → ((x : A) (s s' : S) → P s → body x s ≡ ok s' → P s')
    → (xs : List A) (s s' : S) → P s
    → for_each body xs s ≡ ok s'
    → P s'
unfolding for_each
for_each-keeps P body step [] s s' kept ran = subst P (ok-injective ran) kept
for_each-keeps P body step (x ∷ xs) s s' kept ran =
    let (next, one, rest) = >>=-eq-ok (body x s) _ ran in
    for_each-keeps P body step xs next s' (step x s next kept one) rest
