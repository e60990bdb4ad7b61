-- ===== src/Base/Text.antt =====
-- Rust texts as their UTF-8 bytes, with the tests and the order of `str`.
use Prim.Native.Char.{code}
use Prim.Native.String.{String}
use Prim.Native.Nat.{ℕ, zero, suc, ◌+◌, ◌/◌, ◌%◌, compare, Ordering}
use mathlib.Core.Path.{◌≡◌, refl}
use mathlib.Core.Logic.{◌↔◌}
use mathlib.Core.Bool.{Bool, true, false, ◌&&◌}
use mathlib.Core.Option
use mathlib.Core.Option.{Option, none, some}
use mathlib.Core.List.{List, [], ◌∷◌}
use native.Mathlib.Omega.{arith}
use csaf_trove.Base.Tests.{◌==◌, if◌then◌else◌}

abbrev pub Text : Type 0
Text = List ℕ

-- The bytes of an ASCII literal.
abbrev pub bytes : String → Text
bytes String.[] = []
bytes (String.◌∷◌ c s) = code c ∷ bytes s

unfoldable pub text_eq : Text → Text → Bool
text_eq [] [] = true
text_eq [] (y ∷ ys) = false
text_eq (x ∷ xs) [] = false
text_eq (x ∷ xs) (y ∷ ys) = x == y && text_eq xs ys

pub text_eq_iff : (s t : Text) → (text_eq s t ≡ true) ↔ (s ≡ t)
unfolding text_eq
text_eq_iff [] [] = (λ _. refl, λ _. refl)
text_eq_iff [] (y ∷ ys) = (λ h. cc, λ h. cc)
text_eq_iff (x ∷ xs) [] = (λ h. cc, λ h. cc)
text_eq_iff (x ∷ xs) (y ∷ ys) = ground (arith, text_eq_iff xs ys)

pub text_eq_refl : (s : Text) → text_eq s s ≡ true
text_eq_refl s = (text_eq_iff s s).1 refl

pub text_eq_comm : (s t : Text) → text_eq s t ≡ text_eq t s
text_eq_comm s t = ground (arith, text_eq_iff s t, text_eq_iff t s)

-- `str::starts_with`
unfoldable pub starts_with : Text → Text → Bool
starts_with s [] = true
starts_with [] (p ∷ ps) = false
starts_with (c ∷ s) (p ∷ ps) = c == p && starts_with s ps

-- `str::strip_suffix`
unfoldable pub strip_suffix : Text → Text → Option Text
strip_suffix [] suffix = if text_eq [] suffix then some [] else none
strip_suffix (c ∷ s) suffix =
    let rest = strip_suffix s suffix in
    if text_eq (c ∷ s) suffix then some [] else Option.map (λ r. c ∷ r) rest

-- `str::ends_with`
unfoldable pub ends_with : Text → Text → Bool
unfolding strip_suffix
ends_with s suffix = elim (strip_suffix s suffix) [ none ↦ false | some _ ↦ true ]

-- The byte order of `str`, and of text columns in SQLite.
unfoldable pub text_lt : Text → Text → Bool
text_lt s [] = false
text_lt [] (y ∷ ys) = true
text_lt (x ∷ xs) (y ∷ ys) = elim (compare x y) [
  | Ordering.lt ↦ true
  | Ordering.eq ↦ text_lt xs ys
  | Ordering.gt ↦ false
]

pub text_lt_irrefl : (s : Text) → text_lt s s ≡ false
unfolding text_lt
text_lt_irrefl [] = refl
text_lt_irrefl (x ∷ xs) = ground (arith, text_lt_irrefl xs)

pub text_lt_trans : (s t u : Text) → text_lt s t ≡ true → text_lt t u ≡ true → text_lt s u ≡ true
unfolding text_lt
text_lt_trans s t [] h k = cc
text_lt_trans s [] (z ∷ zs) h k = cc
text_lt_trans [] (y ∷ ys) (z ∷ zs) h k = refl
text_lt_trans (x ∷ xs) (y ∷ ys) (z ∷ zs) h k = ground (arith, text_lt_trans xs ys zs)

-- Of two texts neither of which is below the other, each is the other.
pub text_lt_connex : (s t : Text) → text_lt s t ≡ false → text_lt t s ≡ false → s ≡ t
unfolding text_lt
text_lt_connex [] [] h k = refl
text_lt_connex [] (y ∷ ys) h k = cc
text_lt_connex (x ∷ xs) [] h k = cc
text_lt_connex (x ∷ xs) (y ∷ ys) h k = ground (arith, text_lt_connex xs ys)

pub text_lt-nil : (s : Text) → text_lt [] s ≡ false → s ≡ []
unfolding text_lt
text_lt-nil [] h = refl
text_lt-nil (x ∷ xs) h = cc

-- The decimal digits of a number in front of a text, by the number of digits that may be left.
abbrev digits : ℕ → ℕ → Text → Text
digits zero n text = text
digits (suc fuel) n text =
    let rest = digits fuel (n / 10) ((48 + n % 10) ∷ text) in
    if n / 10 == 0 then (48 + n % 10) ∷ text else rest

-- `to_string` of a `u64`, which has at most 20 digits.
unfoldable pub to_decimal : ℕ → Text
to_decimal n = digits 20 n []
