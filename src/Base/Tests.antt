-- ===== src/Base/Tests.antt =====
-- Boolean tests on the native numbers, the conditional, and the arithmetic of `u64`.
use Prim.Native.Nat.{ℕ, ◌+◌, ◌-◌, ◌%◌, ◌≤◌, ◌<◌, compare, Ordering}
use mathlib.Core.Path.{◌≡◌, refl}
use mathlib.Core.Logic.{◌↔◌, ◌⊎◌, inl, inr}
use mathlib.Core.Bool.{Bool, true, false, ◌||◌}
use mathlib.Core.Option.{Option, none, some}
use native.Mathlib.Omega.{arith}

abbrev pub ltb : ℕ → ℕ → Bool
ltb a b = elim (compare a b) [ Ordering.lt ↦ true | _ ↦ false ]

abbrev pub leb : ℕ → ℕ → Bool
leb a b = elim (compare a b) [ Ordering.gt ↦ false | _ ↦ true ]

infix 50 ◌==◌
abbrev pub ◌==◌ : ℕ → ℕ → Bool
a == b = elim (compare a b) [ Ordering.eq ↦ true | _ ↦ false ]

infix 1 if◌then◌else◌
abbrev pub if◌then◌else◌ {ℓ} : {A : Type ℓ} → Bool → A → A → A
if true then x else y = x
if false then x else y = y

pub ==_iff : (a b : ℕ) → ((a == b) ≡ true) ↔ (a ≡ b)
==_iff a b = ground arith

pub leb→le : (a b : ℕ) → leb a b ≡ true → a ≤ b
leb→le a b h = ground arith

pub Bool-cases : (b : Bool) → (b ≡ true) ⊎ (b ≡ false)
Bool-cases true = inl refl
Bool-cases false = inr refl

pub or-false : (a b : Bool) → (a || b) ≡ false → (a ≡ false) × (b ≡ false)
or-false true b e = cc
or-false false b e = (refl, e)

pub Option-cases {ℓ} : {A : Type ℓ} (o : Option A) → (o ≡ none) ⊎ ((a : A) × (o ≡ some a))
Option-cases none = inl refl
Option-cases (some a) = inr (a, refl)

abbrev pub is_some {ℓ} : {A : Type ℓ} → Option A → Bool
is_some none = false
is_some (some a) = true

-- `Option::or`
abbrev pub or_option {ℓ} : {A : Type ℓ} → Option A → Option A → Option A
or_option (some a) b = some a
or_option none b = b

-- Sums of a `u64` wrap around, as they do in a release build.
abbrev pub u64_mod : ℕ
u64_mod = 18446744073709551616

unfoldable pub add_u64 : ℕ → ℕ → ℕ
add_u64 a b = (a + b) % u64_mod

pub add_u64-lt : (a b : ℕ) → add_u64 a b < u64_mod
unfolding add_u64
add_u64-lt a b = omega arith

pub add_u64-eq_of_lt : (a b : ℕ) → a + b < u64_mod → add_u64 a b ≡ a + b
unfolding add_u64
add_u64-eq_of_lt a b h = omega arith

pub add_u64_assoc : (a b c : ℕ) → add_u64 (add_u64 a b) c ≡ add_u64 a (add_u64 b c)
unfolding add_u64
add_u64_assoc a b c = omega arith

pub add_u64_comm : (a b : ℕ) → add_u64 a b ≡ add_u64 b a
unfolding add_u64
add_u64_comm a b = omega arith

-- `saturating_sub` stops at 0, as `-` does here.
abbrev pub saturating_sub : ℕ → ℕ → ℕ
saturating_sub a b = a - b
