-- ===== src/Base/Suffixes.antt =====
-- What `strip_suffix` leaves, and what it leaves of a concatenation.
use Prim.Native.Nat.{ℕ}
use mathlib.Core.Path.{◌≡◌, refl, ap, ◌∙◌}
use mathlib.Core.Logic.{inl, inr}
use mathlib.Core.Bool.{true, false}
use mathlib.Core.Option
use mathlib.Core.Option.{Option, none, some}
use mathlib.Core.List.{[], ◌∷◌, ◌++◌}
use native.Mathlib.Omega.{arith}
use csaf_trove.Base.Tests.{Bool-cases}
use csaf_trove.Base.Lists.{length, length-append}
use csaf_trove.Base.Text.{Text, text_eq, text_eq_iff, text_eq_refl, strip_suffix, ends_with}

longer-ne : (c : ℕ) (s suffix : Text) → text_eq (c ∷ (s ++ suffix)) suffix ≡ false
longer-ne c s suffix = elim (Bool-cases (text_eq (c ∷ (s ++ suffix)) suffix)) [
  | inr other ↦ other
  | inl same ↦
      let e : c ∷ (s ++ suffix) ≡ suffix = (text_eq_iff (c ∷ (s ++ suffix)) suffix).0 same in
      absurd (omega (arith, ap length e, length-append s suffix))
]

pub strip_suffix-append : (s suffix : Text) → strip_suffix (s ++ suffix) suffix ≡ some s
unfolding strip_suffix
strip_suffix-append [] [] = rw (text_eq_refl [])
strip_suffix-append [] (c ∷ suffix) = rw (text_eq_refl (c ∷ suffix))
strip_suffix-append (c ∷ s) suffix = rw (longer-ne c s suffix, strip_suffix-append s suffix)

strip_suffix-cons :
    (c : ℕ) (s suffix : Text) (rest : Option Text) {left : Text}
    → ((r : Text) → rest ≡ some r → s ≡ r ++ suffix)
    → Option.map (λ r. c ∷ r) rest ≡ some left
    → c ∷ s ≡ left ++ suffix
strip_suffix-cons c s suffix none ih e = cc
strip_suffix-cons c s suffix (some r) {left} ih e =
    let el : c ∷ r ≡ left = cc in ap (◌∷◌ c) (ih r refl) ∙ ap (λ (t : Text). t ++ suffix) el

pub strip_suffix-eq-some :
    (s suffix : Text) {left : Text} → strip_suffix s suffix ≡ some left → s ≡ left ++ suffix
unfolding strip_suffix
strip_suffix-eq-some [] suffix {left} e = elim (Bool-cases (text_eq [] suffix)) [
  | inl same ↦
      let nil : Path (Option Text) (some []) (some left) = rw same at e in
      let el : [] ≡ left = cc in
      let es : [] ≡ suffix = (text_eq_iff [] suffix).0 same in rw (← el) es
  | inr other ↦ let wrong : Path (Option Text) none (some left) = rw other at e in cc
]
strip_suffix-eq-some (c ∷ s) suffix {left} e = elim (Bool-cases (text_eq (c ∷ s) suffix)) [
  | inl same ↦
      let nil : Path (Option Text) (some []) (some left) = rw same at e in
      let el : [] ≡ left = cc in
      let es : c ∷ s ≡ suffix = (text_eq_iff (c ∷ s) suffix).0 same in rw (← el) es
  | inr other ↦
      strip_suffix-cons c s suffix (strip_suffix s suffix) (λ r h. strip_suffix-eq-some s suffix h)
        (rw other at e)
]

pub ends_with-append : (s suffix : Text) → ends_with (s ++ suffix) suffix ≡ true
unfolding ends_with
ends_with-append s suffix = rw (strip_suffix-append s suffix, ends_with)
