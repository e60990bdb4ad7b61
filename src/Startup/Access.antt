-- ===== src/Startup/Access.antt =====
-- The rate limiter and the gate agree on which paths they guard.
use csaf_trove.Base.{◌≡◌, refl, ◌∙◌, ap, Bool, true, false, ◌&&◌, not, any, Bool-cases, inl, inr}
use csaf_trove.Base.Text.{Text, text_eq, text_eq_iff, starts_with}
use csaf_trove.Startup.{is_gated, is_limited, status_path, gated_prefixes, exempt_prefixes}

and-left : (a b : Bool) → (a && b) ≡ true → a ≡ true
and-left true b both = refl
and-left false b both = both

status_path-free : is_limited status_path ≡ false
unfolding is_limited starts_with
status_path-free = refl

limited-prefix :
    (path : Text) → is_limited path ≡ true → any (starts_with path) gated_prefixes ≡ true
unfolding is_limited
limited-prefix path limited =
    and-left (any (starts_with path) gated_prefixes) (not (any (starts_with path) exempt_prefixes))
      limited

unguarded :
    (path : Text) (b : Bool)
    → text_eq path status_path ≡ false
    → b ≡ true
    → (not (text_eq path status_path) && b) ≡ true
unguarded path b other e = ap (λ x. not x && b) other ∙ e

-- Every path that is rate limited is unavailable until the start has finished.
pub is_limited-is_gated : (path : Text) → is_limited path ≡ true → is_gated path ≡ true
unfolding is_gated
is_limited-is_gated path limited = elim (Bool-cases (text_eq path status_path)) [
  | inl same ↦
      let e : path ≡ status_path = (text_eq_iff path status_path).0 same in
      cc (ap is_limited e, status_path-free, limited)
  | inr other ↦
      unguarded path (any (starts_with path) gated_prefixes) other (limited-prefix path limited)
]
