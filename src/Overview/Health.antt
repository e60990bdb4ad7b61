-- ===== src/Overview/Health.antt =====
-- The health counts are the numbers of providers with each property.
use csaf_trove.Base.{
  ℕ, ◌+◌, ◌≤◌, ◌<◌, ◌≡◌, Bool, true, false, ◌||◌, ◌&&◌, not, List, [], ◌∷◌, arith, length, retain,
  add_u64, u64_mod, Bool-cases, inl, inr,
}
use csaf_trove.Base.Map.{Map}
use csaf_trove.Jobs.{Timestamp}
use csaf_trove.Overview.{
  ProviderSummary, ProviderHealth, is_stale, has_errors, has_issues, count_if, classify,
  classify_all, provider_health,
}

-- Number of providers with a property.
abbrev pub number : (ProviderSummary → Bool) → List ProviderSummary → ℕ
number p ss = length (retain p ss)

-- A provider that is shown as a problem.
abbrev pub has_problem : Map Timestamp → ℕ → Timestamp → ProviderSummary → Bool
has_problem last_syncs stale_after now s =
    is_stale last_syncs stale_after now s || (has_errors s || has_issues s)

abbrev bit : Bool → ℕ
bit true = 1
bit false = 0

bit-le : (b : Bool) → bit b ≤ 1
bit-le true = omega arith
bit-le false = omega arith

count_if-bit : (b : Bool) (n : ℕ) → n + 1 < u64_mod → count_if b n ≡ n + bit b
unfolding count_if add_u64
count_if-bit true n h = omega arith
count_if-bit false n h = omega arith

number-cons :
    (p : ProviderSummary → Bool) (s : ProviderSummary) (ss : List ProviderSummary)
    → number p (s ∷ ss) ≡ bit (p s) + number p ss
number-cons p s ss = elim (Bool-cases (p s)) [
  | inl h ↦ rw h (omega arith)
  | inr h ↦ rw h (omega arith)
]

-- A provider is fine or has a problem.
bits : (st er is : Bool) → bit (not st && (not er && not is)) + bit (st || (er || is)) ≡ 1
bits true er is = omega arith
bits false true is = omega arith
bits false false true = omega arith
bits false false false = omega arith

module _ (last_syncs : Map Timestamp) (stale_after : ℕ) (now : Timestamp) where
  abbrev Counts : List ProviderSummary → ProviderHealth → ProviderHealth → Type 0
  Counts ss h k =
      (k.stale ≡ h.stale + number (is_stale last_syncs stale_after now) ss)
      × (k.with_retrieval_errors ≡ h.with_retrieval_errors + number has_errors ss)
      × (k.with_check_issues ≡ h.with_check_issues + number has_issues ss)
      × (k.healthy + number (has_problem last_syncs stale_after now) ss ≡ h.healthy + length ss)

  abbrev Room : ProviderHealth → ℕ → Type 0
  Room h n =
      (h.stale + n < u64_mod)
      × (h.with_retrieval_errors + n < u64_mod)
      × (h.with_check_issues + n < u64_mod)
      × (h.healthy + n < u64_mod)

  classify_all-Counts :
      (ss : List ProviderSummary) (h : ProviderHealth)
      → Room h (length ss)
      → Counts ss h (classify_all last_syncs stale_after now ss h)
  unfolding classify
  classify_all-Counts [] h room = (omega arith, omega arith, omega arith, omega arith)
  classify_all-Counts (s ∷ ss) h (a, b, c, d) =
      let st = is_stale last_syncs stale_after now s in
      let er = has_errors s in
      let is = has_issues s in
      let fine = not st && (not er && not is) in
      let i = count_if-bit st h.stale (omega arith) in
      let j = count_if-bit er h.with_retrieval_errors (omega arith) in
      let k = count_if-bit is h.with_check_issues (omega arith) in
      let l = count_if-bit fine h.healthy (omega arith) in
      let parts = bits st er is in
      let (w, x, y, z) = classify_all-Counts ss (classify last_syncs stale_after now s h) (
        omega (arith, i, bit-le st),
        omega (arith, j, bit-le er),
        omega (arith, k, bit-le is),
        omega (arith, l, bit-le fine),
      ) in
      (
        omega (arith, w, i, number-cons (is_stale last_syncs stale_after now) s ss),
        omega (arith, x, j, number-cons has_errors s ss),
        omega (arith, y, k, number-cons has_issues s ss),
        omega (arith, z, l, parts, number-cons (has_problem last_syncs stale_after now) s ss),
      )

  -- With fewer than 2 ^ 64 providers, each count is the number of providers that are stale, had
  -- retrieval errors, or have check issues, and the healthy ones are exactly the rest: together with
  -- those that have at least one of the three problems they are all providers.
  pub provider_health-Counts :
      (ss : List ProviderSummary) (awaiting seconds : ℕ)
      → length ss < u64_mod
      → let h = provider_health ss last_syncs awaiting stale_after now seconds in
        (h.stale ≡ number (is_stale last_syncs stale_after now) ss)
        × (h.with_retrieval_errors ≡ number has_errors ss)
        × (h.with_check_issues ≡ number has_issues ss)
        × (h.healthy + number (has_problem last_syncs stale_after now) ss ≡ length ss)
  unfolding provider_health
  provider_health-Counts ss awaiting seconds few =
      let start : ProviderHealth = record {
        healthy = 0;
        with_retrieval_errors = 0;
        with_check_issues = 0;
        awaiting_first_sync = awaiting;
        stale = 0;
        stale_after_seconds = seconds;
      } in
      let (w, x, y, z) =
        classify_all-Counts ss start
          (omega (arith, few), omega (arith, few), omega (arith, few), omega (arith, few)) in
      (omega (arith, w), omega (arith, x), omega (arith, y), omega (arith, z))
