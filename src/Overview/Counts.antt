-- ===== src/Overview/Counts.antt =====
-- The counts of the overview do not depend on the order of the providers, and the series keeps its
-- latest entries.
use csaf_trove.Base.{
  ℕ, ◌≡◌, refl, sym, ◌∙◌, ap, Option, none, some, List, [], ◌∷◌, add_u64, add_u64_assoc,
  add_u64_comm,
}
use csaf_trove.Overview.{
  CheckCounts, DocumentCheckSummary, ProfileSummary, ProviderSummary, RateAccumulator,
  ValidationOverview, merge_counts, merge_checks, merge_some, add_rate, add_profile, add_summary,
  add_summaries, no_validation, aggregate_validation,
}

swap : (a b c : ℕ) → add_u64 (add_u64 a b) c ≡ add_u64 (add_u64 a c) b
swap a b c = add_u64_assoc a b c ∙ ap (add_u64 a) (add_u64_comm b c) ∙ sym (add_u64_assoc a c b)

merge_counts-swap :
    (c d e : CheckCounts) → merge_counts (merge_counts c d) e ≡ merge_counts (merge_counts c e) d
unfolding merge_counts
merge_counts-swap c d e = rw (
  swap c.passed d.passed e.passed,
  swap c.failed d.failed e.failed,
  swap c.warning d.warning e.warning,
  swap c.missing d.missing e.missing,
  swap c.not_evaluated d.not_evaluated e.not_evaluated,
)

merge_some-swap :
    (s t : Option DocumentCheckSummary) (v : DocumentCheckSummary)
    → merge_some t (merge_some s v) ≡ merge_some s (merge_some t v)
unfolding merge_checks
merge_some-swap none none v = refl
merge_some-swap none (some t) v = refl
merge_some-swap (some s) none v = refl
merge_some-swap (some s) (some t) v = rw (
  merge_counts-swap v.retrieval s.retrieval t.retrieval,
  merge_counts-swap v.parsing s.parsing t.parsing,
  merge_counts-swap v.signature s.signature t.signature,
  merge_counts-swap v.digest s.digest t.digest,
)

add_profile-swap :
    (p q : Option ProfileSummary) (r : RateAccumulator)
    → add_profile q (add_profile p r) ≡ add_profile p (add_profile q r)
unfolding add_profile add_rate
add_profile-swap none none r = refl
add_profile-swap none (some q) r = refl
add_profile-swap (some p) none r = refl
add_profile-swap (some p) (some q) r = rw (
  swap r.valid p.valid q.valid,
  swap r.total (add_u64 p.valid p.invalid) (add_u64 q.valid q.invalid),
)

add_summary-swap :
    (s t : ProviderSummary) (v : ValidationOverview)
    → add_summary t (add_summary s v) ≡ add_summary s (add_summary t v)
unfolding add_summary
add_summary-swap s t v = rw (
  merge_some-swap s.checks t.checks v.checks,
  add_profile-swap s.basic t.basic v.basic,
  add_profile-swap s.extended t.extended v.extended,
  add_profile-swap s.full t.full v.full,
)

-- One list is the other in another order.
pub data IsReordering : List ProviderSummary → List ProviderSummary → Type 0 where
  same : IsReordering [] []
  keep :
      (s : ProviderSummary) {xs ys : List ProviderSummary}
      → IsReordering xs ys
      → IsReordering (s ∷ xs) (s ∷ ys)
  exchange :
      (s t : ProviderSummary) (xs : List ProviderSummary) → IsReordering (s ∷ t ∷ xs) (t ∷ s ∷ xs)
  compose :
      {xs ys zs : List ProviderSummary}
      → IsReordering xs ys
      → IsReordering ys zs
      → IsReordering xs zs

add_summaries-IsReordering :
    {xs ys : List ProviderSummary} (v : ValidationOverview)
    → IsReordering xs ys
    → add_summaries xs v ≡ add_summaries ys v
unfolding add_summary
add_summaries-IsReordering v same = refl
add_summaries-IsReordering v (keep s h) = add_summaries-IsReordering (add_summary s v) h
add_summaries-IsReordering v (exchange s t xs) = ap (add_summaries xs) (add_summary-swap s t v)
add_summaries-IsReordering v (compose h k) =
    add_summaries-IsReordering v h ∙ add_summaries-IsReordering v k

-- The aggregated check counts and pass rates are the same in every order in which the providers
-- are listed, also where the counts wrap around.
pub aggregate_validation-IsReordering :
    (xs ys : List ProviderSummary)
    → IsReordering xs ys
    → aggregate_validation xs ≡ aggregate_validation ys
unfolding aggregate_validation
aggregate_validation-IsReordering xs ys h = add_summaries-IsReordering no_validation h
