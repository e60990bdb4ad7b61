-- ===== src/Retrieval/Distributions.antt =====
-- How many distributions a sync counts, and which of their errors it survives.
use mathlib.Core.List.{append_assoc, append-nil}
use csaf_trove.Base.{
  Option, none, some, ℕ, ◌+◌, ◌≡◌, refl, ◌∙◌, sym, Bool, true, false, List, [], ◌∷◌, ◌++◌, arith,
  any, if◌then◌else◌, Bool-cases, inl, inr, add_u64,
}
use csaf_trove.Base.Text.{Text, bytes, text_eq}
use csaf_trove.Base.Effect.{Result, ok, err, for_each}
use csaf_trove.Runner.World.{RetrievalFailure}
use csaf_trove.Retrieval.{
  DistributionContext, directory, feed, context_url, Walk, distribution_filter, skip_distribution,
  distribution_error,
}

-- The calls of the two closures, in the order in which the walker makes them.
pub data Call : Type 0 where
  filtered : DistributionContext → Call
  failed : DistributionContext → Text → Call

unfoldable pub on_call : List Text → (Text → Text) → Call → Walk → Result Walk
unfolding distribution_filter distribution_error
on_call skip trimmed (filtered context) walk = ok (distribution_filter skip context walk).1
on_call skip trimmed (failed context error) walk = distribution_error trimmed context error walk

abbrev pub is_skipped : List Text → DistributionContext → Bool
is_skipped skip (directory url) = any (λ s. text_eq s url) skip
is_skipped skip (feed url clear) = false

abbrev pub accepted : List Text → List Call → ℕ
accepted skip [] = 0
accepted skip (filtered context ∷ calls) =
    let n = accepted skip calls in if is_skipped skip context then n else n + 1
accepted skip (failed context error ∷ calls) = accepted skip calls

abbrev pub failures : List Call → ℕ
failures [] = 0
failures (filtered context ∷ calls) = failures calls
failures (failed context error ∷ calls) = failures calls + 1

-- What is kept of the distributions that were passed over.
abbrev pub skipped_errors : (Text → Text) → List Call → List RetrievalFailure
skipped_errors trimmed [] = []
skipped_errors trimmed (filtered context ∷ calls) = skipped_errors trimmed calls
skipped_errors trimmed (failed context error ∷ calls) =
    record {
      url = context_url context;
      error = bytes "Skipped: " ++ trimmed error;
      missing = false;
    }
    ∷ skipped_errors trimmed calls

abbrev pub or_later : Bool → Text → Option Text → Option Text
or_later true error later = some error
or_later false error later = later

abbrev pub is_public : DistributionContext → Bool
is_public (directory url) = false
is_public (feed url clear) = clear

-- The error of the first public feed that could not be loaded.
abbrev pub public_error : List Call → Option Text
public_error [] = none
public_error (filtered context ∷ calls) = public_error calls
public_error (failed context error ∷ calls) =
    or_later (is_public context) error (public_error calls)

-- What stands after the calls: the total has grown by the accepted distributions and shrunk by the
-- failed ones, modulo 2 ^ 64, and the errors of the failed ones are kept in order.
abbrev pub Counted : List Text → (Text → Text) → List Call → Walk → Walk → Type 0
Counted skip trimmed calls walk walk' =
    (add_u64 walk'.distributions_total (failures calls)
      ≡ add_u64 walk.distributions_total (accepted skip calls))
    × (walk'.distribution_errors ≡ walk.distribution_errors ++ skipped_errors trimmed calls)

abbrev pub WalkRule :
    List Text → (Text → Text) → List Call → Walk → Option Text → Result Walk → Type 0
WalkRule skip trimmed calls walk (some e) result = result ≡ err e
WalkRule skip trimmed calls walk none result =
    (walk' : Walk) × (result ≡ ok walk') × Counted skip trimmed calls walk walk'

filtered-Counted :
    (skip : List Text) (trimmed : Text → Text) (context : DistributionContext) (calls : List Call)
    (walk walk' : Walk)
    → Counted skip trimmed calls (distribution_filter skip context walk).1 walk'
    → Counted skip trimmed (filtered context ∷ calls) walk walk'
unfolding distribution_filter add_u64
filtered-Counted skip trimmed (directory url) calls walk walk' h =
    elim (Bool-cases (any (λ s. text_eq s url) skip)) [
      | inl skipped ↦ rw skipped (rw skipped at h)
      | inr kept ↦ let (total, urls) = rw kept at h in rw kept ((omega (arith, total)), urls)
    ]
filtered-Counted skip trimmed (feed url clear) calls walk walk' (total, urls) =
    (omega (arith, total), urls)

skipped-Counted :
    (skip : List Text) (trimmed : Text → Text) (context : DistributionContext) (error : Text)
    (calls : List Call) (walk walk' : Walk)
    → Counted skip trimmed calls (skip_distribution trimmed (context_url context) error walk) walk'
    → Counted skip trimmed (failed context error ∷ calls) walk walk'
unfolding skip_distribution add_u64
skipped-Counted skip trimmed context error calls walk walk' (total, urls) = (
  omega (arith, total),
  urls
      ∙ append_assoc walk.distribution_errors
          (record {
            url = context_url context;
            error = bytes "Skipped: " ++ trimmed error;
            missing = false;
          }
            ∷ [])
          (skipped_errors trimmed calls),
)

WalkRule-map :
    (skip : List Text) (trimmed : Text → Text) (calls calls' : List Call) (walk next : Walk)
    (e : Option Text) (r : Result Walk)
    → ((w : Walk) → Counted skip trimmed calls next w → Counted skip trimmed calls' walk w)
    → WalkRule skip trimmed calls next e r
    → WalkRule skip trimmed calls' walk e r
WalkRule-map skip trimmed calls calls' walk next (some e) r f h = h
WalkRule-map skip trimmed calls calls' walk next none r f (w, ran, counted) = (w, ran, f w counted)

-- Whatever calls a walker makes of the two closures of a sync, in whatever order: with the errors of
-- a public feed among them they fail, with the first such error. Otherwise they succeed; the total is
-- then the former one with the distributions that the filter accepts and less the failed ones, counted
-- modulo 2 ^ 64, and behind the former errors there is one for each failed distribution, in order,
-- with its URL and the text of its error, not marked as missing.
pub for_each-on_call :
    (skip : List Text) (trimmed : Text → Text) (calls : List Call) (walk : Walk)
    → WalkRule skip trimmed calls walk
        (public_error calls)
        (for_each (on_call skip trimmed) calls walk)
unfolding for_each on_call distribution_error
for_each-on_call skip trimmed [] walk = (walk, refl, (refl, sym (append-nil _)))
for_each-on_call skip trimmed (filtered context ∷ calls) walk =
    WalkRule-map skip trimmed calls (filtered context ∷ calls) walk _ (public_error calls) _
      (filtered-Counted skip trimmed context calls walk)
      (for_each-on_call skip trimmed calls (distribution_filter skip context walk).1)
for_each-on_call skip trimmed (failed (feed url true) error ∷ calls) walk = refl
for_each-on_call skip trimmed (failed (feed url false) error ∷ calls) walk =
    WalkRule-map skip trimmed calls (failed (feed url false) error ∷ calls) walk _
      (public_error calls) _ (skipped-Counted skip trimmed (feed url false) error calls walk)
      (for_each-on_call skip trimmed calls (skip_distribution trimmed url error walk))
for_each-on_call skip trimmed (failed (directory url) error ∷ calls) walk =
    WalkRule-map skip trimmed calls (failed (directory url) error ∷ calls) walk _
      (public_error calls) _ (skipped-Counted skip trimmed (directory url) error calls walk)
      (for_each-on_call skip trimmed calls (skip_distribution trimmed url error walk))
