-- ===== src/Retrieval.antt =====
-- server/src/pipeline/membership.rs, and the visitor, the filter and the error handler of
-- server/src/pipeline/sync.rs: what a walk over the distributions of a provider collects.
pub mod Index
pub mod Distributions
use csaf_trove.Base.{
  ℕ, ◌+◌, ◌-◌, Bool, true, false, ◌||◌, ◌&&◌, not, Option, none, some, List, [], ◌∷◌, ◌++◌, any,
  retain, map, leb, ◌==◌, add_u64, if◌then◌else◌, u64_mod,
}
use csaf_trove.Base.Text.{Text, bytes, text_eq}
use csaf_trove.Base.Map
use csaf_trove.Base.Map.{Map}
use csaf_trove.Base.Effect.{Result, ok, err, ◌>>=◌, for_each}
use csaf_trove.Jobs.{Timestamp, Registry, increment_job_synced}
use csaf_trove.Storage.PathSet.{insert_row}
use csaf_trove.Runner.World.{RetrievalFailure}

-- `DiscoveredAdvisory` of the walker.
pub record DiscoveredAdvisory : Type 0 where
  pub url : Text
  pub modified : Timestamp

-- `MembershipSource`, without the source that it wraps; `membership` is what its mutex guards.
pub record MembershipSource : Type 0 where
  pub since : Option Timestamp
  pub retry : List Text
  pub membership : Map (List Text)

-- `collect` into a `BTreeSet`, in the order of the set.
unfoldable pub collect_set : List Text → List Text
unfolding insert_row
collect_set [] = []
collect_set (x ∷ xs) = insert_row x (collect_set xs)

unfoldable pub is_wanted : Timestamp → List Text → DiscoveredAdvisory → Bool
is_wanted since retry a = leb since a.modified || any (λ url. text_eq url a.url) retry

unfoldable pub select_changed :
    Option Timestamp → List Text → List DiscoveredAdvisory → List DiscoveredAdvisory
select_changed none retry advisories = advisories
select_changed (some since) retry advisories = retain (is_wanted since retry) advisories

-- `load_index`, with the index that the wrapped source loads.
unfoldable pub load_index :
    Text
    → Result (List DiscoveredAdvisory)
    → MembershipSource
    → Result (List DiscoveredAdvisory) × MembershipSource
unfolding collect_set select_changed
load_index url (err e) source = (err e, source)
load_index url (ok advisories) source = (
  ok (select_changed source.since source.retry advisories),
  record source {
    membership =
        Map.insert url (collect_set (map (λ (a : DiscoveredAdvisory). a.url) advisories))
          source.membership;
  },
)

-- A distribution of the provider's metadata. `clear` says that a feed has the label `TLP:CLEAR`.
pub data DistributionContext : Type 0 where
  directory : (url : Text) → DistributionContext
  feed : (url : Text) → (clear : Bool) → DistributionContext

abbrev pub context_url : DistributionContext → Text
context_url (directory url) = url
context_url (feed url clear) = url

-- `distributions_total`, an atomic counter, and `distribution_errors`.
pub record Walk : Type 0 where
  pub distributions_total : ℕ
  pub distribution_errors : List RetrievalFailure

-- The filter of `sync_provider`: configured directories are skipped, what is kept is counted.
unfoldable pub distribution_filter : List Text → DistributionContext → Walk → Bool × Walk
distribution_filter skip (directory url) walk =
    if any (λ s. text_eq s url) skip
    then (false, walk)
    else (true, record walk { distributions_total = add_u64 walk.distributions_total 1 })
distribution_filter skip (feed url clear) walk =
    (true, record walk { distributions_total = add_u64 walk.distributions_total 1 })

-- `fetch_sub` wraps around.
abbrev pub sub_u64 : ℕ → ℕ
sub_u64 a = add_u64 a (u64_mod - 1)

-- What the messages are made of: the text of the error without its known beginnings.
unfoldable pub skip_distribution : (Text → Text) → Text → Text → Walk → Walk
skip_distribution trimmed url error walk = record walk {
  distributions_total = sub_u64 walk.distributions_total;
  distribution_errors =
      walk.distribution_errors
      ++ (record { url = url; error = bytes "Skipped: " ++ trimmed error; missing = false } ∷ []);
}

-- The error handler of `sync_provider`: only a public feed makes the sync fail.
unfoldable pub distribution_error : (Text → Text) → DistributionContext → Text → Walk → Result Walk
unfolding skip_distribution
distribution_error trimmed (feed url true) error walk = err error
distribution_error trimmed (feed url false) error walk =
    ok (skip_distribution trimmed url error walk)
distribution_error trimmed (directory url) error walk =
    ok (skip_distribution trimmed url error walk)

-- What the visitor is handed for a document: the stored bytes, or a failure of the source with the
-- status of the HTTP error, if it is one.
pub record RetrievalError : Type 0 where
  pub url : Text
  pub message : Text
  pub client_error : Option ℕ

-- `is_not_found`
unfoldable pub is_not_found : Option ℕ → Bool
is_not_found none = false
is_not_found (some status) = status == 404

pub record Visitor : Type 0 where
  pub retrieval_errors : List RetrievalFailure
  pub registry : Registry

pub data Retrieved : Type 0 where
  retrieved : (stored : Result (Unit {0})) → Retrieved
  not_retrieved : RetrievalError → Retrieved

unfoldable pub failure_of : RetrievalError → RetrievalFailure
unfolding is_not_found
failure_of e = record { url = e.url; error = e.message; missing = is_not_found e.client_error }

-- `visit_advisory` of `CountingStoreVisitor`. A failed retrieval is kept and counted; a document
-- that cannot be stored is an error.
unfoldable pub visit_document : Text → Retrieved → Visitor → Result Visitor
unfolding failure_of increment_job_synced
visit_document domain (not_retrieved e) visitor = ok (record {
  retrieval_errors = visitor.retrieval_errors ++ (failure_of e ∷ []);
  registry = increment_job_synced domain visitor.registry;
})
visit_document domain (retrieved stored) visitor =
    stored >>= λ _. ok (record visitor { registry = increment_job_synced domain visitor.registry })
