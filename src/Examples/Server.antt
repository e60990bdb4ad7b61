-- ===== src/Examples/Server.antt =====
-- The theorems on retrieval, overview and start-up at concrete data.
use csaf_trove.Base.{ℕ, ◌+◌, ◌≡◌, false, none, some, List, [], ◌∷◌, arith, length}
use csaf_trove.Base.Text.{Text, bytes}
use csaf_trove.Base.Effect.{ok, for_each}
use csaf_trove.Runner.World.{SyncState}
use csaf_trove.Retrieval.{DiscoveredAdvisory, MembershipSource, load_index, Walk, directory, feed}
use csaf_trove.Retrieval.Index.{IndexRule, load_index-IndexRule}
use csaf_trove.Retrieval.Distributions.{
  Call, filtered, failed, on_call, public_error, WalkRule, for_each-on_call,
}
use csaf_trove.Overview.{
  ProviderSummary, aggregate_validation, MetricsTimeSeries, provider_health, is_stale, has_errors,
  has_issues,
}
use csaf_trove.Overview.Counts.{exchange, aggregate_validation-IsReordering}
use csaf_trove.Overview.Health.{number, has_problem, provider_health-Counts}
use csaf_trove.Startup.Progress.{Step, begun, advanced}
use csaf_trove.Examples.Data.{domain, advisory, gone}

abbrev index : List DiscoveredAdvisory
index = record { url = advisory; modified = 3 } ∷ record { url = gone; modified = 8 } ∷ []

abbrev incremental : MembershipSource
incremental = record { since = some 5; retry = advisory ∷ []; membership = [] }

load_index-IndexRule_example :
    IndexRule domain (ok index) incremental (load_index domain (ok index) incremental)
load_index-IndexRule_example = load_index-IndexRule domain (ok index) incremental

abbrev calls : List Call
calls =
    filtered (directory gone)
    ∷ filtered (feed advisory false)
    ∷ failed (feed advisory false) (bytes "403")
    ∷ []

abbrev no_walk : Walk
no_walk = record { distributions_total = 0; distribution_errors = [] }

for_each-on_call_example :
    WalkRule
      (gone ∷ [])
      (λ e. e)
      calls
      no_walk
      (public_error calls)
      (for_each (on_call (gone ∷ []) (λ e. e)) calls no_walk)
for_each-on_call_example = for_each-on_call (gone ∷ []) (λ e. e) calls no_walk

abbrev summary : Text → ℕ → ProviderSummary
summary provider errors = record {
  provider = provider;
  validated_at = 10;
  checks = none;
  basic = some (record { valid = 90; invalid = 10 });
  extended = none;
  full = none;
  retrieval_errors = errors;
}

abbrev one_each : List ProviderSummary
one_each = summary advisory 0 ∷ summary gone 2 ∷ []

aggregate_validation-IsReordering_example :
    aggregate_validation one_each ≡ aggregate_validation (summary gone 2 ∷ summary advisory 0 ∷ [])
aggregate_validation-IsReordering_example =
    aggregate_validation-IsReordering one_each (summary gone 2 ∷ summary advisory 0 ∷ [])
      (exchange (summary advisory 0) (summary gone 2) [])

provider_health-Counts_example :
    let h = provider_health one_each [] 1 5 20 5 in
    (h.stale ≡ number (is_stale [] 5 20) one_each)
    × (h.with_retrieval_errors ≡ number has_errors one_each)
    × (h.with_check_issues ≡ number has_issues one_each)
    × (h.healthy + number (has_problem [] 5 20) one_each ≡ length one_each)
provider_health-Counts_example = provider_health-Counts [] 5 20 one_each 1 5 (omega arith)

abbrev series : MetricsTimeSeries ℕ
series = record { provider = domain; entries = 1 ∷ 2 ∷ [] }

abbrev start_up : List Step
start_up = begun (bytes "sources") ∷ advanced 1 2 ∷ begun (bytes "jobs") ∷ []

abbrev stored : SyncState
stored = record {
  domain = domain;
  last_sync = some 40;
  since_token = some 30;
  documents_synced = 1;
  documents_validated = 1;
  documents_missing = 0;
  documents_total = 7;
}
