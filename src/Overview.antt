-- ===== src/Overview.antt =====
-- Instance-wide counts: common/src/document_checks.rs, the aggregation of server/src/api/overview.rs,
-- and the series of server/src/models/metrics.rs.
pub mod Counts
pub mod Health
use csaf_trove.Base.{
  ℕ, ◌+◌, ◌-◌, Bool, true, false, ◌||◌, ◌&&◌, not, Option, none, some, List, [], ◌∷◌, ◌++◌, ltb,
  length, drop, add_u64, or_option, if◌then◌else◌,
}
use csaf_trove.Base.Text.{Text}
use csaf_trove.Base.Map
use csaf_trove.Base.Map.{Map}
use csaf_trove.Jobs.{Timestamp, JobPhase, pending, running, completed, failed, JobStatus}

-- `CheckStatus`
pub data CheckStatus : Type 0 where
  passed failed_check warning missing not_evaluated : CheckStatus

pub record CheckCounts : Type 0 where
  pub passed : ℕ
  pub failed : ℕ
  pub warning : ℕ
  pub missing : ℕ
  pub not_evaluated : ℕ

abbrev pub no_counts : CheckCounts
no_counts = record { passed = 0; failed = 0; warning = 0; missing = 0; not_evaluated = 0 }

-- `issues`
unfoldable pub issues : CheckCounts → ℕ
unfolding add_u64
issues c = add_u64 (add_u64 c.failed c.warning) c.missing

-- `CheckCounts::add`
unfoldable pub add_count : CheckStatus → ℕ → CheckCounts → CheckCounts
unfolding add_u64
add_count passed n c = record c { passed = add_u64 c.passed n }
add_count failed_check n c = record c { failed = add_u64 c.failed n }
add_count warning n c = record c { warning = add_u64 c.warning n }
add_count missing n c = record c { missing = add_u64 c.missing n }
add_count not_evaluated n c = record c { not_evaluated = add_u64 c.not_evaluated n }

-- `CheckCounts::merge`
unfoldable pub merge_counts : CheckCounts → CheckCounts → CheckCounts
unfolding add_u64
merge_counts c d = record {
  passed = add_u64 c.passed d.passed;
  failed = add_u64 c.failed d.failed;
  warning = add_u64 c.warning d.warning;
  missing = add_u64 c.missing d.missing;
  not_evaluated = add_u64 c.not_evaluated d.not_evaluated;
}

-- `DocumentCheckSummary`
pub record DocumentCheckSummary : Type 0 where
  pub retrieval : CheckCounts
  pub parsing : CheckCounts
  pub signature : CheckCounts
  pub digest : CheckCounts

abbrev pub no_checks : DocumentCheckSummary
no_checks = record {
  retrieval = no_counts;
  parsing = no_counts;
  signature = no_counts;
  digest = no_counts;
}

unfoldable pub total_issues : DocumentCheckSummary → ℕ
unfolding issues add_u64
total_issues s =
    add_u64 (add_u64 (add_u64 (issues s.retrieval) (issues s.parsing)) (issues s.signature))
      (issues s.digest)

-- `merge` of the summaries
unfoldable pub merge_checks : DocumentCheckSummary → DocumentCheckSummary → DocumentCheckSummary
unfolding merge_counts
merge_checks s t = record {
  retrieval = merge_counts s.retrieval t.retrieval;
  parsing = merge_counts s.parsing t.parsing;
  signature = merge_counts s.signature t.signature;
  digest = merge_counts s.digest t.digest;
}

-- `ProfileSummary`, without the rate that is computed from its counts.
pub record ProfileSummary : Type 0 where
  pub valid : ℕ
  pub invalid : ℕ

-- What the overview reads of a `ProviderSummary`.
pub record ProviderSummary : Type 0 where
  pub provider : Text
  pub validated_at : Timestamp
  pub checks : Option DocumentCheckSummary
  pub basic : Option ProfileSummary
  pub extended : Option ProfileSummary
  pub full : Option ProfileSummary
  pub retrieval_errors : ℕ

-- `RateAccumulator`
pub record RateAccumulator : Type 0 where
  pub valid : ℕ
  pub total : ℕ

abbrev pub no_rate : RateAccumulator
no_rate = record { valid = 0; total = 0 }

unfoldable pub add_rate : ℕ → ℕ → RateAccumulator → RateAccumulator
unfolding add_u64
add_rate valid invalid r = record {
  valid = add_u64 r.valid valid;
  total = add_u64 r.total (add_u64 valid invalid);
}

unfoldable pub add_profile : Option ProfileSummary → RateAccumulator → RateAccumulator
unfolding add_rate
add_profile none r = r
add_profile (some p) r = add_rate p.valid p.invalid r

-- `ValidationOverview`; a rate is the pair that the quotient is taken of.
pub record ValidationOverview : Type 0 where
  pub checks : DocumentCheckSummary
  pub basic : RateAccumulator
  pub extended : RateAccumulator
  pub full : RateAccumulator

abbrev pub no_validation : ValidationOverview
no_validation = record { checks = no_checks; basic = no_rate; extended = no_rate; full = no_rate }

abbrev pub merge_some : Option DocumentCheckSummary → DocumentCheckSummary → DocumentCheckSummary
unfolding merge_checks
merge_some none s = s
merge_some (some t) s = merge_checks s t

unfoldable pub add_summary : ProviderSummary → ValidationOverview → ValidationOverview
unfolding add_profile merge_checks
add_summary s v = record {
  checks = merge_some s.checks v.checks;
  basic = add_profile s.basic v.basic;
  extended = add_profile s.extended v.extended;
  full = add_profile s.full v.full;
}

abbrev pub add_summaries : List ProviderSummary → ValidationOverview → ValidationOverview
unfolding add_summary
add_summaries [] v = v
add_summaries (s ∷ ss) v = add_summaries ss (add_summary s v)

unfoldable pub aggregate_validation : List ProviderSummary → ValidationOverview
unfolding add_summary
aggregate_validation summaries = add_summaries summaries no_validation

-- `ProviderHealth`
pub record ProviderHealth : Type 0 where
  pub healthy : ℕ
  pub with_retrieval_errors : ℕ
  pub with_check_issues : ℕ
  pub awaiting_first_sync : ℕ
  pub stale : ℕ
  pub stale_after_seconds : ℕ

-- `u64::from(bool)`, added to a counter.
unfoldable pub count_if : Bool → ℕ → ℕ
unfolding add_u64
count_if false n = n
count_if true n = add_u64 n 1

abbrev unwrap_or : Option Timestamp → Timestamp → Timestamp
unwrap_or none validated = validated
unwrap_or (some t) validated = t

abbrev pub check_issues : Option DocumentCheckSummary → Bool
unfolding total_issues
check_issues none = false
check_issues (some s) = ltb 0 (total_issues s)

-- `now - last_sync > stale_after`; a difference below 0 is not greater.
unfoldable pub is_stale : Map Timestamp → ℕ → Timestamp → ProviderSummary → Bool
unfolding Map.get
is_stale last_syncs stale_after now s =
    ltb stale_after (now - unwrap_or (Map.get s.provider last_syncs) s.validated_at)

unfoldable pub has_errors : ProviderSummary → Bool
has_errors s = ltb 0 s.retrieval_errors

unfoldable pub has_issues : ProviderSummary → Bool
unfolding total_issues
has_issues s = check_issues s.checks

unfoldable pub classify :
    Map Timestamp → ℕ → Timestamp → ProviderSummary → ProviderHealth → ProviderHealth
unfolding count_if is_stale has_errors has_issues
classify last_syncs stale_after now s h =
    let stale = is_stale last_syncs stale_after now s in
    record h {
      stale = count_if stale h.stale;
      with_retrieval_errors = count_if (has_errors s) h.with_retrieval_errors;
      with_check_issues = count_if (has_issues s) h.with_check_issues;
      healthy = count_if (not stale && (not (has_errors s) && not (has_issues s))) h.healthy;
    }

abbrev pub classify_all :
    Map Timestamp → ℕ → Timestamp → List ProviderSummary → ProviderHealth → ProviderHealth
unfolding classify
classify_all last_syncs stale_after now [] h = h
classify_all last_syncs stale_after now (s ∷ ss) h =
    classify_all last_syncs stale_after now ss (classify last_syncs stale_after now s h)

unfoldable pub provider_health :
    List ProviderSummary → Map Timestamp → ℕ → ℕ → Timestamp → ℕ → ProviderHealth
unfolding classify
provider_health summaries last_syncs awaiting stale_after now seconds =
    classify_all last_syncs stale_after now summaries (record {
      healthy = 0;
      with_retrieval_errors = 0;
      with_check_issues = 0;
      awaiting_first_sync = awaiting;
      stale = 0;
      stale_after_seconds = seconds;
    })

-- `SyncActivity`
pub record SyncActivity : Type 0 where
  pub running : ℕ
  pub failed : ℕ
  pub last_completed_at : Option Timestamp

-- `>` of `Option`: nothing is below any time.
abbrev pub later : Option Timestamp → Option Timestamp → Bool
later none t = false
later (some a) none = true
later (some a) (some b) = ltb b a

abbrev pub count_job : JobPhase → SyncActivity → SyncActivity
unfolding add_u64
count_job running a = record a { running = add_u64 a.running 1 }
count_job failed a = record a { failed = add_u64 a.failed 1 }
count_job pending a = a
count_job completed a = a

unfoldable pub add_job : JobStatus → SyncActivity → SyncActivity
unfolding add_u64
add_job job a =
    let counted = count_job job.status a in
    let finished = or_option job.completed_at job.last_completed_at in
    record counted {
      last_completed_at =
          if later finished a.last_completed_at then finished else a.last_completed_at;
    }

abbrev pub add_jobs : List JobStatus → SyncActivity → SyncActivity
unfolding add_job
add_jobs [] a = a
add_jobs (job ∷ jobs) a = add_jobs jobs (add_job job a)

unfoldable pub sync_activity : List JobStatus → SyncActivity
unfolding add_job
sync_activity jobs = add_jobs jobs (record { running = 0; failed = 0; last_completed_at = none })

-- `MetricsTimeSeries`, whose entries are of any type.
pub record MetricsTimeSeries (E : Type 0) : Type 0 where
  pub provider : Text
  pub entries : List E

module _ {E : Type 0} where
  unfoldable pub trim : ℕ → MetricsTimeSeries E → MetricsTimeSeries E
  trim max_entries m =
      if ltb max_entries (length m.entries)
      then record m { entries = drop (length m.entries - max_entries) m.entries }
      else m

  unfoldable pub append : E → MetricsTimeSeries E → MetricsTimeSeries E
  unfolding trim
  append entry m = trim 365 (record m { entries = m.entries ++ (entry ∷ []) })
