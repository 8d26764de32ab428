-- ===== src/Runtime/Telemetry.antt =====
-- app/runtime/telemetry.py: counters over the outcomes of the runs, and the alerts they raise.
pub mod Streaks
use dumpectorist.Prelude.{
  Bool, true, false, not, ℕ, suc, ◌+◌, ◌≡◌, ◌↔◌, refl, String, List, [], ◌∷◌, ◌++◌, ltb, ◌==◌,
  arith, map, if◌then◌else◌,
}
use dumpectorist.Prelude.Dict.{Key, string_key, Dict, lookup, insert, get_or}
use dumpectorist.Prelude.Int.{ℤ, pos, ltb_ℤ}
use dumpectorist.Prelude.Result.{Error, Result, ok, err, value_error, raise_if, ◌>>=◌, ◌>>◌}
use dumpectorist.Prelude.Text.{strip, is_blank}
use dumpectorist.Prelude.Time.{Datetime, require_aware}
use dumpectorist.Runtime.Models.{WorkerRunStatus, WorkerRunOutcome, run_status_value}

-- `status in FAILURE_STATUSES`
unfoldable pub is_failure : WorkerRunStatus → Bool
is_failure WorkerRunStatus.failed = true
is_failure WorkerRunStatus.timed_out = true
is_failure WorkerRunStatus.persistence_failed = true
is_failure _ = false

abbrev pub same_status : WorkerRunStatus → WorkerRunStatus → Bool
same_status WorkerRunStatus.succeeded WorkerRunStatus.succeeded = true
same_status WorkerRunStatus.degraded WorkerRunStatus.degraded = true
same_status WorkerRunStatus.failed WorkerRunStatus.failed = true
same_status WorkerRunStatus.timed_out WorkerRunStatus.timed_out = true
same_status WorkerRunStatus.persistence_failed WorkerRunStatus.persistence_failed = true
same_status _ _ = false

pub same_status_iff : (a b : WorkerRunStatus) → (same_status a b ≡ true) ↔ (a ≡ b)
same_status_iff a b = ground arith

instance abbrev pub status_key : Key WorkerRunStatus
status_key = record { same = same_status; same_iff = same_status_iff }

pub record RuntimeAlert : Type 0 where
  pub job_name : String
  pub status : WorkerRunStatus
  pub consecutive_failures : ℕ
  pub message : String

-- `RuntimeAlert.__post_init__`
unfoldable pub runtime_alert : RuntimeAlert → Result RuntimeAlert
runtime_alert a = do
  raise_if (is_blank (strip a.job_name)) (value_error "alert job_name is required")
  raise_if (a.consecutive_failures == 0) (value_error "consecutive_failures must be positive")
  ok a

pub record RuntimeMetrics : Type 0 where
  pub total_runs : ℕ
  pub status_counts : Dict WorkerRunStatus ℕ
  pub consecutive_failures : Dict String ℕ
  pub last_status : Dict String WorkerRunStatus

abbrev pub no_metrics : RuntimeMetrics
no_metrics = record {
  total_runs = 0;
  status_counts = [];
  consecutive_failures = [];
  last_status = [];
}

-- The number of failures in a row that the job has after this outcome.
unfoldable pub failure_count : RuntimeMetrics → WorkerRunOutcome → ℕ
failure_count m o =
    if is_failure o.status then get_or o.job_name 0 m.consecutive_failures + 1 else 0

-- The counters after one outcome: the body of the loop of `observe`, but for the alert.
unfoldable pub count_outcome : RuntimeMetrics → WorkerRunOutcome → RuntimeMetrics
unfolding failure_count
count_outcome m o = record {
  total_runs = m.total_runs + 1;
  status_counts = insert o.status (get_or o.status 0 m.status_counts + 1) m.status_counts;
  last_status = insert o.job_name o.status m.last_status;
  consecutive_failures = insert o.job_name (failure_count m o) m.consecutive_failures;
}

unfoldable pub alert_for : RuntimeMetrics → WorkerRunOutcome → RuntimeAlert
alert_for m o = record {
  job_name = o.job_name;
  status = o.status;
  consecutive_failures = failure_count m o;
  message = o.message;
}

-- `failure_count == failure_alert_threshold`, for a failure.
unfoldable pub reaches : ℕ → RuntimeMetrics → WorkerRunOutcome → Bool
reaches threshold m o = if is_failure o.status then failure_count m o == threshold else false

-- The loop of `observe`. An exception keeps what the loop has counted.
unfoldable pub observe_from :
    ℕ
    → RuntimeMetrics
    → List RuntimeAlert
    → List WorkerRunOutcome
    → Result (List RuntimeAlert) × RuntimeMetrics
observe_from threshold m alerts [] = (ok alerts, m)
observe_from threshold m alerts (o ∷ os) =
    let counted = count_outcome m o in
    elim (reaches threshold m o) [
      | false ↦ observe_from threshold counted alerts os
      | true ↦ elim (runtime_alert (alert_for m o)) [
        | err e ↦ (err e, counted)
        | ok a ↦ observe_from threshold counted (alerts ++ a ∷ []) os
      ]
    ]

-- `RuntimeMetrics.observe`; a threshold below one is refused before anything is counted.
unfoldable pub observe :
    RuntimeMetrics → List WorkerRunOutcome → ℕ → Result (List RuntimeAlert) × RuntimeMetrics
observe m os threshold =
    if ltb threshold 1
    then (err (value_error "failure_alert_threshold must be positive"), m)
    else observe_from threshold m [] os

pub record RuntimeMetricsSnapshot : Type 0 where
  pub observed_at : Datetime
  pub total_runs : ℕ
  pub status_counts : Dict String ℕ
  pub consecutive_failures : Dict String ℕ
  pub last_status : Dict String String

-- `RuntimeMetrics.snapshot`
unfoldable pub snapshot : RuntimeMetrics → Datetime → Result RuntimeMetricsSnapshot
snapshot m now = do
  require_aware now "now"
  ok (record {
    observed_at = now;
    total_runs = m.total_runs;
    status_counts = map (λ e. (run_status_value e.0, e.1)) m.status_counts;
    consecutive_failures = m.consecutive_failures;
    last_status = map (λ e. (e.0, run_status_value e.1)) m.last_status;
  })
