-- ===== src/Runtime/Models.antt =====
-- app/runtime/models.py: schedules, jobs and the outcome of a run.
use dumpectorist.Prelude.{Bool, true, false, String, Option}
use dumpectorist.Prelude.Number.{Num}
use dumpectorist.Prelude.Result.{Result, ok, value_error, raise_if, ◌>>=◌, ◌>>◌}
use dumpectorist.Prelude.Text.{strip, is_blank}
use dumpectorist.Prelude.Time.{Datetime, require_aware, before}
use dumpectorist.Adapters.Payload.{AdapterState}

pub data SourceJobKind : Type 0 where
  execution benchmark structure discovery : SourceJobKind

pub data WorkerRunStatus : Type 0 where
  succeeded degraded failed timed_out persistence_failed : WorkerRunStatus

abbrev pub run_status_value : WorkerRunStatus → String
run_status_value WorkerRunStatus.succeeded = "SUCCEEDED"
run_status_value WorkerRunStatus.degraded = "DEGRADED"
run_status_value WorkerRunStatus.failed = "FAILED"
run_status_value WorkerRunStatus.timed_out = "TIMED_OUT"
run_status_value WorkerRunStatus.persistence_failed = "PERSISTENCE_FAILED"

pub record RuntimeSchedule (F : Type 0) : Type 0 where
  pub interval_seconds : F
  pub timeout_seconds : F
  pub initial_delay_seconds : F

-- `RuntimeSchedule.__post_init__`
unfoldable pub runtime_schedule :
    {F : Type 0} → Num F → RuntimeSchedule F → Result (RuntimeSchedule F)
runtime_schedule flt s = do
  raise_if (flt.le s.interval_seconds (flt.lit 0 0))
      (value_error "interval_seconds must be positive")
  raise_if (flt.le s.timeout_seconds (flt.lit 0 0)) (value_error "timeout_seconds must be positive")
  raise_if (flt.lt s.initial_delay_seconds (flt.lit 0 0))
      (value_error "initial_delay_seconds must be non-negative")
  ok s

-- A job, with the name of its adapter; what `adapter.load()` does is an input of a run.
pub record ScheduledSourceJob (F : Type 0) : Type 0 where
  pub name : String
  pub kind : SourceJobKind
  pub adapter_name : String
  pub schedule : RuntimeSchedule F

-- `ScheduledSourceJob.__post_init__`
unfoldable pub scheduled_source_job :
    {F : Type 0} → ScheduledSourceJob F → Result (ScheduledSourceJob F)
scheduled_source_job j = do
  let name = strip j.name
  raise_if (is_blank name) (value_error "job name is required")
  raise_if (is_blank (strip j.adapter_name)) (value_error "adapter name is required")
  ok (record j { name = name })

pub record WorkerRunOutcome : Type 0 where
  pub job_name : String
  pub kind : SourceJobKind
  pub status : WorkerRunStatus
  pub started_at : Datetime
  pub finished_at : Datetime
  pub adapter_state : Option AdapterState
  pub message : String

-- `WorkerRunOutcome.__post_init__`
unfoldable pub worker_run_outcome : WorkerRunOutcome → Result WorkerRunOutcome
worker_run_outcome o = do
  raise_if (is_blank (strip o.job_name)) (value_error "job_name is required")
  require_aware o.started_at "started_at"
  require_aware o.finished_at "finished_at"
  backwards ← before o.finished_at o.started_at
  raise_if backwards (value_error "finished_at must not precede started_at")
  ok o

unfoldable pub completed_without_failure : WorkerRunOutcome → Bool
completed_without_failure o = elim o.status [
  | WorkerRunStatus.succeeded ↦ true
  | WorkerRunStatus.degraded ↦ true
  | _ ↦ false
]
