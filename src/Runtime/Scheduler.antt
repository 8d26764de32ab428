-- ===== src/Runtime/Scheduler.antt =====
-- app/runtime/scheduler.py: the claims of `run_due` on the shared state, and the run of one job. A
-- claim loop holds the lock, so it is one step; a run releases its job in a step of its own. The
-- rounding of `timedelta(seconds=…)` is the platform's, and what the clock, the adapter and the
-- store answer is an input.
pub mod Exclusion
pub mod Interleavings
pub mod Jobs
use dumpectorist.Prelude.{
  Bool, true, false, not, ◌||◌, ℕ, String, List, [], ◌∷◌, Option, none, some, map, str_eq,
  if◌then◌else◌,
}
use dumpectorist.Prelude.Dict.{Dict, string_key, contains, add, discard, lookup, insert}
use dumpectorist.Prelude.Result.{Error, Result, ok, err, value_error, raise_if, ◌>>=◌, ◌>>◌}
use dumpectorist.Prelude.Text.{◌<>◌, strip, is_blank, take_chars}
use dumpectorist.Prelude.Time.{Datetime, is_aware, require_aware, before, add_micros}
use dumpectorist.Adapters.Payload.{AdapterState, AdapterPayload}
use dumpectorist.Runtime.Models.{
  RuntimeSchedule, ScheduledSourceJob, WorkerRunStatus, WorkerRunOutcome, worker_run_outcome,
}

-- `_next_run_at` and `_in_flight`
pub record Schedule : Type 0 where
  pub next_run_at : Dict String (Option Datetime)
  pub in_flight : List String

-- `set(names)` is as long as `names`.
unfoldable pub has_duplicate : List String → Bool
unfolding contains
has_duplicate [] = false
has_duplicate (x ∷ xs) = contains x xs || has_duplicate xs

module _ {F : Type 0} (micros_of : F → ℕ) where
  abbrev pub job_names : List (ScheduledSourceJob F) → List String
  job_names = map (λ j. j.name)

  abbrev pub unscheduled : List (ScheduledSourceJob F) → Dict String (Option Datetime)
  unscheduled [] = []
  unscheduled (j ∷ js) = (j.name, none) ∷ unscheduled js

  -- `RuntimeOrchestrator.__init__`
  unfoldable pub orchestrator : List (ScheduledSourceJob F) → Result Schedule
  orchestrator jobs = do
    raise_if (has_duplicate (job_names jobs)) (value_error "runtime job names must be unique")
    ok (record { next_run_at = unscheduled jobs; in_flight = [] })

  -- The claim itself. The job is in flight already when the next time overflows.
  unfoldable pub take_claim : ScheduledSourceJob F → Datetime → Schedule → Result Bool × Schedule
  take_claim j now s =
      let claimed = record s { in_flight = add j.name s.in_flight } in
      elim (add_micros now (micros_of j.schedule.interval_seconds)) [
        | err e ↦ (err e, claimed)
        | ok next ↦
            (ok true, record claimed { next_run_at = insert j.name (some next) s.next_run_at })
      ]

  -- `if scheduled_at > now or job.name in self._in_flight: continue`
  unfoldable pub claim_at :
      ScheduledSourceJob F → Datetime → Datetime → Schedule → Result Bool × Schedule
  claim_at j now at s = elim (before now at) [
    | err e ↦ (err e, s)
    | ok later ↦ if later || contains j.name s.in_flight then (ok false, s) else take_claim j now s
  ]

  -- The body of the loop of `run_due`: whether the job is due, and the state after it.
  unfoldable pub claim : ScheduledSourceJob F → Datetime → Schedule → Result Bool × Schedule
  claim j now s = elim (lookup j.name s.next_run_at) [
    | none ↦ (err (record { kind = "KeyError"; message = j.name }), s)
    | some scheduled ↦ elim scheduled [
      | some at ↦ claim_at j now at s
      | none ↦ elim (add_micros now (micros_of j.schedule.initial_delay_seconds)) [
        | err e ↦ (err e, s)
        | ok at ↦
            claim_at j now at (record s { next_run_at = insert j.name (some at) s.next_run_at })
      ]
    ]
  ]

  abbrev pub due_with :
      ScheduledSourceJob F
      → Bool
      → Result (List (ScheduledSourceJob F))
      → Result (List (ScheduledSourceJob F))
  due_with j true (ok due) = ok (j ∷ due)
  due_with j false (ok due) = ok due
  due_with j b (err e) = err e

  abbrev pub joined :
      ScheduledSourceJob F
      → Result Bool × Schedule
      → Result (List (ScheduledSourceJob F)) × Schedule
      → Result (List (ScheduledSourceJob F)) × Schedule
  joined j (err e, s) rest = (err e, s)
  joined j (ok due, s) rest = (due_with j due rest.0, rest.1)

  -- The loop of `run_due` under the lock: the jobs that are due, and the state after it.
  unfoldable pub claim_all :
      Datetime
      → List (ScheduledSourceJob F)
      → Schedule
      → Result (List (ScheduledSourceJob F)) × Schedule
  claim_all now [] s = (ok [], s)
  claim_all now (j ∷ js) s = joined j (claim j now s) (claim_all now js (claim j now s).1)

  -- `run_due` up to its `gather`.
  unfoldable pub claim_due :
      Datetime
      → List (ScheduledSourceJob F)
      → Schedule
      → Result (List (ScheduledSourceJob F)) × Schedule
  claim_due now jobs s = elim (require_aware now "now") [
    | err e ↦ (err e, s)
    | ok _ ↦ claim_all now jobs s
  ]

-- The `finally` of `_run_job`.
unfoldable pub release : String → Schedule → Schedule
release name s = record s { in_flight = discard name s.in_flight }

-- `_error_message`
unfoldable pub error_message : Error → String
error_message e =
    let detail = strip e.message in
    if is_blank detail then e.kind else take_chars 500 (e.kind <> ": " <> detail)

-- `_status_for_payload`
unfoldable pub status_for_payload : AdapterState → WorkerRunStatus
status_for_payload AdapterState.ok = WorkerRunStatus.succeeded
status_for_payload AdapterState.degraded = WorkerRunStatus.degraded
status_for_payload AdapterState.down = WorkerRunStatus.failed

-- `_clock_not_before`, of what the clock answers.
unfoldable pub clock_not_before : Result Datetime → Datetime → Result Datetime
clock_not_before reading fallback = do
  value ← reading
  raise_if (not (is_aware value))
      (value_error "runtime clock must return a timezone-aware datetime")
  early ← before value fallback
  ok (if early then fallback else value)

-- `_safe_clock_not_before`
unfoldable pub safe_clock_not_before : Result Datetime → Datetime → Datetime
safe_clock_not_before reading fallback = elim (clock_not_before reading fallback) [
  | ok value ↦ value
  | err e ↦ fallback
]

-- What ends the wait for `job.adapter.load()`.
pub data Load (P : Type 0) : Type 0 where
  loaded : AdapterPayload P → Load P
  timed_out : Load P
  raised : Error → Load P

-- The world's answers in one run: the clock at each place that reads it, the adapter and the store.
pub record Answers (P : Type 0) : Type 0 where
  pub started : Result Datetime
  pub load : Load P
  pub finished : Result Datetime
  pub finished_late : Result Datetime
  pub stored_payload : Result (Unit {0})
  pub stored_failure : Result (Unit {0})
  pub persisted : Result Datetime

module _ {F P : Type 0} (j : ScheduledSourceJob F) (a : Answers P) where
  -- `_validate_payload`; the payload's type is the type's.
  unfoldable pub validate_payload : AdapterPayload P → Result (Unit {0})
  validate_payload p = do
    raise_if (not (str_eq (strip p.name) (strip j.adapter_name)))
        (value_error "adapter payload name mismatch")
    raise_if (not (str_eq (strip p.health.name) (strip j.adapter_name)))
        (value_error "adapter health name mismatch")

  -- `_persist_payload` and `_persist_failure`: the outcome, or that the store failed.
  unfoldable pub persist :
      Result (Unit {0}) → Option AdapterState → WorkerRunOutcome → Result WorkerRunOutcome
  persist (ok _) state outcome = ok outcome
  persist (err e) state outcome = worker_run_outcome (record {
    job_name = j.name;
    kind = j.kind;
    status = WorkerRunStatus.persistence_failed;
    started_at = outcome.started_at;
    finished_at = safe_clock_not_before a.persisted outcome.finished_at;
    adapter_state = state;
    message = error_message e;
  })

  -- An `except` branch of `_run_job`.
  unfoldable pub run_failed : WorkerRunStatus → String → Datetime → Result WorkerRunOutcome
  run_failed status message started_at = do
    outcome ← worker_run_outcome (record {
      job_name = j.name;
      kind = j.kind;
      status = status;
      started_at = started_at;
      finished_at = safe_clock_not_before a.finished_late started_at;
      adapter_state = some AdapterState.down;
      message = message;
    })
    persist a.stored_failure (some AdapterState.down) outcome

  -- `except TimeoutError` and `except Exception`. No subclass of `TimeoutError` is told apart by its
  -- name, so an error of one counts among the others here.
  unfoldable pub run_caught : Error → Datetime → Result WorkerRunOutcome
  run_caught e started_at =
      if str_eq e.kind "TimeoutError"
      then run_failed WorkerRunStatus.timed_out "source load timed out" started_at
      else run_failed WorkerRunStatus.failed (error_message e) started_at

  -- The rest of the inner `try` after a load that returned.
  unfoldable pub run_loaded : AdapterPayload P → Datetime → Result WorkerRunOutcome
  run_loaded p started_at = do
    validate_payload p
    outcome ← worker_run_outcome (record {
      job_name = j.name;
      kind = j.kind;
      status = status_for_payload p.health.state;
      started_at = started_at;
      finished_at = safe_clock_not_before a.finished started_at;
      adapter_state = some p.health.state;
      message = p.health.message;
    })
    persist a.stored_payload (some p.health.state) outcome

  abbrev pub or_failed : Result WorkerRunOutcome → Datetime → Result WorkerRunOutcome
  or_failed (ok o) started_at = ok o
  or_failed (err e) started_at = run_caught e started_at

  -- What follows the wait for the load.
  unfoldable pub run_started : Load P → Datetime → Result WorkerRunOutcome
  run_started Load.timed_out at = run_failed WorkerRunStatus.timed_out "source load timed out" at
  run_started (Load.raised e) at = run_caught e at
  run_started (Load.loaded p) at = or_failed (run_loaded p at) at

  -- `_run_job`, but for its `finally`.
  unfoldable pub run_job : Datetime → Result WorkerRunOutcome
  run_job scheduled_now = elim (clock_not_before a.started scheduled_now) [
    | ok started_at ↦ run_started a.load started_at
    | err e ↦ run_caught e scheduled_now
  ]
