-- ===== src/Runtime/Scheduler/Jobs.antt =====
-- app/runtime/scheduler.py: what a run of one job returns, whatever the clock, the adapter and the
-- store answer.
use dumpectorist.Prelude.{
  str_eq, Bool-cases, Bool, true, false, ◌≡◌, ◌≤◌, String, Option, some, arith, refl, ap, ◌∙◌, inl,
  inr,
}
use dumpectorist.Prelude.Result.{Error, Result, ok, err, is_ok, Result-cases}
use dumpectorist.Prelude.Text.{strip, is_blank}
use dumpectorist.Prelude.Time.{Datetime, is_aware, micros}
use dumpectorist.Adapters.Payload.{AdapterState, AdapterPayload}
use dumpectorist.Runtime.Models.{
  ScheduledSourceJob, WorkerRunStatus, WorkerRunOutcome, worker_run_outcome,
  completed_without_failure,
}
use dumpectorist.Runtime.Scheduler.{
  Load, Answers, status_for_payload, clock_not_before, safe_clock_not_before, error_message,
  validate_payload, persist, run_failed, run_caught, run_loaded, or_failed, run_started, run_job,
}

clock-after :
    (r : Result Datetime) (fallback : Datetime) {t : Datetime}
    → is_aware fallback ≡ true
    → clock_not_before r fallback ≡ ok t
    → (is_aware t ≡ true) × (micros fallback ≤ micros t)
unfolding clock_not_before
clock-after r fallback aware h = ground arith

safe_clock-after :
    (r : Result Datetime) (fallback : Datetime)
    → is_aware fallback ≡ true
    → (is_aware (safe_clock_not_before r fallback) ≡ true)
      × (micros fallback ≤ micros (safe_clock_not_before r fallback))
unfolding safe_clock_not_before clock_not_before
safe_clock-after r fallback aware = ground arith

outcome-ok :
    (o : WorkerRunOutcome)
    → is_blank (strip o.job_name) ≡ false
    → is_aware o.started_at ≡ true
    → is_aware o.finished_at ≡ true
    → micros o.started_at ≤ micros o.finished_at
    → worker_run_outcome o ≡ ok o
unfolding worker_run_outcome
outcome-ok o named started finished forward = ground arith

abbrev completed_status : WorkerRunStatus → Bool
completed_status WorkerRunStatus.succeeded = true
completed_status WorkerRunStatus.degraded = true
completed_status _ = false

module _ {F P : Type 0} (j : ScheduledSourceJob F) (a : Answers P) where
  -- The load came back, is the adapter's own, and was stored.
  pub record IsGood (s : WorkerRunStatus) : Type 0 where
    pub payload : AdapterPayload P
    pub load : a.load ≡ Load.loaded payload
    pub valid : validate_payload j a payload ≡ ok tt
    pub stored : is_ok a.stored_payload ≡ true
    pub status : s ≡ status_for_payload payload.health.state

  record IsTimed (at : Datetime) (o : WorkerRunOutcome) : Type 0 where
    name : o.job_name ≡ j.name
    started : o.started_at ≡ at
    started_aware : is_aware at ≡ true
    finished_aware : is_aware o.finished_at ≡ true
    forward : micros at ≤ micros o.finished_at

  -- What is known of the outcome of a run that began at `at`.
  pub record IsRun (at : Datetime) (o : WorkerRunOutcome) : Type 0 where
    pub name : o.job_name ≡ j.name
    pub started : o.started_at ≡ at
    pub finished_aware : is_aware o.finished_at ≡ true
    pub forward : micros at ≤ micros o.finished_at
    pub good : completed_without_failure o ≡ true → IsGood o.status

  -- A run that gives an outcome.
  abbrev Runs : Datetime → Result WorkerRunOutcome → Type 0
  Runs at r = (o : WorkerRunOutcome) × (r ≡ ok o) × IsRun at o

  persist-Runs :
      (stored : Result (Unit {0})) (state : Option AdapterState) (at : Datetime)
      (o : WorkerRunOutcome)
      → is_blank (strip j.name) ≡ false
      → IsTimed at o
      → (is_ok stored ≡ true → completed_without_failure o ≡ true → IsGood o.status)
      → Runs at (persist j a stored state o)
  unfolding persist completed_without_failure
  persist-Runs (ok u) state at o named t g = (
    o,
    refl,
    record {
      name = t.name;
      started = t.started;
      finished_aware = t.finished_aware;
      forward = t.forward;
      good = g refl;
    },
  )
  persist-Runs (err e) state at o named t g =
      let later = safe_clock-after a.persisted o.finished_at t.finished_aware in
      (
        record {
          job_name = j.name;
          kind = j.kind;
          status = WorkerRunStatus.persistence_failed;
          started_at = o.started_at;
          finished_at = safe_clock_not_before a.persisted o.finished_at;
          adapter_state = state;
          message = error_message e;
        },
        outcome-ok _ named (ap is_aware t.started ∙ t.started_aware) later.0
            (grind (arith, t.started, t.forward, later.1)),
        record {
          name = refl;
          started = t.started;
          finished_aware = later.0;
          forward = omega (arith, t.forward, later.1);
          good = λ e. absurd (cc);
        },
      )

  -- The outcome made at the end of a load that failed, and of one that came back.
  failed-Runs :
      (s : WorkerRunStatus) (message : String) (at : Datetime)
      → is_blank (strip j.name) ≡ false
      → is_aware at ≡ true
      → completed_status s ≡ false
      → Runs at (run_failed j a s message at)
  unfolding run_failed completed_without_failure
  failed-Runs s message at named aware bad =
      let o : WorkerRunOutcome = record {
        job_name = j.name;
        kind = j.kind;
        status = s;
        started_at = at;
        finished_at = safe_clock_not_before a.finished_late at;
        adapter_state = some AdapterState.down;
        message = message;
      } in
      let later = safe_clock-after a.finished_late at aware in
      rw (outcome-ok o named aware later.0 later.1) (
        persist-Runs a.stored_failure (some AdapterState.down) at o named
          (record {
            name = refl;
            started = refl;
            started_aware = aware;
            finished_aware = later.0;
            forward = later.1;
          })
          (λ _ e. absurd (cc (bad, e))))

  caught-Runs :
      (e : Error) (at : Datetime)
      → is_blank (strip j.name) ≡ false
      → is_aware at ≡ true
      → Runs at (run_caught j a e at)
  unfolding run_caught
  caught-Runs e at named aware = elim (Bool-cases (str_eq e.kind "TimeoutError")) [
    | inl late ↦
        rw (run_caught, late)
          (failed-Runs WorkerRunStatus.timed_out "source load timed out" at named aware refl)
    | inr other ↦
        rw (run_caught, other)
          (failed-Runs WorkerRunStatus.failed (error_message e) at named aware refl)
  ]

  loaded-Runs :
      (p : AdapterPayload P) (at : Datetime)
      → is_blank (strip j.name) ≡ false
      → is_aware at ≡ true
      → a.load ≡ Load.loaded p
      → validate_payload j a p ≡ ok tt
      → Runs at (run_loaded j a p at)
  unfolding run_loaded
  loaded-Runs p at named aware load valid =
      let o : WorkerRunOutcome = record {
        job_name = j.name;
        kind = j.kind;
        status = status_for_payload p.health.state;
        started_at = at;
        finished_at = safe_clock_not_before a.finished at;
        adapter_state = some p.health.state;
        message = p.health.message;
      } in
      let later = safe_clock-after a.finished at aware in
      rw (valid, outcome-ok o named aware later.0 later.1)
        (persist-Runs a.stored_payload (some p.health.state) at o named
          (record {
            name = refl;
            started = refl;
            started_aware = aware;
            finished_aware = later.0;
            forward = later.1;
          })
          (λ kept _. record {
            payload = p;
            load = load;
            valid = valid;
            stored = kept;
            status = refl;
          }))

  invalid-Runs :
      (p : AdapterPayload P) (at : Datetime) (e : Error)
      → is_blank (strip j.name) ≡ false
      → is_aware at ≡ true
      → validate_payload j a p ≡ err e
      → Runs at (or_failed j a (run_loaded j a p at) at)
  unfolding run_loaded
  invalid-Runs p at e named aware wrong = rw wrong (caught-Runs e at named aware)

  started-Runs :
      (load : Load P) (at : Datetime)
      → a.load ≡ load
      → is_blank (strip j.name) ≡ false
      → is_aware at ≡ true
      → Runs at (run_started j a load at)
  unfolding run_started
  started-Runs Load.timed_out at h named aware =
      failed-Runs WorkerRunStatus.timed_out "source load timed out" at named aware refl
  started-Runs (Load.raised e) at h named aware = caught-Runs e at named aware
  started-Runs (Load.loaded p) at h named aware = elim (Result-cases (validate_payload j a p)) [
    | inl (_, valid) ↦
        let (o, ran, run) = loaded-Runs p at named aware h valid in (o, rw ran refl, run)
    | inr (e, wrong) ↦ invalid-Runs p at e named aware wrong
  ]

  -- A run of a job whose name is not blank, scheduled for an aware time, always gives an outcome,
  -- whatever the clock, the adapter and the store answer: it is the job's, it began at or after the
  -- scheduled time and ended at or after its beginning, and it is SUCCEEDED or DEGRADED only if the
  -- adapter's own payload came back in time and was stored, with the status of its health.
  pub run_job-returns :
      (now : Datetime)
      → is_aware now ≡ true
      → is_blank (strip j.name) ≡ false
      → (at : Datetime) × (micros now ≤ micros at)
        × (o : WorkerRunOutcome) × (run_job j a now ≡ ok o)
        × IsRun at o
  unfolding run_job
  run_job-returns now aware named = elim (Result-cases (clock_not_before a.started now)) [
    | inl (at, read) ↦
        let after = clock-after a.started now aware read in
        let (o, ran, run) = started-Runs a.load at refl named after.0 in
        (at, after.1, o, rw (run_job, read) ran, run)
    | inr (e, broken) ↦
        let (o, ran, run) = caught-Runs e now named aware in
        (now, omega arith, o, rw (run_job, broken) ran, run)
  ]
