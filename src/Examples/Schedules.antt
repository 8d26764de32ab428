-- ===== src/Examples/Schedules.antt =====
-- Two jobs over three ticks: the second tick finds the first job still running.
use dumpectorist.Prelude.{
  Bool, true, false, ◌≡◌, ◌≤◌, ℕ, ◌*◌, String, List, [], ◌∷◌, ◌++◌, Option, none, some, arith, refl,
}
use dumpectorist.Prelude.Result.{Result, ok, err, is_ok, get_ok, get_ok-eq, value_error}
use dumpectorist.Prelude.Text.{strip, is_blank}
use dumpectorist.Prelude.Time.{Datetime, micros}
use dumpectorist.Adapters.Payload.{AdapterState}
use dumpectorist.Runtime.Models.{SourceJobKind, ScheduledSourceJob, WorkerRunOutcome}
use dumpectorist.Runtime.Scheduler.{
  Schedule, Load, Answers, orchestrator, claim_due, job_names, release, run_job,
}
use dumpectorist.Runtime.Scheduler.Jobs.{IsRun, run_job-returns}
use dumpectorist.Runtime.Scheduler.Interleavings.{
  Situation, IsExclusive, Step, Reach, Reach-IsExclusive,
}
use dumpectorist.Examples.Market.{at_second}

-- Seconds, in whole numbers.
abbrev seconds : ℕ → ℕ
seconds n = n * 1_000_000

abbrev job_of : String → ℕ → ScheduledSourceJob ℕ
job_of name interval = record {
  name = name;
  kind = SourceJobKind.benchmark;
  adapter_name = name;
  schedule = record { interval_seconds = interval; timeout_seconds = 5; initial_delay_seconds = 0 };
}

abbrev two_jobs : List (ScheduledSourceJob ℕ)
two_jobs = job_of "bybit" 10 ∷ job_of "gate" 30 ∷ []

two_jobs_start : is_ok (orchestrator seconds two_jobs) ≡ true
unfolding orchestrator dumpectorist.Runtime.Scheduler.has_duplicate
two_jobs_start = refl

abbrev schedule_0 : Schedule
schedule_0 = get_ok (orchestrator seconds two_jobs) two_jobs_start

abbrev situation_0 : Situation
situation_0 = record { schedule = schedule_0; running = [] }

abbrev started_by : Result (List (ScheduledSourceJob ℕ)) → List String → List String
started_by (ok due) running = job_names seconds due ++ running
started_by (err e) running = running

abbrev situation_of : Situation → Result (List (ScheduledSourceJob ℕ)) × Schedule → Situation
situation_of w r = record { schedule = r.1; running = started_by r.0 w.running }

-- What a tick at `now` leads to.
abbrev after_tick : Datetime → Situation → Situation
after_tick now w = situation_of w (claim_due seconds now two_jobs w.schedule)

tick_cases :
    (now : Datetime) (w : Situation) (r : Result (List (ScheduledSourceJob ℕ)) × Schedule)
    → claim_due seconds now two_jobs w.schedule ≡ r
    → Step seconds two_jobs w (situation_of w r)
tick_cases now w (ok due, s) h = Step.tick now w due s h
tick_cases now w (err e, s) h = Step.tick_raises now w e s h

tick_of : (now : Datetime) (w : Situation) → Step seconds two_jobs w (after_tick now w)
tick_of now w = tick_cases now w (claim_due seconds now two_jobs w.schedule) refl

abbrev situation_1 : Situation
situation_1 = after_tick (at_second 0) situation_0

abbrev situation_2 : Situation
situation_2 = after_tick (at_second 20) situation_1

both_running : situation_1.running ≡ "bybit" ∷ "gate" ∷ []
unfolding claim_due orchestrator dumpectorist.Runtime.Scheduler.claim_all
    dumpectorist.Runtime.Scheduler.claim dumpectorist.Prelude.Dict.lookup
    dumpectorist.Runtime.Scheduler.has_duplicate dumpectorist.Runtime.Scheduler.claim_at
    dumpectorist.Runtime.Scheduler.take_claim dumpectorist.Prelude.Dict.insert
    dumpectorist.Prelude.Dict.add
both_running = refl

none_twice : situation_2.running ≡ "bybit" ∷ "gate" ∷ []
unfolding claim_due orchestrator dumpectorist.Runtime.Scheduler.claim_all
    dumpectorist.Runtime.Scheduler.claim dumpectorist.Prelude.Dict.lookup
    dumpectorist.Runtime.Scheduler.has_duplicate dumpectorist.Runtime.Scheduler.claim_at
    dumpectorist.Runtime.Scheduler.take_claim dumpectorist.Prelude.Dict.insert
    dumpectorist.Prelude.Dict.add
none_twice = refl

-- The run of the second job ends.
abbrev situation_3 : Situation
situation_3 = record { schedule = release "gate" situation_2.schedule; running = "bybit" ∷ [] }

abbrev situation_4 : Situation
situation_4 = after_tick (at_second 40) situation_3

third_reached : Reach seconds two_jobs situation_3
third_reached =
    Reach.step situation_2 situation_3
      (Reach.step situation_1 situation_2
        (Reach.step situation_0 situation_1
          (Reach.begin schedule_0 (get_ok-eq (orchestrator seconds two_jobs) two_jobs_start))
          (tick_of (at_second 0) situation_0))
        (tick_of (at_second 20) situation_1))
      (Step.ends situation_2 "gate" ("bybit" ∷ []) [] none_twice)

Reach-IsExclusive_example : IsExclusive situation_4
Reach-IsExclusive_example =
    Reach-IsExclusive seconds two_jobs situation_4
      (Reach.step situation_3 situation_4 third_reached (tick_of (at_second 40) situation_3))

-- A clock that goes back, a payload that arrives, and a store that fails.
abbrev answers : Answers ℕ
answers = record {
  started = ok (at_second 1);
  load = Load.loaded (record {
    name = "bybit";
    content = 7;
    health = record { name = "bybit"; state = AdapterState.ok; latency_ms = none; message = "" };
  });
  finished = ok (at_second 0);
  finished_late = err (value_error "no clock");
  stored_payload = err (value_error "disk is full");
  stored_failure = ok tt;
  persisted = ok (at_second 3);
}

bybit_named : is_blank (strip "bybit") ≡ false
unfolding strip
bybit_named = refl

run_job-returns_example :
    (at : Datetime) × (micros (at_second 0) ≤ micros at)
    × (o : WorkerRunOutcome) × (run_job (job_of "bybit" 10) answers (at_second 0) ≡ ok o)
    × IsRun (job_of "bybit" 10) answers at o
run_job-returns_example = run_job-returns (job_of "bybit" 10) answers (at_second 0) refl bybit_named
