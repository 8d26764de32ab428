-- ===== src/Examples/Runs.antt =====
-- Outcomes of two jobs: the second failure in a row raises an alert.
use dumpectorist.Prelude.{◌≡◌, String, List, [], ◌∷◌, none, arith, refl, All}
use dumpectorist.Prelude.Result.{ok}
use dumpectorist.Prelude.Text.{strip}
use dumpectorist.Runtime.Models.{SourceJobKind, WorkerRunStatus, WorkerRunOutcome}
use dumpectorist.Runtime.Telemetry.{no_metrics, observe}
use dumpectorist.Runtime.Telemetry.Streaks.{
  Describes, IsNamed, due_alerts, extend, no_metrics-Describes, observe-Describes,
}
use dumpectorist.Examples.Market.{at_second}

abbrev outcome_of : String → WorkerRunStatus → WorkerRunOutcome
outcome_of job status = record {
  job_name = job;
  kind = SourceJobKind.benchmark;
  status = status;
  started_at = at_second 1;
  finished_at = at_second 2;
  adapter_state = none;
  message = "";
}

abbrev batch : List WorkerRunOutcome
batch =
    outcome_of "bybit" WorkerRunStatus.failed
    ∷ outcome_of "gate" WorkerRunStatus.succeeded
    ∷ outcome_of "bybit" WorkerRunStatus.timed_out
    ∷ []

batch-IsNamed : All IsNamed batch
unfolding strip
batch-IsNamed = (refl, (refl, (refl, tt)))

observe-Describes_example :
    ((observe no_metrics batch 2).0 ≡ ok (due_alerts 2 [] batch))
    × Describes (observe no_metrics batch 2).1 (extend [] batch)
observe-Describes_example =
    observe-Describes no_metrics [] batch 2 (omega arith) no_metrics-Describes batch-IsNamed
