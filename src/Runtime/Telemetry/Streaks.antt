-- ===== src/Runtime/Telemetry/Streaks.antt =====
-- app/runtime/telemetry.py against the history of outcomes, newest first.
use dumpectorist.Prelude.{
  Bool, true, false, ℕ, ◌+◌, ◌≡◌, refl, ap, ◌∙◌, String, Option, none, some, List, [], ◌∷◌, ◌++◌,
  length, ltb, ◌==◌, ◌&&◌, arith, if◌then◌else◌, str_eq, eq_iff, All, Bool-cases, inl, inr, ◌≤◌,
}
use mathlib.Core.List.{append-nil, append_assoc}
use dumpectorist.Prelude.Dict.{string_key, lookup, get_or, get_or-insert, lookup-insert}
use dumpectorist.Prelude.Result.{ok}
use dumpectorist.Prelude.Text.{strip, is_blank}
use dumpectorist.Runtime.Models.{WorkerRunStatus, WorkerRunOutcome}
use dumpectorist.Runtime.Telemetry.{
  is_failure, same_status, status_key, same_status_iff, RuntimeAlert, runtime_alert, RuntimeMetrics,
  no_metrics, failure_count, count_outcome, alert_for, reaches, observe_from, observe,
}

-- How many of the job's most recent outcomes are failures, without a break.
unfoldable pub streak : String → List WorkerRunOutcome → ℕ
streak job [] = 0
streak job (o ∷ older) =
    let before = streak job older in
    if str_eq o.job_name job then if is_failure o.status then before + 1 else 0 else before

unfoldable pub count_status : WorkerRunStatus → List WorkerRunOutcome → ℕ
count_status s [] = 0
count_status s (o ∷ older) =
    let before = count_status s older in if same_status o.status s then before + 1 else before

unfoldable pub latest : String → List WorkerRunOutcome → Option WorkerRunStatus
latest job [] = none
latest job (o ∷ older) =
    let before = latest job older in if str_eq o.job_name job then some o.status else before

-- The metrics say what the history says.
pub record Describes (m : RuntimeMetrics) (history : List WorkerRunOutcome) : Type 0 where
  pub runs : m.total_runs ≡ length history
  pub counts : (s : WorkerRunStatus) → get_or s 0 m.status_counts ≡ count_status s history
  pub streaks : (job : String) → get_or job 0 m.consecutive_failures ≡ streak job history
  pub last : (job : String) → lookup job m.last_status ≡ latest job history

pub no_metrics-Describes : Describes no_metrics []
unfolding get_or lookup count_status streak latest
no_metrics-Describes = record {
  runs = refl;
  counts = λ s. refl;
  streaks = λ job. refl;
  last = λ job. refl;
}

count_outcome-Describes :
    (m : RuntimeMetrics) (o : WorkerRunOutcome) (history : List WorkerRunOutcome)
    → Describes m history
    → Describes (count_outcome m o) (o ∷ history)
unfolding count_outcome count_status streak latest
count_outcome-Describes m o history d = record {
  runs = omega (arith, d.runs);
  counts = λ s. ground (
    arith,
    d.counts s,
    d.counts o.status,
    same_status_iff o.status s,
    get_or-insert o.status s (get_or o.status 0 m.status_counts + 1) 0 m.status_counts,
  );
  streaks = λ job. ground (
    arith,
    d.streaks job,
    d.streaks o.job_name,
    eq_iff o.job_name job,
    get_or-insert o.job_name job (failure_count m o) 0 m.consecutive_failures,
  );
  last = λ job. ground (arith, d.last job, lookup-insert o.job_name job o.status m.last_status);
}

-- `history` with the outcomes of a batch put in front, in the order in which they came.
unfoldable pub extend : List WorkerRunOutcome → List WorkerRunOutcome → List WorkerRunOutcome
extend history [] = history
extend history (o ∷ os) = extend (o ∷ history) os

-- The failure that makes the job's streak exactly the threshold.
unfoldable pub is_due : ℕ → List WorkerRunOutcome → WorkerRunOutcome → Bool
is_due threshold history o = is_failure o.status && streak o.job_name (o ∷ history) == threshold

abbrev pub due_alert : List WorkerRunOutcome → WorkerRunOutcome → RuntimeAlert
due_alert history o = record {
  job_name = o.job_name;
  status = o.status;
  consecutive_failures = streak o.job_name (o ∷ history);
  message = o.message;
}

-- One alert for each such failure of the batch.
unfoldable pub due_alerts : ℕ → List WorkerRunOutcome → List WorkerRunOutcome → List RuntimeAlert
due_alerts threshold history [] = []
due_alerts threshold history (o ∷ os) =
    let rest = due_alerts threshold (o ∷ history) os in
    if is_due threshold history o then due_alert history o ∷ rest else rest

-- The outcomes' constructor refuses a blank job name.
abbrev pub IsNamed : WorkerRunOutcome → Type 0
IsNamed o = is_blank (strip o.job_name) ≡ false

failure_count-streak :
    (m : RuntimeMetrics) (o : WorkerRunOutcome) (history : List WorkerRunOutcome)
    → Describes m history
    → failure_count m o ≡ streak o.job_name (o ∷ history)
unfolding failure_count streak
failure_count-streak m o history d =
    ground (arith, d.streaks o.job_name, eq_iff o.job_name o.job_name)

runtime_alert_ok :
    (m : RuntimeMetrics) (o : WorkerRunOutcome)
    → IsNamed o
    → is_failure o.status ≡ true
    → runtime_alert (alert_for m o) ≡ ok (alert_for m o)
unfolding runtime_alert failure_count alert_for
runtime_alert_ok m o named h = ground arith

is_due-reaches :
    (threshold : ℕ) (m : RuntimeMetrics) (o : WorkerRunOutcome) (history : List WorkerRunOutcome)
    → Describes m history
    → is_due threshold history o ≡ reaches threshold m o
unfolding is_due reaches
is_due-reaches threshold m o history d = rw (← failure_count-streak m o history d) (ground arith)

due_alert-alert_for :
    (m : RuntimeMetrics) (o : WorkerRunOutcome) (history : List WorkerRunOutcome)
    → Describes m history
    → due_alert history o ≡ alert_for m o
unfolding alert_for
due_alert-alert_for m o history d = rw (← failure_count-streak m o history d)

reaches_failure :
    (threshold : ℕ) (m : RuntimeMetrics) (o : WorkerRunOutcome)
    → reaches threshold m o ≡ true
    → is_failure o.status ≡ true
unfolding reaches
reaches_failure threshold m o h = ground arith

module _ (threshold : ℕ) where
  observe_from_alert :
      (m : RuntimeMetrics) (alerts : List RuntimeAlert) (o : WorkerRunOutcome)
      (os : List WorkerRunOutcome)
      → IsNamed o
      → reaches threshold m o ≡ true
      → observe_from threshold m alerts (o ∷ os)
        ≡ observe_from threshold (count_outcome m o) (alerts ++ alert_for m o ∷ []) os
  unfolding observe_from
  observe_from_alert m alerts o os named due =
      rw (due, observe_from)
        (rw (runtime_alert_ok m o named (reaches_failure threshold m o due), observe_from))

  observe_from_calm :
      (m : RuntimeMetrics) (alerts : List RuntimeAlert) (o : WorkerRunOutcome)
      (os : List WorkerRunOutcome)
      → reaches threshold m o ≡ false
      → observe_from threshold m alerts (o ∷ os)
        ≡ observe_from threshold (count_outcome m o) alerts os
  unfolding observe_from
  observe_from_calm m alerts o os calm = rw (calm, observe_from)

  due_alerts_step :
      (m : RuntimeMetrics) (o : WorkerRunOutcome) (history os : List WorkerRunOutcome)
      → Describes m history
      → due_alerts threshold history (o ∷ os) ≡ (
          if reaches threshold m o
          then alert_for m o ∷ due_alerts threshold (o ∷ history) os
          else due_alerts threshold (o ∷ history) os)
  unfolding due_alerts
  due_alerts_step m o history os d =
      rw (is_due-reaches threshold m o history d, due_alert-alert_for m o history d)

  observe_from-due :
      (m : RuntimeMetrics) (history : List WorkerRunOutcome) (alerts : List RuntimeAlert)
      (os : List WorkerRunOutcome)
      → Describes m history
      → All IsNamed os
      → (observe_from threshold m alerts os).0 ≡ ok (alerts ++ due_alerts threshold history os)
  observe_from-due m history alerts [] d named = unfold observe_from due_alerts in rw append-nil
  observe_from-due m history alerts (o ∷ os) d named =
      let next = count_outcome-Describes m o history d in
      rw (due_alerts_step m o history os d) (elim (Bool-cases (reaches threshold m o)) [
        | inl due ↦
            rw (observe_from_alert m alerts o os named.0 due, due)
              (observe_from-due (count_outcome m o) (o ∷ history) (alerts ++ alert_for m o ∷ []) os
                  next named.1
                ∙ ap ok (
                    append_assoc alerts (alert_for m o ∷ [])
                      (due_alerts threshold (o ∷ history) os)))
        | inr calm ↦
            rw (observe_from_calm m alerts o os calm, calm)
              (observe_from-due (count_outcome m o) (o ∷ history) alerts os next named.1)
      ])

  observe_from-Describes :
      (m : RuntimeMetrics) (history : List WorkerRunOutcome) (alerts : List RuntimeAlert)
      (os : List WorkerRunOutcome)
      → Describes m history
      → All IsNamed os
      → Describes (observe_from threshold m alerts os).1 (extend history os)
  unfolding extend
  observe_from-Describes m history alerts [] d named = unfold observe_from in d
  observe_from-Describes m history alerts (o ∷ os) d named =
      let next = count_outcome-Describes m o history d in
      elim (Bool-cases (reaches threshold m o)) [
        | inl due ↦ rw (observe_from_alert m alerts o os named.0 due) (
            observe_from-Describes (count_outcome m o) (o ∷ history) (alerts ++ alert_for m o ∷ [])
              os next named.1)
        | inr calm ↦
            rw (observe_from_calm m alerts o os calm)
              (observe_from-Describes (count_outcome m o) (o ∷ history) alerts os next named.1)
      ]

-- Observing a batch of outcomes (with named jobs, and a threshold of at least one), after a history
-- that the metrics describe, raises nothing. It returns exactly one alert for each failure at which
-- the job's unbroken streak of failures is equal to the threshold, in order, and leaves metrics that
-- describe the history with the batch: total runs, runs by status, streaks and last states.
pub observe-Describes :
    (m : RuntimeMetrics) (history os : List WorkerRunOutcome) (threshold : ℕ)
    → 1 ≤ threshold
    → Describes m history
    → All IsNamed os
    → ((observe m os threshold).0 ≡ ok (due_alerts threshold history os))
      × Describes (observe m os threshold).1 (extend history os)
unfolding observe
observe-Describes m history os threshold h d named = elim (Bool-cases (ltb threshold 1)) [
  | inl small ↦ absurd (ground arith)
  | inr large ↦ rw large (
    observe_from-due threshold m history [] os d named,
    observe_from-Describes threshold m history [] os d named,
  )
]
