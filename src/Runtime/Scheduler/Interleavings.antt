-- ===== src/Runtime/Scheduler/Interleavings.antt =====
-- app/runtime/scheduler.py: the running jobs under any interleaving of ticks and ends of runs.
use dumpectorist.Prelude.{
  false, ◌≡◌, ℕ, String, List, [], ◌∷◌, ◌++◌, arith, refl, All, All-append, All-map, str_eq, eq_iff,
  Bool-cases, inl, inr,
}
use dumpectorist.Prelude.Dict.{string_key, contains-discard}
use dumpectorist.Prelude.Result.{Error, ok, err}
use dumpectorist.Prelude.Time.{Datetime}
use dumpectorist.Runtime.Models.{ScheduledSourceJob}
use dumpectorist.Runtime.Scheduler.{Schedule, orchestrator, claim_due, release, job_names}
use dumpectorist.Runtime.Scheduler.Exclusion.{
  IsInFlight, IsFree, AreDifferent, AreClaims, claim_due-AreClaims,
}

-- The jobs whose `_run_job` has begun and not ended, and the shared state.
pub record Situation : Type 0 where
  pub schedule : Schedule
  pub running : List String

-- The running jobs differ from one another, and each is in flight.
pub record IsExclusive (w : Situation) : Type 0 where
  pub different : AreDifferent w.running
  pub in_flight : All (IsInFlight w.schedule) w.running

-- What may happen next: a tick starts the due jobs, a tick raises, or a run ends.
pub data Step {F : Type 0} (micros_of : F → ℕ) (jobs : List (ScheduledSourceJob F))
    : Situation → Situation → Type 0 where
  tick :
      (now : Datetime) (w : Situation) (due : List (ScheduledSourceJob F)) (s : Schedule)
      → claim_due micros_of now jobs w.schedule ≡ (ok due, s)
      → Step micros_of jobs w
          (record { schedule = s; running = job_names micros_of due ++ w.running })
  tick_raises :
      (now : Datetime) (w : Situation) (e : Error) (s : Schedule)
      → claim_due micros_of now jobs w.schedule ≡ (err e, s)
      → Step micros_of jobs w (record { schedule = s; running = w.running })
  ends :
      (w : Situation) (x : String) (before after : List String)
      → w.running ≡ before ++ x ∷ after
      → Step micros_of jobs w
          (record { schedule = release x w.schedule; running = before ++ after })

pub data Reach {F : Type 0} (micros_of : F → ℕ) (jobs : List (ScheduledSourceJob F))
    : Situation → Type 0 where
  begin :
      (s : Schedule)
      → orchestrator micros_of jobs ≡ ok s
      → Reach micros_of jobs (record { schedule = s; running = [] })
  step :
      (w v : Situation) → Reach micros_of jobs w → Step micros_of jobs w v → Reach micros_of jobs v

module _ {ℓ} (P : String → Type ℓ) (x : String) (after : List String) where
  All-middle : (before : List String) → All P (before ++ x ∷ after) → P x
  All-middle [] h = h.0
  All-middle (b ∷ bs) h = All-middle bs h.1

  All-without : (before : List String) → All P (before ++ x ∷ after) → All P (before ++ after)
  All-without [] h = h.1
  All-without (b ∷ bs) h = (h.0, All-without bs h.1)

abbrev IsApart : String → String → Type 0
IsApart x y = str_eq x y ≡ false

IsApart-sym : (x y : String) → IsApart x y → IsApart y x
IsApart-sym x y h = ground (arith, eq_iff x y, eq_iff y x)

without-AreDifferent :
    (x : String) (before after : List String)
    → AreDifferent (before ++ x ∷ after)
    → AreDifferent (before ++ after) × All (IsApart x) (before ++ after)
without-AreDifferent x [] after h = (h.1, h.0)
without-AreDifferent x (b ∷ bs) after h =
    let (different, apart) = without-AreDifferent x bs after h.1 in
    (
      (All-without (IsApart b) x after bs h.0, different),
      (IsApart-sym b x (All-middle (IsApart b) x after bs h.0), apart),
    )

append-AreDifferent :
    (xs ys : List String)
    → AreDifferent xs
    → AreDifferent ys
    → All (λ x. All (IsApart x) ys) xs
    → AreDifferent (xs ++ ys)
append-AreDifferent [] ys hx hy h = hy
append-AreDifferent (x ∷ xs) ys hx hy h =
    (All-append (IsApart x) xs ys hx.0 h.0, append-AreDifferent xs ys hx.1 hy h.1)

free-IsApart : (s : Schedule) (x y : String) → IsFree s x → IsInFlight s y → IsApart x y
free-IsApart s x y free held = elim (Bool-cases (str_eq x y)) [
  | inl same ↦ absurd (cc (free, held, (eq_iff x y).0 same))
  | inr apart ↦ apart
]

release-IsInFlight :
    (s : Schedule) (x y : String) → IsApart x y → IsInFlight s y → IsInFlight (release x s) y
unfolding release
release-IsInFlight s x y apart held = ground (arith, contains-discard x y s.in_flight)

All-both {ℓ κ} :
    (P : String → Type ℓ) (Q : String → Type κ) (xs : List String)
    → All P xs
    → All Q xs
    → All (λ x. P x × Q x) xs
All-both P Q [] p q = tt
All-both P Q (x ∷ xs) p q = ((p.0, q.0), All-both P Q xs p.1 q.1)

module _ {F : Type 0} (micros_of : F → ℕ) (jobs : List (ScheduledSourceJob F)) where
  Step-IsExclusive : {w v : Situation} → IsExclusive w → Step micros_of jobs w v → IsExclusive v
  Step-IsExclusive i (Step.tick now w due s h) =
      let claims = claim_due-AreClaims micros_of now jobs w.schedule in
      let names = job_names micros_of due in
      let pass : AreClaims micros_of w.schedule (ok due, s) = rw h at claims in
      record {
        different = append-AreDifferent names w.running (pass.different due refl) i.different (
            All-map names
              (λ x free.
                All-map w.running (λ y held. free-IsApart w.schedule x y free held) i.in_flight)
              (pass.free due refl));
        in_flight =
            All-append (IsInFlight s) names w.running (pass.taken due refl)
              (All-map w.running pass.grows i.in_flight);
      }
  Step-IsExclusive i (Step.tick_raises now w e s h) =
      let claims = claim_due-AreClaims micros_of now jobs w.schedule in
      let pass : AreClaims micros_of w.schedule (err e, s) = rw h at claims in
      record { different = i.different; in_flight = All-map w.running pass.grows i.in_flight }
  Step-IsExclusive i (Step.ends w x before after parts) =
      let (different, apart) = without-AreDifferent x before after (rw parts at i.different) in
      let held = All-without (IsInFlight w.schedule) x after before (rw parts at i.in_flight) in
      record {
        different = different;
        in_flight =
            All-map (before ++ after) (λ y b. release-IsInFlight w.schedule x y b.0 b.1)
              (All-both (IsApart x) (IsInFlight w.schedule) (before ++ after) apart held);
      }

  -- After any sequence of ticks, ticks that raise and ends of runs, in any order, no job is running
  -- twice, and every running job is marked as in flight.
  pub Reach-IsExclusive : (w : Situation) → Reach micros_of jobs w → IsExclusive w
  Reach-IsExclusive w (Reach.begin s made) = record { different = tt; in_flight = tt }
  Reach-IsExclusive w (Reach.step u v p s) = Step-IsExclusive (Reach-IsExclusive u p) s
