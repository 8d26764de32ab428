-- ===== src/Runtime/Scheduler/Exclusion.antt =====
-- app/runtime/scheduler.py: the names that one pass of `run_due` claims.
use dumpectorist.Prelude.{
  Bool, true, false, ◌≡◌, ◌≢◌, ℕ, String, List, [], ◌∷◌, none, some, arith, refl, sym, ap, ◌∙◌, All,
  All-map, str_eq, eq_iff, Bool-cases, Option-cases, inl, inr,
}
use dumpectorist.Prelude.Dict.{string_key, contains, add, contains-add, lookup}
use dumpectorist.Prelude.Result.{Error, Result, ok, err, Result-cases, ok_injective}
use dumpectorist.Prelude.Time.{Datetime, before, add_micros, require_aware}
use dumpectorist.Runtime.Models.{ScheduledSourceJob}
use dumpectorist.Runtime.Scheduler.{
  Schedule, take_claim, claim_at, claim, joined, claim_all, claim_due, job_names,
}

abbrev pub IsInFlight : Schedule → String → Type 0
IsInFlight s x = contains x s.in_flight ≡ true

abbrev pub IsFree : Schedule → String → Type 0
IsFree s x = contains x s.in_flight ≡ false

-- No name stands in the list twice.
abbrev pub AreDifferent : List String → Type 0
AreDifferent [] = Unit
AreDifferent (x ∷ xs) = All (λ y. str_eq x y ≡ false) xs × AreDifferent xs

-- Whatever was in flight stays so.
abbrev pub Grows : Schedule → Schedule → Type 0
Grows s t = (x : String) → IsInFlight s x → IsInFlight t x

add-Grows :
    (x : String) (s : List String) (y : String) → contains y s ≡ true → contains y (add x s) ≡ true
add-Grows x s y h = ground (arith, contains-add x y s)

add_self : (x : String) (s : List String) → contains x (add x s) ≡ true
add_self x s = ground (arith, contains-add x x s, eq_iff x x)

module _ {F : Type 0} (micros_of : F → ℕ) where
  -- What a claim does to the names in flight: a due job was free and is in flight now.
  record IsClaim (x : String) (s : Schedule) (r : Result Bool × Schedule) : Type 0 where
    grows : Grows s r.1
    free : r.0 ≡ ok true → IsFree s x
    taken : r.0 ≡ ok true → IsInFlight r.1 x

  refused :
      (x : String) (s t : Schedule) (r : Result Bool)
      → t.in_flight ≡ s.in_flight
      → r ≢ ok true
      → IsClaim x s (r, t)
  refused x s t r same failed = record {
    grows = λ y h. ap (contains y) same ∙ h;
    free = λ e. absurd (failed e);
    taken = λ e. absurd (failed e);
  }

  take_claim-IsClaim :
      (j : ScheduledSourceJob F) (now : Datetime) (s : Schedule)
      → contains j.name s.in_flight ≡ false
      → IsClaim j.name s (take_claim micros_of j now s)
  unfolding take_claim
  take_claim-IsClaim j now s free = record {
    grows = λ x h. ground (arith, add-Grows j.name s.in_flight x h);
    free = λ e. free;
    taken = λ e. ground (arith, add_self j.name s.in_flight);
  }

  claim_at-IsClaim :
      (j : ScheduledSourceJob F) (now at : Datetime) (s : Schedule)
      → IsClaim j.name s (claim_at micros_of j now at s)
  unfolding claim_at
  claim_at-IsClaim j now at s = elim (Result-cases (before now at)) [
    | inr (e, broken) ↦ rw (claim_at, broken) (refused j.name s s (err e) refl (λ h. cc))
    | inl (true, late) ↦ rw (claim_at, late) (refused j.name s s (ok false) refl (λ h. cc))
    | inl (false, due) ↦ elim (Bool-cases (contains j.name s.in_flight)) [
      | inl busy ↦ rw (claim_at, due, busy) (refused j.name s s (ok false) refl (λ h. cc))
      | inr free ↦ rw (claim_at, due, free) (take_claim-IsClaim j now s free)
    ]
  ]

  -- A change of the next times alone does not show in a claim.
  rescheduled :
      (x : String) (s t : Schedule) (r : Result Bool × Schedule)
      → t.in_flight ≡ s.in_flight
      → IsClaim x t r
      → IsClaim x s r
  rescheduled x s t r same c = record {
    grows = λ y h. c.grows y (ap (contains y) same ∙ h);
    free = λ e. ap (contains x) (sym same) ∙ c.free e;
    taken = c.taken;
  }

  claim-IsClaim :
      (j : ScheduledSourceJob F) (now : Datetime) (s : Schedule)
      → IsClaim j.name s (claim micros_of j now s)
  unfolding claim
  claim-IsClaim j now s = elim (Option-cases (lookup j.name s.next_run_at)) [
    | inl unknown ↦ rw (claim, unknown) (refused j.name s s _ refl (λ h. cc))
    | inr (some at, known) ↦ rw (claim, known) (claim_at-IsClaim j now at s)
    | inr (none, known) ↦
        elim (Result-cases (add_micros now (micros_of j.schedule.initial_delay_seconds))) [
          | inr (e, broken) ↦ rw (claim, known, broken) (refused j.name s s (err e) refl (λ h. cc))
          | inl (at, made) ↦
              rw (claim, known, made) (rescheduled j.name s _ _ refl (claim_at-IsClaim j now at _))
        ]
  ]

  -- The claims of one pass: the due jobs differ, were free, and are in flight now.
  pub record AreClaims (s : Schedule) (r : Result (List (ScheduledSourceJob F)) × Schedule)
      : Type 0 where
    pub grows : Grows s r.1
    pub free :
        (due : List (ScheduledSourceJob F))
        → r.0 ≡ ok due
        → All (IsFree s) (job_names micros_of due)
    pub taken :
        (due : List (ScheduledSourceJob F))
        → r.0 ≡ ok due
        → All (IsInFlight r.1) (job_names micros_of due)
    pub different :
        (due : List (ScheduledSourceJob F)) → r.0 ≡ ok due → AreDifferent (job_names micros_of due)

  no_claims : (s t : Schedule) (e : Error) → Grows s t → AreClaims s (err e, t)
  no_claims s t e g = record {
    grows = g;
    free = λ d h. absurd (cc);
    taken = λ d h. absurd (cc);
    different = λ d h. absurd (cc);
  }

  IsFree-before : (s t : Schedule) → Grows s t → (x : String) → IsFree t x → IsFree s x
  IsFree-before s t g x h = elim (Bool-cases (contains x s.in_flight)) [
    | inl held ↦ absurd (cc (g x held, h))
    | inr free ↦ free
  ]

  taken-IsApart : (t : Schedule) (x y : String) → IsInFlight t x → IsFree t y → str_eq x y ≡ false
  taken-IsApart t x y held free = elim (Bool-cases (str_eq x y)) [
    | inl same ↦ absurd (cc (held, free, (eq_iff x y).0 same))
    | inr apart ↦ apart
  ]

  due-AreClaims :
      (j : ScheduledSourceJob F) (s t u : Schedule) (due : List (ScheduledSourceJob F))
      → IsClaim j.name s (ok true, t)
      → AreClaims t (ok due, u)
      → AreClaims s (ok (j ∷ due), u)
  due-AreClaims j s t u due c a =
      let names = job_names micros_of due in
      let later = a.free due refl in
      record {
        grows = λ x h. a.grows x (c.grows x h);
        free = λ d h.
            rw (← ok_injective h) (c.free refl, All-map names (IsFree-before s t c.grows) later);
        taken = λ d h. rw (← ok_injective h) (a.grows j.name (c.taken refl), a.taken due refl);
        different = λ d h. rw (← ok_injective h) (
          All-map names (λ y free. taken-IsApart t j.name y (c.taken refl) free) later,
          a.different due refl,
        );
      }

  idle-AreClaims :
      (x : String) (s t : Schedule) (r : Result (List (ScheduledSourceJob F)) × Schedule)
      → IsClaim x s (ok false, t)
      → AreClaims t r
      → AreClaims s r
  idle-AreClaims x s t r c a = record {
    grows = λ y h. a.grows y (c.grows y h);
    free = λ d h. All-map (job_names micros_of d) (IsFree-before s t c.grows) (a.free d h);
    taken = a.taken;
    different = a.different;
  }

  joined-AreClaims :
      (j : ScheduledSourceJob F) (s : Schedule) (r : Result Bool × Schedule)
      (rest : Result (List (ScheduledSourceJob F)) × Schedule)
      → IsClaim j.name s r
      → AreClaims r.1 rest
      → AreClaims s (joined micros_of j r rest)
  joined-AreClaims j s (err e, t) rest c a = no_claims s t e c.grows
  joined-AreClaims j s (ok true, t) (err e, u) c a =
      no_claims s u e (λ x h. a.grows x (c.grows x h))
  joined-AreClaims j s (ok true, t) (ok due, u) c a = due-AreClaims j s t u due c a
  joined-AreClaims j s (ok false, t) (err e, u) c a = idle-AreClaims j.name s t (err e, u) c a
  joined-AreClaims j s (ok false, t) (ok due, u) c a = idle-AreClaims j.name s t (ok due, u) c a

  claim_all-AreClaims :
      (now : Datetime) (js : List (ScheduledSourceJob F)) (s : Schedule)
      → AreClaims s (claim_all micros_of now js s)
  unfolding claim_all
  claim_all-AreClaims now [] s = record {
    grows = λ x h. h;
    free = λ d h. rw (← ok_injective h) tt;
    taken = λ d h. rw (← ok_injective h) tt;
    different = λ d h. rw (← ok_injective h) tt;
  }
  claim_all-AreClaims now (j ∷ js) s =
      joined-AreClaims j s (claim micros_of j now s) _ (claim-IsClaim j now s)
        (claim_all-AreClaims now js (claim micros_of j now s).1)

  pub claim_due-AreClaims :
      (now : Datetime) (js : List (ScheduledSourceJob F)) (s : Schedule)
      → AreClaims s (claim_due micros_of now js s)
  unfolding claim_due
  claim_due-AreClaims now js s = elim (Result-cases (require_aware now "now")) [
    | inr (e, bad) ↦ rw (claim_due, bad) (no_claims s s e (λ x h. h))
    | inl (_, good) ↦ rw (claim_due, good) (claim_all-AreClaims now js s)
  ]
