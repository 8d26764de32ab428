-- ===== src/Signals/Assembly/Grounds.antt =====
-- app/signals/service.py: what the gates on the request itself stand for: discovery, symbols and the
-- evidence of the higher timeframes.
use dumpectorist.Prelude.{
  true, false, ◌≡◌, ◌≢◌, ◌⊎◌, [], length, is_empty, eq_iff, arith, refl, Bool-cases, inl, inr, ap,
  ◌∙◌,
}
use dumpectorist.Prelude.Int.{ℤ, pos, ◌≤ℤ◌}
use dumpectorist.Prelude.Number.{Num}
use dumpectorist.Prelude.Result.{ok, >>=-eq-ok, ok_injective}
use dumpectorist.Prelude.Text.{strip}
use dumpectorist.Prelude.Time.{Datetime, subtract}
use dumpectorist.Adapters.Benchmark.{age_seconds}
use dumpectorist.Signals.Models.{
  SignalAssemblyStatus, SignalAssemblyRules, SignalAssemblyRequest, passed,
}
use dumpectorist.Signals.Gates.{
  Verdict, discovery_gate, symbol_mismatches, symbol_gate, higher_timeframe_gate, evidence_verdict,
  missing_damage, evidence_degraded, evidence_age,
}
use dumpectorist.Signals.Assembly.{is_fail}

module _ {D F : Type 0} (flt : Num F) (request : SignalAssemblyRequest D F) (now : Datetime)
    (rules : SignalAssemblyRules D F) where
  -- The time from the observation of the evidence to now.
  pub record IsTimely : Type 0 where
    pub micros : ℤ
    pub elapsed : subtract now request.higher_timeframe.observed_at ≡ ok micros
    pub not_future :
        flt.lt
          (flt.div (flt.int_div micros (pos 1_000_000)) (flt.lit 60 0))
          (flt.neg (flt.int_div (pos 1) (pos 60)))
        ≡ false
    pub not_stale :
        flt.lt rules.max_structure_age_minutes
          (flt.div (flt.int_div micros (pos 1_000_000)) (flt.lit 60 0))
        ≡ false

  abbrev pub IsDamaged : Type 0
  IsDamaged =
      (request.higher_timeframe.daily_damaged ≡ true)
      × (request.higher_timeframe.four_hour_damaged ≡ true)
      × IsTimely

  -- Every part of the request is about its symbol.
  abbrev pub IsAligned : Type 0
  IsAligned =
      (request.symbol_map.canonical_symbol ≡ request.symbol)
      × (request.higher_timeframe.symbol ≡ request.symbol)
      × (request.structure_input.symbol ≡ request.symbol)
      × (strip request.plan_request.symbol ≡ request.symbol)
      × (request.lbank_snapshot.symbol ≡ request.symbol_map.lbank_symbol)

  pub record IsGrounded : Type 0 where
    pub discovered : pos (length request.discovery_records) ≤ℤ rules.max_discovery_records
    pub aligned : IsAligned
    pub damaged : IsDamaged

  IsTimely-of_age :
      {age : F}
      → evidence_age flt request now ≡ ok age
      → evidence_degraded flt rules age ≡ []
      → IsTimely
  unfolding evidence_age evidence_degraded age_seconds
  IsTimely-of_age {age} h e =
      let (seconds, taken, made) =
        >>=-eq-ok (age_seconds flt now request.higher_timeframe.observed_at) _ h in
      let (micros, passed, done) =
        >>=-eq-ok (subtract now request.higher_timeframe.observed_at) _ taken in
      let is_age : flt.div (flt.int_div micros (pos 1_000_000)) (flt.lit 60 0) ≡ age =
        ap (λ s. flt.div s (flt.lit 60 0)) (ok_injective done) ∙ ok_injective made in
      record {
        micros = micros;
        elapsed = passed;
        not_future = rw is_age (ground arith);
        not_stale = rw is_age (ground arith);
      }

  evidence-nil :
      (gate : Verdict × SignalAssemblyStatus) (age : F)
      → evidence_verdict flt
          (evidence_degraded flt rules age)
          (missing_damage flt request)
          age
          request.higher_timeframe.reasons
        ≡ gate
      → ((passed gate.0.0 ≡ true)
          × (request.higher_timeframe.daily_damaged ≡ true)
          × (request.higher_timeframe.four_hour_damaged ≡ true)
          × (evidence_degraded flt rules age ≡ []))
        ⊎ ((is_fail gate.0.0 ≡ true)
            × (passed gate.0.0 ≡ false)
            × (gate.1 ≢ SignalAssemblyStatus.short_ready))
  unfolding evidence_verdict missing_damage evidence_degraded
  evidence-nil gate age h = rw (← h) (ground arith)

  pub timeframe_verdict :
      (gate : Verdict × SignalAssemblyStatus)
      → higher_timeframe_gate flt request now rules ≡ ok gate
      → ((passed gate.0.0 ≡ true) × IsDamaged)
        ⊎ ((is_fail gate.0.0 ≡ true)
            × (passed gate.0.0 ≡ false)
            × (gate.1 ≢ SignalAssemblyStatus.short_ready))
  unfolding higher_timeframe_gate
  timeframe_verdict gate h =
      let (age, aged, done) = >>=-eq-ok (evidence_age flt request now) _ h in
      elim (evidence-nil gate age (ok_injective done)) [
        | inl (good, daily, four_hour, clean) ↦
            inl (good, (daily, four_hour, IsTimely-of_age aged clean))
        | inr bad ↦ inr bad
      ]

  pub discovery_verdict :
      (is_fail (discovery_gate request rules).0 ≡ true)
      ⊎ ((is_fail (discovery_gate request rules).0 ≡ false)
          × (passed (discovery_gate request rules).0 ≡ true)
          × (pos (length request.discovery_records) ≤ℤ rules.max_discovery_records))
  unfolding discovery_gate
  discovery_verdict = ground arith

  mismatches-nil : symbol_mismatches request ≡ [] → IsAligned
  unfolding symbol_mismatches
  mismatches-nil h = (
    (eq_iff _ _).0 (ground arith),
    (eq_iff _ _).0 (ground arith),
    (eq_iff _ _).0 (ground arith),
    (eq_iff _ _).0 (ground arith),
    (eq_iff _ _).0 (ground arith),
  )

  pub symbol_verdict :
      ((passed (symbol_gate request).0 ≡ true) × IsAligned)
      ⊎ ((passed (symbol_gate request).0 ≡ false) × (is_fail (symbol_gate request).0 ≡ true))
  unfolding symbol_gate
  symbol_verdict = elim (Bool-cases (is_empty (symbol_mismatches request))) [
    | inl none_left ↦ inl (rw none_left refl, mismatches-nil (ground arith))
    | inr some_left ↦ inr (rw some_left (refl, refl))
  ]
