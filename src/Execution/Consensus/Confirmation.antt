-- ===== src/Execution/Consensus/Confirmation.antt =====
-- app/execution/consensus.py: when a report confirms an execution.
use dumpectorist.Prelude.{
  Bool, true, false, not, ◌≡◌, ◌↔◌, ℕ, String, List, [], Option, none, some, length, arith, refl,
  sym, ap, ◌∙◌, str_eq, Bool-cases, inl, inr, if◌then◌else◌,
}
use dumpectorist.Prelude.Int.{pos, ◌≤ℤ◌}
use dumpectorist.Prelude.Number.{Num}
use dumpectorist.Prelude.Result.{Result, >>=-eq-ok, ok_injective}
use dumpectorist.Prelude.Time.{Datetime, require_aware}
use dumpectorist.Adapters.Lbank.{LBankExecutionSnapshot, executable_mid_price}
use dumpectorist.Adapters.Benchmark.{BenchmarkSnapshot}
use dumpectorist.Execution.Validator.{
  LBankExecutionStatus, LBankExecutionValidation, validate_lbank_execution,
}
use dumpectorist.Execution.SymbolMap.{CrossExchangeSymbolMap}
use dumpectorist.Execution.Consensus.Measured.{IsMeasured, IsMeasured-of_summary}
use dumpectorist.Execution.Consensus.{
  ConsensusStatus, ConsensusRules, ConsensusSourceResult, CrossExchangeConsensusReport,
  PriceSummary, allows_execution_confirmation, source_results, used_prices, summarize,
  reported_results, consensus_status, field, assess, blocked_report, build_cross_exchange_consensus,
}

abbrev allows : ConsensusStatus → Bool
allows ConsensusStatus.ok = true
allows ConsensusStatus.warning = true
allows _ = false

last_chosen :
    {A : Type 0} (b c : Bool) (x y z : A) {o : A}
    → b ≡ true
    → c ≡ true
    → (if not b then x else if not c then y else z) ≡ o
    → z ≡ o
last_chosen b c x y z p q h = rw (p, q) at h

module _ {D F : Type 0} (dec : Num D) (flt : Num F) where
  -- The gates that the summary of the prices has to pass.
  abbrev WithinBounds : ConsensusRules D F → Option (PriceSummary dec flt) → Type 0
  WithinBounds rules none = ⊥
  WithinBounds rules (some p) =
      (dec.lt rules.max_benchmark_dispersion_pct p.dispersion ≡ false)
      × (dec.le rules.degraded_deviation_pct p.deviation ≡ false)
      × (dec.le rules.avoid_deviation_pct p.deviation ≡ false)

  status_allows :
      (rules : ConsensusRules D F) (v : LBankExecutionValidation F) (usable : ℕ)
      (summary : Option (PriceSummary dec flt)) {o : ConsensusStatus × List String}
      → consensus_status dec flt rules v usable summary ≡ Result.ok o
      → (allows o.0 ≡ true) ↔ (
          (v.status ≡ LBankExecutionStatus.ok)
          × (rules.minimum_fresh_sources ≤ℤ pos usable)
          × WithinBounds rules summary)
  unfolding consensus_status
  status_allows rules v usable none h = ground arith
  status_allows rules v usable (some p) h = ground arith

  -- What a run of `assess` has computed.
  record Assessed (lbank : LBankExecutionSnapshot D) (snapshots : List (BenchmarkSnapshot D))
      (m : CrossExchangeSymbolMap) (now : Datetime) (rules : ConsensusRules D F)
      (report : CrossExchangeConsensusReport D) : Type 0 where
    validation : LBankExecutionValidation F
    validated :
        validate_lbank_execution dec flt lbank now rules.lbank_execution ≡ Result.ok validation
    preliminary : List (ConsensusSourceResult D)
    looped : source_results dec flt rules m now [] snapshots ≡ Result.ok preliminary
    summary : Option (PriceSummary dec flt)
    summed :
        summarize dec flt (executable_mid_price dec lbank) (used_prices dec flt preliminary)
        ≡ Result.ok summary
    outcome : ConsensusStatus × List String
    decided :
        consensus_status dec flt rules validation report.usable_sources summary ≡ Result.ok outcome
    status : report.status ≡ outcome.0
    usable : report.usable_sources ≡ length (used_prices dec flt preliminary)
    deviation : report.lbank_deviation_pct ≡ field dec flt (λ p. p.deviation) summary
    dispersion : report.benchmark_dispersion_pct ≡ field dec flt (λ p. p.dispersion) summary

  assess-Assessed :
      (lbank : LBankExecutionSnapshot D) (snapshots : List (BenchmarkSnapshot D))
      (m : CrossExchangeSymbolMap) (now : Datetime) (rules : ConsensusRules D F)
      {report : CrossExchangeConsensusReport D}
      → assess dec flt lbank snapshots m now rules ≡ Result.ok report
      → Assessed lbank snapshots m now rules report
  unfolding assess
  assess-Assessed lbank snapshots m now rules h =
      let (v, validated, h₁) =
        >>=-eq-ok (validate_lbank_execution dec flt lbank now rules.lbank_execution) _ h in
      let (rs, looped, h₂) = >>=-eq-ok (source_results dec flt rules m now [] snapshots) _ h₁ in
      let (sm, summed, h₃) =
        >>=-eq-ok (summarize dec flt (executable_mid_price dec lbank) (used_prices dec flt rs)) _
          h₂ in
      let (reported, _, h₄) = >>=-eq-ok (reported_results dec flt sm rs) _ h₃ in
      let (o, decided, h₅) =
        >>=-eq-ok (consensus_status dec flt rules v (length (used_prices dec flt rs)) sm) _ h₄ in
      rw (← ok_injective h₅) (record {
        validation = v;
        validated = validated;
        preliminary = rs;
        looped = looped;
        summary = sm;
        summed = summed;
        outcome = o;
        decided = decided;
        status = refl;
        usable = refl;
        deviation = refl;
        dispersion = refl;
      })

  -- What stands behind a report that confirms.
  pub record IsConfirmed (lbank : LBankExecutionSnapshot D) (snapshots : List (BenchmarkSnapshot D))
      (m : CrossExchangeSymbolMap) (now : Datetime) (rules : ConsensusRules D F)
      (report : CrossExchangeConsensusReport D) : Type 0 where
    pub reliable : m.reliable ≡ true
    pub symbol : str_eq lbank.symbol m.lbank_symbol ≡ true
    pub validation : LBankExecutionValidation F
    pub validated :
        validate_lbank_execution dec flt lbank now rules.lbank_execution ≡ Result.ok validation
    pub executable : validation.status ≡ LBankExecutionStatus.ok
    pub enough : rules.minimum_fresh_sources ≤ℤ pos report.usable_sources
    pub deviation : D
    pub deviated : report.lbank_deviation_pct ≡ some deviation
    pub below_degraded : dec.le rules.degraded_deviation_pct deviation ≡ false
    pub below_avoid : dec.le rules.avoid_deviation_pct deviation ≡ false
    pub dispersion : D
    pub dispersed : report.benchmark_dispersion_pct ≡ some dispersion
    pub gathered : dec.lt rules.max_benchmark_dispersion_pct dispersion ≡ false
    pub measured : IsMeasured dec flt lbank snapshots m now rules report deviation dispersion

  module _ (lbank : LBankExecutionSnapshot D) (snapshots : List (BenchmarkSnapshot D))
      (m : CrossExchangeSymbolMap) (now : Datetime) (rules : ConsensusRules D F)
      (report : CrossExchangeConsensusReport D) where
    IsConfirmed-of-bounds :
        (results : List (ConsensusSourceResult D)) (validation : LBankExecutionValidation F)
        (summary : Option (PriceSummary dec flt))
        → m.reliable ≡ true
        → str_eq lbank.symbol m.lbank_symbol ≡ true
        → validate_lbank_execution dec flt lbank now rules.lbank_execution ≡ Result.ok validation
        → report.lbank_deviation_pct ≡ field dec flt (λ p. p.deviation) summary
        → report.benchmark_dispersion_pct ≡ field dec flt (λ p. p.dispersion) summary
        → source_results dec flt rules m now [] snapshots ≡ Result.ok results
        → report.usable_sources ≡ length (used_prices dec flt results)
        → summarize dec flt (executable_mid_price dec lbank) (used_prices dec flt results)
          ≡ Result.ok summary
        → (validation.status ≡ LBankExecutionStatus.ok)
          × (rules.minimum_fresh_sources ≤ℤ pos report.usable_sources)
          × WithinBounds rules summary
        → IsConfirmed lbank snapshots m now rules report
    IsConfirmed-of-bounds rs v none reliable symbol validated de di lo us su (_, _, b) = absurd b
    IsConfirmed-of-bounds rs v (some p) reliable symbol validated de di lo us su
          (ready, enough, b) =
        record {
          reliable = reliable;
          symbol = symbol;
          validation = v;
          validated = validated;
          executable = ready;
          enough = enough;
          deviation = p.deviation;
          deviated = de;
          below_degraded = b.1;
          below_avoid = b.2;
          dispersion = p.dispersion;
          dispersed = di;
          gathered = b.0;
          measured = IsMeasured-of_summary dec flt lbank snapshots m now rules report rs lo us su;
        }

    bounds-of-IsConfirmed :
        (validation : LBankExecutionValidation F) (summary : Option (PriceSummary dec flt))
        → validate_lbank_execution dec flt lbank now rules.lbank_execution ≡ Result.ok validation
        → report.lbank_deviation_pct ≡ field dec flt (λ p. p.deviation) summary
        → report.benchmark_dispersion_pct ≡ field dec flt (λ p. p.dispersion) summary
        → IsConfirmed lbank snapshots m now rules report
        → (validation.status ≡ LBankExecutionStatus.ok)
          × (rules.minimum_fresh_sources ≤ℤ pos report.usable_sources)
          × WithinBounds rules summary
    bounds-of-IsConfirmed v none validated de di c = absurd (cc (c.deviated, de))
    bounds-of-IsConfirmed v (some p) validated de di c = ground (arith, c.validated)

    assessed_iff :
        m.reliable ≡ true
        → str_eq lbank.symbol m.lbank_symbol ≡ true
        → assess dec flt lbank snapshots m now rules ≡ Result.ok report
        → (allows report.status ≡ true) ↔ IsConfirmed lbank snapshots m now rules report
    assessed_iff reliable symbol h =
        let a = assess-Assessed lbank snapshots m now rules h in
        let gates = status_allows rules a.validation report.usable_sources a.summary a.decided in
        (
          λ e.
              IsConfirmed-of-bounds a.preliminary a.validation a.summary reliable symbol a.validated
                a.deviation a.dispersion a.looped a.usable a.summed
                (gates.0 (ap allows (sym a.status) ∙ e)),
          λ c.
              ap allows a.status
              ∙ gates.1 (
                  bounds-of-IsConfirmed a.validation a.summary a.validated a.deviation a.dispersion
                    c),
        )

    blocked_iff :
        (m.reliable ≡ true → str_eq lbank.symbol m.lbank_symbol ≡ true → ⊥)
        → allows report.status ≡ false
        → (allows report.status ≡ true) ↔ IsConfirmed lbank snapshots m now rules report
    blocked_iff wrong no_go = (λ e. absurd (cc), λ c. absurd (wrong c.reliable c.symbol))

    -- A report confirms execution exactly when the symbol map is reliable and names the LBank
    -- symbol, the LBank validation is OK, there are at least the minimum of usable sources, the
    -- dispersion is not above its limit, and the deviation of LBank is below the degraded and the
    -- avoid thresholds. Of such a report, the usable sources are the snapshots that are counted (the
    -- source is new, the symbol is the mapped one, the health is OK), and the deviation and the
    -- dispersion are those of the counted prices, relative to their median.
    pub allows_iff :
        build_cross_exchange_consensus dec flt lbank snapshots m now rules ≡ Result.ok report
        → (allows_execution_confirmation report ≡ true)
          ↔ IsConfirmed lbank snapshots m now rules report
    unfolding build_cross_exchange_consensus allows_execution_confirmation blocked_report
    allows_iff h =
        let aware = >>=-eq-ok (require_aware now "now") _ h in
        elim (Bool-cases m.reliable) [
          | inr unreliable ↦ blocked_iff (λ r _. cc) (ground arith)
          | inl reliable ↦ elim (Bool-cases (str_eq lbank.symbol m.lbank_symbol)) [
            | inr other ↦ blocked_iff (λ _ e. cc) (ground arith)
            | inl same ↦ assessed_iff reliable same (
                last_chosen m.reliable (str_eq lbank.symbol m.lbank_symbol) _ _
                  (assess dec flt lbank snapshots m now rules) reliable same aware.2)
          ]
        ]
