-- ===== src/Examples/Assemblies.antt =====
-- An assembly in which every gate passes.
use dumpectorist.Prelude.{
  Bool, true, false, ◌≡◌, ◌≢◌, ◌⊎◌, ℕ, String, List, [], ◌∷◌, Option, none, some, arith, refl,
}
use dumpectorist.Prelude.Int.{ℤ}
use dumpectorist.Prelude.Fixed.{fixed}
use dumpectorist.Prelude.Result.{is_ok, get_ok, get_ok-eq}
use dumpectorist.Planning.{PlanStatus}
use dumpectorist.Lifecycle.{LifecycleState}
use dumpectorist.Signals.Models.{SignalAssemblyStatus, SignalAssemblyReport}
use dumpectorist.Signals.Assembly.{Evaluation, evaluate, assemble_signal}
use dumpectorist.Signals.Assembly.Outcome.{IsOutcome, evaluate-IsOutcome}
use dumpectorist.Signals.Assembly.Report.{assemble-status}
use dumpectorist.Signals.Assembly.Completed.{assemble-gates}
use dumpectorist.Signals.Gates.{gate_order}
use dumpectorist.Prelude.{map}
use dumpectorist.Examples.Market.{noon, breakdown, rules_of_assembly}

breakdown_evaluates : is_ok (evaluate fixed fixed (λ x. x) breakdown noon rules_of_assembly) ≡ true
unfolding fixed dumpectorist.Execution.Consensus.build_cross_exchange_consensus
    dumpectorist.Execution.Consensus.assess dumpectorist.Execution.Consensus.source_results
    dumpectorist.Execution.Consensus.source_result dumpectorist.Execution.Consensus.judge
    dumpectorist.Execution.Consensus.identity_reasons
    dumpectorist.Execution.Consensus.symbol_reasons dumpectorist.Execution.Consensus.used_prices
    dumpectorist.Execution.Consensus.summarize dumpectorist.Execution.Consensus.deviation_pct
    dumpectorist.Execution.Consensus.reported_results
    dumpectorist.Execution.Consensus.with_deviations
    dumpectorist.Execution.Consensus.consensus_status
    dumpectorist.Execution.Consensus.deviation_status
    dumpectorist.Execution.SymbolMap.expected_symbol dumpectorist.Execution.Statistics.median
    dumpectorist.Execution.Statistics.sorted dumpectorist.Execution.Statistics.place
    dumpectorist.Execution.Statistics.max_from dumpectorist.Execution.Statistics.min_from
    dumpectorist.Execution.Validator.validate_lbank_execution
    dumpectorist.Execution.Validator.degraded_reasons
    dumpectorist.Execution.Validator.pending_reasons dumpectorist.Execution.Validator.spread_invalid
    dumpectorist.Adapters.Benchmark.evaluate_benchmark_health
    dumpectorist.Adapters.Benchmark.age_seconds dumpectorist.Adapters.Benchmark.source_age
    dumpectorist.Adapters.Benchmark.is_future dumpectorist.Adapters.Benchmark.is_old
    dumpectorist.Adapters.Benchmark.stale_reasons dumpectorist.Adapters.Benchmark.degraded_reasons
    dumpectorist.Adapters.Lbank.executable_mid_price dumpectorist.Prelude.Dict.contains
    dumpectorist.Prelude.Dict.add dumpectorist.Prelude.Dict.lookup dumpectorist.Prelude.Dict.insert
    dumpectorist.Prelude.Int.◌*ℤ◌ dumpectorist.Prelude.Int.◌+ℤ◌ dumpectorist.Prelude.Int.◌-ℤ◌
    dumpectorist.Numbers.finite_float dumpectorist.Numbers.positive_finite_float
    dumpectorist.Structure.Analyzer.analyze_structure dumpectorist.Structure.Analyzer.classify_range
    dumpectorist.Structure.Analyzer.structure_snapshot dumpectorist.Setups.Classifier.is_actionable
    dumpectorist.Setups.Classifier.classify_state dumpectorist.Setups.Classifier.classify_snapshot
    dumpectorist.Flow.is_ready dumpectorist.Flow.missing_keys dumpectorist.Flow.run_flow
    dumpectorist.Planning.multiplier_out_of_range dumpectorist.Planning.optional_finite
    dumpectorist.Planning.plan_draft dumpectorist.Planning.held_plan
    dumpectorist.Planning.objective_of dumpectorist.Planning.ready_plan
    dumpectorist.Planning.build_plan dumpectorist.Lifecycle.is_active
    dumpectorist.Lifecycle.initial_state dumpectorist.Lifecycle.create_lifecycle
    dumpectorist.Signals.Gates.error_reason dumpectorist.Signals.Gates.source_names
    dumpectorist.Signals.Gates.evidence_verdict dumpectorist.Signals.Gates.discovery_gate
    dumpectorist.Signals.Gates.symbol_mismatches dumpectorist.Signals.Gates.symbol_gate
    dumpectorist.Signals.Gates.evidence_age dumpectorist.Signals.Gates.evidence_degraded
    dumpectorist.Signals.Gates.missing_damage dumpectorist.Signals.Gates.higher_timeframe_gate
    dumpectorist.Signals.Gates.entry_deviation_bps dumpectorist.Signals.Assembly.watch_status
    dumpectorist.Signals.Assembly.evaluate_lifecycle dumpectorist.Signals.Assembly.after_plan
    dumpectorist.Signals.Assembly.evaluate_entry dumpectorist.Signals.Assembly.after_consensus
    dumpectorist.Signals.Assembly.after_validation dumpectorist.Signals.Assembly.after_structure
    dumpectorist.Signals.Assembly.evaluate_timeframe dumpectorist.Signals.Assembly.evaluate
    dumpectorist.Execution.Consensus.allows_execution_confirmation dumpectorist.Prelude.Text.strip
breakdown_evaluates = refl

abbrev evaluation : Evaluation ℤ ℤ
evaluation =
    get_ok (evaluate fixed fixed (λ x. x) breakdown noon rules_of_assembly) breakdown_evaluates

evaluate-IsOutcome_example :
    IsOutcome fixed fixed (λ x. x) breakdown noon rules_of_assembly evaluation
evaluate-IsOutcome_example =
    evaluate-IsOutcome fixed fixed (λ x. x) breakdown noon rules_of_assembly
      (get_ok-eq (evaluate fixed fixed (λ x. x) breakdown noon rules_of_assembly)
        breakdown_evaluates)

breakdown_assembles :
    is_ok (assemble_signal fixed fixed (λ x. x) breakdown noon rules_of_assembly) ≡ true
unfolding fixed dumpectorist.Execution.Consensus.build_cross_exchange_consensus
    dumpectorist.Execution.Consensus.assess dumpectorist.Execution.Consensus.source_results
    dumpectorist.Execution.Consensus.source_result dumpectorist.Execution.Consensus.judge
    dumpectorist.Execution.Consensus.identity_reasons
    dumpectorist.Execution.Consensus.symbol_reasons dumpectorist.Execution.Consensus.used_prices
    dumpectorist.Execution.Consensus.summarize dumpectorist.Execution.Consensus.deviation_pct
    dumpectorist.Execution.Consensus.reported_results
    dumpectorist.Execution.Consensus.with_deviations
    dumpectorist.Execution.Consensus.consensus_status
    dumpectorist.Execution.Consensus.deviation_status
    dumpectorist.Execution.SymbolMap.expected_symbol dumpectorist.Execution.Statistics.median
    dumpectorist.Execution.Statistics.sorted dumpectorist.Execution.Statistics.place
    dumpectorist.Execution.Statistics.max_from dumpectorist.Execution.Statistics.min_from
    dumpectorist.Execution.Validator.validate_lbank_execution
    dumpectorist.Execution.Validator.degraded_reasons
    dumpectorist.Execution.Validator.pending_reasons dumpectorist.Execution.Validator.spread_invalid
    dumpectorist.Adapters.Benchmark.evaluate_benchmark_health
    dumpectorist.Adapters.Benchmark.age_seconds dumpectorist.Adapters.Benchmark.source_age
    dumpectorist.Adapters.Benchmark.is_future dumpectorist.Adapters.Benchmark.is_old
    dumpectorist.Adapters.Benchmark.stale_reasons dumpectorist.Adapters.Benchmark.degraded_reasons
    dumpectorist.Adapters.Lbank.executable_mid_price dumpectorist.Prelude.Dict.contains
    dumpectorist.Prelude.Dict.add dumpectorist.Prelude.Dict.lookup dumpectorist.Prelude.Dict.insert
    dumpectorist.Prelude.Int.◌*ℤ◌ dumpectorist.Prelude.Int.◌+ℤ◌ dumpectorist.Prelude.Int.◌-ℤ◌
    dumpectorist.Numbers.finite_float dumpectorist.Numbers.positive_finite_float
    dumpectorist.Structure.Analyzer.analyze_structure dumpectorist.Structure.Analyzer.classify_range
    dumpectorist.Structure.Analyzer.structure_snapshot dumpectorist.Setups.Classifier.is_actionable
    dumpectorist.Setups.Classifier.classify_state dumpectorist.Setups.Classifier.classify_snapshot
    dumpectorist.Flow.is_ready dumpectorist.Flow.missing_keys dumpectorist.Flow.run_flow
    dumpectorist.Planning.multiplier_out_of_range dumpectorist.Planning.optional_finite
    dumpectorist.Planning.plan_draft dumpectorist.Planning.held_plan
    dumpectorist.Planning.objective_of dumpectorist.Planning.ready_plan
    dumpectorist.Planning.build_plan dumpectorist.Lifecycle.is_active
    dumpectorist.Lifecycle.initial_state dumpectorist.Lifecycle.create_lifecycle
    dumpectorist.Signals.Gates.error_reason dumpectorist.Signals.Gates.source_names
    dumpectorist.Signals.Gates.evidence_verdict dumpectorist.Signals.Gates.discovery_gate
    dumpectorist.Signals.Gates.symbol_mismatches dumpectorist.Signals.Gates.symbol_gate
    dumpectorist.Signals.Gates.evidence_age dumpectorist.Signals.Gates.evidence_degraded
    dumpectorist.Signals.Gates.missing_damage dumpectorist.Signals.Gates.higher_timeframe_gate
    dumpectorist.Signals.Gates.entry_deviation_bps dumpectorist.Signals.Assembly.watch_status
    dumpectorist.Signals.Assembly.evaluate_lifecycle dumpectorist.Signals.Assembly.after_plan
    dumpectorist.Signals.Assembly.evaluate_entry dumpectorist.Signals.Assembly.after_consensus
    dumpectorist.Signals.Assembly.after_validation dumpectorist.Signals.Assembly.after_structure
    dumpectorist.Signals.Assembly.evaluate_timeframe dumpectorist.Signals.Assembly.evaluate
    dumpectorist.Execution.Consensus.allows_execution_confirmation dumpectorist.Prelude.Text.strip
    dumpectorist.Signals.Assembly.by_name dumpectorist.Signals.Assembly.gate_named
    dumpectorist.Signals.Assembly.complete_gates dumpectorist.Signals.Assembly.all_reasons
    dumpectorist.Signals.Assembly.finish dumpectorist.Signals.Assembly.assemble_signal
    dumpectorist.Signals.Models.signal_assembly_report
breakdown_assembles = refl

abbrev report : SignalAssemblyReport ℤ ℤ
report =
    get_ok (assemble_signal fixed fixed (λ x. x) breakdown noon rules_of_assembly)
      breakdown_assembles

assemble-status_example :
    ((report.status ≡ SignalAssemblyStatus.short_ready)
      × (report.plan.status ≡ PlanStatus.ready)
      × (report.lifecycle.state ≡ LifecycleState.active))
    ⊎ ((report.status ≢ SignalAssemblyStatus.short_ready)
        × (report.plan.status ≡ PlanStatus.hold)
        × (report.lifecycle.state ≡ LifecycleState.pending))
assemble-status_example =
    assemble-status fixed fixed (λ x. x) breakdown noon rules_of_assembly report
      (get_ok-eq (assemble_signal fixed fixed (λ x. x) breakdown noon rules_of_assembly)
        breakdown_assembles)

assemble-gates_example : map (λ g. g.name) report.gates ≡ gate_order
assemble-gates_example =
    assemble-gates fixed fixed (λ x. x) breakdown noon rules_of_assembly report
      (get_ok-eq (assemble_signal fixed fixed (λ x. x) breakdown noon rules_of_assembly)
        breakdown_assembles)
