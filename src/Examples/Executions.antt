-- ===== src/Examples/Executions.antt =====
-- The LBank validation and the consensus over two benchmarks that count.
use dumpectorist.Prelude.{
  Bool, true, false, ◌≡◌, ◌↔◌, ℕ, String, List, [], ◌∷◌, Option, none, some, arith, refl,
}
use dumpectorist.Prelude.Int.{ℤ}
use dumpectorist.Prelude.Fixed.{fixed}
use dumpectorist.Prelude.Result.{is_ok, get_ok, get_ok-eq}
use dumpectorist.Execution.Validator.{
  LBankExecutionStatus, LBankExecutionValidation, validate_lbank_execution,
}
use dumpectorist.Execution.Validator.Gates.{IsAge, IsTradable, IsFresh, validate-ok_iff}
use dumpectorist.Execution.Consensus.{
  ConsensusSourceResult, CrossExchangeConsensusReport, source_results,
  build_cross_exchange_consensus, allows_execution_confirmation,
}
use dumpectorist.Execution.Consensus.Sources.{
  AreJudged, AreDistinct, included_sources, source_results_sound,
}
use dumpectorist.Execution.Consensus.Confirmation.{IsConfirmed, allows_iff}
use dumpectorist.Examples.Market.{
  noon, lbank_now, lbank_rules, benchmarks, symbols, rules_of_consensus,
}

lbank_validates : is_ok (validate_lbank_execution fixed fixed lbank_now noon lbank_rules) ≡ true
unfolding validate_lbank_execution fixed dumpectorist.Adapters.Benchmark.age_seconds
lbank_validates = refl

abbrev validation : LBankExecutionValidation ℤ
validation =
    get_ok (validate_lbank_execution fixed fixed lbank_now noon lbank_rules) lbank_validates

validate-ok_iff_example :
    IsAge fixed fixed noon lbank_now validation.age_seconds
    × ((validation.status ≡ LBankExecutionStatus.ok)
        ↔ IsTradable fixed fixed lbank_rules lbank_now validation.age_seconds)
    × ((validation.status ≡ LBankExecutionStatus.ok) ↔ (validation.reasons ≡ []))
    × (validation.status ≡ LBankExecutionStatus.execution_pending
        → IsFresh fixed fixed lbank_rules lbank_now validation.age_seconds)
validate-ok_iff_example =
    validate-ok_iff fixed fixed lbank_now noon lbank_rules
      (get_ok-eq (validate_lbank_execution fixed fixed lbank_now noon lbank_rules) lbank_validates)

sources_run :
    is_ok (source_results fixed fixed rules_of_consensus symbols noon [] benchmarks) ≡ true
unfolding source_results fixed dumpectorist.Execution.Consensus.source_result
    dumpectorist.Execution.Consensus.identity_reasons dumpectorist.Prelude.Dict.contains
    dumpectorist.Execution.Consensus.symbol_reasons dumpectorist.Execution.SymbolMap.expected_symbol
    dumpectorist.Adapters.Benchmark.evaluate_benchmark_health
    dumpectorist.Adapters.Benchmark.age_seconds dumpectorist.Adapters.Benchmark.source_age
    dumpectorist.Prelude.Dict.add
sources_run = refl

abbrev results : List (ConsensusSourceResult ℤ)
results =
    get_ok (source_results fixed fixed rules_of_consensus symbols noon [] benchmarks) sources_run

source_results_sound_example :
    AreJudged fixed fixed rules_of_consensus symbols noon [] benchmarks results
    × AreDistinct (included_sources results)
source_results_sound_example =
    source_results_sound fixed fixed rules_of_consensus symbols noon benchmarks results (
      get_ok-eq (source_results fixed fixed rules_of_consensus symbols noon [] benchmarks)
        sources_run)

consensus_runs :
    is_ok (
      build_cross_exchange_consensus fixed fixed lbank_now benchmarks symbols noon
        rules_of_consensus)
    ≡ true
unfolding fixed dumpectorist.Execution.Consensus.build_cross_exchange_consensus
    dumpectorist.Execution.Consensus.assess dumpectorist.Execution.Consensus.source_results
    dumpectorist.Execution.Consensus.source_result dumpectorist.Execution.Consensus.judge
    dumpectorist.Execution.Consensus.identity_reasons
    dumpectorist.Execution.Consensus.symbol_reasons dumpectorist.Execution.Consensus.used_prices
    dumpectorist.Execution.Consensus.summarize dumpectorist.Execution.Consensus.deviation_pct
    dumpectorist.Execution.Consensus.reported_results
    dumpectorist.Execution.Consensus.with_deviations
    dumpectorist.Execution.Consensus.consensus_status
    dumpectorist.Execution.Consensus.deviation_status
    dumpectorist.Execution.SymbolMap.expected_symbol dumpectorist.Execution.Statistics.median
    dumpectorist.Execution.Statistics.sorted dumpectorist.Execution.Statistics.place
    dumpectorist.Execution.Statistics.max_from dumpectorist.Execution.Statistics.min_from
    dumpectorist.Execution.Validator.validate_lbank_execution
    dumpectorist.Execution.Validator.degraded_reasons
    dumpectorist.Execution.Validator.pending_reasons dumpectorist.Execution.Validator.spread_invalid
    dumpectorist.Adapters.Benchmark.evaluate_benchmark_health
    dumpectorist.Adapters.Benchmark.age_seconds dumpectorist.Adapters.Benchmark.source_age
    dumpectorist.Adapters.Benchmark.is_future dumpectorist.Adapters.Benchmark.is_old
    dumpectorist.Adapters.Benchmark.stale_reasons dumpectorist.Adapters.Benchmark.degraded_reasons
    dumpectorist.Adapters.Lbank.executable_mid_price dumpectorist.Prelude.Dict.contains
    dumpectorist.Prelude.Dict.add dumpectorist.Prelude.Dict.lookup dumpectorist.Prelude.Dict.insert
    dumpectorist.Prelude.Int.◌*ℤ◌ dumpectorist.Prelude.Int.◌+ℤ◌ dumpectorist.Prelude.Int.◌-ℤ◌
consensus_runs = refl

abbrev consensus : CrossExchangeConsensusReport ℤ
consensus =
    get_ok
      (build_cross_exchange_consensus fixed fixed lbank_now benchmarks symbols noon
        rules_of_consensus)
      consensus_runs

allows_iff_example :
    (allows_execution_confirmation consensus ≡ true)
    ↔ IsConfirmed fixed fixed lbank_now benchmarks symbols noon rules_of_consensus consensus
allows_iff_example =
    allows_iff fixed fixed lbank_now benchmarks symbols noon rules_of_consensus consensus (
      get_ok-eq
        (build_cross_exchange_consensus fixed fixed lbank_now benchmarks symbols noon
          rules_of_consensus)
        consensus_runs)
