-- ===== src/Execution/Consensus.antt =====
-- app/execution/consensus.py: the LBank price against the benchmarks that may be used.
pub mod Sources
pub mod Measured
pub mod Confirmation
use dumpectorist.Prelude.{
  Bool, true, false, not, ◌&&◌, ◌||◌, ℕ, suc, String, List, [], ◌∷◌, ◌++◌, Option, none, some, map,
  length, is_empty, str_eq, leb, ltb, if◌then◌else◌,
}
use dumpectorist.Prelude.Dict.{contains, add}
use dumpectorist.Prelude.Int.{ℤ, pos, ltb_ℤ}
use dumpectorist.Prelude.Number.{Num}
use dumpectorist.Prelude.Result.{Error, Result, err, value_error, raise_if, ◌>>=◌, ◌>>◌}
use dumpectorist.Prelude.Time.{Datetime, require_aware}
use dumpectorist.Adapters.Lbank.{LBankExecutionSnapshot, executable_mid_price}
use dumpectorist.Adapters.Benchmark.{
  BenchmarkSource, source_key, BenchmarkSnapshot, BenchmarkHealthRules, BenchmarkHealthState,
  BenchmarkHealthReport, is_usable, evaluate_benchmark_health,
}
use dumpectorist.Execution.Validator.{
  LBankExecutionRules, LBankExecutionStatus, validate_lbank_execution, LBankExecutionValidation,
}
use dumpectorist.Execution.SymbolMap.{CrossExchangeSymbolMap, expected_symbol}
use dumpectorist.Execution.Statistics.{median, max_from, min_from}

pub data ConsensusStatus : Type 0 where
  ok warning execution_pending data_degraded avoid : ConsensusStatus

abbrev pub consensus_status_value : ConsensusStatus → String
consensus_status_value ConsensusStatus.ok = "OK"
consensus_status_value ConsensusStatus.warning = "WARNING"
consensus_status_value ConsensusStatus.execution_pending = "EXECUTION_PENDING"
consensus_status_value ConsensusStatus.data_degraded = "DATA_DEGRADED"
consensus_status_value ConsensusStatus.avoid = "AVOID"

pub record ConsensusRules (D F : Type 0) : Type 0 where
  pub minimum_fresh_sources : ℤ
  pub warning_deviation_pct : D
  pub degraded_deviation_pct : D
  pub avoid_deviation_pct : D
  pub max_benchmark_dispersion_pct : D
  pub benchmark_health : BenchmarkHealthRules F
  pub lbank_execution : LBankExecutionRules D F

pub record ConsensusSourceResult (D : Type 0) : Type 0 where
  pub source : BenchmarkSource
  pub exchange_symbol : String
  pub expected : Option String
  pub health_state : Option BenchmarkHealthState
  pub price : D
  pub included : Bool
  pub deviation_from_median_pct : Option D
  pub reasons : List String

pub record CrossExchangeConsensusReport (D : Type 0) : Type 0 where
  pub canonical_symbol : String
  pub lbank_symbol : String
  pub lbank_price : D
  pub median_benchmark_price : Option D
  pub lbank_deviation_pct : Option D
  pub benchmark_dispersion_pct : Option D
  pub status : ConsensusStatus
  pub usable_sources : ℕ
  pub source_results : List (ConsensusSourceResult D)
  pub reasons : List String

unfoldable pub allows_execution_confirmation : {D : Type 0} → CrossExchangeConsensusReport D → Bool
allows_execution_confirmation r = elim r.status [
  | ConsensusStatus.ok ↦ true
  | ConsensusStatus.warning ↦ true
  | _ ↦ false
]

-- A source with no symbol, or with another symbol than expected.
unfoldable pub symbol_reasons : String → Option String → List String
symbol_reasons symbol none = "SOURCE_UNMAPPED" ∷ []
symbol_reasons symbol (some expected) =
    if str_eq symbol expected then [] else "SYMBOL_MISMATCH" ∷ []

module _ {D F : Type 0} (dec : Num D) (flt : Num F) where
  -- `ConsensusRules.__post_init__`
  unfoldable pub consensus_rules : ConsensusRules D F → Result (ConsensusRules D F)
  consensus_rules r = do
    raise_if (ltb_ℤ r.minimum_fresh_sources (pos 1))
        (value_error "minimum_fresh_sources must be positive")
    raise_if
        (not (
          dec.lt (dec.lit 0 0) r.warning_deviation_pct
          && dec.lt r.warning_deviation_pct r.degraded_deviation_pct
          && dec.lt r.degraded_deviation_pct r.avoid_deviation_pct))
        (value_error "deviation thresholds must be positive and increasing")
    raise_if (dec.le r.max_benchmark_dispersion_pct (dec.lit 0 0))
        (value_error "max_benchmark_dispersion_pct must be positive")
    Result.ok r

  -- `_deviation_pct`
  unfoldable pub deviation_pct : D → D → Result D
  deviation_pct value reference = do
    raise_if (dec.le reference (dec.lit 0 0)) (value_error "reference price must be positive")
    Result.ok (dec.mul (dec.div (dec.abs (dec.sub value reference)) reference) (dec.lit 100 0))

  -- `_blocked_source_results`, for one snapshot.
  abbrev pub blocked_result :
      CrossExchangeSymbolMap → String → BenchmarkSnapshot D → ConsensusSourceResult D
  blocked_result m reason s = record {
    source = s.source;
    exchange_symbol = s.symbol;
    expected = expected_symbol m s.source;
    health_state = none;
    price = s.last_price;
    included = false;
    deviation_from_median_pct = none;
    reasons = reason ∷ [];
  }

  -- A report that is degraded before any price is looked at.
  unfoldable pub blocked_report :
      LBankExecutionSnapshot D
      → List (BenchmarkSnapshot D)
      → CrossExchangeSymbolMap
      → String
      → CrossExchangeConsensusReport D
  blocked_report lbank snapshots m reason = record {
    canonical_symbol = m.canonical_symbol;
    lbank_symbol = lbank.symbol;
    lbank_price = executable_mid_price dec lbank;
    median_benchmark_price = none;
    lbank_deviation_pct = none;
    benchmark_dispersion_pct = none;
    status = ConsensusStatus.data_degraded;
    usable_sources = 0;
    source_results = map (blocked_result m reason) snapshots;
    reasons = reason ∷ [];
  }

  -- The reasons of a snapshot before its health is looked at: a source that was seen, a source
  -- with no symbol, or with another symbol than expected.
  unfoldable pub identity_reasons :
      CrossExchangeSymbolMap → List BenchmarkSource → BenchmarkSnapshot D → List String
  identity_reasons m seen s =
      (if contains s.source seen then "DUPLICATE_SOURCE" ∷ [] else [])
      ++ symbol_reasons s.symbol (expected_symbol m s.source)

  abbrev pub judged :
      CrossExchangeSymbolMap
      → BenchmarkSnapshot D
      → Option BenchmarkHealthState
      → Bool
      → List String
      → ConsensusSourceResult D
  judged m s health included reasons = record {
    source = s.source;
    exchange_symbol = s.symbol;
    expected = expected_symbol m s.source;
    health_state = health;
    price = s.last_price;
    included = included;
    deviation_from_median_pct = none;
    reasons = reasons;
  }

  abbrev pub health_result :
      CrossExchangeSymbolMap
      → BenchmarkSnapshot D
      → BenchmarkHealthReport F
      → ConsensusSourceResult D
  health_result m s h =
      judged m s (some h.state) (is_usable h) (if is_usable h then [] else h.reasons)

  -- The health is looked at only where there is no reason against the snapshot so far.
  unfoldable pub judge :
      ConsensusRules D F
      → CrossExchangeSymbolMap
      → Datetime
      → BenchmarkSnapshot D
      → List String
      → Result (ConsensusSourceResult D)
  judge rules m now s (r ∷ rs) = Result.ok (judged m s none false (r ∷ rs))
  judge rules m now s [] = do
    health ← evaluate_benchmark_health flt s now rules.benchmark_health
    Result.ok (health_result m s health)

  -- The body of the loop over the snapshots.
  unfoldable pub source_result :
      ConsensusRules D F
      → CrossExchangeSymbolMap
      → Datetime
      → List BenchmarkSource
      → BenchmarkSnapshot D
      → Result (ConsensusSourceResult D)
  unfolding judge
  source_result rules m now seen s = judge rules m now s (identity_reasons m seen s)

  -- The loop over the snapshots, with the sources seen so far.
  unfoldable pub source_results :
      ConsensusRules D F
      → CrossExchangeSymbolMap
      → Datetime
      → List BenchmarkSource
      → List (BenchmarkSnapshot D)
      → Result (List (ConsensusSourceResult D))
  source_results rules m now seen [] = Result.ok []
  source_results rules m now seen (s ∷ ss) = do
    r ← source_result rules m now seen s
    rest ← source_results rules m now (add s.source seen) ss
    Result.ok (r ∷ rest)

  -- `used_prices`
  unfoldable pub used_prices : List (ConsensusSourceResult D) → List D
  used_prices [] = []
  used_prices (r ∷ rs) = let rest = used_prices rs in if r.included then r.price ∷ rest else rest

  pub record PriceSummary : Type 0 where
    pub median_price : D
    pub deviation : D
    pub dispersion : D

  -- The median, the deviation of LBank and the dispersion; `none` with no price.
  unfoldable pub summarize : D → List D → Result (Option PriceSummary)
  unfolding deviation_pct
  summarize lbank_price [] = Result.ok none
  summarize lbank_price (p ∷ ps) = elim (median dec (p ∷ ps)) [
    | none ↦ Result.ok none
    | some middle ↦ do
      deviation ← deviation_pct lbank_price middle
      Result.ok (
          some (record {
            median_price = middle;
            deviation = deviation;
            dispersion =
                dec.mul (dec.div (dec.sub (max_from dec p ps) (min_from dec p ps)) middle)
                  (dec.lit 100 0);
          }))
  ]

  abbrev pub with_deviation : D → ConsensusSourceResult D → Result (ConsensusSourceResult D)
  with_deviation middle r =
      if r.included
      then (do
        deviation ← deviation_pct r.price middle
        Result.ok (record r { deviation_from_median_pct = some deviation }))
      else Result.ok (record r { deviation_from_median_pct = none })

  unfoldable pub with_deviations :
      D → List (ConsensusSourceResult D) → Result (List (ConsensusSourceResult D))
  unfolding deviation_pct
  with_deviations middle [] = Result.ok []
  with_deviations middle (r ∷ rs) = do
    r' ← with_deviation middle r
    rest ← with_deviations middle rs
    Result.ok (r' ∷ rest)

  -- The results as reported: with their deviations where there is a median.
  unfoldable pub reported_results :
      Option PriceSummary → List (ConsensusSourceResult D) → Result (List (ConsensusSourceResult D))
  unfolding with_deviations
  reported_results none rs = Result.ok rs
  reported_results (some p) rs = with_deviations p.median_price rs

  -- The status for a deviation that was computed.
  unfoldable pub deviation_status : ConsensusRules D F → D → ConsensusStatus × List String
  deviation_status rules deviation =
      if dec.le rules.avoid_deviation_pct deviation
      then (ConsensusStatus.avoid, "LBANK_DEVIATION_AVOID" ∷ [])
      else if dec.le rules.degraded_deviation_pct deviation
      then (ConsensusStatus.data_degraded, "LBANK_DEVIATION_DEGRADED" ∷ [])
      else if dec.le rules.warning_deviation_pct deviation
      then (ConsensusStatus.warning, "LBANK_DEVIATION_WARNING" ∷ [])
      else (ConsensusStatus.ok, [])

  -- The gates after the loop, in their order.
  unfoldable pub consensus_status :
      ConsensusRules D F
      → LBankExecutionValidation F
      → ℕ
      → Option PriceSummary
      → Result (ConsensusStatus × List String)
  unfolding deviation_status
  consensus_status rules v usable summary = elim v.status [
    | LBankExecutionStatus.execution_pending ↦
        Result.ok (ConsensusStatus.execution_pending, v.reasons)
    | LBankExecutionStatus.data_degraded ↦ Result.ok (ConsensusStatus.data_degraded, v.reasons)
    | LBankExecutionStatus.ok ↦
        if ltb_ℤ (pos usable) rules.minimum_fresh_sources
        then Result.ok (ConsensusStatus.data_degraded, "INSUFFICIENT_FRESH_BENCHMARK_SOURCES" ∷ [])
        else elim summary [
          | none ↦ err (value_error "median price is required after source validation")
          | some p ↦
              if dec.lt rules.max_benchmark_dispersion_pct p.dispersion
              then Result.ok (ConsensusStatus.data_degraded, "BENCHMARK_DISPERSION_TOO_HIGH" ∷ [])
              else Result.ok (deviation_status rules p.deviation)
        ]
  ]

  abbrev pub field : {A : Type 0} → (PriceSummary → A) → Option PriceSummary → Option A
  field f none = none
  field f (some p) = some (f p)

  unfoldable pub assess :
      LBankExecutionSnapshot D
      → List (BenchmarkSnapshot D)
      → CrossExchangeSymbolMap
      → Datetime
      → ConsensusRules D F
      → Result (CrossExchangeConsensusReport D)
  assess lbank snapshots m now rules = do
    validation ← validate_lbank_execution dec flt lbank now rules.lbank_execution
    preliminary ← source_results rules m now [] snapshots
    summary ← summarize (executable_mid_price dec lbank) (used_prices preliminary)
    results ← reported_results summary preliminary
    let usable = length (used_prices preliminary)
    outcome ← consensus_status rules validation usable summary
    Result.ok (record {
      canonical_symbol = m.canonical_symbol;
      lbank_symbol = lbank.symbol;
      lbank_price = executable_mid_price dec lbank;
      median_benchmark_price = field (λ p. p.median_price) summary;
      lbank_deviation_pct = field (λ p. p.deviation) summary;
      benchmark_dispersion_pct = field (λ p. p.dispersion) summary;
      status = outcome.0;
      usable_sources = usable;
      source_results = results;
      reasons = outcome.1;
    })

  unfoldable pub build_cross_exchange_consensus :
      LBankExecutionSnapshot D
      → List (BenchmarkSnapshot D)
      → CrossExchangeSymbolMap
      → Datetime
      → ConsensusRules D F
      → Result (CrossExchangeConsensusReport D)
  build_cross_exchange_consensus lbank snapshots m now rules = do
    require_aware now "now"
    if not m.reliable
        then Result.ok (blocked_report lbank snapshots m "SYMBOL_MAPPING_UNRELIABLE")
        else if not (str_eq lbank.symbol m.lbank_symbol)
        then Result.ok (blocked_report lbank snapshots m "LBANK_SYMBOL_MISMATCH")
        else assess lbank snapshots m now rules
