-- ===== src/Signals/Models.antt =====
-- app/signals/models.py, and the part of app/adapters/discovery_models.py that an assembly reads.
use dumpectorist.Prelude.{
  Bool, true, false, not, ◌&&◌, ◌||◌, String, List, Option, none, some, str_eq,
}
use dumpectorist.Prelude.Dict.{lookup}
use dumpectorist.Prelude.Int.{ℤ, pos, ltb_ℤ, leb_ℤ}
use dumpectorist.Prelude.Number.{Num}
use dumpectorist.Prelude.Result.{Result, ok, err, value_error, raise_if, ◌>>◌}
use dumpectorist.Prelude.Text.{strip, is_blank}
use dumpectorist.Prelude.Time.{Datetime, require_aware}
use dumpectorist.Structure.Analyzer.{StructureInput, StructureSnapshot}
use dumpectorist.Setups.Classifier.{SetupCandidate}
use dumpectorist.Flow.{FlowResult}
use dumpectorist.Planning.{PlanDraft, PlanRequest}
use dumpectorist.Lifecycle.{LifecycleRecord}
use dumpectorist.Adapters.Lbank.{LBankExecutionSnapshot}
use dumpectorist.Adapters.Benchmark.{BenchmarkSource, source_key, BenchmarkSnapshot}
use dumpectorist.Execution.Validator.{LBankExecutionValidation}
use dumpectorist.Execution.SymbolMap.{CrossExchangeSymbolMap}
use dumpectorist.Execution.Consensus.{ConsensusRules, CrossExchangeConsensusReport}

pub data DiscoverySource : Type 0 where
  dex_screener coingecko : DiscoverySource

pub record DiscoveryRecord : Type 0 where
  pub source : DiscoverySource
  pub external_id : String

pub data ShortSetupType : Type 0 where
  breakdown_short failed_pullback_short continuation_short : ShortSetupType

abbrev pub setup_type_value : ShortSetupType → String
setup_type_value ShortSetupType.breakdown_short = "BREAKDOWN_SHORT"
setup_type_value ShortSetupType.failed_pullback_short = "FAILED_PULLBACK_SHORT"
setup_type_value ShortSetupType.continuation_short = "CONTINUATION_SHORT"

pub data SignalAssemblyStatus : Type 0 where
  hype_watch weakness_watch breakdown_watch execution_pending data_degraded avoid short_ready :
      SignalAssemblyStatus

pub data GateState : Type 0 where
  pass warn fail skip : GateState

pub record GateDecision : Type 0 where
  pub name : String
  pub state : GateState
  pub reasons : List String

-- `GateDecision.passed`
abbrev pub passed : GateState → Bool
passed GateState.pass = true
passed GateState.warn = true
passed GateState.fail = false
passed GateState.skip = false

pub data HigherTimeframeEvidenceOrigin : Type 0 where
  manual derived : HigherTimeframeEvidenceOrigin

pub record HigherTimeframeStructureEvidence : Type 0 where
  pub symbol : String
  pub market_symbol : String
  pub observed_at : Datetime
  pub daily_damaged : Bool
  pub four_hour_damaged : Bool
  pub origin : HigherTimeframeEvidenceOrigin
  pub daily_zone_id : Option String
  pub daily_event_id : Option String
  pub four_hour_zone_id : Option String
  pub four_hour_event_id : Option String
  pub reasons : List String

-- The truth of a value that is a text or None.
abbrev pub is_given : Option String → Bool
is_given none = false
is_given (some s) = not (is_blank s)

abbrev pub is_derived : HigherTimeframeEvidenceOrigin → Bool
is_derived HigherTimeframeEvidenceOrigin.manual = false
is_derived HigherTimeframeEvidenceOrigin.derived = true

-- `HigherTimeframeStructureEvidence.__post_init__`; `upper` is Unicode's upper case.
unfoldable pub higher_timeframe_evidence :
    (String → String) → HigherTimeframeStructureEvidence → Result HigherTimeframeStructureEvidence
higher_timeframe_evidence upper e = do
  let symbol = strip e.symbol
  let market_symbol = upper (strip e.market_symbol)
  raise_if (is_blank symbol || is_blank market_symbol)
      (value_error "higher-timeframe canonical and market symbols are required")
  require_aware e.observed_at "higher-timeframe observed_at"
  raise_if (not (is_derived e.origin))
      (value_error "production assembly requires derived higher-timeframe evidence")
  raise_if (e.daily_damaged && not (is_given e.daily_zone_id && is_given e.daily_event_id))
      (value_error "damaged Daily evidence requires zone and event IDs")
  raise_if
      (e.four_hour_damaged && not (is_given e.four_hour_zone_id && is_given e.four_hour_event_id))
      (value_error "damaged 4H evidence requires zone and event IDs")
  ok (record e { symbol = symbol; market_symbol = market_symbol })

pub record SignalAssemblyRules (D F : Type 0) : Type 0 where
  pub max_structure_age_minutes : F
  pub max_entry_deviation_bps : D
  pub lifecycle_ttl_minutes : ℤ
  pub max_discovery_records : ℤ
  pub consensus : ConsensusRules D F

-- `SignalAssemblyRules.__post_init__`
unfoldable pub signal_assembly_rules :
    {D F : Type 0} → Num D → Num F → SignalAssemblyRules D F → Result (SignalAssemblyRules D F)
signal_assembly_rules dec flt r = do
  raise_if (flt.le r.max_structure_age_minutes (flt.lit 0 0))
      (value_error "max_structure_age_minutes must be positive")
  raise_if (dec.le r.max_entry_deviation_bps (dec.lit 0 0))
      (value_error "max_entry_deviation_bps must be positive")
  raise_if (leb_ℤ r.lifecycle_ttl_minutes (pos 0))
      (value_error "lifecycle_ttl_minutes must be positive")
  raise_if (ltb_ℤ r.max_discovery_records (pos 0) || ltb_ℤ (pos 500) r.max_discovery_records)
      (value_error "max_discovery_records must be between 0 and 500")
  ok r

pub record SignalAssemblyRequest (D F : Type 0) : Type 0 where
  pub symbol : String
  pub setup_type : ShortSetupType
  pub higher_timeframe : HigherTimeframeStructureEvidence
  pub structure_input : StructureInput F
  pub lbank_snapshot : LBankExecutionSnapshot D
  pub benchmark_snapshots : List (BenchmarkSnapshot D)
  pub symbol_map : CrossExchangeSymbolMap
  pub plan_request : PlanRequest F
  pub discovery_records : List DiscoveryRecord

-- The check of the mapped Bybit symbol, which may be missing or empty.
abbrev pub require_market_symbol : Option String → String → Result (Unit {0})
require_market_symbol none market = err (value_error "Bybit structure symbol mapping is required")
require_market_symbol (some expected) market = do
  raise_if (is_blank expected) (value_error "Bybit structure symbol mapping is required")
  raise_if (not (str_eq market expected))
      (value_error "derived structure market symbol does not match symbol map")

-- `SignalAssemblyRequest.__post_init__`
unfoldable pub signal_assembly_request :
    {D F : Type 0} → SignalAssemblyRequest D F → Result (SignalAssemblyRequest D F)
unfolding lookup
signal_assembly_request r = do
  let symbol = strip r.symbol
  raise_if (is_blank symbol) (value_error "assembly symbol is required")
  require_market_symbol (lookup BenchmarkSource.bybit r.symbol_map.benchmark_symbols)
      r.higher_timeframe.market_symbol
  ok (record r { symbol = symbol })

pub record SignalAssemblyReport (D F : Type 0) : Type 0 where
  pub symbol : String
  pub setup_type : ShortSetupType
  pub status : SignalAssemblyStatus
  pub assembled_at : Datetime
  pub discovery_records : List DiscoveryRecord
  pub higher_timeframe : HigherTimeframeStructureEvidence
  pub gates : List GateDecision
  pub reasons : List String
  pub plan : PlanDraft F
  pub lifecycle : LifecycleRecord
  pub structure : Option (StructureSnapshot F)
  pub setup : Option (SetupCandidate F)
  pub flow : Option FlowResult
  pub lbank_validation : Option (LBankExecutionValidation F)
  pub consensus : Option (CrossExchangeConsensusReport D)
  pub entry_deviation_bps : Option D

-- `SignalAssemblyReport.__post_init__`
unfoldable pub signal_assembly_report :
    {D F : Type 0} → SignalAssemblyReport D F → Result (SignalAssemblyReport D F)
signal_assembly_report r = do
  raise_if (is_blank (strip r.symbol)) (value_error "report symbol is required")
  require_aware r.assembled_at "assembled_at"
  ok r
