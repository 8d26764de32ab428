-- ===== src/Signals/Gates.antt =====
-- app/signals/service.py: the gates that are functions of their own.
use dumpectorist.Prelude.{
  Bool, true, false, not, ◌||◌, ◌==◌, String, List, [], ◌∷◌, ◌++◌, str_eq, length, any, is_empty,
  if◌then◌else◌,
}
use dumpectorist.Prelude.Int.{pos, ltb_ℤ}
use dumpectorist.Prelude.Number.{Num}
use dumpectorist.Prelude.Result.{Error, Result, ok, value_error, raise_if, ◌>>=◌, ◌>>◌}
use dumpectorist.Prelude.Text.{◌<>◌, strip, is_blank, show_nat, take_chars}
use dumpectorist.Prelude.Time.{Datetime}
use dumpectorist.Adapters.Benchmark.{reason_if, age_seconds}
use dumpectorist.Adapters.Lbank.{executable_mid_price}
use dumpectorist.Signals.Models.{
  DiscoverySource, DiscoveryRecord, GateState, GateDecision, SignalAssemblyStatus,
  SignalAssemblyRules, SignalAssemblyRequest,
}

abbrev pub gate_order : List String
gate_order =
    "discovery_context" ∷ "symbol_alignment" ∷ "higher_timeframe_structure" ∷ "structure"
    ∷ "setup_classification" ∷ "flow" ∷ "lbank_execution" ∷ "cross_exchange_consensus"
    ∷ "entry_alignment" ∷ "planning" ∷ "lifecycle" ∷ []

-- A gate's state with its reasons; the name is put on where the gate is appended.
abbrev pub Verdict : Type 0
Verdict = GateState × List String

abbrev pub named : String → Verdict → GateDecision
named name v = record { name = name; state = v.0; reasons = v.1 }

-- `x or y` for tuples of texts.
abbrev pub or_else : List String → List String → List String
or_else [] ys = ys
or_else (x ∷ xs) ys = x ∷ xs

-- `_error_reason`
unfoldable pub error_reason : Error → String
error_reason e =
    let detail = strip e.message in
    if is_blank detail then e.kind else take_chars 500 (e.kind <> ":" <> detail)

abbrev is_coingecko : DiscoveryRecord → Bool
is_coingecko r = elim r.source [ DiscoverySource.coingecko ↦ true | _ ↦ false ]

abbrev is_dex_screener : DiscoveryRecord → Bool
is_dex_screener r = elim r.source [ DiscoverySource.dex_screener ↦ true | _ ↦ false ]

-- `sorted({record.source.value …})`: there are two sources.
unfoldable pub source_names : List DiscoveryRecord → List String
source_names rs =
    reason_if (any is_coingecko rs) "SOURCE_COINGECKO"
    ++ reason_if (any is_dex_screener rs) "SOURCE_DEX_SCREENER"

-- The two lists decide; the status counts only where the gate fails.
unfoldable pub evidence_verdict :
    {F : Type 0}
    → Num F
    → List String
    → List String
    → F
    → List String
    → Verdict × SignalAssemblyStatus
evidence_verdict flt (d ∷ ds) missing age noted =
    ((GateState.fail, ((d ∷ ds) ++ missing) ++ noted), SignalAssemblyStatus.data_degraded)
evidence_verdict flt [] (r ∷ rs) age noted =
    ((GateState.fail, (r ∷ rs) ++ noted), SignalAssemblyStatus.breakdown_watch)
evidence_verdict flt [] [] age noted = (
  (GateState.pass, ("AGE_MINUTES_" <> flt.show_cents age) ∷ noted),
  SignalAssemblyStatus.short_ready,
)

module _ {D F : Type 0} where
  -- `_discovery_gate`
  unfoldable pub discovery_gate : SignalAssemblyRequest D F → SignalAssemblyRules D F → Verdict
  unfolding source_names
  discovery_gate request rules =
      let count = length request.discovery_records in
      if ltb_ℤ rules.max_discovery_records (pos count)
      then (GateState.fail, "DISCOVERY_CONTEXT_TOO_LARGE" ∷ ("COUNT_" <> show_nat count) ∷ [])
      else if count == 0
      then (GateState.warn, "DISCOVERY_CONTEXT_EMPTY" ∷ [])
      else (GateState.pass, ("COUNT_" <> show_nat count) ∷ source_names request.discovery_records)

  unfoldable pub symbol_mismatches : SignalAssemblyRequest D F → List String
  symbol_mismatches r =
      reason_if (not (str_eq r.symbol_map.canonical_symbol r.symbol)) "CANONICAL_SYMBOL_MISMATCH"
      ++ (reason_if (not (str_eq r.higher_timeframe.symbol r.symbol))
            "HIGHER_TIMEFRAME_SYMBOL_MISMATCH"
          ++ (reason_if (not (str_eq r.structure_input.symbol r.symbol)) "STRUCTURE_SYMBOL_MISMATCH"
              ++ (reason_if (not (str_eq (strip r.plan_request.symbol) r.symbol))
                    "PLAN_SYMBOL_MISMATCH"
                  ++ reason_if (not (str_eq r.lbank_snapshot.symbol r.symbol_map.lbank_symbol))
                      "LBANK_SYMBOL_MISMATCH")))

  -- `_symbol_gate`
  unfoldable pub symbol_gate : SignalAssemblyRequest D F → Verdict
  symbol_gate r =
      let reasons = symbol_mismatches r in
      (
        if is_empty reasons then GateState.pass else GateState.fail,
        or_else reasons ("SYMBOLS_ALIGNED" ∷ []),
      )

  module _ (flt : Num F) where
    unfoldable pub evidence_age : SignalAssemblyRequest D F → Datetime → Result F
    evidence_age r now = do
      seconds ← age_seconds flt now r.higher_timeframe.observed_at
      ok (flt.div seconds (flt.lit 60 0))

    unfoldable pub evidence_degraded : SignalAssemblyRules D F → F → List String
    evidence_degraded rules age =
        if flt.lt age (flt.neg (flt.int_div (pos 1) (pos 60)))
        then "STRUCTURE_EVIDENCE_FROM_FUTURE" ∷ []
        else reason_if (flt.lt rules.max_structure_age_minutes age) "STRUCTURE_EVIDENCE_STALE"

    unfoldable pub missing_damage : SignalAssemblyRequest D F → List String
    missing_damage r =
        reason_if (not r.higher_timeframe.daily_damaged) "DAILY_STRUCTURE_NOT_DAMAGED"
        ++ reason_if (not r.higher_timeframe.four_hour_damaged) "FOUR_HOUR_STRUCTURE_NOT_DAMAGED"

    -- `_higher_timeframe_gate`
    unfoldable pub higher_timeframe_gate :
        SignalAssemblyRequest D F
        → Datetime
        → SignalAssemblyRules D F
        → Result (Verdict × SignalAssemblyStatus)
    higher_timeframe_gate r now rules = do
      age ← evidence_age r now
      ok (
          evidence_verdict flt (evidence_degraded rules age) (missing_damage r) age
            r.higher_timeframe.reasons)

    -- `_entry_deviation_bps`; `exact` is `Decimal(str(value))`.
    unfoldable pub entry_deviation_bps : Num D → (F → D) → SignalAssemblyRequest D F → Result D
    entry_deviation_bps dec exact r = do
      let entry = exact r.plan_request.entry_value
      let reference = executable_mid_price dec r.lbank_snapshot
      raise_if (dec.le entry (dec.lit 0 0) || dec.le reference (dec.lit 0 0))
          (value_error "entry and LBank reference must be positive")
      ok (dec.mul (dec.div (dec.abs (dec.sub entry reference)) reference) (dec.lit 10000 0))
