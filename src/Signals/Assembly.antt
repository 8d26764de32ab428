-- ===== src/Signals/Assembly.antt =====
-- app/signals/service.py: `assemble_signal`. Each return of the source hands the gates so far and
-- what was computed to `_finish`; here each hands on an `Evaluation`, and `assemble_signal` finishes
-- it. A `try` that appends a failed gate is a case on the result of the call.
pub mod Stops
pub mod Grounds
pub mod Outcome
pub mod Report
pub mod Completed
use dumpectorist.Prelude.{
  Bool, true, false, not, ◌&&◌, ◌||◌, ℕ, String, List, [], ◌∷◌, ◌++◌, Option, none, some, str_eq,
  map, is_empty, if◌then◌else◌,
}
use dumpectorist.Prelude.Dict.{Dict, string_key, insert, lookup}
use dumpectorist.Prelude.Number.{Num}
use dumpectorist.Prelude.Result.{Error, Result, ok, err, ◌>>=◌, ◌>>◌}
use dumpectorist.Prelude.Text.{◌<>◌}
use dumpectorist.Prelude.Time.{Datetime, require_aware}
use dumpectorist.Structure.Analyzer.{
  StructureState, StructureSnapshot, state_value, analyze_structure,
}
use dumpectorist.Setups.Classifier.{SetupCandidate, is_actionable, classify_snapshot}
use dumpectorist.Flow.{FlowResult, is_ready, status_value, run_flow}
use dumpectorist.Planning.{PlanStatus, PlanDraft, build_plan, held_plan}
use dumpectorist.Lifecycle.{LifecycleRecord, create_lifecycle}
use dumpectorist.Lifecycle as Life
use dumpectorist.Execution.Validator.{
  LBankExecutionStatus, LBankExecutionValidation, validate_lbank_execution, execution_status_value,
}
use dumpectorist.Execution.Consensus.{
  ConsensusStatus, CrossExchangeConsensusReport, build_cross_exchange_consensus,
  allows_execution_confirmation, consensus_status_value,
}
use dumpectorist.Signals.Models.{
  GateState, GateDecision, SignalAssemblyStatus, SignalAssemblyRules, SignalAssemblyRequest,
  SignalAssemblyReport, signal_assembly_report, passed, setup_type_value,
}
use dumpectorist.Signals.Gates.{
  gate_order, Verdict, named, or_else, error_reason, discovery_gate, symbol_gate,
  higher_timeframe_gate, entry_deviation_bps,
}

-- The arguments of `_finish`.
pub record Evaluation (D F : Type 0) : Type 0 where
  pub status : SignalAssemblyStatus
  pub gates : List GateDecision
  pub structure : Option (StructureSnapshot F)
  pub setup : Option (SetupCandidate F)
  pub flow : Option FlowResult
  pub lbank_validation : Option (LBankExecutionValidation F)
  pub consensus : Option (CrossExchangeConsensusReport D)
  pub entry_deviation : Option D
  pub plan : Option (PlanDraft F)
  pub lifecycle : Option LifecycleRecord

-- `_watch_status`
unfoldable pub watch_status : StructureState → SignalAssemblyStatus
watch_status StructureState.neutral = SignalAssemblyStatus.hype_watch
watch_status StructureState.weak = SignalAssemblyStatus.weakness_watch
watch_status StructureState.alert = SignalAssemblyStatus.breakdown_watch

abbrev pub is_fail : GateState → Bool
is_fail GateState.fail = true
is_fail _ = false

abbrev pub pass_if : Bool → GateState
pass_if b = if b then GateState.pass else GateState.fail

abbrev pub is_alert : StructureState → Bool
is_alert StructureState.alert = true
is_alert _ = false

abbrev pub validation_status : LBankExecutionStatus → SignalAssemblyStatus
validation_status LBankExecutionStatus.execution_pending = SignalAssemblyStatus.execution_pending
validation_status _ = SignalAssemblyStatus.data_degraded

abbrev pub is_executable : LBankExecutionStatus → Bool
is_executable LBankExecutionStatus.ok = true
is_executable _ = false

abbrev pub consensus_gate_state : ConsensusStatus → GateState
consensus_gate_state ConsensusStatus.ok = GateState.pass
consensus_gate_state ConsensusStatus.warning = GateState.warn
consensus_gate_state _ = GateState.fail

-- `status_map.get(consensus.status, DATA_DEGRADED)`
abbrev pub consensus_block_status : ConsensusStatus → SignalAssemblyStatus
consensus_block_status ConsensusStatus.execution_pending = SignalAssemblyStatus.execution_pending
consensus_block_status ConsensusStatus.avoid = SignalAssemblyStatus.avoid
consensus_block_status _ = SignalAssemblyStatus.data_degraded

abbrev pub is_ready_plan : PlanStatus → Bool
is_ready_plan PlanStatus.ready = true
is_ready_plan PlanStatus.hold = false

abbrev pub failed_by : Error → Verdict
failed_by e = (GateState.fail, error_reason e ∷ [])

module _ {D F : Type 0} where
  abbrev pub nothing_yet : Evaluation D F
  nothing_yet = record {
    status = SignalAssemblyStatus.data_degraded;
    gates = [];
    structure = none;
    setup = none;
    flow = none;
    lbank_validation = none;
    consensus = none;
    entry_deviation = none;
    plan = none;
    lifecycle = none;
  }

  -- `gates.append(…)`
  abbrev pub append_gate : Evaluation D F → String → Verdict → Evaluation D F
  append_gate ev name v = record ev { gates = ev.gates ++ named name v ∷ [] }

  -- `return _finish(…, status=status, …)`
  abbrev pub stop : Evaluation D F → SignalAssemblyStatus → Result (Evaluation D F)
  stop ev status = ok (record ev { status = status })

module _ {D F : Type 0} (dec : Num D) (flt : Num F) (exact : F → D)
    (request : SignalAssemblyRequest D F) (now : Datetime) (rules : SignalAssemblyRules D F) where
  unfoldable pub evaluate_lifecycle : Evaluation D F → PlanDraft F → Result (Evaluation D F)
  evaluate_lifecycle ev plan = do
    lifecycle ← create_lifecycle plan now rules.lifecycle_ttl_minutes
    let ev' =
        append_gate ev "lifecycle"
          (GateState.pass, ("STATE_" <> Life.state_value lifecycle.state) ∷ [])
    stop (record ev' { lifecycle = some lifecycle }) SignalAssemblyStatus.short_ready

  unfoldable pub after_plan : Evaluation D F → Result (PlanDraft F) → Result (Evaluation D F)
  after_plan ev (err e) =
      stop (append_gate ev "planning" (failed_by e)) SignalAssemblyStatus.data_degraded
  after_plan ev (ok plan) =
      let ev' = record ev { plan = some plan } in
      if not (is_ready_plan plan.status)
      then stop
          (append_gate ev' "planning" (GateState.fail, or_else plan.notes ("PLAN_NOT_READY" ∷ [])))
          SignalAssemblyStatus.data_degraded
      else evaluate_lifecycle
          (append_gate ev' "planning" (GateState.pass, or_else plan.notes ("PLAN_READY" ∷ []))) plan

  unfoldable pub evaluate_entry : Evaluation D F → FlowResult → Result (Evaluation D F)
  evaluate_entry ev flow = do
    deviation ← entry_deviation_bps flt dec exact request
    let ev' = record ev { entry_deviation = some deviation }
    let shown = "DEVIATION_BPS_" <> dec.show deviation
    if dec.lt rules.max_entry_deviation_bps deviation
        then stop
            (append_gate ev' "entry_alignment"
              (GateState.fail, "ENTRY_TOO_FAR_FROM_LBANK" ∷ shown ∷ []))
            SignalAssemblyStatus.execution_pending
        else after_plan (append_gate ev' "entry_alignment" (GateState.pass, shown ∷ []))
            (build_plan flt flow request.plan_request)

  unfoldable pub after_consensus :
      Evaluation D F
      → FlowResult
      → Result (CrossExchangeConsensusReport D)
      → Result (Evaluation D F)
  after_consensus ev flow (err e) =
      stop (append_gate ev "cross_exchange_consensus" (failed_by e))
        SignalAssemblyStatus.data_degraded
  after_consensus ev flow (ok consensus) =
      let ev' =
        append_gate (record ev { consensus = some consensus }) "cross_exchange_consensus"
          (
            consensus_gate_state consensus.status,
            or_else consensus.reasons (("STATUS_" <> consensus_status_value consensus.status) ∷ []),
          ) in
      if not (allows_execution_confirmation consensus)
      then stop ev' (consensus_block_status consensus.status)
      else evaluate_entry ev' flow

  unfoldable pub after_validation :
      Evaluation D F → FlowResult → Result (LBankExecutionValidation F) → Result (Evaluation D F)
  after_validation ev flow (err e) =
      stop (append_gate ev "lbank_execution" (failed_by e)) SignalAssemblyStatus.data_degraded
  after_validation ev flow (ok v) =
      let ev' =
        append_gate (record ev { lbank_validation = some v }) "lbank_execution"
          (
            pass_if (is_executable v.status),
            or_else v.reasons (("STATUS_" <> execution_status_value v.status) ∷ []),
          ) in
      if not (is_executable v.status)
      then stop ev' (validation_status v.status)
      else after_consensus ev' flow (
          build_cross_exchange_consensus dec flt request.lbank_snapshot request.benchmark_snapshots
            request.symbol_map now rules.consensus)

  unfoldable pub after_structure :
      Evaluation D F → Result (StructureSnapshot F) → Result (Evaluation D F)
  after_structure ev (err e) =
      stop (append_gate ev "structure" (failed_by e)) SignalAssemblyStatus.data_degraded
  after_structure ev (ok structure) =
      let setup = classify_snapshot structure in
      let flow = run_flow setup in
      let ev₁ = append_gate ev "structure" (
        pass_if (is_alert structure.state),
        structure.reasons ++ ("STATE_" <> state_value structure.state) ∷ [],
      ) in
      let ev₂ = append_gate ev₁ "setup_classification" (
        pass_if (is_actionable setup),
        setup.reasons ++ ("TYPE_" <> setup_type_value request.setup_type) ∷ [],
      ) in
      let ev₃ =
        append_gate ev₂ "flow"
          (pass_if (is_ready flow), flow.reasons ++ ("STATUS_" <> status_value flow.status) ∷ []) in
      let ev₄ = record ev₃ { structure = some structure; setup = some setup; flow = some flow } in
      if not (is_ready flow)
      then stop ev₄ (watch_status structure.state)
      else after_validation ev₄ flow (
          validate_lbank_execution dec flt request.lbank_snapshot now
            rules.consensus.lbank_execution)

  unfoldable pub evaluate_timeframe : Evaluation D F → Result (Evaluation D F)
  evaluate_timeframe ev = do
    higher ← higher_timeframe_gate flt request now rules
    let ev' = append_gate ev "higher_timeframe_structure" higher.0
    if not (passed higher.0.0)
        then stop ev' higher.1
        else after_structure ev' (analyze_structure flt request.structure_input)

  unfoldable pub evaluate : Result (Evaluation D F)
  evaluate =
      let discovery = discovery_gate request rules in
      let ev₁ = append_gate nothing_yet "discovery_context" discovery in
      let ev₂ = append_gate ev₁ "symbol_alignment" (symbol_gate request) in
      if is_fail discovery.0
      then stop ev₁ SignalAssemblyStatus.data_degraded
      else if not (passed (symbol_gate request).0)
      then stop ev₂ SignalAssemblyStatus.data_degraded
      else evaluate_timeframe ev₂

  -- `{gate.name: gate for gate in gates}`
  unfoldable pub by_name : Dict String GateDecision → List GateDecision → Dict String GateDecision
  unfolding insert
  by_name d [] = d
  by_name d (g ∷ gs) = by_name (insert g.name g d) gs

  unfoldable pub gate_named : Dict String GateDecision → String → GateDecision
  unfolding lookup
  gate_named d name = elim (lookup name d) [
    | some g ↦ g
    | none ↦ named name (GateState.skip, "NOT_EVALUATED" ∷ [])
  ]

  -- `_complete_gates`
  unfoldable pub complete_gates : List GateDecision → List GateDecision
  unfolding by_name gate_named
  complete_gates gates = map (gate_named (by_name [] gates)) gate_order

  unfoldable pub all_reasons : List GateDecision → List String
  all_reasons [] = []
  all_reasons (g ∷ gs) = map (λ r. g.name <> ":" <> r) g.reasons ++ all_reasons gs

  abbrev pub plan_or_held : Option (PlanDraft F) → List String → Result (PlanDraft F)
  plan_or_held (some plan) reasons = ok plan
  plan_or_held none reasons = held_plan flt request.symbol (or_else reasons ("ASSEMBLY_HELD" ∷ []))

  abbrev pub lifecycle_or_new : Option LifecycleRecord → PlanDraft F → Result LifecycleRecord
  lifecycle_or_new (some l) plan = ok l
  lifecycle_or_new none plan = create_lifecycle plan now rules.lifecycle_ttl_minutes

  -- `_finish`
  unfoldable pub finish : Evaluation D F → Result (SignalAssemblyReport D F)
  finish ev = do
    let gates = complete_gates ev.gates
    let reasons = all_reasons gates
    plan ← plan_or_held ev.plan reasons
    lifecycle ← lifecycle_or_new ev.lifecycle plan
    signal_assembly_report (record {
      symbol = request.symbol;
      setup_type = request.setup_type;
      status = ev.status;
      assembled_at = now;
      discovery_records = request.discovery_records;
      higher_timeframe = request.higher_timeframe;
      gates = gates;
      reasons = reasons;
      plan = plan;
      lifecycle = lifecycle;
      structure = ev.structure;
      setup = ev.setup;
      flow = ev.flow;
      lbank_validation = ev.lbank_validation;
      consensus = ev.consensus;
      entry_deviation_bps = ev.entry_deviation;
    })

  unfoldable pub assemble_signal : Result (SignalAssemblyReport D F)
  assemble_signal = do require_aware now "now"; ev ← evaluate; finish ev
