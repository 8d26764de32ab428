-- ===== src/Signals/Assembly/Outcome.antt =====
-- app/signals/service.py: what the evaluation of the gates ends in. Each stage is followed from the
-- facts that hold before it.
use dumpectorist.Prelude.{
  true, false, ◌≡◌, ◌≢◌, ◌⊎◌, [], none, some, arith, refl, Bool-cases, inl, inr, length,
}
use dumpectorist.Prelude.Int.{pos, ◌≤ℤ◌}
use dumpectorist.Prelude.Number.{Num}
use dumpectorist.Prelude.Result.{Result, ok, err, >>=-eq-ok, ok_injective}
use dumpectorist.Prelude.Time.{Datetime}
use dumpectorist.Structure.Analyzer.{StructureState, StructureSnapshot, analyze_structure}
use dumpectorist.Setups.Classifier.{is_actionable, classify_snapshot}
use dumpectorist.Flow.{FlowResult, is_ready, run_flow}
use dumpectorist.Planning.{PlanStatus, PlanDraft, build_plan}
use dumpectorist.Lifecycle.{LifecycleRecord, create_lifecycle}
use dumpectorist.Execution.Validator.{
  LBankExecutionStatus, LBankExecutionValidation, validate_lbank_execution,
}
use dumpectorist.Execution.Consensus.{
  CrossExchangeConsensusReport, build_cross_exchange_consensus, allows_execution_confirmation,
}
use dumpectorist.Signals.Models.{
  SignalAssemblyStatus, SignalAssemblyRules, SignalAssemblyRequest, passed,
}
use dumpectorist.Signals.Gates.{
  discovery_gate, symbol_gate, higher_timeframe_gate, entry_deviation_bps,
}
use dumpectorist.Signals.Assembly.{
  Evaluation, append_gate, nothing_yet, is_fail, is_alert, is_executable, is_ready_plan,
  consensus_gate_state, consensus_block_status, validation_status, watch_status, evaluate_lifecycle,
  after_plan, evaluate_entry, after_consensus, after_validation, after_structure,
  evaluate_timeframe, evaluate,
}
use dumpectorist.Signals.Assembly.Grounds.{
  IsAligned, IsGrounded, timeframe_verdict, discovery_verdict, symbol_verdict,
}
use dumpectorist.Signals.Assembly.Stops.{
  HasPassed, IsBlocked, append-HasPassed, append_names, stop-IsBlocked, any-append, no_plan,
}

module _ {D F : Type 0} (dec : Num D) (flt : Num F) (exact : F → D)
    (request : SignalAssemblyRequest D F) (now : Datetime) (rules : SignalAssemblyRules D F) where
  abbrev pub HasStructure : Evaluation D F → Type 0
  HasStructure ev =
      (s : StructureSnapshot F) × (ev.structure ≡ some s)
      × (analyze_structure flt request.structure_input ≡ ok s)
      × (s.state ≡ StructureState.alert)

  abbrev pub HasValidation : Evaluation D F → Type 0
  HasValidation ev =
      (v : LBankExecutionValidation F) × (ev.lbank_validation ≡ some v)
      × (validate_lbank_execution dec flt request.lbank_snapshot now rules.consensus.lbank_execution
          ≡ ok v)
      × (v.status ≡ LBankExecutionStatus.ok)

  abbrev pub HasConsensus : Evaluation D F → Type 0
  HasConsensus ev =
      (c : CrossExchangeConsensusReport D) × (ev.consensus ≡ some c)
      × (build_cross_exchange_consensus dec flt request.lbank_snapshot request.benchmark_snapshots
            request.symbol_map now rules.consensus
          ≡ ok c)
      × (allows_execution_confirmation c ≡ true)

  abbrev pub HasEntry : Evaluation D F → Type 0
  HasEntry ev =
      (d : D) × (ev.entry_deviation ≡ some d)
      × (entry_deviation_bps flt dec exact request ≡ ok d)
      × (dec.lt rules.max_entry_deviation_bps d ≡ false)

  abbrev pub HasPlan : Evaluation D F → Type 0
  HasPlan ev =
      (p : PlanDraft F) × (ev.plan ≡ some p)
      × (p.status ≡ PlanStatus.ready)
      × (l : LifecycleRecord) × (ev.lifecycle ≡ some l)
      × (create_lifecycle p now rules.lifecycle_ttl_minutes ≡ ok l)

  -- A run that ends in `SHORT_READY`: all eleven gates are there and have passed, and behind each
  -- stands its result.
  pub record IsReady (ev : Evaluation D F) : Type 0 where
    pub status : ev.status ≡ SignalAssemblyStatus.short_ready
    pub gates : HasPassed 11 ev.gates
    pub grounds : IsGrounded flt request now rules
    pub structure : HasStructure ev
    pub validation : HasValidation ev
    pub consensus : HasConsensus ev
    pub entry : HasEntry ev
    pub plan : HasPlan ev

  abbrev pub IsOutcome : Evaluation D F → Type 0
  IsOutcome ev = IsReady ev ⊎ IsBlocked ev

  -- Nothing but gates and results so far.
  abbrev IsOpen : Evaluation D F → Type 0
  IsOpen ev = (ev.lifecycle ≡ none) × (ev.plan ≡ none)

  lifecycle-IsOutcome :
      (ev : Evaluation D F) (p : PlanDraft F) {out : Evaluation D F}
      → HasPassed 10 ev.gates
      → IsGrounded flt request now rules
      → HasStructure ev
      → HasValidation ev
      → HasConsensus ev
      → HasEntry ev
      → ev.plan ≡ some p
      → p.status ≡ PlanStatus.ready
      → evaluate_lifecycle dec flt exact request now rules ev p ≡ ok out
      → IsReady out
  unfolding evaluate_lifecycle
  lifecycle-IsOutcome ev p g dm st va co en e r h =
      let (l, made, done) = >>=-eq-ok (create_lifecycle p now rules.lifecycle_ttl_minutes) _ h in
      rw (← ok_injective done) (record {
        status = refl;
        gates = append-HasPassed 10 ev.gates "lifecycle" _ g refl refl;
        grounds = dm;
        structure = st;
        validation = va;
        consensus = co;
        entry = en;
        plan = (p, e, r, l, refl, made);
      })

  plan-IsOutcome :
      (ev : Evaluation D F) (made : Result (PlanDraft F)) {out : Evaluation D F}
      → HasPassed 9 ev.gates
      → IsOpen ev
      → IsGrounded flt request now rules
      → HasStructure ev
      → HasValidation ev
      → HasConsensus ev
      → HasEntry ev
      → after_plan dec flt exact request now rules ev made ≡ ok out
      → IsOutcome out
  unfolding after_plan
  plan-IsOutcome ev (err e) g op dm st va co en h = rw (← ok_injective h) (
      inr (
        stop-IsBlocked 9 ev "planning" _ SignalAssemblyStatus.data_degraded g refl refl (λ e. cc)
          op.0 (no_plan op.1)))
  plan-IsOutcome ev (ok p) g op dm st va co en h = elim (Bool-cases (is_ready_plan p.status)) [
    | inl ready ↦ inl (
        lifecycle-IsOutcome _ p (append-HasPassed 9 ev.gates "planning" _ g refl refl) dm st va co
          en refl (ground arith) (rw ready at h))
    | inr held ↦ rw (← ok_injective (rw held at h)) (
        inr (
          stop-IsBlocked 9 (record ev { plan = some p }) "planning" _
            SignalAssemblyStatus.data_degraded g refl refl (λ e. cc) op.0 (λ q e. ground arith)))
  ]

  entry-IsOutcome :
      (ev : Evaluation D F) (flow : FlowResult) {out : Evaluation D F}
      → HasPassed 8 ev.gates
      → IsOpen ev
      → IsGrounded flt request now rules
      → HasStructure ev
      → HasValidation ev
      → HasConsensus ev
      → evaluate_entry dec flt exact request now rules ev flow ≡ ok out
      → IsOutcome out
  unfolding evaluate_entry
  entry-IsOutcome ev flow g op dm st va co h =
      let (d, found, h') = >>=-eq-ok (entry_deviation_bps flt dec exact request) _ h in
      elim (Bool-cases (dec.lt rules.max_entry_deviation_bps d)) [
        | inl far ↦ rw (← ok_injective (rw far at h')) (
            inr (
              stop-IsBlocked 8 (record ev { entry_deviation = some d }) "entry_alignment" _
                SignalAssemblyStatus.execution_pending g refl refl (λ e. cc) op.0 (no_plan op.1)))
        | inr near ↦
            plan-IsOutcome _ (build_plan flt flow request.plan_request)
              (append-HasPassed 8 ev.gates "entry_alignment" _ g refl refl) op dm st va co
              (d, refl, found, near) (rw near at h')
      ]

  consensus_passes :
      (c : CrossExchangeConsensusReport D)
      → (allows_execution_confirmation c ≡ true → passed (consensus_gate_state c.status) ≡ true)
        × (allows_execution_confirmation c ≡ false
            → (is_fail (consensus_gate_state c.status) ≡ true)
              × (consensus_block_status c.status ≢ SignalAssemblyStatus.short_ready))
  unfolding allows_execution_confirmation
  consensus_passes c = ground arith

  consensus-IsOutcome :
      (ev : Evaluation D F) (flow : FlowResult) (built : Result (CrossExchangeConsensusReport D))
      {out : Evaluation D F}
      → build_cross_exchange_consensus dec flt request.lbank_snapshot request.benchmark_snapshots
          request.symbol_map now rules.consensus
        ≡ built
      → HasPassed 7 ev.gates
      → IsOpen ev
      → IsGrounded flt request now rules
      → HasStructure ev
      → HasValidation ev
      → after_consensus dec flt exact request now rules ev flow built ≡ ok out
      → IsOutcome out
  unfolding after_consensus
  consensus-IsOutcome ev flow (err e) b g op dm st va h = rw (← ok_injective h) (
      inr (
        stop-IsBlocked 7 ev "cross_exchange_consensus" _ SignalAssemblyStatus.data_degraded g refl
          refl (λ e. cc) op.0 (no_plan op.1)))
  consensus-IsOutcome ev flow (ok c) b g op dm st va h =
      elim (Bool-cases (allows_execution_confirmation c)) [
        | inl yes_go ↦
            entry-IsOutcome _ flow
              (append-HasPassed 7 ev.gates "cross_exchange_consensus" _ g refl
                ((consensus_passes c).0 yes_go))
              op dm st va (c, refl, b, yes_go) (rw yes_go at h)
        | inr no_go ↦ rw (← ok_injective (rw no_go at h)) (
            inr (
              stop-IsBlocked 7 (record ev { consensus = some c }) "cross_exchange_consensus" _
                (consensus_block_status c.status) g refl ((consensus_passes c).1 no_go).0
                ((consensus_passes c).1 no_go).1 op.0 (no_plan op.1)))
      ]

  validation_passes :
      (s : LBankExecutionStatus)
      → ((is_executable s ≡ true) → s ≡ LBankExecutionStatus.ok)
        × (is_executable s ≡ false → validation_status s ≢ SignalAssemblyStatus.short_ready)
  validation_passes s = ground arith

  validation-IsOutcome :
      (ev : Evaluation D F) (flow : FlowResult) (made : Result (LBankExecutionValidation F))
      {out : Evaluation D F}
      → validate_lbank_execution dec flt request.lbank_snapshot now rules.consensus.lbank_execution
        ≡ made
      → HasPassed 6 ev.gates
      → IsOpen ev
      → IsGrounded flt request now rules
      → HasStructure ev
      → after_validation dec flt exact request now rules ev flow made ≡ ok out
      → IsOutcome out
  unfolding after_validation
  validation-IsOutcome ev flow (err e) b g op dm st h = rw (← ok_injective h) (
      inr (
        stop-IsBlocked 6 ev "lbank_execution" _ SignalAssemblyStatus.data_degraded g refl refl
          (λ e. cc) op.0 (no_plan op.1)))
  validation-IsOutcome ev flow (ok v) b g op dm st h = elim (Bool-cases (is_executable v.status)) [
    | inl good ↦
        consensus-IsOutcome _ flow _ refl
          (append-HasPassed 6 ev.gates "lbank_execution" _ g refl refl) op dm st
          (v, refl, b, (validation_passes v.status).0 good) (rw good at h)
    | inr bad ↦ rw (← ok_injective (rw bad at h)) (
        inr (
          stop-IsBlocked 6 (record ev { lbank_validation = some v }) "lbank_execution" _
            (validation_status v.status) g refl refl ((validation_passes v.status).1 bad) op.0
            (no_plan op.1)))
  ]

  flow_of_alert :
      (s : StructureSnapshot F) → is_ready (run_flow (classify_snapshot s)) ≡ is_alert s.state
  unfolding run_flow classify_snapshot is_ready
  flow_of_alert s = ground arith

  setup_of_alert :
      (s : StructureSnapshot F) → is_actionable (classify_snapshot s) ≡ is_alert s.state
  unfolding classify_snapshot is_actionable
  setup_of_alert s = ground arith

  alert_only : (s : StructureState) → is_alert s ≡ true → s ≡ StructureState.alert
  alert_only s h = ground arith

  watch_not_ready : (s : StructureState) → watch_status s ≢ SignalAssemblyStatus.short_ready
  unfolding watch_status
  watch_not_ready s = ground arith

  structure-IsOutcome :
      (ev : Evaluation D F) (made : Result (StructureSnapshot F)) {out : Evaluation D F}
      → analyze_structure flt request.structure_input ≡ made
      → HasPassed 3 ev.gates
      → IsOpen ev
      → IsGrounded flt request now rules
      → after_structure dec flt exact request now rules ev made ≡ ok out
      → IsOutcome out
  unfolding after_structure
  structure-IsOutcome ev (err e) b g op dm h = rw (← ok_injective h) (
      inr (
        stop-IsBlocked 3 ev "structure" _ SignalAssemblyStatus.data_degraded g refl refl (λ e. cc)
          op.0 (no_plan op.1)))
  structure-IsOutcome ev (ok s) b g op dm h = elim (Bool-cases (is_alert s.state)) [
    | inl alert ↦
        validation-IsOutcome _ (run_flow (classify_snapshot s)) _ refl
          (append-HasPassed 5 _ "flow" _
            (append-HasPassed 4 _ "setup_classification" _
              (append-HasPassed 3 ev.gates "structure" _ g refl refl) refl refl)
            refl refl)
          op dm (s, refl, b, alert_only s.state alert)
          (rw (flow_of_alert s, setup_of_alert s, alert) at h)
    | inr calm ↦ rw (← ok_injective (rw (flow_of_alert s, setup_of_alert s, calm) at h)) (
        inr (record {
          status = watch_not_ready s.state;
          count = 6;
          names =
              append_names 5 _ "flow" _
                (append_names 4 _ "setup_classification" _
                  (append_names 3 ev.gates "structure" _ g.0 refl) refl)
                refl;
          failure = any-append _ _ refl;
          lifecycle = op.0;
          plan = no_plan op.1;
        }))
  ]

  timeframe-IsOutcome :
      (ev : Evaluation D F) {out : Evaluation D F}
      → HasPassed 2 ev.gates
      → IsOpen ev
      → pos (length request.discovery_records) ≤ℤ rules.max_discovery_records
      → IsAligned flt request now rules
      → evaluate_timeframe dec flt exact request now rules ev ≡ ok out
      → IsOutcome out
  unfolding evaluate_timeframe
  timeframe-IsOutcome ev g op discovered aligned h =
      let (gate, found, h') = >>=-eq-ok (higher_timeframe_gate flt request now rules) _ h in
      elim (timeframe_verdict flt request now rules gate found) [
        | inl (good, dm) ↦
            structure-IsOutcome _ _ refl
              (append-HasPassed 2 ev.gates "higher_timeframe_structure" _ g refl good) op
              (record { discovered = discovered; aligned = aligned; damaged = dm }) (rw good at h')
        | inr (bad, stops, other) ↦ rw (← ok_injective (rw stops at h')) (
            inr (
              stop-IsBlocked 2 ev "higher_timeframe_structure" _ gate.1 g refl bad other op.0
                (no_plan op.1)))
      ]

  -- An evaluation that returns ends in one of two ways. Either it is `SHORT_READY`: all eleven gates
  -- are there in order and have passed, there are no more discovery records than allowed, every
  -- part of the request is about its symbol, both higher timeframes are damaged and the evidence is
  -- neither more than a second from the future nor older than allowed, the structure is at ALERT, the LBank validation is OK, the consensus confirms, the entry is near enough, and there
  -- are a ready plan and its lifecycle. Or it has another status: the gates are the first few of
  -- the order, one of them failed, there is no lifecycle, and no plan but a held one.
  pub evaluate-IsOutcome :
      {out : Evaluation D F} → evaluate dec flt exact request now rules ≡ ok out → IsOutcome out
  unfolding evaluate
  evaluate-IsOutcome h = elim (discovery_verdict flt request now rules) [
    | inl bad ↦ rw (← ok_injective (rw bad at h)) (
        inr (
          stop-IsBlocked 0 nothing_yet "discovery_context" _ SignalAssemblyStatus.data_degraded
            (refl, tt) refl bad (λ e. cc) refl (no_plan refl)))
    | inr (on, good, discovered) ↦
        let g₁ : HasPassed 1
            (append_gate (nothing_yet {D = D} {F = F}) "discovery_context"
              (discovery_gate request rules)).gates =
          append-HasPassed 0 [] "discovery_context" (discovery_gate request rules) (refl, tt) refl
            good in
        elim (symbol_verdict flt request now rules) [
          | inl (passes, aligned) ↦
              timeframe-IsOutcome _
                (append-HasPassed 1
                  (append_gate (nothing_yet {D = D} {F = F}) "discovery_context"
                    (discovery_gate request rules)).gates
                  "symbol_alignment" (symbol_gate request) g₁ refl passes)
                (refl, refl) discovered aligned (rw (on, passes) at h)
          | inr (off, bad) ↦ rw (← ok_injective (rw (on, off) at h)) (
              inr (
                stop-IsBlocked 1
                  (append_gate nothing_yet "discovery_context" (discovery_gate request rules))
                  "symbol_alignment" _ SignalAssemblyStatus.data_degraded g₁ refl bad (λ e. cc) refl
                  (no_plan refl)))
        ]
  ]
