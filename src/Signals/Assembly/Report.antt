-- ===== src/Signals/Assembly/Report.antt =====
-- app/signals/service.py: what an assembled report says.
use dumpectorist.Prelude.{
  ◌≡◌, ◌≢◌, ◌⊎◌, String, List, Option, none, some, arith, refl, sym, ap, ◌∙◌, inl, inr,
}
use dumpectorist.Prelude.Int.{ℤ}
use dumpectorist.Prelude.Number.{Num}
use dumpectorist.Prelude.Result.{ok, >>=-eq-ok, ok_injective}
use dumpectorist.Prelude.Time.{Datetime, require_aware}
use dumpectorist.Planning.{PlanStatus, PlanDraft, held_plan}
use dumpectorist.Lifecycle.{LifecycleRecord, LifecycleState, create_lifecycle}
use dumpectorist.Signals.Models.{
  SignalAssemblyStatus, SignalAssemblyRules, SignalAssemblyRequest, SignalAssemblyReport,
  signal_assembly_report,
}
use dumpectorist.Signals.Assembly.{
  Evaluation, complete_gates, all_reasons, plan_or_held, lifecycle_or_new, finish, evaluate,
  assemble_signal,
}
use dumpectorist.Signals.Assembly.Stops.{IsBlocked}
use dumpectorist.Signals.Assembly.Outcome.{IsReady, evaluate-IsOutcome}

create_state :
    {F : Type 0} (p : PlanDraft F) (now : Datetime) (ttl : ℤ) {l : LifecycleRecord}
    → create_lifecycle p now ttl ≡ ok l
    → (p.status ≡ PlanStatus.ready → l.state ≡ LifecycleState.active)
      × (p.status ≡ PlanStatus.hold → l.state ≡ LifecycleState.pending)
unfolding create_lifecycle
create_state p now ttl h = ground arith

held_status :
    {F : Type 0} (flt : Num F) (symbol : String) (notes : List String) {p : PlanDraft F}
    → held_plan flt symbol notes ≡ ok p
    → p.status ≡ PlanStatus.hold
unfolding held_plan
held_status flt symbol notes h = ground arith

report_same :
    {D F : Type 0} (r : SignalAssemblyReport D F) {r' : SignalAssemblyReport D F}
    → signal_assembly_report r ≡ ok r'
    → r ≡ r'
unfolding signal_assembly_report
report_same r h = ground arith

module _ {D F : Type 0} (dec : Num D) (flt : Num F) (exact : F → D)
    (request : SignalAssemblyRequest D F) (now : Datetime) (rules : SignalAssemblyRules D F) where
  -- The report's fields, from the evaluation that was finished.
  pub record Finished (ev : Evaluation D F) (report : SignalAssemblyReport D F) : Type 0 where
    pub status : report.status ≡ ev.status
    pub gates : report.gates ≡ complete_gates dec flt exact request now rules ev.gates
    pub plan :
        plan_or_held dec flt exact request now rules ev.plan
          (all_reasons dec flt exact request now rules report.gates)
        ≡ ok report.plan
    pub lifecycle :
        lifecycle_or_new dec flt exact request now rules ev.lifecycle report.plan
        ≡ ok report.lifecycle

  pub finish-Finished :
      (ev : Evaluation D F) {report : SignalAssemblyReport D F}
      → finish dec flt exact request now rules ev ≡ ok report
      → Finished ev report
  unfolding finish
  finish-Finished ev h =
      let gates = complete_gates dec flt exact request now rules ev.gates in
      let reasons = all_reasons dec flt exact request now rules gates in
      let (p, planned, h₁) =
        >>=-eq-ok (plan_or_held dec flt exact request now rules ev.plan reasons) _ h in
      let (l, living, h₂) =
        >>=-eq-ok (lifecycle_or_new dec flt exact request now rules ev.lifecycle p) _ h₁ in
      rw (← report_same _ h₂)
        (record { status = refl; gates = refl; plan = planned; lifecycle = living })

  finish_ready :
      (ev : Evaluation D F) (report : SignalAssemblyReport D F)
      → IsReady dec flt exact request now rules ev
      → Finished ev report
      → (report.plan.status ≡ PlanStatus.ready) × (report.lifecycle.state ≡ LifecycleState.active)
  finish_ready ev report r f =
      let (p, planned, ready, l, living, created) = r.plan in
      let same : p ≡ report.plan = ok_injective (
        ap
          (λ o.
            plan_or_held dec flt exact request now rules o
              (all_reasons dec flt exact request now rules report.gates))
          (sym planned)
        ∙ f.plan) in
      let alive : l ≡ report.lifecycle = ok_injective (
        ap (λ o. lifecycle_or_new dec flt exact request now rules o report.plan) (sym living)
        ∙ f.lifecycle) in
      (
        ap (λ (q : PlanDraft F). q.status) (sym same) ∙ ready,
        ap (λ (q : LifecycleRecord). q.state) (sym alive)
            ∙ (create_state p now rules.lifecycle_ttl_minutes created).0 ready,
      )

  plan_held :
      (o : Option (PlanDraft F)) (notes : List String) {p : PlanDraft F}
      → ((q : PlanDraft F) → o ≡ some q → q.status ≡ PlanStatus.hold)
      → plan_or_held dec flt exact request now rules o notes ≡ ok p
      → p.status ≡ PlanStatus.hold
  plan_held none notes held h = held_status flt request.symbol _ h
  plan_held (some q) notes held h = rw (← ok_injective h) (held q refl)

  finish_blocked :
      (ev : Evaluation D F) (report : SignalAssemblyReport D F)
      → IsBlocked ev
      → Finished ev report
      → (report.plan.status ≡ PlanStatus.hold) × (report.lifecycle.state ≡ LifecycleState.pending)
  finish_blocked ev report b f =
      let held = plan_held ev.plan _ b.plan f.plan in
      (
        held,
        (create_state report.plan now rules.lifecycle_ttl_minutes (
              ap (λ o. lifecycle_or_new dec flt exact request now rules o report.plan)
                (sym b.lifecycle)
              ∙ f.lifecycle)).1
            held,
      )

  -- The plan and the lifecycle of a report go with its status: a `SHORT_READY` report has a ready
  -- plan and an active lifecycle, and any other a held plan and a pending lifecycle.
  pub assemble-status :
      (report : SignalAssemblyReport D F)
      → assemble_signal dec flt exact request now rules ≡ ok report
      → ((report.status ≡ SignalAssemblyStatus.short_ready)
          × (report.plan.status ≡ PlanStatus.ready)
          × (report.lifecycle.state ≡ LifecycleState.active))
        ⊎ ((report.status ≢ SignalAssemblyStatus.short_ready)
            × (report.plan.status ≡ PlanStatus.hold)
            × (report.lifecycle.state ≡ LifecycleState.pending))
  unfolding assemble_signal
  assemble-status report h =
      let (_, _, h₁) = >>=-eq-ok (require_aware now "now") _ h in
      let (ev, run, h₂) = >>=-eq-ok (evaluate dec flt exact request now rules) _ h₁ in
      let f = finish-Finished ev h₂ in
      elim (evaluate-IsOutcome dec flt exact request now rules run) [
        | inl r ↦ inl (let g = finish_ready ev report r f in (f.status ∙ r.status, g.0, g.1))
        | inr b ↦
            inr
              (let g = finish_blocked ev report b f in (λ e. b.status (sym f.status ∙ e), g.0, g.1))
      ]
