-- ===== src/Backtest/Plans.antt =====
-- A plan that app/planning/service.py makes ready, replayed by app/backtest/runner.py.
use dumpectorist.Prelude.{true, false, ◌≡◌, List, some, arith, refl}
use dumpectorist.Prelude.Number.{Num, NumLaws}
use dumpectorist.Prelude.Result.{ok}
use dumpectorist.Prelude.Text.{strip, is_blank, strip_idem}
use dumpectorist.Numbers.{finite_float}
use dumpectorist.Flow.{FlowResult, is_ready}
use dumpectorist.Planning.{
  PlanStatus, PlanDraft, PlanRequest, build_plan, ready_plan, plan_draft, optional_finite,
  objective_of, multiplier_out_of_range,
}
use dumpectorist.Backtest.{
  IntrabarPolicy, HistoricalBar, BacktestResult, Levels, validate_levels, validate_plan,
  validate_bars, run_backtest,
}
use dumpectorist.Backtest.Replay.{run_backtest-total}

module _ {F : Type 0} (flt : Num F) where
  -- What a ready plan is known to hold.
  record IsDrawn (r : PlanRequest F) (p : PlanDraft F) : Type 0 where
    status : p.status ≡ PlanStatus.ready
    named : is_blank p.symbol ≡ false
    trimmed : strip p.symbol ≡ p.symbol
    entry : p.entry_value ≡ some r.entry_value
    boundary : p.boundary_value ≡ some r.boundary_value
    objective : p.objective_value ≡ some (objective_of flt r)
    multiplier : multiplier_out_of_range p.multiplier ≡ false
    entry_finite : flt.is_finite r.entry_value ≡ true
    boundary_finite : flt.is_finite r.boundary_value ≡ true
    objective_finite : flt.is_finite (objective_of flt r) ≡ true
    boundary_above : flt.le r.boundary_value r.entry_value ≡ false
    objective_positive : flt.le (objective_of flt r) (flt.lit 0 0) ≡ false

  plan_draft-trimmed :
      (q : PlanDraft F) {p : PlanDraft F}
      → plan_draft flt q ≡ ok p
      → (is_blank p.symbol ≡ false) × (p.symbol ≡ strip q.symbol)
  unfolding plan_draft
  plan_draft-trimmed q h = (ground arith, ground arith)

  ready_plan-IsDrawn : (r : PlanRequest F) {p : PlanDraft F} → ready_plan flt r ≡ ok p → IsDrawn r p
  unfolding ready_plan plan_draft optional_finite finite_float multiplier_out_of_range
  ready_plan-IsDrawn r h = record {
    status = ground arith;
    named = ground arith;
    trimmed = grind (arith, strip_idem);
    entry = ground arith;
    boundary = ground arith;
    objective = ground arith;
    multiplier = ground arith;
    entry_finite = ground arith;
    boundary_finite = ground arith;
    objective_finite = ground arith;
    boundary_above = ground arith;
    objective_positive = ground arith;
  }

  abbrev levels_of : PlanRequest F → Levels F
  levels_of r = record {
    entry = r.entry_value;
    boundary = r.boundary_value;
    objective = objective_of flt r;
  }

  validate_plan-IsDrawn :
      (laws : NumLaws flt) (r : PlanRequest F) {p : PlanDraft F}
      → IsDrawn r p
      → flt.lt (objective_of flt r) r.entry_value ≡ true
      → validate_plan flt p ≡ ok (levels_of r)
  unfolding validate_plan validate_levels
  validate_plan-IsDrawn laws r {p} d below =
      let above = laws.lt_of_not-le _ _ d.boundary_finite d.entry_finite d.boundary_above in
      let positive =
        laws.lt_of_not-le _ _ d.objective_finite laws.zero_finite d.objective_positive in
      rw
        (
          d.status, d.trimmed, d.named, d.entry, d.boundary, d.objective, d.entry_finite,
          d.boundary_finite, d.objective_finite, above, positive, below, d.multiplier,
        )
        refl

  -- A plan that a ready flow yields can be replayed over any valid bars, under either policy, if
  -- the laws of comparison hold and the objective that was computed is below the entry (rounding
  -- did not take the distance away).
  pub build_plan-run_backtest :
      (laws : NumLaws flt) (flow : FlowResult) (r : PlanRequest F) (bars : List (HistoricalBar F))
      (policy : IntrabarPolicy) {p : PlanDraft F} {u : Unit {0}}
      → is_ready flow ≡ true
      → build_plan flt flow r ≡ ok p
      → flt.lt (objective_of flt r) r.entry_value ≡ true
      → validate_bars flt bars ≡ ok u
      → (result : BacktestResult F) × (run_backtest flt
            (record { plan = p; bars = bars; policy = policy })
          ≡ ok result)
  unfolding build_plan
  build_plan-run_backtest laws flow r bars policy {p} ready h below valid =
      run_backtest-total flt (record { plan = p; bars = bars; policy = policy })
        (validate_plan-IsDrawn laws r (ready_plan-IsDrawn r (rw (build_plan, ready) at h)) below)
        valid
