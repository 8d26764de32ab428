-- ===== src/Planning/Ready.antt =====
-- app/planning/service.py: what a plan made of a ready flow holds, and when one is made.
use dumpectorist.Prelude.{[], ◌∷◌, true, false, ◌≡◌, ◌⊎◌, none, some, String, arith}
use dumpectorist.Prelude.Int.{pos, ◌≤ℤ◌}
use dumpectorist.Prelude.Number.{Num}
use dumpectorist.Prelude.Result.{ok}
use dumpectorist.Prelude.Text.{strip, is_blank, strip_idem}
use dumpectorist.Flow.{FlowResult, is_ready}
use dumpectorist.Planning.{
  PlanStatus, PlanDraft, PlanRequest, build_plan, ready_plan, held_plan, objective_of,
}

module _ {F : Type 0} (flt : Num F) where
  -- What `build_plan` asks of a request.
  pub record IsAcceptable (r : PlanRequest F) : Type 0 where
    pub named : is_blank (strip r.symbol) ≡ false
    pub entry_positive : flt.le r.entry_value (flt.lit 0 0) ≡ false
    pub boundary_positive : flt.le r.boundary_value (flt.lit 0 0) ≡ false
    pub boundary_above : flt.le r.boundary_value r.entry_value ≡ false
    pub ratio_positive : flt.le r.ratio (flt.lit 0 0) ≡ false
    pub multiplier_at_least : pos 1 ≤ℤ r.multiplier
    pub multiplier_at_most : r.multiplier ≤ℤ pos 5
    pub objective_positive : flt.le (objective_of flt r) (flt.lit 0 0) ≡ false

  -- The plan that the request describes.
  pub record IsShortPlan (r : PlanRequest F) (p : PlanDraft F) : Type 0 where
    pub symbol : p.symbol ≡ strip r.symbol
    pub status : p.status ≡ PlanStatus.ready
    pub entry : p.entry_value ≡ some r.entry_value
    pub boundary : p.boundary_value ≡ some r.boundary_value
    pub objective : p.objective_value ≡ some (objective_of flt r)
    pub multiplier : p.multiplier ≡ r.multiplier
    pub ratio : p.ratio ≡ r.ratio

  pub record IsHeldPlan (p : PlanDraft F) : Type 0 where
    pub status : p.status ≡ PlanStatus.hold
    pub entry : p.entry_value ≡ none
    pub boundary : p.boundary_value ≡ none
    pub objective : p.objective_value ≡ none
    pub multiplier : p.multiplier ≡ pos 1

  ready_plan_sound :
      (r : PlanRequest F) {p : PlanDraft F}
      → ready_plan flt r ≡ ok p
      → IsAcceptable r × IsShortPlan r p
  unfolding ready_plan
  ready_plan_sound r h = (ground arith, ground (arith, strip_idem r.symbol))

  held_plan_sound :
      (r : PlanRequest F) {p : PlanDraft F} (s : String)
      → held_plan flt r.symbol (s ∷ []) ≡ ok p
      → IsHeldPlan p
  unfolding held_plan
  held_plan_sound r s h = ground arith

  -- A plan is returned in two cases only. Where the flow is ready, the request was acceptable
  -- (positive entry, boundary above entry, positive ratio, multiplier from 1 to 5, positive
  -- objective) and the plan is ready, with the request's stripped symbol, its entry, boundary,
  -- multiplier and ratio, and the objective computed from them; otherwise the plan is held, has no
  -- prices, and its multiplier is 1.
  pub build_plan_sound :
      (flow : FlowResult) (r : PlanRequest F) {p : PlanDraft F}
      → build_plan flt flow r ≡ ok p
      → ((is_ready flow ≡ true) × IsAcceptable r × IsShortPlan r p)
        ⊎ ((is_ready flow ≡ false) × IsHeldPlan p)
  unfolding build_plan
  build_plan_sound flow r {p} h =
      ground (arith, ready_plan_sound r {p = p}, held_plan_sound r {p = p} "flow is not ready")

  -- Every request with finite numbers that is acceptable gets its ready plan from a ready flow,
  -- if the objective is finite as well.
  pub build_plan_complete :
      (flow : FlowResult) (r : PlanRequest F)
      → is_ready flow ≡ true
      → IsAcceptable r
      → flt.is_finite r.entry_value ≡ true
      → flt.is_finite r.boundary_value ≡ true
      → flt.is_finite r.ratio ≡ true
      → flt.is_finite (objective_of flt r) ≡ true
      → (p : PlanDraft F) × (build_plan flt flow r ≡ ok p) × IsShortPlan r p
  unfolding build_plan ready_plan
  build_plan_complete flow r ready a fe fb fr fo = (
    record {
      symbol = strip (strip r.symbol);
      status = PlanStatus.ready;
      entry_value = some r.entry_value;
      boundary_value = some r.boundary_value;
      objective_value = some (objective_of flt r);
      multiplier = r.multiplier;
      ratio = r.ratio;
      notes = "plan created" ∷ [];
    },
    grind (arith, strip_idem),
    ground (arith, strip_idem r.symbol),
  )
