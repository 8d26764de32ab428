-- ===== src/Planning.antt =====
-- app/planning: the plan drawn from a ready flow.
pub mod Ready
use dumpectorist.Prelude.{Bool, ◌||◌, String, List, [], ◌∷◌, Option, none, some, not, if◌then◌else◌}
use dumpectorist.Prelude.Int.{ℤ, pos, ltb_ℤ}
use dumpectorist.Prelude.Number.{Num}
use dumpectorist.Prelude.Result.{Result, ok, err, value_error, raise_if, ◌>>=◌, ◌>>◌}
use dumpectorist.Prelude.Text.{strip, is_blank}
use dumpectorist.Numbers.{finite_float}
use dumpectorist.Flow.{FlowResult, is_ready}

pub data PlanStatus : Type 0 where
  hold ready : PlanStatus

pub record PlanDraft (F : Type 0) : Type 0 where
  pub symbol : String
  pub status : PlanStatus
  pub entry_value : Option F
  pub boundary_value : Option F
  pub objective_value : Option F
  pub multiplier : ℤ
  pub ratio : F
  pub notes : List String

pub record PlanRequest (F : Type 0) : Type 0 where
  pub symbol : String
  pub entry_value : F
  pub boundary_value : F
  pub multiplier : ℤ
  pub ratio : F

unfoldable pub multiplier_out_of_range : ℤ → Bool
multiplier_out_of_range m = ltb_ℤ m (pos 1) || ltb_ℤ (pos 5) m

module _ {F : Type 0} (flt : Num F) where
  -- `finite_float(value, name=name) if value is not None else None`
  unfoldable pub optional_finite : Option F → String → Result (Option F)
  unfolding finite_float
  optional_finite none name = ok none
  optional_finite (some v) name = do parsed ← finite_float flt v name; ok (some parsed)

  -- `PlanDraft.__post_init__`
  unfoldable pub plan_draft : PlanDraft F → Result (PlanDraft F)
  unfolding optional_finite multiplier_out_of_range finite_float
  plan_draft p = do
    let symbol = strip p.symbol
    raise_if (is_blank symbol) (value_error "symbol is required")
    raise_if (multiplier_out_of_range p.multiplier)
        (value_error "multiplier must be between 1 and 5")
    ratio ← finite_float flt p.ratio "ratio"
    entry ← optional_finite p.entry_value "entry_value"
    boundary ← optional_finite p.boundary_value "boundary_value"
    objective ← optional_finite p.objective_value "objective_value"
    ok (record p {
      symbol = symbol;
      ratio = ratio;
      entry_value = entry;
      boundary_value = boundary;
      objective_value = objective;
    })

  -- `PlanRequest.__post_init__`
  unfoldable pub plan_request : PlanRequest F → Result (PlanRequest F)
  unfolding finite_float
  plan_request r = do
    let symbol = strip r.symbol
    raise_if (is_blank symbol) (value_error "symbol is required")
    entry ← finite_float flt r.entry_value "entry_value"
    boundary ← finite_float flt r.boundary_value "boundary_value"
    ratio ← finite_float flt r.ratio "ratio"
    ok (record r { symbol = symbol; entry_value = entry; boundary_value = boundary; ratio = ratio })

  -- `PlanDraft(symbol=…, status=HOLD, notes=…)`: the other fields are the class's defaults.
  unfoldable pub held_plan : String → List String → Result (PlanDraft F)
  unfolding plan_draft
  held_plan symbol notes = plan_draft (record {
    symbol = symbol;
    status = PlanStatus.hold;
    entry_value = none;
    boundary_value = none;
    objective_value = none;
    multiplier = pos 1;
    ratio = flt.lit 2 0;
    notes = notes;
  })

  unfoldable pub objective_of : PlanRequest F → F
  objective_of r = flt.sub r.entry_value (flt.mul (flt.sub r.boundary_value r.entry_value) r.ratio)

  unfoldable pub ready_plan : PlanRequest F → Result (PlanDraft F)
  unfolding plan_draft objective_of multiplier_out_of_range
  ready_plan r = do
    let zero_value = flt.lit 0 0
    let symbol = strip r.symbol
    raise_if (is_blank symbol) (value_error "symbol is required")
    raise_if (flt.le r.entry_value zero_value || flt.le r.boundary_value zero_value)
        (value_error "plan values must be positive")
    raise_if (flt.le r.boundary_value r.entry_value) (value_error "boundary must be above entry")
    raise_if (flt.le r.ratio zero_value) (value_error "ratio must be positive")
    raise_if (multiplier_out_of_range r.multiplier)
        (value_error "multiplier must be between 1 and 5")
    raise_if (flt.le (objective_of r) zero_value) (value_error "objective must remain positive")
    plan_draft (record {
      symbol = symbol;
      status = PlanStatus.ready;
      entry_value = some r.entry_value;
      boundary_value = some r.boundary_value;
      objective_value = some (objective_of r);
      multiplier = r.multiplier;
      ratio = r.ratio;
      notes = "plan created" ∷ [];
    })

  unfoldable pub build_plan : FlowResult → PlanRequest F → Result (PlanDraft F)
  build_plan flow r =
      if not (is_ready flow) then held_plan r.symbol ("flow is not ready" ∷ []) else ready_plan r
