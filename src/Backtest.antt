-- ===== src/Backtest.antt =====
-- app/backtest: replaying a ready plan over historical bars.
pub mod Touches
pub mod Replay
pub mod Plans
pub mod Metrics
use dumpectorist.Prelude.{
  Bool, true, false, not, ◌&&◌, ◌||◌, ℕ, ◌+◌, String, List, [], ◌∷◌, Option, none, some, length,
  get_last?, all, any, is_empty, if◌then◌else◌,
}
use dumpectorist.Prelude.Int.{ℤ}
use dumpectorist.Prelude.Number.{Num}
use dumpectorist.Prelude.Result.{Result, ok, err, value_error, type_error, raise_if, ◌>>=◌, ◌>>◌}
use dumpectorist.Prelude.Text.{strip, is_blank}
use dumpectorist.Prelude.Time.{Datetime, require_aware, not_after}
use dumpectorist.Planning.{PlanStatus, PlanDraft, multiplier_out_of_range}

pub data BacktestOutcome : Type 0 where
  target stopped expired : BacktestOutcome

pub data IntrabarPolicy : Type 0 where
  conservative optimistic : IntrabarPolicy

pub record HistoricalBar (F : Type 0) : Type 0 where
  pub timestamp : Datetime
  pub open_value : F
  pub high_value : F
  pub low_value : F
  pub close_value : F

pub record BacktestCase (F : Type 0) : Type 0 where
  pub plan : PlanDraft F
  pub bars : List (HistoricalBar F)
  pub policy : IntrabarPolicy

pub record BacktestResult (F : Type 0) : Type 0 where
  pub symbol : String
  pub outcome : BacktestOutcome
  pub exit_at : Datetime
  pub exit_value : F
  pub bars_processed : ℕ
  pub price_return_pct : F
  pub leveraged_return_pct : F
  pub same_bar_conflict : Bool

-- The values that `_validate_plan` returns.
pub record Levels (F : Type 0) : Type 0 where
  pub entry : F
  pub boundary : F
  pub objective : F

-- What ends a replay: the arguments that each return gives to `_build_result`.
pub record Exit (F : Type 0) : Type 0 where
  pub outcome : BacktestOutcome
  pub exit_at : Datetime
  pub exit_value : F
  pub bars_processed : ℕ
  pub same_bar_conflict : Bool

abbrev pub is_ready_status : PlanStatus → Bool
is_ready_status PlanStatus.ready = true
is_ready_status PlanStatus.hold = false

abbrev pub require_later : Option Datetime → Datetime → Result (Unit {0})
require_later none t = ok tt
require_later (some previous) t = do
  late ← not_after t previous
  raise_if late (value_error "historical bars must be strictly chronological")

module _ {F : Type 0} where
  abbrev pub all_given : Option F → Option F → Option F → Option (Levels F)
  all_given (some e) (some b) (some o) = some (record { entry = e; boundary = b; objective = o })
  all_given none b o = none
  all_given (some e) none o = none
  all_given (some e) (some b) none = none

  abbrev pub plan_values : PlanDraft F → Option (Levels F)
  plan_values p = all_given p.entry_value p.boundary_value p.objective_value

  abbrev pub bar_values : HistoricalBar F → List F
  bar_values b = b.open_value ∷ b.high_value ∷ b.low_value ∷ b.close_value ∷ []

  abbrev pub exit_on : HistoricalBar F → ℕ → BacktestOutcome → F → Bool → Exit F
  exit_on b index outcome value conflict = record {
    outcome = outcome;
    exit_at = b.timestamp;
    exit_value = value;
    bars_processed = index;
    same_bar_conflict = conflict;
  }

  abbrev pub conflict_exit : Levels F → IntrabarPolicy → HistoricalBar F → ℕ → Exit F
  conflict_exit v IntrabarPolicy.optimistic b i =
      exit_on b i BacktestOutcome.target v.objective true
  conflict_exit v IntrabarPolicy.conservative b i =
      exit_on b i BacktestOutcome.stopped v.boundary true

module _ {F : Type 0} (flt : Num F) where
  unfoldable pub validate_levels : ℤ → Option (Levels F) → Result (Levels F)
  validate_levels multiplier none = err (value_error "ready plan is missing required values")
  validate_levels multiplier (some v) = do
    raise_if (not (flt.is_finite v.entry && flt.is_finite v.boundary && flt.is_finite v.objective))
        (value_error "short plan values must be finite")
    raise_if
        (not (
          flt.lt (flt.lit 0 0) v.objective
          && flt.lt v.objective v.entry
          && flt.lt v.entry v.boundary))
        (value_error "short plan values must satisfy objective < entry < boundary")
    raise_if (multiplier_out_of_range multiplier)
        (value_error "plan multiplier must be between 1 and 5")
    ok v

  -- `_validate_plan`
  unfoldable pub validate_plan : PlanDraft F → Result (Levels F)
  validate_plan p = do
    raise_if (not (is_ready_status p.status)) (value_error "backtest requires a ready plan")
    raise_if (is_blank (strip p.symbol)) (value_error "plan symbol is required")
    validate_levels p.multiplier (plan_values p)

  -- `min(a, b)`, `max(a, b)`
  unfoldable pub min : F → F → F
  min a b = if flt.lt b a then b else a

  unfoldable pub max : F → F → F
  max a b = if flt.lt a b then b else a

  unfoldable pub validate_bar : HistoricalBar F → Result (Unit {0})
  validate_bar b = do
    raise_if (not (all flt.is_finite (bar_values b))) (value_error "bar values must be finite")
    raise_if (any (λ v. flt.le v (flt.lit 0 0)) (bar_values b))
        (value_error "bar values must be positive")
    raise_if (flt.lt (min b.open_value b.close_value) b.low_value)
        (value_error "bar low is inconsistent")
    raise_if (flt.lt b.high_value (max b.open_value b.close_value))
        (value_error "bar high is inconsistent")
    raise_if (flt.lt b.high_value b.low_value) (value_error "bar range is inconsistent")

  -- The loop of `_validate_bars`, from the timestamp of the bar before.
  unfoldable pub validate_after : Option Datetime → List (HistoricalBar F) → Result (Unit {0})
  validate_after previous [] = ok tt
  validate_after previous (b ∷ bs) = do
    require_aware b.timestamp "bar timestamps"
    require_later previous b.timestamp
    validate_bar b
    validate_after (some b.timestamp) bs

  -- `_validate_bars`
  unfoldable pub validate_bars : List (HistoricalBar F) → Result (Unit {0})
  validate_bars bars = do
    raise_if (is_empty bars) (value_error "at least one historical bar is required")
    validate_after none bars

  abbrev pub result_from : PlanDraft F → Exit F → F → BacktestResult F
  result_from plan e entry =
      let price_return_pct = flt.mul (flt.div (flt.sub entry e.exit_value) entry) (flt.lit 100 0) in
      record {
        symbol = plan.symbol;
        outcome = e.outcome;
        exit_at = e.exit_at;
        exit_value = e.exit_value;
        bars_processed = e.bars_processed;
        price_return_pct = price_return_pct;
        leveraged_return_pct = flt.mul price_return_pct (flt.of_int plan.multiplier);
        same_bar_conflict = e.same_bar_conflict;
      }

  -- `_build_result`
  unfoldable pub build_result : PlanDraft F → Exit F → Result (BacktestResult F)
  build_result plan e = elim plan.entry_value [
    | none ↦ err (type_error "float() argument must be a string or a real number, not 'NoneType'")
    | some entry ↦ ok (result_from plan e entry)
  ]

  unfoldable pub stop_touched : Levels F → HistoricalBar F → Bool
  stop_touched v b = flt.le v.boundary b.high_value

  unfoldable pub target_touched : Levels F → HistoricalBar F → Bool
  target_touched v b = flt.le b.low_value v.objective

  -- The body of the loop of `run_backtest`.
  unfoldable pub bar_exit : Levels F → IntrabarPolicy → HistoricalBar F → ℕ → Option (Exit F)
  bar_exit v policy b index =
      let stop = stop_touched v b in
      let target = target_touched v b in
      if stop && target
      then some (conflict_exit v policy b index)
      else if stop
      then some (exit_on b index BacktestOutcome.stopped v.boundary false)
      else if target
      then some (exit_on b index BacktestOutcome.target v.objective false)
      else none

  -- The loop: the bar at which it returns, counted from `index`.
  unfoldable pub first_exit :
      Levels F → IntrabarPolicy → ℕ → List (HistoricalBar F) → Option (Exit F)
  first_exit v policy index [] = none
  first_exit v policy index (b ∷ bs) =
      let rest = first_exit v policy (index + 1) bs in
      elim (bar_exit v policy b index) [ some e ↦ some e | none ↦ rest ]

  -- What follows the loop.
  unfoldable pub final_exit : List (HistoricalBar F) → Result (Exit F)
  final_exit bars = elim (get_last? bars) [
    | none ↦ err (record { kind = "IndexError"; message = "tuple index out of range" })
    | some b ↦ ok (exit_on b (length bars) BacktestOutcome.expired b.close_value false)
  ]

  abbrev pub exit_or_final : Option (Exit F) → List (HistoricalBar F) → Result (Exit F)
  exit_or_final (some e) bars = ok e
  exit_or_final none bars = final_exit bars

  unfoldable pub run_backtest : BacktestCase F → Result (BacktestResult F)
  run_backtest c = do
    v ← validate_plan c.plan
    validate_bars c.bars
    e ← exit_or_final (first_exit v c.policy 1 c.bars) c.bars
    build_result c.plan e
