-- ===== src/Examples/Plans.antt =====
-- Plans and their replay.
use dumpectorist.Prelude.{true, false, ◌≡◌, ◌⊎◌, ◌+◌, ◌≤◌, List, [], ◌∷◌, arith, refl}
use dumpectorist.Prelude.Int.{ℤ, pos, ◌+ℤ◌}
use dumpectorist.Prelude.Fixed.{fixed, fixed_laws, units}
use dumpectorist.Prelude.Text.{strip, is_blank}
use dumpectorist.Prelude.Result.{Error, Result, ok, err, ◌>>=◌, is_ok, get_ok, get_ok-eq}
use dumpectorist.Flow.{is_ready}
use dumpectorist.Planning.{PlanDraft, build_plan, ready_plan, objective_of}
use dumpectorist.Planning.Ready.{
  IsAcceptable, IsShortPlan, IsHeldPlan, build_plan_sound, build_plan_complete,
}
use dumpectorist.Backtest.{
  IntrabarPolicy, HistoricalBar, BacktestCase, BacktestResult, Levels, run_backtest, validate_bars,
}
use dumpectorist.Backtest.Touches.{IsStopped, IsExpired}
use dumpectorist.Backtest.Replay.{IsOrdered, run_backtest-first_touch}
use dumpectorist.Backtest.Plans.{build_plan-run_backtest}
use dumpectorist.Backtest.Metrics.{BacktestMetrics, mean_return, build_metrics}
use dumpectorist.Backtest.Metrics.Counts.{IsReplayed, build_metrics-counts}
use dumpectorist.Examples.Market.{at_second, short_request, ready_flow}

short_builds : is_ok (build_plan fixed ready_flow short_request) ≡ true
unfolding build_plan fixed is_ready ready_plan strip
short_builds = refl

abbrev short_plan : PlanDraft ℤ
short_plan = get_ok (build_plan fixed ready_flow short_request) short_builds

short_built : build_plan fixed ready_flow short_request ≡ ok short_plan
short_built = get_ok-eq (build_plan fixed ready_flow short_request) short_builds

build_plan_sound_example :
    ((is_ready ready_flow ≡ true)
      × IsAcceptable fixed short_request
      × IsShortPlan fixed short_request short_plan)
    ⊎ ((is_ready ready_flow ≡ false) × IsHeldPlan fixed short_plan)
build_plan_sound_example = build_plan_sound fixed ready_flow short_request short_built

short_named : is_blank (strip "BTC") ≡ false
unfolding strip
short_named = refl

short-IsAcceptable : IsAcceptable fixed short_request
unfolding fixed objective_of
short-IsAcceptable = record {
  named = short_named;
  entry_positive = refl;
  boundary_positive = refl;
  boundary_above = refl;
  ratio_positive = refl;
  multiplier_at_least = ground arith;
  multiplier_at_most = ground arith;
  objective_positive = refl;
}

short_ready : is_ready ready_flow ≡ true
unfolding is_ready
short_ready = refl

fixed_finite : (a : ℤ) → fixed.is_finite a ≡ true
unfolding fixed
fixed_finite a = refl

build_plan_complete_example :
    (p : PlanDraft ℤ) × (build_plan fixed ready_flow short_request ≡ ok p)
    × IsShortPlan fixed short_request p
build_plan_complete_example =
    build_plan_complete fixed ready_flow short_request short_ready short-IsAcceptable
      (fixed_finite (units 100)) (fixed_finite (units 105)) (fixed_finite (units 2))
      (fixed_finite (objective_of fixed short_request))

-- The second bar reaches both levels.
abbrev three_bars : List (HistoricalBar ℤ)
three_bars =
    record {
      timestamp = at_second 1;
      open_value = units 100;
      high_value = units 102;
      low_value = units 98;
      close_value = units 101;
    }
    ∷ record {
      timestamp = at_second 2;
      open_value = units 101;
      high_value = units 106;
      low_value = units 89;
      close_value = units 95;
    }
    ∷ record {
      timestamp = at_second 3;
      open_value = units 95;
      high_value = units 96;
      low_value = units 80;
      close_value = units 81;
    }
    ∷ []

abbrev wild_case : BacktestCase ℤ
wild_case = record { plan = short_plan; bars = three_bars; policy = IntrabarPolicy.conservative }

wild_runs : is_ok (run_backtest fixed wild_case) ≡ true
unfolding run_backtest fixed dumpectorist.Backtest.validate_plan build_plan is_ready ready_plan
    strip dumpectorist.Backtest.validate_levels validate_bars dumpectorist.Backtest.validate_after
    dumpectorist.Backtest.validate_bar dumpectorist.Backtest.min dumpectorist.Backtest.max
    dumpectorist.Backtest.first_exit dumpectorist.Backtest.bar_exit
    dumpectorist.Backtest.stop_touched dumpectorist.Backtest.target_touched
    dumpectorist.Backtest.build_result
wild_runs = refl

abbrev wild_result : BacktestResult ℤ
wild_result = get_ok (run_backtest fixed wild_case) wild_runs

run_backtest-first_touch_example :
    (v : Levels ℤ) × IsOrdered fixed short_plan v
    × (IsStopped fixed v IntrabarPolicy.conservative three_bars wild_result
        ⊎ IsExpired fixed v IntrabarPolicy.conservative three_bars wild_result)
run_backtest-first_touch_example =
    run_backtest-first_touch fixed wild_case (get_ok-eq (run_backtest fixed wild_case) wild_runs)

bars_valid : validate_bars fixed three_bars ≡ ok tt
unfolding validate_bars fixed dumpectorist.Backtest.validate_after
    dumpectorist.Backtest.validate_bar dumpectorist.Backtest.min dumpectorist.Backtest.max
bars_valid = refl

short_below : fixed.lt (objective_of fixed short_request) (units 100) ≡ true
unfolding fixed objective_of
short_below = refl

build_plan-run_backtest_example :
    (result : BacktestResult ℤ) × (run_backtest fixed wild_case ≡ ok result)
build_plan-run_backtest_example =
    build_plan-run_backtest fixed fixed_laws ready_flow short_request three_bars
      IntrabarPolicy.conservative short_ready short_built short_below bars_valid

-- A sum that never overflows.
abbrev fixed_fsum : List ℤ → Result ℤ
fixed_fsum [] = ok (pos 0)
fixed_fsum (v ∷ vs) = do rest ← fixed_fsum vs; ok (v +ℤ rest)

wild_replay : IsReplayed fixed fixed_fsum wild_result
wild_replay = (wild_case, get_ok-eq (run_backtest fixed wild_case) wild_runs)

build_metrics-counts_example :
    ((e : Error) × (mean_return fixed fixed_fsum
          (wild_result.leveraged_return_pct ∷ wild_result.leveraged_return_pct ∷ [])
        ≡ err e)
      × (build_metrics fixed fixed_fsum (wild_result ∷ wild_result ∷ []) ≡ err e))
    ⊎ ((m : BacktestMetrics ℤ) × (build_metrics fixed fixed_fsum (wild_result ∷ wild_result ∷ [])
          ≡ ok m)
        × (mean_return fixed fixed_fsum
              (wild_result.leveraged_return_pct ∷ wild_result.leveraged_return_pct ∷ [])
            ≡ ok m.average_return_pct)
        × (m.resolved_cases ≡ m.target_count + m.stop_count)
        × (m.resolved_cases + m.expired_count ≡ m.total_cases)
        × (m.total_cases ≡ 2)
        × (m.conflict_count ≤ m.resolved_cases))
build_metrics-counts_example =
    build_metrics-counts fixed fixed_fsum (wild_result ∷ wild_result ∷ [])
      (wild_replay, (wild_replay, tt))
