-- ===== src/Backtest/Metrics.antt =====
-- app/backtest/metrics.py: what a series of replays amounts to. `fsum` is `math.fsum`,
-- which may raise; `fmean` divides what it returns by the count.
pub mod Counts
use dumpectorist.Prelude.{
  Bool, true, false, not, ◌≡◌, ◌≤◌, ◌<◌, ℕ, zero, suc, ◌+◌, ◌-◌, ◌/◌, ◌%◌, ◌==◌, List, [], ◌∷◌,
  Option, none, some, length, map, length-map, All, refl, sym, ap, ◌∙◌, Bool-cases, inl, inr, arith,
  if◌then◌else◌,
}
use dumpectorist.Prelude.Int.{ℤ, pos}
use dumpectorist.Prelude.Number.{Num}
use dumpectorist.Prelude.Result.{Error, Result, ok, err, ◌>>=◌}
use dumpectorist.Prelude.Scans.{count_where}
use dumpectorist.Execution.Statistics.{median}
use dumpectorist.Backtest.{BacktestOutcome, BacktestCase, BacktestResult, Levels, max, run_backtest}
use dumpectorist.Backtest.Touches.{IsHit, IsStopped, IsExpired}
use dumpectorist.Backtest.Replay.{run_backtest-first_touch, IsOrdered}

pub record BacktestMetrics (F : Type 0) : Type 0 where
  pub total_cases : ℕ
  pub resolved_cases : ℕ
  pub target_count : ℕ
  pub stop_count : ℕ
  pub expired_count : ℕ
  pub conflict_count : ℕ
  pub target_rate : F
  pub average_return_pct : F
  pub median_return_pct : F
  pub profit_factor : Option F
  pub max_drawdown_pct : F

abbrev pub is_target : BacktestOutcome → Bool
is_target BacktestOutcome.target = true
is_target _ = false

abbrev pub is_stop : BacktestOutcome → Bool
is_stop BacktestOutcome.stopped = true
is_stop _ = false

abbrev pub is_expired_outcome : BacktestOutcome → Bool
is_expired_outcome BacktestOutcome.expired = true
is_expired_outcome _ = false

module _ {F : Type 0} (flt : Num F) (fsum : List F → Result F) where
  -- The loop of `_max_drawdown`.
  unfoldable pub drawdown_from : F → F → F → List F → F
  drawdown_from equity peak maximum [] = maximum
  drawdown_from equity peak maximum (v ∷ vs) =
      let grown = flt.add equity v in
      let top = max flt peak grown in
      let fall = flt.mul (flt.div (flt.sub top grown) top) (flt.lit 100 0) in
      drawdown_from grown top (if flt.lt (flt.lit 0 0) top then max flt maximum fall else maximum)
        vs

  -- `_max_drawdown`
  unfoldable pub max_drawdown : List F → F
  unfolding drawdown_from
  max_drawdown returns = drawdown_from (flt.lit 100 0) (flt.lit 100 0) (flt.lit 0 0) returns

  -- `sum(value for value in returns if ...)`
  unfoldable pub sum_where : (F → Bool) → F → List F → F
  sum_where p total [] = total
  sum_where p total (v ∷ vs) = sum_where p (if p v then flt.add total v else total) vs

  unfoldable pub profit_factor_of : List F → Option F
  unfolding sum_where
  profit_factor_of returns =
      let profit = sum_where (λ v. flt.lt (flt.lit 0 0) v) (flt.lit 0 0) returns in
      let loss = flt.abs (sum_where (λ v. flt.lt v (flt.lit 0 0)) (flt.lit 0 0) returns) in
      if flt.lt (flt.lit 0 0) loss then some (flt.div profit loss) else none

  -- `fmean(returns) if returns else 0.0`
  unfoldable pub mean_return : List F → Result F
  mean_return [] = ok (flt.lit 0 0)
  mean_return (v ∷ vs) = do
    total ← fsum (v ∷ vs)
    ok (flt.div total (flt.of_int (pos (length (v ∷ vs)))))

  abbrev pub or_no_median : Option F → Result F
  or_no_median none =
      err (record { kind = "StatisticsError"; message = "no median for empty data" })
  or_no_median (some m) = ok m

  unfoldable pub median_return : List F → Result F
  median_return [] = ok (flt.lit 0 0)
  median_return (v ∷ vs) = or_no_median (median flt (v ∷ vs))

  abbrev pub rate_of : ℕ → ℕ → F
  rate_of hits zero = flt.lit 0 0
  rate_of hits (suc n) = flt.mul (flt.int_div (pos hits) (pos (suc n))) (flt.lit 100 0)

  abbrev pub targets : List (BacktestResult F) → ℕ
  targets = count_where (λ r. is_target r.outcome)

  abbrev pub stops : List (BacktestResult F) → ℕ
  stops = count_where (λ r. is_stop r.outcome)

  abbrev pub expiries : List (BacktestResult F) → ℕ
  expiries = count_where (λ r. is_expired_outcome r.outcome)

  abbrev pub conflicts : List (BacktestResult F) → ℕ
  conflicts = count_where (λ r. r.same_bar_conflict)

  -- The record, with the mean and the median of the returns.
  abbrev pub metrics_with : List (BacktestResult F) → F → F → BacktestMetrics F
  metrics_with results average middle = record {
    total_cases = length results;
    resolved_cases = targets results + stops results;
    target_count = targets results;
    stop_count = stops results;
    expired_count = expiries results;
    conflict_count = conflicts results;
    target_rate = rate_of (targets results) (targets results + stops results);
    average_return_pct = average;
    median_return_pct = middle;
    profit_factor = profit_factor_of (map (λ r. r.leveraged_return_pct) results);
    max_drawdown_pct = max_drawdown (map (λ r. r.leveraged_return_pct) results);
  }

  unfoldable pub build_metrics : List (BacktestResult F) → Result (BacktestMetrics F)
  unfolding mean_return median_return
  build_metrics results = do
    average ← mean_return (map (λ r. r.leveraged_return_pct) results)
    middle ← median_return (map (λ r. r.leveraged_return_pct) results)
    ok (metrics_with results average middle)
