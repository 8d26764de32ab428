-- ===== src/Backtest/Metrics/Counts.antt =====
-- app/backtest/metrics.py: how the counts add up.
use dumpectorist.Prelude.{
  Bool, true, false, ◌≡◌, ◌⊎◌, ◌≤◌, ◌<◌, ℕ, zero, suc, ◌+◌, ◌-◌, ◌/◌, ◌%◌, ◌==◌, List, [], ◌∷◌,
  some, length, map, All, refl, sym, ap, ◌∙◌, Bool-cases, inl, inr, arith,
}
use dumpectorist.Prelude.Int.{pos}
use dumpectorist.Prelude.Number.{Num}
use dumpectorist.Prelude.Result.{Error, Result, ok, err, false_no_true}
use dumpectorist.Execution.Statistics.{median, sorted, place, item}
use dumpectorist.Backtest.{
  BacktestOutcome, BacktestCase, BacktestResult, Levels, IntrabarPolicy, HistoricalBar,
  run_backtest,
}
use dumpectorist.Backtest.Touches.{IsHit}
use dumpectorist.Backtest.Replay.{run_backtest-first_touch}
use dumpectorist.Backtest.Metrics.{
  BacktestMetrics, is_expired_outcome, targets, stops, expiries, conflicts, mean_return,
  median_return, metrics_with, build_metrics,
}

module _ {F : Type 0} (flt : Num F) (fsum : List F → Result F) where
  length-place : (x : F) (ys : List F) → length (place flt x ys) ≡ suc (length ys)
  unfolding place
  length-place x [] = refl
  length-place x (y ∷ ys) = elim (Bool-cases (flt.lt y x)) [
    | inl past ↦ rw (place, past) (ap suc (length-place x ys))
    | inr here ↦ rw (place, here) refl
  ]

  length-sorted : (xs : List F) → length (sorted flt xs) ≡ length xs
  unfolding sorted
  length-sorted [] = refl
  length-sorted (x ∷ xs) = length-place x (sorted flt xs) ∙ ap suc (length-sorted xs)

  item-some : (xs : List F) (n : ℕ) → n < length xs → (v : F) × (item flt xs n ≡ some v)
  item-some [] n h = absurd (omega (arith, h))
  item-some (x ∷ xs) zero h = (x, refl)
  item-some (x ∷ xs) (suc n) h = item-some xs n (omega (arith, h))

  median-some : (xs : List F) → 0 < length xs → (v : F) × (median flt xs ≡ some v)
  unfolding median
  median-some xs h =
      let ys = sorted flt xs in
      let filled : 0 < length ys = rw (length-sorted xs) h in
      let (a, e₀) = item-some ys (length ys / 2) (omega (arith, filled)) in
      let (b, e₁) = item-some ys (length ys / 2 - 1) (omega (arith, filled)) in
      elim (Bool-cases (length ys % 2 == 1)) [
        | inl odd ↦ (a, rw (median, odd) e₀)
        | inr even ↦ elim (Bool-cases (length ys == 0)) [
          | inl empty ↦ absurd (ground (arith, empty, filled))
          | inr full ↦
              (flt.div (flt.add b a) (flt.of_int (pos 2)), rw (median, even, full, e₁, e₀) refl)
        ]
      ]

  -- The result is that of a replay.
  abbrev pub IsReplayed : BacktestResult F → Type 0
  IsReplayed r = (c : BacktestCase F) × (run_backtest flt c ≡ ok r)

  IsHit-resolved :
      (v : Levels F) (policy : IntrabarPolicy) (b : HistoricalBar F) (o : BacktestOutcome) (x : F)
      (q : Bool)
      → IsHit flt v policy b o x q
      → is_expired_outcome o ≡ false
  IsHit-resolved v policy b _ _ _ (IsHit.stop_only a c) = refl
  IsHit-resolved v policy b _ _ _ (IsHit.target_only a c) = refl
  IsHit-resolved v policy b _ _ _ (IsHit.both_conservative a c d) = refl
  IsHit-resolved v policy b _ _ _ (IsHit.both_optimistic a c d) = refl

  -- A conflict is never in an expired replay.
  conflict-resolved :
      (r : BacktestResult F)
      → IsReplayed r
      → r.same_bar_conflict ≡ true
      → is_expired_outcome r.outcome ≡ false
  conflict-resolved r (c, run) q =
      let (v, ordered, ended) = run_backtest-first_touch flt c run in
      elim ended [
        | inl s ↦ IsHit-resolved v c.policy s.bar r.outcome r.exit_value r.same_bar_conflict s.hit
        | inr x ↦ absurd (false_no_true (sym x.conflict ∙ q))
      ]

  counted :
      (rs : List (BacktestResult F))
      → targets flt fsum rs + stops flt fsum rs + expiries flt fsum rs ≡ length rs
  counted [] = omega arith
  counted (r ∷ rs) = ground (arith, counted rs)

  conflicts-resolved :
      (rs : List (BacktestResult F))
      → All IsReplayed rs
      → conflicts flt fsum rs ≤ targets flt fsum rs + stops flt fsum rs
  conflicts-resolved [] h = omega arith
  conflicts-resolved (r ∷ rs) h = ground (arith, conflicts-resolved rs h.1, conflict-resolved r h.0)

  median_return-ok : (xs : List F) → (m : F) × (median_return flt fsum xs ≡ ok m)
  unfolding median_return
  median_return-ok [] = (_, refl)
  median_return-ok (x ∷ xs) = let (m, e) = median-some (x ∷ xs) (omega arith) in (m, rw (e) refl)

  Result-cases : (x : Result F) → ((v : F) × (x ≡ ok v)) ⊎ ((e : Error) × (x ≡ err e))
  Result-cases (ok v) = inl (v, refl)
  Result-cases (err e) = inr (e, refl)

  -- The metrics of replays are there if the mean of their returns can be taken: then the average is
  -- that mean, the resolved cases are the targets and the stops, with the expired ones they are all
  -- cases, and there are no more conflicts than resolved cases. If the mean cannot be taken, its
  -- error is raised.
  pub build_metrics-counts :
      (rs : List (BacktestResult F))
      → All IsReplayed rs
      → ((e : Error) × (mean_return flt fsum (map (λ r. r.leveraged_return_pct) rs) ≡ err e)
          × (build_metrics flt fsum rs ≡ err e))
        ⊎ ((m : BacktestMetrics F) × (build_metrics flt fsum rs ≡ ok m)
            × (mean_return flt fsum (map (λ r. r.leveraged_return_pct) rs)
                ≡ ok m.average_return_pct)
            × (m.resolved_cases ≡ m.target_count + m.stop_count)
            × (m.resolved_cases + m.expired_count ≡ m.total_cases)
            × (m.total_cases ≡ length rs)
            × (m.conflict_count ≤ m.resolved_cases))
  unfolding build_metrics
  build_metrics-counts rs h =
      let returns = map (λ r. r.leveraged_return_pct) rs in
      let (middle, e) = median_return-ok returns in
      elim (Result-cases (mean_return flt fsum returns)) [
        | inl (average, taken) ↦ inr (
          metrics_with flt fsum rs average middle,
          rw (taken, e) refl,
          taken,
          refl,
          counted rs,
          refl,
          conflicts-resolved rs h,
        )
        | inr (error, raised) ↦ inl (error, raised, rw (raised) refl)
      ]
