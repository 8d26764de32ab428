-- ===== src/Backtest/Replay.antt =====
-- app/backtest/runner.py: which bar ends a replay, and that every valid case has a result.
use dumpectorist.Prelude.{
  true, false, ◌≡◌, ◌⊎◌, List, [], ◌∷◌, Option, none, some, arith, refl, inl, inr, sym, ap, ◌∙◌,
  length, get_last?, All, Option-cases,
}
use dumpectorist.Prelude.Int.{ℤ}
use dumpectorist.Prelude.Number.{Num}
use dumpectorist.Prelude.Result.{ok, >>=-eq-ok, ok_injective}
use dumpectorist.Planning.{PlanDraft}
use dumpectorist.Backtest.{
  BacktestOutcome, IntrabarPolicy, HistoricalBar, BacktestCase, BacktestResult, Levels, Exit,
  plan_values, validate_levels, validate_plan, validate_bars, build_result, result_from, exit_on,
  first_exit, final_exit, exit_or_final, run_backtest,
}
use dumpectorist.Backtest.Touches.{
  IsQuiet, IsStopped, IsExpired, StopsAt, first_exit-none, first_exit-some,
}

module _ {F : Type 0} (flt : Num F) where
  -- The levels of a plan that may be replayed.
  pub record IsOrdered (p : PlanDraft F) (v : Levels F) : Type 0 where
    pub entry : p.entry_value ≡ some v.entry
    pub boundary : p.boundary_value ≡ some v.boundary
    pub objective : p.objective_value ≡ some v.objective
    pub objective_positive : flt.lt (flt.lit 0 0) v.objective ≡ true
    pub objective_below : flt.lt v.objective v.entry ≡ true
    pub boundary_above : flt.lt v.entry v.boundary ≡ true

  validate_levels-lts :
      (m : ℤ) (o : Option (Levels F)) {v : Levels F}
      → validate_levels flt m o ≡ ok v
      → (o ≡ some v)
        × (flt.lt (flt.lit 0 0) v.objective ≡ true)
        × (flt.lt v.objective v.entry ≡ true)
        × (flt.lt v.entry v.boundary ≡ true)
  unfolding validate_levels
  validate_levels-lts m o h = (ground arith, ground arith, ground arith, ground arith)

  plan_values-some :
      (p : PlanDraft F) {v : Levels F}
      → plan_values p ≡ some v
      → (p.entry_value ≡ some v.entry)
        × (p.boundary_value ≡ some v.boundary)
        × (p.objective_value ≡ some v.objective)
  plan_values-some p h = ground arith

  validate_plan-IsOrdered :
      (p : PlanDraft F) {v : Levels F} → validate_plan flt p ≡ ok v → IsOrdered p v
  unfolding validate_plan
  validate_plan-IsOrdered p h =
      let l = validate_levels-lts p.multiplier (plan_values p) (ground arith) in
      let o = plan_values-some p l.0 in
      record {
        entry = o.0;
        boundary = o.1;
        objective = o.2;
        objective_positive = l.1;
        objective_below = l.2;
        boundary_above = l.3;
      }

  record IsResultOf (e : Exit F) (r : BacktestResult F) : Type 0 where
    outcome : e.outcome ≡ r.outcome
    exit_at : e.exit_at ≡ r.exit_at
    exit_value : e.exit_value ≡ r.exit_value
    processed : e.bars_processed ≡ r.bars_processed
    conflict : e.same_bar_conflict ≡ r.same_bar_conflict

  build_result-IsResultOf :
      (p : PlanDraft F) (e : Exit F) {r : BacktestResult F}
      → build_result flt p e ≡ ok r
      → IsResultOf e r
  unfolding build_result
  build_result-IsResultOf p e h = ground arith

  IsStopped-of :
      {v : Levels F} {policy : IntrabarPolicy} {bars : List (HistoricalBar F)} {e : Exit F}
      {r : BacktestResult F}
      → StopsAt flt v policy 1 bars e
      → IsResultOf e r
      → IsStopped flt v policy bars r
  IsStopped-of s i = record {
    earlier = s.earlier;
    bar = s.bar;
    later = s.later;
    parts = s.parts;
    quiet = s.quiet;
    hit = rw (← i.outcome, ← i.exit_value, ← i.conflict) s.at.hit;
    exit_at = sym i.exit_at ∙ s.at.exit_at;
    processed = sym i.processed ∙ s.at.processed;
  }

  final_exit-last :
      (bars : List (HistoricalBar F)) {e : Exit F}
      → final_exit flt bars ≡ ok e
      → (b : HistoricalBar F) × (get_last? bars ≡ some b)
        × (exit_on b (length bars) BacktestOutcome.expired b.close_value false ≡ e)
  unfolding final_exit
  final_exit-last bars h = elim (Option-cases (get_last? bars)) [
    | inl n ↦ ground arith
    | inr (b, s) ↦ (b, s, ok_injective (rw (final_exit, s) at h))
  ]

  IsExpired-of :
      {v : Levels F} {policy : IntrabarPolicy} (bars : List (HistoricalBar F)) {e : Exit F}
      {r : BacktestResult F}
      → All (IsQuiet flt v policy) bars
      → final_exit flt bars ≡ ok e
      → IsResultOf e r
      → IsExpired flt v policy bars r
  IsExpired-of bars quiet h i =
      let (b, last, same) = final_exit-last bars h in
      record {
        quiet = quiet;
        outcome = sym i.outcome ∙ ap (λ (x : Exit F). x.outcome) (sym same);
        conflict = sym i.conflict ∙ ap (λ (x : Exit F). x.same_bar_conflict) (sym same);
        bar = b;
        last = last;
        exit_at = sym i.exit_at ∙ ap (λ (x : Exit F). x.exit_at) (sym same);
        exit_value = sym i.exit_value ∙ ap (λ (x : Exit F). x.exit_value) (sym same);
        processed = sym i.processed ∙ ap (λ (x : Exit F). x.bars_processed) (sym same);
      }

  -- A replay that returns has a plan with 0 < objective < entry < boundary, and its result is
  -- decided by the first bar that reaches a level: the bar's time, its number among the bars, and
  -- the level it reaches (where it reaches both, the one the policy chooses, marked as a
  -- conflict). If no bar reaches a level the replay has expired at the last bar's close.
  pub run_backtest-first_touch :
      (c : BacktestCase F) {r : BacktestResult F}
      → run_backtest flt c ≡ ok r
      → (v : Levels F) × IsOrdered c.plan v
        × (IsStopped flt v c.policy c.bars r ⊎ IsExpired flt v c.policy c.bars r)
  unfolding run_backtest
  run_backtest-first_touch c h =
      let (v, valid, h₁) = >>=-eq-ok (validate_plan flt c.plan) _ h in
      let (_, _, h₂) = >>=-eq-ok (validate_bars flt c.bars) _ h₁ in
      let (e, found, h₃) =
        >>=-eq-ok (exit_or_final flt (first_exit flt v c.policy 1 c.bars) c.bars) _ h₂ in
      let i = build_result-IsResultOf c.plan e h₃ in
      (
        v,
        validate_plan-IsOrdered c.plan valid,
        elim (Option-cases (first_exit flt v c.policy 1 c.bars)) [
          | inl n ↦
              inr
                (IsExpired-of c.bars (first_exit-none flt v c.policy 1 c.bars n) (rw n at found) i)
          | inr (e', s) ↦
              let same : e' ≡ e = ok_injective (rw s at found) in
              inl (IsStopped-of (first_exit-some flt v c.policy 1 c.bars (rw same at s)) i)
        ],
      )

  get_last?-cons :
      (b : HistoricalBar F) (bs : List (HistoricalBar F))
      → (a : HistoricalBar F) × (get_last? (b ∷ bs) ≡ some a)
  get_last?-cons b [] = (b, refl)
  get_last?-cons b (x ∷ xs) = get_last?-cons x xs

  final_exit-total :
      (bars : List (HistoricalBar F)) {u : Unit {0}}
      → validate_bars flt bars ≡ ok u
      → (e : Exit F) × (final_exit flt bars ≡ ok e)
  unfolding final_exit validate_bars
  final_exit-total [] h = ground arith
  final_exit-total (b ∷ bs) h =
      let (a, last) = get_last?-cons b bs in
      (exit_on a (length (b ∷ bs)) BacktestOutcome.expired a.close_value false, ground arith)

  exit_or_final-total :
      (o : Option (Exit F)) (bars : List (HistoricalBar F)) {u : Unit {0}}
      → validate_bars flt bars ≡ ok u
      → (e : Exit F) × (exit_or_final flt o bars ≡ ok e)
  exit_or_final-total none bars h = final_exit-total bars h
  exit_or_final-total (some e) bars h = (e, refl)

  build_result-total :
      (p : PlanDraft F) (e : Exit F) {x : F}
      → p.entry_value ≡ some x
      → (r : BacktestResult F) × (build_result flt p e ≡ ok r)
  unfolding build_result
  build_result-total p e {x} h = (result_from flt p e x, ground arith)

  pub run_backtest-total :
      (c : BacktestCase F) {v : Levels F} {u : Unit {0}}
      → validate_plan flt c.plan ≡ ok v
      → validate_bars flt c.bars ≡ ok u
      → (r : BacktestResult F) × (run_backtest flt c ≡ ok r)
  unfolding run_backtest
  run_backtest-total c {v} hp hb =
      let (e, found) = exit_or_final-total (first_exit flt v c.policy 1 c.bars) c.bars hb in
      let (r, built) = build_result-total c.plan e (validate_plan-IsOrdered c.plan hp).entry in
      (r, rw (hp, hb, found) built)
