-- ===== src/Backtest/Touches.antt =====
-- app/backtest/runner.py: the bars that reach a level, and the loop that looks for the first.
use dumpectorist.Prelude.{
  Bool, true, false, ◌≡◌, ℕ, ◌+◌, List, [], ◌∷◌, ◌++◌, none, some, arith, refl, inl, inr, ap, ◌∙◌,
  length, get_last?, All, Bool-cases, Option-cases,
}
use dumpectorist.Prelude.Number.{Num}
use dumpectorist.Backtest.{
  BacktestOutcome, IntrabarPolicy, HistoricalBar, BacktestResult, Levels, Exit, stop_touched,
  target_touched, exit_on, conflict_exit, bar_exit, first_exit,
}

module _ {F : Type 0} (flt : Num F) (v : Levels F) (policy : IntrabarPolicy) where
  -- The bar reaches neither level.
  pub record IsQuiet (b : HistoricalBar F) : Type 0 where
    pub stop : stop_touched flt v b ≡ false
    pub target : target_touched flt v b ≡ false

  -- How a bar that reaches a level ends the replay.
  pub data IsHit (b : HistoricalBar F) : BacktestOutcome → F → Bool → Type 0 where
    stop_only :
        stop_touched flt v b ≡ true
        → target_touched flt v b ≡ false
        → IsHit b BacktestOutcome.stopped v.boundary false
    target_only :
        stop_touched flt v b ≡ false
        → target_touched flt v b ≡ true
        → IsHit b BacktestOutcome.target v.objective false
    both_conservative :
        stop_touched flt v b ≡ true
        → target_touched flt v b ≡ true
        → policy ≡ IntrabarPolicy.conservative
        → IsHit b BacktestOutcome.stopped v.boundary true
    both_optimistic :
        stop_touched flt v b ≡ true
        → target_touched flt v b ≡ true
        → policy ≡ IntrabarPolicy.optimistic
        → IsHit b BacktestOutcome.target v.objective true

  -- The replay stopped at the first bar that reaches a level.
  pub record IsStopped (bars : List (HistoricalBar F)) (r : BacktestResult F) : Type 0 where
    pub earlier : List (HistoricalBar F)
    pub bar : HistoricalBar F
    pub later : List (HistoricalBar F)
    pub parts : bars ≡ earlier ++ bar ∷ later
    pub quiet : All IsQuiet earlier
    pub hit : IsHit bar r.outcome r.exit_value r.same_bar_conflict
    pub exit_at : r.exit_at ≡ bar.timestamp
    pub processed : r.bars_processed ≡ length earlier + 1

  -- No bar reaches a level, and the replay ended with the last one.
  pub record IsExpired (bars : List (HistoricalBar F)) (r : BacktestResult F) : Type 0 where
    pub quiet : All IsQuiet bars
    pub outcome : r.outcome ≡ BacktestOutcome.expired
    pub conflict : r.same_bar_conflict ≡ false
    pub bar : HistoricalBar F
    pub last : get_last? bars ≡ some bar
    pub exit_at : r.exit_at ≡ bar.timestamp
    pub exit_value : r.exit_value ≡ bar.close_value
    pub processed : r.bars_processed ≡ length bars

  pub record AtBar (index : ℕ) (b : HistoricalBar F) (e : Exit F) : Type 0 where
    pub hit : IsHit b e.outcome e.exit_value e.same_bar_conflict
    pub exit_at : e.exit_at ≡ b.timestamp
    pub processed : e.bars_processed ≡ index

  bar_exit-none : (b : HistoricalBar F) (i : ℕ) → bar_exit flt v policy b i ≡ none → IsQuiet b
  unfolding bar_exit
  bar_exit-none b i h = ground arith

  conflict_exit-AtBar :
      (b : HistoricalBar F) (i : ℕ) (p : IntrabarPolicy)
      → policy ≡ p
      → stop_touched flt v b ≡ true
      → target_touched flt v b ≡ true
      → AtBar i b (conflict_exit v p b i)
  conflict_exit-AtBar b i IntrabarPolicy.conservative h s t = record {
    hit = both_conservative s t h;
    exit_at = refl;
    processed = refl;
  }
  conflict_exit-AtBar b i IntrabarPolicy.optimistic h s t = record {
    hit = both_optimistic s t h;
    exit_at = refl;
    processed = refl;
  }

  bar_exit-some :
      (b : HistoricalBar F) (i : ℕ) {e : Exit F} → bar_exit flt v policy b i ≡ some e → AtBar i b e
  unfolding bar_exit
  bar_exit-some b i {e} h = elim (Bool-cases (stop_touched flt v b)) [
    | inl s ↦ elim (Bool-cases (target_touched flt v b)) [
      | inl t ↦
          let same : conflict_exit v policy b i ≡ e = ground arith in
          rw (← same) (conflict_exit-AtBar b i policy refl s t)
      | inr t ↦
          let same : exit_on b i BacktestOutcome.stopped v.boundary false ≡ e = ground arith in
          rw (← same) (record { hit = stop_only s t; exit_at = refl; processed = refl })
    ]
    | inr s ↦ elim (Bool-cases (target_touched flt v b)) [
      | inl t ↦
          let same : exit_on b i BacktestOutcome.target v.objective false ≡ e = ground arith in
          rw (← same) (record { hit = target_only s t; exit_at = refl; processed = refl })
      | inr t ↦ ground arith
    ]
  ]

  -- Where the loop returned, counted from an index.
  pub record StopsAt (index : ℕ) (bars : List (HistoricalBar F)) (e : Exit F) : Type 0 where
    pub earlier : List (HistoricalBar F)
    pub bar : HistoricalBar F
    pub later : List (HistoricalBar F)
    pub parts : bars ≡ earlier ++ bar ∷ later
    pub quiet : All IsQuiet earlier
    pub at : AtBar (length earlier + index) bar e

  pub first_exit-none :
      (i : ℕ) (bars : List (HistoricalBar F))
      → first_exit flt v policy i bars ≡ none
      → All IsQuiet bars
  unfolding first_exit
  first_exit-none i [] h = tt
  first_exit-none i (b ∷ bs) h = elim (Option-cases (bar_exit flt v policy b i)) [
    | inl n ↦ (bar_exit-none b i n, first_exit-none (i + 1) bs (rw (first_exit, n) at h))
    | inr (e, s) ↦ ground arith
  ]

  pub first_exit-some :
      (i : ℕ) (bars : List (HistoricalBar F)) {e : Exit F}
      → first_exit flt v policy i bars ≡ some e
      → StopsAt i bars e
  unfolding first_exit
  first_exit-some i [] h = ground arith
  first_exit-some i (b ∷ bs) {e} h = elim (Option-cases (bar_exit flt v policy b i)) [
    | inl n ↦
        let f = first_exit-some (i + 1) bs (rw (first_exit, n) at h) in
        record {
          earlier = b ∷ f.earlier;
          bar = f.bar;
          later = f.later;
          parts = ap (λ xs. b ∷ xs) f.parts;
          quiet = (bar_exit-none b i n, f.quiet);
          at = record {
            hit = f.at.hit;
            exit_at = f.at.exit_at;
            processed = omega (arith, f.at.processed);
          };
        }
    | inr (e', s) ↦
        let same : some e' ≡ some e = rw (first_exit, s) at h in
        let a = bar_exit-some b i (s ∙ same) in
        record {
          earlier = [];
          bar = b;
          later = bs;
          parts = refl;
          quiet = tt;
          at = record { hit = a.hit; exit_at = a.exit_at; processed = omega (arith, a.processed) };
        }
  ]
