-- ===== src/Execution/Consensus/Sources.antt =====
-- app/execution/consensus.py: which benchmark snapshots are counted.
use dumpectorist.Prelude.{
  true, false, ◌≡◌, ◌||◌, String, List, All, [], ◌∷◌, Option, none, some, arith, refl, sym, ap, ◌∙◌,
  eq_iff, if◌then◌else◌, Bool-cases, inl, inr,
}
use dumpectorist.Prelude.Dict.{contains, add, contains-add}
use dumpectorist.Prelude.Number.{Num}
use dumpectorist.Prelude.Result.{ok, >>=-eq-ok, ok_injective}
use dumpectorist.Prelude.Time.{Datetime}
use dumpectorist.Adapters.Benchmark.{
  BenchmarkSource, same_source, source_key, BenchmarkSnapshot, BenchmarkHealthReport, is_usable,
  evaluate_benchmark_health,
}
use dumpectorist.Execution.SymbolMap.{CrossExchangeSymbolMap, expected_symbol}
use dumpectorist.Execution.Consensus.{
  ConsensusRules, symbol_reasons, ConsensusSourceResult, identity_reasons, judge, source_result,
  source_results,
}

symbol-nil : (symbol : String) (e : Option String) → symbol_reasons symbol e ≡ [] → e ≡ some symbol
unfolding symbol_reasons
symbol-nil symbol none h = cc
symbol-nil symbol (some x) h = ground (arith, eq_iff symbol x)

nil-symbol : (symbol : String) → symbol_reasons symbol (some symbol) ≡ []
unfolding symbol_reasons
nil-symbol symbol = ground (arith, eq_iff symbol symbol)

module _ {D F : Type 0} (dec : Num D) (flt : Num F) (rules : ConsensusRules D F)
    (m : CrossExchangeSymbolMap) (now : Datetime) where
  -- What the result of a snapshot says of it, after the sources `seen`: it is counted exactly when
  -- its source is new, its symbol is the mapped one and its health is OK.
  pub record IsJudged (seen : List BenchmarkSource) (s : BenchmarkSnapshot D)
      (r : ConsensusSourceResult D) : Type 0 where
    pub source : r.source ≡ s.source
    pub price : r.price ≡ s.last_price
    pub fresh_source : r.included ≡ true → contains s.source seen ≡ false
    pub mapped : r.included ≡ true → expected_symbol m s.source ≡ some s.symbol
    pub healthy :
        r.included ≡ true
        → (h : BenchmarkHealthReport F) × (evaluate_benchmark_health flt s now
              rules.benchmark_health
            ≡ ok h)
          × (is_usable h ≡ true)
    pub counted :
        contains s.source seen ≡ false
        → expected_symbol m s.source ≡ some s.symbol
        → (h : BenchmarkHealthReport F)
        → evaluate_benchmark_health flt s now rules.benchmark_health ≡ ok h
        → r.included ≡ is_usable h

  identity-nil :
      (seen : List BenchmarkSource) (s : BenchmarkSnapshot D)
      → identity_reasons dec flt m seen s ≡ []
      → (contains s.source seen ≡ false) × (expected_symbol m s.source ≡ some s.symbol)
  unfolding identity_reasons
  identity-nil seen s h = ground (arith, symbol-nil s.symbol (expected_symbol m s.source))

  nil-identity :
      (seen : List BenchmarkSource) (s : BenchmarkSnapshot D)
      → contains s.source seen ≡ false
      → expected_symbol m s.source ≡ some s.symbol
      → identity_reasons dec flt m seen s ≡ []
  unfolding identity_reasons
  nil-identity seen s h e = rw (h, e) (nil-symbol s.symbol)

  judge-IsJudged :
      (seen : List BenchmarkSource) (s : BenchmarkSnapshot D) {r : ConsensusSourceResult D}
      (reasons : List String)
      → identity_reasons dec flt m seen s ≡ reasons
      → judge dec flt rules m now s reasons ≡ ok r
      → IsJudged seen s r
  unfolding judge
  judge-IsJudged seen s {r} (x ∷ xs) e h =
      let same = ok_injective h in
      rw (← same) (record {
        source = refl;
        price = refl;
        fresh_source = λ i. cc;
        mapped = λ i. cc;
        healthy = λ i. absurd (cc);
        counted = λ new mapped report ran. absurd (cc (e, nil-identity seen s new mapped));
      })
  judge-IsJudged seen s {r} [] e h =
      let (report, ran, made) =
        >>=-eq-ok (evaluate_benchmark_health flt s now rules.benchmark_health) _ h in
      rw (← ok_injective made) (record {
        source = refl;
        price = refl;
        fresh_source = λ i. (identity-nil seen s e).0;
        mapped = λ i. (identity-nil seen s e).1;
        healthy = λ i. (report, ran, i);
        counted = λ new mapped other ran'. ap is_usable (ok_injective (sym ran ∙ ran'));
      })

  source_result-IsJudged :
      (seen : List BenchmarkSource) (s : BenchmarkSnapshot D) {r : ConsensusSourceResult D}
      → source_result dec flt rules m now seen s ≡ ok r
      → IsJudged seen s r
  unfolding source_result
  source_result-IsJudged seen s h = judge-IsJudged seen s (identity_reasons dec flt m seen s) refl h

  -- Each snapshot has its result, in order, judged after the sources before it.
  abbrev pub AreJudged :
      List BenchmarkSource → List (BenchmarkSnapshot D) → List (ConsensusSourceResult D) → Type 0
  AreJudged seen [] [] = Unit
  AreJudged seen [] (r ∷ rs) = ⊥
  AreJudged seen (s ∷ ss) [] = ⊥
  AreJudged seen (s ∷ ss) (r ∷ rs) = IsJudged seen s r × AreJudged (add s.source seen) ss rs

  pub source_results-AreJudged :
      (seen : List BenchmarkSource) (ss : List (BenchmarkSnapshot D))
      (rs : List (ConsensusSourceResult D))
      → source_results dec flt rules m now seen ss ≡ ok rs
      → AreJudged seen ss rs
  unfolding source_results
  source_results-AreJudged seen [] [] h = tt
  source_results-AreJudged seen [] (r ∷ rs) h = cc
  source_results-AreJudged seen (s ∷ ss) rs h =
      let (r, one, more) = >>=-eq-ok (source_result dec flt rules m now seen s) _ h in
      let (rest, others, made) =
        >>=-eq-ok (source_results dec flt rules m now (add s.source seen) ss) _ more in
      rw (← ok_injective made) (
        source_result-IsJudged seen s one,
        source_results-AreJudged (add s.source seen) ss rest others,
      )

unfoldable pub included_sources :
    {D : Type 0} → List (ConsensusSourceResult D) → List BenchmarkSource
included_sources [] = []
included_sources (r ∷ rs) =
    let rest = included_sources rs in if r.included then r.source ∷ rest else rest

abbrev pub IsNew : List BenchmarkSource → BenchmarkSource → Type 0
IsNew seen x = contains x seen ≡ false

abbrev pub AreDistinct : List BenchmarkSource → Type 0
AreDistinct [] = Unit
AreDistinct (x ∷ xs) = All (λ y. same_source x y ≡ false) xs × AreDistinct xs

IsNew-of_add :
    (seen : List BenchmarkSource) (x : BenchmarkSource) (ys : List BenchmarkSource)
    → All (IsNew (add x seen)) ys
    → All (IsNew seen) ys × All (λ y. same_source x y ≡ false) ys
IsNew-of_add seen x [] h = (tt, tt)
IsNew-of_add seen x (y ∷ ys) h =
    let (new, other) = IsNew-of_add seen x ys h.1 in
    let apart : (contains y seen || same_source x y) ≡ false = sym (contains-add x y seen) ∙ h.0 in
    ((ground arith, new), (ground arith, other))

module _ {D F : Type 0} (dec : Num D) (flt : Num F) (rules : ConsensusRules D F)
    (m : CrossExchangeSymbolMap) (now : Datetime) where
  pub included-AreDistinct :
      (seen : List BenchmarkSource) (ss : List (BenchmarkSnapshot D))
      (rs : List (ConsensusSourceResult D))
      → AreJudged dec flt rules m now seen ss rs
      → All (IsNew seen) (included_sources rs) × AreDistinct (included_sources rs)
  unfolding included_sources
  included-AreDistinct seen [] [] h = (tt, tt)
  included-AreDistinct seen [] (r ∷ rs) h = absurd h
  included-AreDistinct seen (s ∷ ss) [] h = absurd h
  included-AreDistinct seen (s ∷ ss) (r ∷ rs) h =
      let (later, distinct) = included-AreDistinct (add s.source seen) ss rs h.1 in
      let (new, apart) = IsNew-of_add seen s.source (included_sources rs) later in
      elim (Bool-cases r.included) [
        | inl counted ↦
            rw counted (rw h.0.source ((h.0.fresh_source counted, new), (apart, distinct)))
        | inr skipped ↦ rw skipped (new, distinct)
      ]

  -- If the loop over the snapshots returns, each snapshot has its result in order, counted exactly
  -- when its source is new, its symbol is the mapped one and its health is OK, and no source is
  -- counted twice.
  pub source_results_sound :
      (ss : List (BenchmarkSnapshot D)) (rs : List (ConsensusSourceResult D))
      → source_results dec flt rules m now [] ss ≡ ok rs
      → AreJudged dec flt rules m now [] ss rs × AreDistinct (included_sources rs)
  source_results_sound ss rs h =
      let judged = source_results-AreJudged dec flt rules m now [] ss rs h in
      (judged, (included-AreDistinct [] ss rs judged).1)
