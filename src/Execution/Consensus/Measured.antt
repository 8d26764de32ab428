-- ===== src/Execution/Consensus/Measured.antt =====
-- app/execution/consensus.py: where the numbers of a report come from.
use dumpectorist.Prelude.{
  false, ◌≡◌, List, [], Option, none, some, length, arith, refl, sym, ap, ◌∙◌, inl, inr, ◌∷◌, ◌⊎◌,
  if◌then◌else◌,
}
use dumpectorist.Prelude.Number.{Num}
use dumpectorist.Prelude.Result.{Result}
use dumpectorist.Prelude.Time.{Datetime}
use dumpectorist.Adapters.Lbank.{LBankExecutionSnapshot, executable_mid_price}
use dumpectorist.Adapters.Benchmark.{BenchmarkSnapshot}
use dumpectorist.Execution.SymbolMap.{CrossExchangeSymbolMap}
use dumpectorist.Execution.Statistics.{median, max_from, min_from}
use dumpectorist.Execution.Consensus.Sources.{
  AreJudged, AreDistinct, included_sources, source_results_sound,
}
use dumpectorist.Execution.Consensus.{
  ConsensusRules, ConsensusSourceResult, CrossExchangeConsensusReport, PriceSummary, deviation_pct,
  source_results, used_prices, summarize,
}

-- The prices of the results that are counted.
abbrev pub counted_prices : {D : Type 0} → List (ConsensusSourceResult D) → List D
counted_prices [] = []
counted_prices (r ∷ rs) =
    let rest = counted_prices rs in if r.included then r.price ∷ rest else rest

module _ {D F : Type 0} (dec : Num D) (flt : Num F) where
  -- How the numbers of a report come from the snapshots: each snapshot is judged in order, the
  -- usable sources are the counted ones, and the deviation of LBank and the dispersion are those of
  -- the counted prices, relative to their median.
  pub record IsMeasured (lbank : LBankExecutionSnapshot D) (snapshots : List (BenchmarkSnapshot D))
      (m : CrossExchangeSymbolMap) (now : Datetime) (rules : ConsensusRules D F)
      (report : CrossExchangeConsensusReport D) (deviation dispersion : D) : Type 0 where
    pub results : List (ConsensusSourceResult D)
    pub judged : AreJudged dec flt rules m now [] snapshots results
    pub distinct : AreDistinct (included_sources results)
    pub counted : report.usable_sources ≡ length (counted_prices results)
    pub first : D
    pub others : List D
    pub priced : counted_prices results ≡ first ∷ others
    pub middle : D
    pub median_price : median dec (first ∷ others) ≡ some middle
    pub positive : dec.le middle (dec.lit 0 0) ≡ false
    pub apart :
        deviation
        ≡ dec.mul
            (dec.div (dec.abs (dec.sub (executable_mid_price dec lbank) middle)) middle)
            (dec.lit 100 0)
    pub spread :
        dispersion
        ≡ dec.mul
            (dec.div (dec.sub (max_from dec first others) (min_from dec first others)) middle)
            (dec.lit 100 0)

  used-counted : (rs : List (ConsensusSourceResult D)) → used_prices dec flt rs ≡ counted_prices rs
  unfolding used_prices
  used-counted [] = refl
  used-counted (r ∷ rs) = rw (used-counted rs) refl

  Option-cases : {A : Type 0} (o : Option A) → ((a : A) × (o ≡ some a)) ⊎ (o ≡ none)
  Option-cases (some a) = inl (a, refl)
  Option-cases none = inr refl

  -- The summary of some prices.
  summarize_parts :
      (price : D) (prices : List D) {p : PriceSummary dec flt}
      → summarize dec flt price prices ≡ Result.ok (some p)
      → (first : D) × (others : List D) × (middle : D) × (prices ≡ first ∷ others)
        × (median dec (first ∷ others) ≡ some middle)
        × (dec.le middle (dec.lit 0 0) ≡ false)
        × (p.deviation ≡ dec.mul (dec.div (dec.abs (dec.sub price middle)) middle) (dec.lit 100 0))
        × (p.dispersion
            ≡ dec.mul
                (dec.div (dec.sub (max_from dec first others) (min_from dec first others)) middle)
                (dec.lit 100 0))
  unfolding summarize deviation_pct
  summarize_parts price [] h = absurd (cc)
  summarize_parts price (x ∷ xs) h = elim (Option-cases (median dec (x ∷ xs))) [
    | inr empty ↦ absurd (ground (arith, rw (summarize, empty) at h))
    | inl (middle, found) ↦
        let h' = rw (summarize, found) at h in
        (x, xs, middle, refl, found, ground arith, ground arith, ground arith)
  ]

  module _ (lbank : LBankExecutionSnapshot D) (snapshots : List (BenchmarkSnapshot D))
      (m : CrossExchangeSymbolMap) (now : Datetime) (rules : ConsensusRules D F)
      (report : CrossExchangeConsensusReport D) where
    pub IsMeasured-of_summary :
        (results : List (ConsensusSourceResult D)) {p : PriceSummary dec flt}
        → source_results dec flt rules m now [] snapshots ≡ Result.ok results
        → report.usable_sources ≡ length (used_prices dec flt results)
        → summarize dec flt (executable_mid_price dec lbank) (used_prices dec flt results)
          ≡ Result.ok (some p)
        → IsMeasured lbank snapshots m now rules report p.deviation p.dispersion
    IsMeasured-of_summary results looped usable summed =
        let (first, others, middle, priced, found, positive, apart, spread) =
          summarize_parts (executable_mid_price dec lbank) (used_prices dec flt results) summed in
        let (judged, distinct) =
          source_results_sound dec flt rules m now snapshots results looped in
        record {
          results = results;
          judged = judged;
          distinct = distinct;
          counted = usable ∙ ap length (used-counted results);
          first = first;
          others = others;
          priced = sym (used-counted results) ∙ priced;
          middle = middle;
          median_price = found;
          positive = positive;
          apart = apart;
          spread = spread;
        }
