-- ===== src/Setups/Reclaim/Engine/Analysis.antt =====
-- app/setups/reclaim_engine.py: `analyze_reclaim_attempt`, its branches and `_continuation_result`.
-- The windows `candles[:n]` of the rules hold a candle at least, for the rules' constructor refuses
-- a window of no bars.
use dumpectorist.Prelude.{
  ◌&&◌, ◌||◌, ℕ, ◌+◌, ◌-◌, List, [], ◌∷◌, Option, none, some, is_some, length, take, drop, ltb, leb,
  ◌==◌, if◌then◌else◌,
}
use dumpectorist.Prelude.Number.{Num}
use dumpectorist.Prelude.Platform.{Platform}
use dumpectorist.Prelude.Result.{Result, ok, err, value_error, ◌>>=◌, ◌>>◌}
use dumpectorist.Prelude.Scans.{first_where, index_where}
use dumpectorist.Candles.{CandleInterval, OhlcvCandle, earlier}
use dumpectorist.Structure.Htf.{SupportZone, StructureEvent}
use dumpectorist.Setups.Reclaim.{
  ReclaimOutcome, DerivedSetupType, SetupReadiness, ReclaimRules, ReclaimAttempt,
}
use dumpectorist.Setups.Reclaim.Engine.{
  Findings, Quality, last_from, penetration_bps, candle_body_fraction, bounce_ratio, highest,
  same_candle, validate_break, validate_stream, quality_of, successful_reclaim_index,
  first_attempt_index, rejection_index,
}
use dumpectorist.Setups.Reclaim.Engine.Outcomes.{
  result_of, findings_over, untested, unretested, reclaimed, continued,
}

-- The candle at the first greatest high, with its index, past the best one so far.
abbrev pub peak_from :
    {D : Type 0} (dec : Num D) → ℕ → OhlcvCandle D → ℕ → List (OhlcvCandle D) → ℕ × OhlcvCandle D
peak_from dec best b i [] = (best, b)
peak_from dec best b i (c ∷ cs) =
    let climbed = peak_from dec i c (i + 1) cs in
    let stayed = peak_from dec best b (i + 1) cs in
    if dec.lt b.high_price c.high_price then climbed else stayed

module _ {D : Type 0} (os : Platform D) (dec : Num D) (rules : ReclaimRules D) (z : SupportZone D)
    (event : StructureEvent D) (broken : OhlcvCandle D) where
  -- The candle that triggers a continuation, after the bounce.
  unfoldable pub continuation_trigger :
      OhlcvCandle D → ℕ × OhlcvCandle D → List (OhlcvCandle D) → Option (OhlcvCandle D)
  continuation_trigger c (i, bounce) rest =
      let trigger =
        first_where
          (λ d. dec.lt d.close_price broken.low_price && dec.lt d.high_price bounce.high_price)
          (drop i rest) in
      if i == 0 || leb (length rest) i
      then none
      else if dec.le z.low bounce.high_price || dec.le bounce.high_price event.close_price
      then none
      else trigger

  -- `_continuation_result`
  unfoldable pub continuation_result :
      OhlcvCandle D → List (OhlcvCandle D) → Result (Option (ReclaimAttempt D))
  continuation_result c cs =
      let rest = take (rules.maximum_pullback_bars - 1) cs in
      let peak = peak_from dec 0 c 1 rest in
      if ltb (length (c ∷ cs)) rules.continuation_minimum_bars
      then ok none
      else elim (continuation_trigger c peak rest) [
        | none ↦ ok none
        | some t ↦ elim (index_where 0 (same_candle os dec t) (c ∷ rest)) [
          | none ↦ err (value_error "tuple.index(x): x not in tuple")
          | some k ↦ do
            a ←
                result_of os dec rules z event broken c.interval
                  (continued os dec rules z event broken c (take k rest) peak.1 t)
            ok (some a)
        ]
      ]

  -- A zone that is not retested: the setup waits, or is too old.
  unfoldable pub unattempted : OhlcvCandle D → List (OhlcvCandle D) → Findings D
  unfolding untested
  unattempted c cs =
      if leb rules.maximum_setup_age_bars (length (c ∷ cs))
      then untested os dec rules z event broken ReclaimOutcome.expired DerivedSetupType.no_setup
          SetupReadiness.expired c cs ("SETUP_EXPIRED_WITHOUT_RECLAIM_ATTEMPT" ∷ [])
      else untested os dec rules z event broken ReclaimOutcome.no_attempt
          DerivedSetupType.breakdown_short SetupReadiness.watch c cs
          ("BROKEN_ZONE_NOT_RETESTED" ∷ [])

  -- `if continuation is not None: return continuation`, and what follows.
  unfoldable pub unless_continued :
      OhlcvCandle D → List (OhlcvCandle D) → Option (ReclaimAttempt D) → Result (ReclaimAttempt D)
  unfolding unattempted
  unless_continued c cs (some a) = ok a
  unless_continued c cs none = result_of os dec rules z event broken c.interval (unattempted c cs)

  -- The branches without an attempt.
  unfoldable pub without_attempt : OhlcvCandle D → List (OhlcvCandle D) → Result (ReclaimAttempt D)
  without_attempt c cs = do
    continuation ← continuation_result c cs
    unless_continued c cs continuation

  -- An attempt that is not rejected: `a` is its first candle, `limited` the rest of the window, and
  -- `rest` the rest of the stream.
  unfoldable pub unrejected :
      OhlcvCandle D → List (OhlcvCandle D) → List (OhlcvCandle D) → Findings D
  unfolding findings_over
  unrejected a limited rest =
      if ltb rules.maximum_pullback_bars (length (a ∷ rest))
      then findings_over os dec rules z event broken ReclaimOutcome.invalidated
          DerivedSetupType.no_setup SetupReadiness.invalidated a limited
          ("PULLBACK_WINDOW_EXCEEDED_WITHOUT_REJECTION" ∷ [])
      else findings_over os dec rules z event broken ReclaimOutcome.attempting
          DerivedSetupType.breakdown_short SetupReadiness.watch a rest
          ("RECLAIM_ATTEMPT_IN_PROGRESS" ∷ [])

  unfoldable pub waiting :
      ℕ → OhlcvCandle D → List (OhlcvCandle D) → OhlcvCandle D → Quality D → Findings D
  unfolding findings_over
  waiting r a considered rejection q =
      record (findings_over os dec rules z event broken ReclaimOutcome.failed_reclaim
        DerivedSetupType.breakdown_short SetupReadiness.watch a considered
        ("RECLAIM_REJECTED" ∷ "WAITING_FOR_REJECTION_LOW_BREAK" ∷ q.reasons)) {
          observed_at = rejection.close_time;
          duration_bars = r + 1;
          rejection_candle_open_time = some rejection.open_time;
          rejection_low = some rejection.low_price;
          quality_score = q.total;
          warnings = q.warnings;
        }

  unfoldable pub pulled_back :
      ℕ
      → OhlcvCandle D
      → List (OhlcvCandle D)
      → OhlcvCandle D
      → OhlcvCandle D
      → Quality D
      → Findings D
  unfolding findings_over
  pulled_back r a considered rejection trigger q =
      record (findings_over os dec rules z event broken ReclaimOutcome.failed_pullback
        DerivedSetupType.failed_pullback_short SetupReadiness.qualified a considered
        ("RECLAIM_REJECTED" ∷ "REJECTION_LOW_BROKEN_ON_CLOSED_CANDLE"
          ∷ "FAILED_PULLBACK_PRIMARY_SETUP" ∷ q.reasons)) {
            observed_at = trigger.close_time;
            duration_bars = r + 1;
            rejection_candle_open_time = some rejection.open_time;
            rejection_low = some rejection.low_price;
            trigger_candle_open_time = some trigger.open_time;
            quality_score = q.total;
            warnings = q.warnings;
          }

  -- The close below the rejection's low, after the rejection.
  abbrev pub pullback_trigger : ℕ → OhlcvCandle D → List (OhlcvCandle D) → Option (OhlcvCandle D)
  pullback_trigger r rejection rest =
      first_where (λ d. dec.lt d.close_price rejection.low_price) (drop r rest)

  -- With and without a trigger.
  unfoldable pub settled :
      ℕ
      → OhlcvCandle D
      → List (OhlcvCandle D)
      → OhlcvCandle D
      → Quality D
      → Option (OhlcvCandle D)
      → Findings D
  unfolding waiting pulled_back
  settled r a considered rejection q none = waiting r a considered rejection q
  settled r a considered rejection q (some t) = pulled_back r a considered rejection t q

  -- An attempt that is rejected at an index of the window. The candle there is the last of those
  -- considered.
  unfoldable pub rejected :
      ℕ → OhlcvCandle D → List (OhlcvCandle D) → List (OhlcvCandle D) → Findings D
  unfolding settled
  rejected r a limited rest =
      let considered = take r limited in
      let rejection = last_from a considered in
      let trigger = pullback_trigger r rejection rest in
      let q =
        quality_of os dec rules (penetration_bps os dec (highest os dec a considered) z.low)
          (candle_body_fraction os dec rejection)
          (bounce_ratio os dec (a ∷ considered) broken.volume) (r + 1) (is_some trigger) in
      settled r a considered rejection q trigger

  -- The branches with an attempt, of the stream that begins at it.
  unfoldable pub with_attempt : CandleInterval → List (OhlcvCandle D) → Result (ReclaimAttempt D)
  with_attempt interval [] = err (value_error "max() iterable argument is empty")
  with_attempt interval (a ∷ rest) =
      let limited = take (rules.maximum_pullback_bars - 1) rest in
      elim (rejection_index os dec rules z (a ∷ limited)) [
        | none ↦ result_of os dec rules z event broken interval (unrejected a limited rest)
        | some r ↦ result_of os dec rules z event broken interval (rejected r a limited rest)
      ]

  -- The candles that close after the break.
  unfoldable pub relevant_after : List (OhlcvCandle D) → List (OhlcvCandle D)
  relevant_after [] = []
  relevant_after (c ∷ cs) =
      let rest = relevant_after cs in
      if earlier event.observed_at c.close_time then c ∷ rest else rest

  unfoldable pub analyze_relevant : List (OhlcvCandle D) → Result (ReclaimAttempt D)
  analyze_relevant [] =
      result_of os dec rules z event broken CandleInterval.h4
        (unretested os dec rules z event broken)
  analyze_relevant (c ∷ cs) = elim (successful_reclaim_index os dec rules z c cs) [
    | some i ↦
        result_of os dec rules z event broken c.interval
          (reclaimed os dec rules z event broken c (take i cs))
    | none ↦ elim (first_attempt_index os dec rules z (c ∷ cs)) [
      | none ↦ without_attempt c cs
      | some i ↦ with_attempt c.interval (drop i (c ∷ cs))
    ]
  ]

  unfoldable pub analyze_reclaim_attempt : List (OhlcvCandle D) → Result (ReclaimAttempt D)
  analyze_reclaim_attempt candles = do
    validate_break os dec z event broken
    validate_stream os dec z none candles
    analyze_relevant (relevant_after candles)
