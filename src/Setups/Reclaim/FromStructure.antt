-- ===== src/Setups/Reclaim/FromStructure.antt =====
-- app/setups/runtime_analysis.py: the reclaim attempt of a 4H analysis.
pub mod Origin
use dumpectorist.Prelude.{
  ◌⊎◌, ◌≤◌, arith, Bool, true, false, not, ◌&&◌, ◌≡◌, String, List, [], ◌∷◌, Option, none, some,
  str_eq, All, refl, ap, ◌∙◌, Bool-cases, Option-cases, inl, inr, if◌then◌else◌,
}
use dumpectorist.Prelude.Number.{Num}
use dumpectorist.Prelude.Platform.{Platform}
use dumpectorist.Prelude.Result.{
  Error, Result, ok, err, value_error, raise_if, ◌>>=◌, ◌>>◌, >>=-eq-ok, ok_injective,
}
use dumpectorist.Prelude.Scans.{Member, first_where, first_where-some}
use dumpectorist.Prelude.Sorting.{greatest_from, greatest_from-holds, greatest_from-IsUpper}
use dumpectorist.Prelude.Time.{micros}
use dumpectorist.Candles.{
  earlier, CandleBatch, CandleInterval, OhlcvCandle, same_candle_source, same_interval,
}
use dumpectorist.Structure.Htf.{SupportZone, StructureEvent, HtfStructureAnalysis}
use dumpectorist.Structure.Timeframe.{is_earlier_event}
use dumpectorist.Setups.Reclaim.{
  ReclaimRules, ReclaimAttempt, reclaim_rules, is_successful, is_qualified,
}
use dumpectorist.Setups.Reclaim.Engine.{same_time, is_confirmed_break}
use dumpectorist.Setups.Reclaim.Engine.Analysis.{analyze_reclaim_attempt, relevant_after}
use dumpectorist.Setups.Reclaim.Engine.Identity.{IsFrom, analyze_reclaim_attempt-IsFrom}
use dumpectorist.Setups.Reclaim.Engine.Trigger.{IsTriggered}
use dumpectorist.Setups.Reclaim.Engine.Verdict.{
  is_reclaimed, analyze_reclaim_attempt-is_reclaimed, analyze_reclaim_attempt-IsTriggered,
}

abbrev pub is_four_hours : CandleInterval → Bool
is_four_hours CandleInterval.h4 = true
is_four_hours _ = false

module _ {D : Type 0} where
  -- `[item for item in analysis.events if item.state == CONFIRMED_BREAK]`
  unfoldable pub confirmed_breaks : List (StructureEvent D) → List (StructureEvent D)
  confirmed_breaks [] = []
  confirmed_breaks (e ∷ es) =
      let rest = confirmed_breaks es in if is_confirmed_break e.state then e ∷ rest else rest

module _ {D : Type 0} (os : Platform D) (dec : Num D) (text_lt : String → String → Bool)
    (same_zone : SupportZone D → SupportZone D → Bool) (rules : ReclaimRules D) where
  abbrev pub zone_of_event : StructureEvent D → List (SupportZone D) → Option (SupportZone D)
  zone_of_event e zones = first_where (λ z. str_eq z.zone_id e.zone_id) zones

  abbrev pub candle_of_event : StructureEvent D → List (OhlcvCandle D) → Option (OhlcvCandle D)
  candle_of_event e candles = first_where (λ c. same_time c.open_time e.candle_open_time) candles

  -- What follows the choice of the event.
  unfoldable pub attempt_of :
      CandleBatch D → HtfStructureAnalysis D → StructureEvent D → Result (Option (ReclaimAttempt D))
  attempt_of b a e = elim (zone_of_event e a.zones) [
    | none ↦ err (value_error "confirmed break is missing its support zone")
    | some z ↦ elim (candle_of_event e b.candles) [
      | none ↦ err (value_error "confirmed break is missing its source candle")
      | some c ↦ do
        attempt ← analyze_reclaim_attempt os dec rules z e c b.candles
        ok (some attempt)
    ]
  ]

  -- The latest of the confirmed breaks, by `(observed_at, event_id)`.
  unfoldable pub attempt_of_latest :
      CandleBatch D
      → HtfStructureAnalysis D
      → List (StructureEvent D)
      → Result (Option (ReclaimAttempt D))
  unfolding attempt_of is_earlier_event
  attempt_of_latest b a [] = ok none
  attempt_of_latest b a (e ∷ es) =
      attempt_of b a (greatest_from (is_earlier_event os dec text_lt same_zone) e es)

  unfoldable pub derive_reclaim_from_structure :
      CandleBatch D → HtfStructureAnalysis D → Result (Option (ReclaimAttempt D))
  derive_reclaim_from_structure b a = if not (is_four_hours b.interval) then ok none else (do
    raise_if
        (not (
          same_candle_source a.source b.source
          && str_eq a.symbol b.symbol
          && same_interval a.interval b.interval))
        (value_error "structure analysis does not match candle batch")
    attempt_of_latest b a (confirmed_breaks a.events))
