-- ===== src/Setups/Reclaim/Engine.antt =====
-- app/setups/reclaim_engine.py: the state of a reclaim attempt, from the closed candles after a
-- confirmed break. A list of candles that the code knows not to be empty is its first and the rest.
pub mod Outcomes
pub mod Analysis
pub mod Runs
pub mod Trigger
pub mod Identity
pub mod Verdict
use dumpectorist.Prelude.{
  Bool, true, false, not, ◌&&◌, ◌||◌, ℕ, ◌+◌, ◌-◌, String, List, [], ◌∷◌, ◌++◌, Option, none, some,
  str_eq, length, take, drop, ltb, leb, ◌==◌, if◌then◌else◌, map,
}
use dumpectorist.Prelude.Int.{ℤ, pos}
use dumpectorist.Prelude.Number.{Num}
use dumpectorist.Prelude.Platform.{Platform}
use dumpectorist.Prelude.Result.{Result, ok, err, value_error, raise_if, ◌>>=◌, ◌>>◌}
use dumpectorist.Prelude.Scans.{first_where, index_where, count_where}
use dumpectorist.Prelude.Sorting.{greatest_from}
use dumpectorist.Prelude.Text.{◌<>◌, take_chars}
use dumpectorist.Prelude.Time.{Datetime, micros}
use dumpectorist.Candles.{
  CandleInterval, OhlcvCandle, same_candle_source, same_interval, label, interval_value, earlier,
  not_later,
}
use dumpectorist.Structure.Htf.{SupportZone, StructureEvent, StructureEventState}
use dumpectorist.Structure.Events.{join_bars, sum_volume}
use dumpectorist.Setups.Reclaim.{
  ReclaimOutcome, DerivedSetupType, SetupReadiness, ReclaimRules, ReclaimAttempt, reclaim_attempt,
}

-- The arguments of `_result` but the zone, the event and the interval.
pub record Findings (D : Type 0) : Type 0 where
  pub started_at : Datetime
  pub observed_at : Datetime
  pub outcome : ReclaimOutcome
  pub setup_type : DerivedSetupType
  pub readiness : SetupReadiness
  pub maximum_price : D
  pub maximum_penetration_bps : D
  pub duration_bars : ℕ
  pub closes_above_zone : ℕ
  pub bars_above_zone : ℕ
  pub bounce_volume_ratio : Option D
  pub rejection_candle_open_time : Option Datetime
  pub rejection_low : Option D
  pub trigger_candle_open_time : Option Datetime
  pub quality_score : D
  pub reasons : List String
  pub warnings : List String

pub record Quality (D : Type 0) : Type 0 where
  pub total : D
  pub reasons : List String
  pub warnings : List String

abbrev pub same_time : Datetime → Datetime → Bool
same_time a b = not_later a b && not_later b a

abbrev pub is_confirmation : CandleInterval → Bool
is_confirmation CandleInterval.h4 = true
is_confirmation CandleInterval.m15 = true
is_confirmation _ = false

abbrev pub is_confirmed_break : StructureEventState → Bool
is_confirmed_break StructureEventState.confirmed_break = true
is_confirmed_break _ = false

-- `candles[-1]`
abbrev pub last_from : {D : Type 0} → OhlcvCandle D → List (OhlcvCandle D) → OhlcvCandle D
last_from c [] = c
last_from c (d ∷ ds) = last_from d ds

module _ {D : Type 0} (os : Platform D) (dec : Num D) where
  -- `min(a, b)`, `max(a, b)`
  abbrev pub smaller : D → D → D
  smaller a b = if dec.lt b a then b else a

  abbrev pub larger : D → D → D
  larger a b = if dec.lt a b then b else a

  -- `_penetration_bps`
  unfoldable pub penetration_bps : D → D → D
  penetration_bps price zone_low =
      if dec.le price zone_low
      then dec.lit 0 0
      else dec.mul (dec.div (dec.sub price zone_low) zone_low) (dec.lit 10000 0)

  -- `_body_fraction`
  unfoldable pub candle_body_fraction : OhlcvCandle D → D
  candle_body_fraction c =
      let range = dec.sub c.high_price c.low_price in
      if dec.eq range (dec.lit 0 0)
      then dec.lit 0 0
      else dec.div (dec.abs (dec.sub c.close_price c.open_price)) range

  -- `_volume_ratio`
  unfoldable pub bounce_ratio : List (OhlcvCandle D) → D → Option D
  unfolding sum_volume
  bounce_ratio [] breakdown_volume = none
  bounce_ratio (c ∷ cs) breakdown_volume =
      if dec.le breakdown_volume (dec.lit 0 0)
      then none
      else some (
          dec.div
            (dec.div (sum_volume os dec (dec.lit 0 0) (c ∷ cs))
              (dec.of_int (pos (length (c ∷ cs)))))
            breakdown_volume)

  -- `max(item.high_price for item in candles)`
  unfoldable pub highest : OhlcvCandle D → List (OhlcvCandle D) → D
  highest c cs = greatest_from dec.lt c.high_price (map (λ d. d.high_price) cs)

  -- All fields, as `==` of two candles compares them.
  unfoldable pub same_candle : OhlcvCandle D → OhlcvCandle D → Bool
  same_candle a b =
      same_candle_source a.source b.source
      && str_eq a.category b.category
      && str_eq a.symbol b.symbol
      && same_interval a.interval b.interval
      && same_time a.open_time b.open_time
      && same_time a.close_time b.close_time
      && dec.eq a.open_price b.open_price
      && dec.eq a.high_price b.high_price
      && dec.eq a.low_price b.low_price
      && dec.eq a.close_price b.close_price
      && dec.eq a.volume b.volume
      && dec.eq a.turnover b.turnover

  -- `_attempt_id`
  unfoldable pub attempt_id_of : String → String → CandleInterval → Datetime → String
  unfolding join_bars
  attempt_id_of break_event_id zone_id interval started_at =
      "attempt_"
      <> take_chars 24 (
          os.sha256 (
            join_bars
              (break_event_id ∷ zone_id ∷ interval_value interval ∷ os.isoformat started_at ∷ [])))

  -- `_validate_inputs`, the part before the loop.
  unfoldable pub validate_break :
      SupportZone D → StructureEvent D → OhlcvCandle D → Result (Unit {0})
  validate_break z e b = do
    raise_if (not (is_confirmed_break e.state))
        (value_error "reclaim analysis requires a confirmed structure break")
    raise_if (not (str_eq e.zone_id z.zone_id))
        (value_error "break event does not belong to support zone")
    raise_if
        (not (
          same_candle_source e.source z.source
          && str_eq e.symbol z.symbol
          && same_interval e.interval z.interval))
        (value_error "break event does not match support zone")
    raise_if
        (not (
          same_candle_source b.source z.source
          && str_eq b.symbol z.symbol
          && same_interval b.interval z.interval
          && same_time b.open_time e.candle_open_time))
        (value_error "break candle does not match confirmed break event")
    raise_if (not (same_time b.close_time e.observed_at))
        (value_error "break candle close must match break observation time")

  -- The loop of `_validate_inputs`, with the candle before.
  unfoldable pub validate_stream :
      SupportZone D → Option (OhlcvCandle D) → List (OhlcvCandle D) → Result (Unit {0})
  validate_stream z previous [] = ok tt
  validate_stream z previous (c ∷ cs) = do
    raise_if (not (same_candle_source c.source z.source && str_eq c.symbol z.symbol))
        (value_error "confirmation candle does not match zone source and symbol")
    raise_if (not (is_confirmation c.interval))
        (value_error "reclaim confirmation requires 4H or 15m candles")
    raise_if (elim previous [ none ↦ false | some p ↦ not (same_interval c.interval p.interval) ])
        (value_error "confirmation candles must share one interval")
    raise_if (elim previous [ none ↦ false | some p ↦ not_later c.open_time p.open_time ])
        (value_error "confirmation candles must be strictly chronological")
    validate_stream z (some c) cs

  -- `_quality`
  unfoldable pub volume_component : ReclaimRules D → Option D → D
  volume_component rules none = dec.lit 8 0
  volume_component rules (some ratio) =
      if dec.le ratio rules.maximum_bounce_volume_ratio
      then dec.quantize 2 (
          dec.add (dec.lit 15 0) (
            dec.mul (dec.lit 10 0) (
              dec.sub (dec.lit 1 0)
                (dec.div ratio (larger rules.maximum_bounce_volume_ratio (dec.lit 1 4))))))
      else dec.lit 0 0

  unfoldable pub volume_warnings : ReclaimRules D → Option D → List String
  volume_warnings rules none = "BOUNCE_VOLUME_RATIO_UNAVAILABLE" ∷ []
  volume_warnings rules (some ratio) =
      if dec.le ratio rules.maximum_bounce_volume_ratio then [] else "BOUNCE_VOLUME_NOT_WEAK" ∷ []

  unfoldable pub quality_of : ReclaimRules D → D → D → Option D → ℕ → Bool → Quality D
  unfolding volume_component volume_warnings
  quality_of rules penetration body ratio duration triggered =
      let fraction =
        smaller (dec.lit 1 0) (
          dec.div penetration
            (larger rules.maximum_failed_reclaim_penetration_bps (dec.lit 1 0))) in
      let depth = dec.quantize 2 (dec.mul (dec.lit 25 0) (dec.sub (dec.lit 1 0) fraction)) in
      let rejection = dec.quantize 2 (dec.mul (dec.lit 30 0) (smaller (dec.lit 1 0) body)) in
      let spent =
        smaller (dec.lit 1 0)
          (dec.div (dec.of_int (pos duration)) (dec.of_int (pos rules.maximum_pullback_bars))) in
      let time = dec.quantize 2 (dec.mul (dec.lit 20 0) (dec.sub (dec.lit 1 0) spent)) in
      let volume = volume_component rules ratio in
      let trigger = if triggered then dec.lit 20 0 else dec.lit 0 0 in
      record {
        total = dec.quantize 2 (
            smaller (dec.lit 100 0)
              (dec.add (dec.add (dec.add (dec.add depth rejection) time) volume) trigger));
        reasons =
            ("QUALITY_PENETRATION_" <> dec.show depth)
            ∷ ("QUALITY_REJECTION_" <> dec.show rejection)
            ∷ ("QUALITY_DURATION_" <> dec.show time)
            ∷ ("QUALITY_VOLUME_" <> dec.show volume)
            ∷ ("QUALITY_TRIGGER_" <> dec.show trigger)
            ∷ [];
        warnings = volume_warnings rules ratio;
      }

  module _ (rules : ReclaimRules D) (z : SupportZone D) where
    -- `candle.close_price > zone.high`
    unfoldable pub closes_above : OhlcvCandle D → Bool
    closes_above c = dec.lt z.high c.close_price

    -- How many closes in a row reclaim the zone.
    abbrev pub required_closes : CandleInterval → ℕ
    required_closes CandleInterval.h4 = rules.successful_h4_closes
    required_closes _ = rules.successful_m15_closes

    -- The loop of `_successful_reclaim_index`.
    unfoldable pub reclaim_from : ℕ → ℕ → ℕ → List (OhlcvCandle D) → Option ℕ
    reclaim_from required index consecutive [] = none
    reclaim_from required index consecutive (c ∷ cs) =
        let counted = reclaim_from required (index + 1) (consecutive + 1) cs in
        let reset = reclaim_from required (index + 1) 0 cs in
        if closes_above c
        then if leb required (consecutive + 1) then some index else counted
        else reset

    -- `_successful_reclaim_index`
    unfoldable pub successful_reclaim_index : OhlcvCandle D → List (OhlcvCandle D) → Option ℕ
    successful_reclaim_index c cs = reclaim_from (required_closes c.interval) 0 0 (c ∷ cs)

    -- `_first_attempt_index`
    unfoldable pub first_attempt_index : List (OhlcvCandle D) → Option ℕ
    first_attempt_index cs =
        let threshold = dec.mul z.low (
          dec.add (dec.lit 1 0)
            (dec.div rules.minimum_attempt_penetration_bps (dec.lit 10000 0))) in
        index_where 0 (λ c. dec.le threshold c.high_price) cs

    unfoldable pub is_rejection : OhlcvCandle D → Bool
    unfolding candle_body_fraction penetration_bps
    is_rejection c =
        not (dec.lt c.high_price z.low)
        && not (dec.le z.low c.close_price || dec.le c.open_price c.close_price)
        && dec.le rules.minimum_rejection_body_fraction (candle_body_fraction c)
        && dec.le rules.minimum_rejection_distance_bps
            (dec.mul (dec.div (dec.sub z.low c.close_price) z.low) (dec.lit 10000 0))
        && dec.le (penetration_bps c.high_price z.low) rules.maximum_failed_reclaim_penetration_bps

    -- `_rejection_index`
    unfoldable pub rejection_index : List (OhlcvCandle D) → Option ℕ
    rejection_index cs = index_where 0 is_rejection cs
