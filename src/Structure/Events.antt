-- ===== src/Structure/Events.antt =====
-- app/structure/structure_events.py: what the candles after a support zone's confirmation do to it.
-- The counts of the rules are whole numbers here; the constructor refuses zero, and so less.
pub mod Order
pub mod Damage
use dumpectorist.Prelude.{
  Bool, true, false, not, ◌&&◌, ◌||◌, ℕ, ◌+◌, ◌-◌, String, List, [], ◌∷◌, ◌++◌, Option, none, some,
  str_eq, length, drop, get_last?, is_empty, ltb, leb, ◌==◌, if◌then◌else◌,
}
use dumpectorist.Prelude.Int.{ℤ, pos}
use dumpectorist.Prelude.Number.{Num}
use dumpectorist.Prelude.Platform.{Platform}
use dumpectorist.Prelude.Result.{Result, ok, err, value_error, raise_if, ◌>>=◌, ◌>>◌}
use dumpectorist.Prelude.Text.{◌<>◌, strip, is_blank, show_nat, take_chars}
use dumpectorist.Prelude.Time.{Datetime, micros}
use dumpectorist.Candles.{
  CandleSource, CandleInterval, OhlcvCandle, same_candle_source, same_interval, earlier, not_later,
}
use dumpectorist.Structure.Htf.{
  SupportZone, StructureEvent, StructureEventState, TimeframeStructureEvidence,
  TimeframeStructureStatus, event_state_value, structure_event, timeframe_structure_evidence,
}

pub record StructureEventRules (D : Type 0) : Type 0 where
  pub minimum_break_distance_bps : D
  pub minimum_break_body_fraction : D
  pub fake_break_max_bars : ℕ
  pub maximum_zone_age_bars : ℕ
  pub volume_lookback : ℕ

-- What a candle is to a zone that is not broken yet.
pub data Turn : Type 0 where
  breaks pends expires passes : Turn

-- `"|".join(parts)`
unfoldable pub join_bars : List String → String
join_bars [] = ""
join_bars (s ∷ []) = s
join_bars (s ∷ t ∷ ts) = s <> ("|" <> join_bars (t ∷ ts))

abbrev pub status_of : StructureEventState → TimeframeStructureStatus
status_of StructureEventState.pending_break = TimeframeStructureStatus.watch
status_of StructureEventState.confirmed_break = TimeframeStructureStatus.damaged
status_of StructureEventState.fake_break = TimeframeStructureStatus.reclaimed
status_of StructureEventState.reclaimed = TimeframeStructureStatus.reclaimed
status_of StructureEventState.invalidated = TimeframeStructureStatus.invalidated

module _ {D : Type 0} (os : Platform D) (dec : Num D) where
  -- `StructureEventRules.__post_init__`
  unfoldable pub structure_event_rules : StructureEventRules D → Result (StructureEventRules D)
  structure_event_rules r = do
    raise_if
        (not (dec.is_finite r.minimum_break_distance_bps)
          || dec.lt r.minimum_break_distance_bps (dec.lit 0 0))
        (value_error "minimum_break_distance_bps must be non-negative")
    raise_if
        (not (dec.is_finite r.minimum_break_body_fraction)
          || dec.lt r.minimum_break_body_fraction (dec.lit 0 0)
          || dec.lt (dec.lit 1 0) r.minimum_break_body_fraction)
        (value_error "minimum_break_body_fraction must be between zero and one")
    raise_if (r.fake_break_max_bars == 0) (value_error "fake_break_max_bars must be positive")
    raise_if (r.maximum_zone_age_bars == 0) (value_error "maximum_zone_age_bars must be positive")
    raise_if (r.volume_lookback == 0) (value_error "volume_lookback must be positive")
    ok r

  -- `_validate_inputs`, from the open time of the candle before.
  unfoldable pub validate_inputs :
      SupportZone D → Option Datetime → List (OhlcvCandle D) → Result (Unit {0})
  validate_inputs z previous [] = ok tt
  validate_inputs z previous (c ∷ cs) = do
    raise_if
        (not (
          same_candle_source c.source z.source
          && str_eq c.symbol z.symbol
          && same_interval c.interval z.interval))
        (value_error "candle does not match support zone")
    raise_if (elim previous [ none ↦ false | some t ↦ not_later c.open_time t ])
        (value_error "candles must be strictly chronological")
    validate_inputs z (some c.open_time) cs

  abbrev pub bps : D
  bps = dec.lit 10000 0

  -- `_body_fraction`
  unfoldable pub body_fraction : OhlcvCandle D → D
  body_fraction c =
      let range = dec.sub c.high_price c.low_price in
      if dec.eq range (dec.lit 0 0)
      then dec.lit 0 0
      else dec.quantize 4 (dec.div (dec.abs (dec.sub c.close_price c.open_price)) range)

  -- `sum((item.volume for item in candles), Decimal("0"))`
  unfoldable pub sum_volume : D → List (OhlcvCandle D) → D
  sum_volume total [] = total
  sum_volume total (c ∷ cs) = sum_volume (dec.add total c.volume) cs

  unfoldable pub average_ratio : List (OhlcvCandle D) → OhlcvCandle D → Option D
  unfolding sum_volume
  average_ratio history c =
      let average =
        dec.div (sum_volume (dec.lit 0 0) history) (dec.of_int (pos (length history))) in
      if dec.eq average (dec.lit 0 0)
      then none
      else some (dec.quantize 4 (dec.div c.volume average))

  -- `_volume_ratio`, of the candles before the one at the index.
  unfoldable pub volume_ratio : List (OhlcvCandle D) → OhlcvCandle D → ℕ → Option D
  unfolding average_ratio
  volume_ratio before c lookback =
      let history = drop (length before - lookback) before in
      if is_empty history then none else average_ratio history c

  -- `_event_id`
  unfoldable pub event_id_of : String → OhlcvCandle D → StructureEventState → String
  unfolding join_bars
  event_id_of zone_id c state =
      "event_"
      <> take_chars 24 (
          os.sha256 (
            join_bars (
              zone_id
              ∷ os.isoformat c.open_time
              ∷ os.isoformat c.close_time
              ∷ event_state_value state
              ∷ [])))

  -- `_event`
  unfoldable pub event_of :
      SupportZone D
      → OhlcvCandle D
      → StructureEventState
      → D
      → Option D
      → Option String
      → List String
      → Result (StructureEvent D)
  event_of z c state distance volume invalidates reasons = structure_event os dec (record {
    event_id = event_id_of z.zone_id c state;
    zone_id = z.zone_id;
    source = z.source;
    symbol = z.symbol;
    interval = z.interval;
    state = state;
    observed_at = c.close_time;
    candle_open_time = c.open_time;
    close_price = c.close_price;
    zone_low = z.low;
    zone_high = z.high;
    distance_bps = dec.quantize 2 distance;
    body_fraction = body_fraction c;
    volume_ratio = volume;
    invalidates_event_id = invalidates;
    reasons = reasons;
  })

  module _ (rules : StructureEventRules D) (z : SupportZone D) where
    unfoldable pub is_below : OhlcvCandle D → Bool
    is_below c = dec.lt c.close_price z.low

    unfoldable pub is_above : OhlcvCandle D → Bool
    is_above c = dec.lt z.high c.close_price

    abbrev pub break_distance : OhlcvCandle D → D
    break_distance c = dec.mul (dec.div (dec.sub z.low c.close_price) z.low) bps

    -- `confirmed`
    unfoldable pub is_confirmed : OhlcvCandle D → Bool
    is_confirmed c =
        dec.le rules.minimum_break_distance_bps (break_distance c)
        && dec.le rules.minimum_break_body_fraction (body_fraction c)

    -- The branch that a candle takes while nothing is confirmed.
    unfoldable pub turn_of : ℕ → Bool → OhlcvCandle D → Turn
    turn_of index pending c =
        if is_below c
        then if is_confirmed c then Turn.breaks else if pending then Turn.passes else Turn.pends
        else if ltb rules.maximum_zone_age_bars (index + 1)
        then Turn.expires
        else Turn.passes

    abbrev pub return_state : ℕ → StructureEventState
    return_state bars =
        if leb bars rules.fake_break_max_bars
        then StructureEventState.fake_break
        else StructureEventState.reclaimed

    -- The event of a candle that closes above a broken zone.
    unfoldable pub return_event :
        String → ℕ → List (OhlcvCandle D) → OhlcvCandle D → Result (StructureEvent D)
    return_event broken bars before c =
        event_of z c (return_state bars)
          (dec.mul (dec.div (dec.sub c.close_price z.high) z.high) bps)
          (volume_ratio before c rules.volume_lookback) (some broken)
          ("CLOSE_ABOVE_SUPPORT_ZONE" ∷ ("BARS_AFTER_BREAK_" <> show_nat bars) ∷ [])

    -- The loop once a break is confirmed, with the number of bars after it.
    unfoldable pub after_break :
        String → ℕ → List (OhlcvCandle D) → List (OhlcvCandle D) → Result (List (StructureEvent D))
    after_break broken bars before [] = ok []
    after_break broken bars before (c ∷ cs) =
        let rest = after_break broken (bars + 1) (before ++ c ∷ []) cs in
        if is_above c then (do e ← return_event broken bars before c; ok (e ∷ [])) else rest

    unfoldable pub break_event : List (OhlcvCandle D) → OhlcvCandle D → Result (StructureEvent D)
    break_event before c =
        event_of z c StructureEventState.confirmed_break (break_distance c)
          (volume_ratio before c rules.volume_lookback) none
          ("CLOSE_BELOW_SUPPORT_ZONE" ∷ "BREAK_DISTANCE_CONFIRMED" ∷ "BREAK_BODY_CONFIRMED" ∷ [])

    unfoldable pub pending_event : List (OhlcvCandle D) → OhlcvCandle D → Result (StructureEvent D)
    pending_event before c =
        event_of z c StructureEventState.pending_break (break_distance c)
          (volume_ratio before c rules.volume_lookback) none
          ("CLOSE_BELOW_SUPPORT_ZONE" ∷ "BREAK_CONFIRMATION_INCOMPLETE" ∷ [])

    unfoldable pub expiry_event : List (OhlcvCandle D) → OhlcvCandle D → Result (StructureEvent D)
    expiry_event before c =
        event_of z c StructureEventState.invalidated (dec.lit 0 0)
          (volume_ratio before c rules.volume_lookback) none
          ("SUPPORT_ZONE_EXPIRED_WITHOUT_BREAK" ∷ [])

    -- The loop while nothing is confirmed. A candle that closes below the zone has made a pending
    -- event, or finds one made.
    unfoldable pub before_break :
        ℕ → Bool → List (OhlcvCandle D) → List (OhlcvCandle D) → Result (List (StructureEvent D))
    before_break index pending before [] = ok []
    before_break index pending before (c ∷ cs) =
        let rest = before_break (index + 1) (pending || is_below c) (before ++ c ∷ []) cs in
        elim (turn_of index pending c) [
          | Turn.breaks ↦ do
            e ← break_event before c
            later ← after_break e.event_id 1 (before ++ c ∷ []) cs
            ok (e ∷ later)
          | Turn.pends ↦ do e ← pending_event before c; later ← rest; ok (e ∷ later)
          | Turn.expires ↦ do e ← expiry_event before c; ok (e ∷ [])
          | Turn.passes ↦ rest
        ]

    -- `item.open_time >= zone.confirmed_at`
    unfoldable pub relevant_to : List (OhlcvCandle D) → List (OhlcvCandle D)
    relevant_to [] = []
    relevant_to (c ∷ cs) =
        let rest = relevant_to cs in if not_later z.confirmed_at c.open_time then c ∷ rest else rest

    unfoldable pub build_structure_events : List (OhlcvCandle D) → Result (List (StructureEvent D))
    build_structure_events candles = do
      validate_inputs z none candles
      before_break 0 false [] (relevant_to candles)

  -- The evidence without a zone, with a zone and no event, and with the latest event.
  unfoldable pub evidence_of :
      Option (SupportZone D)
      → Option (StructureEvent D)
      → CandleSource
      → String
      → CandleInterval
      → Datetime
      → TimeframeStructureEvidence
  evidence_of none latest source symbol interval observed_at = record {
    source = source;
    symbol = symbol;
    interval = interval;
    status = TimeframeStructureStatus.insufficient;
    observed_at = observed_at;
    zone_id = none;
    event_id = none;
    reasons = "NO_VALID_SUPPORT_ZONE" ∷ [];
  }
  evidence_of (some z) none source symbol interval observed_at = record {
    source = source;
    symbol = symbol;
    interval = interval;
    status = TimeframeStructureStatus.intact;
    observed_at = observed_at;
    zone_id = some z.zone_id;
    event_id = none;
    reasons = "SUPPORT_ZONE_INTACT" ∷ [];
  }
  evidence_of (some z) (some e) source symbol interval observed_at = record {
    source = source;
    symbol = symbol;
    interval = interval;
    status = status_of e.state;
    observed_at = e.observed_at;
    zone_id = some z.zone_id;
    event_id = some e.event_id;
    reasons = e.reasons ++ ("EVENT_STATE_" <> event_state_value e.state) ∷ [];
  }

  -- `evidence_from_events`
  unfoldable pub evidence_from_events :
      Option (SupportZone D)
      → List (StructureEvent D)
      → CandleSource
      → String
      → CandleInterval
      → Datetime
      → Result TimeframeStructureEvidence
  unfolding evidence_of
  evidence_from_events zone events source symbol interval observed_at =
      timeframe_structure_evidence os dec
        (evidence_of zone (get_last? events) source symbol interval observed_at)
