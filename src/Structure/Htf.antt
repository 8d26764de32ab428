-- ===== src/Structure/Htf.antt =====
-- app/structure/htf_models.py: support zones, structure events and the evidence of a timeframe.
use dumpectorist.Prelude.{
  Bool, true, false, not, ◌&&◌, ◌||◌, ℕ, String, List, [], ◌∷◌, Option, none, some, str_eq, length,
  all, any, ltb, ◌==◌,
}
use dumpectorist.Prelude.Number.{Num}
use dumpectorist.Prelude.Platform.{Platform}
use dumpectorist.Prelude.Result.{Result, ok, value_error, raise_if, ◌>>=◌, ◌>>◌}
use dumpectorist.Prelude.Text.{◌<>◌, strip, is_blank}
use dumpectorist.Prelude.Time.{Datetime, require_aware}
use dumpectorist.Candles.{
  CandleSource, CandleInterval, same_candle_source, same_interval, earlier, not_later,
}

pub data SupportZoneState : Type 0 where
  active broken reclaimed expired : SupportZoneState

pub data StructureEventState : Type 0 where
  pending_break confirmed_break fake_break reclaimed invalidated : StructureEventState

abbrev pub event_state_value : StructureEventState → String
event_state_value StructureEventState.pending_break = "PENDING_BREAK"
event_state_value StructureEventState.confirmed_break = "CONFIRMED_BREAK"
event_state_value StructureEventState.fake_break = "FAKE_BREAK"
event_state_value StructureEventState.reclaimed = "RECLAIMED"
event_state_value StructureEventState.invalidated = "INVALIDATED"

pub data TimeframeStructureStatus : Type 0 where
  intact watch damaged reclaimed invalidated insufficient : TimeframeStructureStatus

pub record SupportZone (D : Type 0) : Type 0 where
  pub zone_id : String
  pub source : CandleSource
  pub symbol : String
  pub interval : CandleInterval
  pub low : D
  pub high : D
  pub created_at : Datetime
  pub confirmed_at : Datetime
  pub last_test_at : Datetime
  pub touch_count : ℕ
  pub rejection_count : ℕ
  pub strength_score : D
  pub evidence_open_times : List Datetime
  pub state : SupportZoneState
  pub reasons : List String

pub record StructureEvent (D : Type 0) : Type 0 where
  pub event_id : String
  pub zone_id : String
  pub source : CandleSource
  pub symbol : String
  pub interval : CandleInterval
  pub state : StructureEventState
  pub observed_at : Datetime
  pub candle_open_time : Datetime
  pub close_price : D
  pub zone_low : D
  pub zone_high : D
  pub distance_bps : D
  pub body_fraction : D
  pub volume_ratio : Option D
  pub invalidates_event_id : Option String
  pub reasons : List String

pub record TimeframeStructureEvidence : Type 0 where
  pub source : CandleSource
  pub symbol : String
  pub interval : CandleInterval
  pub status : TimeframeStructureStatus
  pub observed_at : Datetime
  pub zone_id : Option String
  pub event_id : Option String
  pub reasons : List String

pub record HtfStructureAnalysis (D : Type 0) : Type 0 where
  pub source : CandleSource
  pub symbol : String
  pub interval : CandleInterval
  pub observed_at : Datetime
  pub zones : List (SupportZone D)
  pub primary_zone : Option (SupportZone D)
  pub events : List (StructureEvent D)
  pub evidence : TimeframeStructureEvidence

abbrev pub is_damaged : TimeframeStructureStatus → Bool
is_damaged TimeframeStructureStatus.damaged = true
is_damaged _ = false

abbrev pub is_higher : CandleInterval → Bool
is_higher CandleInterval.d1 = true
is_higher CandleInterval.h4 = true
is_higher _ = false

-- `_htf_interval`
abbrev pub htf_interval : CandleInterval → Result (Unit {0})
htf_interval i =
    raise_if (not (is_higher i)) (value_error "higher-timeframe evidence requires Daily or 4H")

-- `not text` for a text or None.
abbrev pub is_missing : Option String → Bool
is_missing none = true
is_missing (some s) = is_blank s

-- `tuple(sorted(set(times))) == times`: each is before the next.
unfoldable pub is_chronological : List Datetime → Bool
is_chronological [] = true
is_chronological (t ∷ []) = true
is_chronological (t ∷ u ∷ ts) = earlier t u && is_chronological (u ∷ ts)

unfoldable pub all_aware : List Datetime → Result (Unit {0})
all_aware [] = ok tt
all_aware (t ∷ ts) = do require_aware t "evidence_open_time"; all_aware ts

module _ {D : Type 0} (os : Platform D) (dec : Num D) where
  -- The least price, 10^-18.
  abbrev pub least_price : D
  least_price = dec.lit 1 18

  -- `_decimal` with a minimum.
  unfoldable pub decimal_at_least : D → String → D → Result D
  decimal_at_least value name minimum = do
    raise_if (not (dec.is_finite value)) (value_error (name <> " must be finite"))
    raise_if (dec.lt value minimum)
        (value_error (name <> (" must be at least " <> dec.show minimum)))
    ok value

  -- `_decimal` with a minimum and a maximum.
  unfoldable pub decimal_between : D → String → D → D → Result D
  unfolding decimal_at_least
  decimal_between value name minimum maximum = do
    v ← decimal_at_least value name minimum
    raise_if (dec.lt maximum v) (value_error (name <> (" must be at most " <> dec.show maximum)))
    ok v

  abbrev pub optional_at_least : Option D → String → D → Result (Unit {0})
  optional_at_least none name minimum = ok tt
  optional_at_least (some v) name minimum = do w ← decimal_at_least v name minimum; ok tt

  unfoldable pub check_evidence : SupportZone D → Result (Unit {0})
  check_evidence z = do
    raise_if (ltb z.touch_count 2) (value_error "support zone requires at least two touches")
    raise_if (ltb z.touch_count z.rejection_count)
        (value_error "rejection_count must be between zero and touch_count")
    score ← decimal_between z.strength_score "strength_score" (dec.lit 0 0) (dec.lit 100 0)
    all_aware z.evidence_open_times
    raise_if (not (length z.evidence_open_times == z.touch_count))
        (value_error "touch_count must match evidence_open_times")
    raise_if (not (is_chronological z.evidence_open_times))
        (value_error "evidence_open_times must be unique and chronological")

  -- `SupportZone.__post_init__`
  unfoldable pub support_zone : SupportZone D → Result (SupportZone D)
  unfolding check_evidence decimal_at_least decimal_between
  support_zone z = do
    let zone_id = strip z.zone_id
    let symbol = os.upper (strip z.symbol)
    raise_if (is_blank zone_id) (value_error "zone_id is required")
    raise_if (is_blank symbol) (value_error "symbol is required")
    htf_interval z.interval
    low ← decimal_at_least z.low "low" least_price
    high ← decimal_at_least z.high "high" least_price
    raise_if (dec.le high low) (value_error "support-zone low must be below high")
    require_aware z.created_at "created_at"
    require_aware z.confirmed_at "confirmed_at"
    require_aware z.last_test_at "last_test_at"
    raise_if (earlier z.confirmed_at z.created_at)
        (value_error "confirmed_at must not precede created_at")
    raise_if (earlier z.last_test_at z.created_at)
        (value_error "last_test_at must not precede created_at")
    check_evidence z
    ok (record z { zone_id = zone_id; symbol = symbol })

  -- `SupportZone.midpoint`
  unfoldable pub midpoint : SupportZone D → D
  midpoint z = dec.div (dec.add z.low z.high) (dec.lit 2 0)

  unfoldable pub check_measures : StructureEvent D → Result (Unit {0})
  unfolding decimal_at_least decimal_between
  check_measures e = do
    price ← decimal_at_least e.close_price "close_price" least_price
    low ← decimal_at_least e.zone_low "zone_low" least_price
    high ← decimal_at_least e.zone_high "zone_high" least_price
    raise_if (dec.le high low) (value_error "zone_low must be below zone_high")
    distance ← decimal_at_least e.distance_bps "distance_bps" (dec.lit 0 0)
    body ← decimal_between e.body_fraction "body_fraction" (dec.lit 0 0) (dec.lit 1 0)
    optional_at_least e.volume_ratio "volume_ratio" (dec.lit 0 0)

  -- `StructureEvent.__post_init__`
  unfoldable pub structure_event : StructureEvent D → Result (StructureEvent D)
  structure_event e = do
    let event_id = strip e.event_id
    let zone_id = strip e.zone_id
    let symbol = os.upper (strip e.symbol)
    raise_if (is_blank event_id || is_blank zone_id || is_blank symbol)
        (value_error "event_id, zone_id, and symbol are required")
    htf_interval e.interval
    require_aware e.observed_at "observed_at"
    require_aware e.candle_open_time "candle_open_time"
    raise_if (not_later e.observed_at e.candle_open_time)
        (value_error "observed_at must follow candle_open_time")
    check_measures e
    ok (record e { event_id = event_id; zone_id = zone_id; symbol = symbol })

  -- `TimeframeStructureEvidence.__post_init__`
  unfoldable pub timeframe_structure_evidence :
      TimeframeStructureEvidence → Result TimeframeStructureEvidence
  timeframe_structure_evidence e = do
    let symbol = os.upper (strip e.symbol)
    raise_if (is_blank symbol) (value_error "symbol is required")
    htf_interval e.interval
    require_aware e.observed_at "observed_at"
    raise_if (is_damaged e.status && is_missing e.event_id)
        (value_error "damaged evidence requires event_id")
    ok (record e { symbol = symbol })

  -- A zone or an event, against the analysis that holds it.
  abbrev pub belongs :
      HtfStructureAnalysis D → String → CandleSource → String → CandleInterval → Bool
  belongs a own source symbol interval =
      str_eq symbol own && same_interval interval a.interval && same_candle_source source a.source

  -- `HtfStructureAnalysis.__post_init__`. `in` compares zones by all their fields; `same_zone` is
  -- that comparison.
  unfoldable pub htf_structure_analysis :
      (SupportZone D → SupportZone D → Bool)
      → HtfStructureAnalysis D
      → Result (HtfStructureAnalysis D)
  htf_structure_analysis same_zone a = do
    let symbol = os.upper (strip a.symbol)
    htf_interval a.interval
    require_aware a.observed_at "observed_at"
    raise_if (is_blank symbol) (value_error "symbol is required")
    raise_if (not (str_eq a.evidence.symbol symbol && same_interval a.evidence.interval a.interval))
        (value_error "evidence must match analysis symbol and interval")
    raise_if (elim a.primary_zone [ none ↦ false | some z ↦ not (any (same_zone z) a.zones) ])
        (value_error "primary_zone must be included in zones")
    raise_if (not (all (λ z. belongs a symbol z.source z.symbol z.interval) a.zones))
        (value_error "zone does not match analysis")
    raise_if (not (all (λ e. belongs a symbol e.source e.symbol e.interval) a.events))
        (value_error "event does not match analysis")
    ok (record a { symbol = symbol })
