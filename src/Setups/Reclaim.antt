-- ===== src/Setups/Reclaim.antt =====
-- app/setups/reclaim_models.py: what the return of the price to a broken zone amounts to. The
-- counts are whole numbers here; the constructors refuse the negative ones.
pub mod Engine
pub mod FromStructure
use dumpectorist.Prelude.{
  Bool, true, false, not, ◌&&◌, ◌||◌, ℕ, String, List, Option, none, some, is_some, ltb, ◌==◌,
  if◌then◌else◌,
}
use dumpectorist.Prelude.Number.{Num}
use dumpectorist.Prelude.Platform.{Platform}
use dumpectorist.Prelude.Result.{Result, ok, err, value_error, raise_if, ◌>>=◌, ◌>>◌}
use dumpectorist.Prelude.Text.{strip, is_blank}
use dumpectorist.Prelude.Time.{Datetime, require_aware}
use dumpectorist.Candles.{CandleSource, CandleInterval, earlier, not_later}
use dumpectorist.Structure.Htf.{
  is_higher, decimal_at_least, decimal_between, optional_at_least, least_price,
}

pub data ReclaimOutcome : Type 0 where
  no_attempt attempting successful_reclaim failed_reclaim failed_pullback continuation expired
        invalidated :
      ReclaimOutcome

pub data DerivedSetupType : Type 0 where
  no_setup breakdown_short failed_pullback_short continuation_short : DerivedSetupType

pub data SetupReadiness : Type 0 where
  watch qualified cancelled expired invalidated : SetupReadiness

abbrev pub is_successful : ReclaimOutcome → Bool
is_successful ReclaimOutcome.successful_reclaim = true
is_successful _ = false

abbrev pub is_failed_pullback : ReclaimOutcome → Bool
is_failed_pullback ReclaimOutcome.failed_pullback = true
is_failed_pullback _ = false

abbrev pub is_no_setup : DerivedSetupType → Bool
is_no_setup DerivedSetupType.no_setup = true
is_no_setup _ = false

abbrev pub is_failed_pullback_short : DerivedSetupType → Bool
is_failed_pullback_short DerivedSetupType.failed_pullback_short = true
is_failed_pullback_short _ = false

abbrev pub is_qualified : SetupReadiness → Bool
is_qualified SetupReadiness.qualified = true
is_qualified _ = false

abbrev pub is_cancelled : SetupReadiness → Bool
is_cancelled SetupReadiness.cancelled = true
is_cancelled _ = false

-- `readiness in {CANCELLED, EXPIRED, INVALIDATED}`
abbrev pub is_inactive : SetupReadiness → Bool
is_inactive SetupReadiness.watch = false
is_inactive SetupReadiness.qualified = false
is_inactive _ = true

pub record ReclaimRules (D : Type 0) : Type 0 where
  pub successful_h4_closes : ℕ
  pub successful_m15_closes : ℕ
  pub minimum_attempt_penetration_bps : D
  pub maximum_failed_reclaim_penetration_bps : D
  pub maximum_bounce_volume_ratio : D
  pub minimum_rejection_body_fraction : D
  pub minimum_rejection_distance_bps : D
  pub maximum_pullback_bars : ℕ
  pub maximum_setup_age_bars : ℕ
  pub continuation_minimum_bars : ℕ

pub record ReclaimAttempt (D : Type 0) : Type 0 where
  pub attempt_id : String
  pub break_event_id : String
  pub zone_id : String
  pub source : CandleSource
  pub symbol : String
  pub structure_interval : CandleInterval
  pub started_at : Datetime
  pub observed_at : Datetime
  pub outcome : ReclaimOutcome
  pub setup_type : DerivedSetupType
  pub readiness : SetupReadiness
  pub zone_low : D
  pub zone_high : D
  pub maximum_price : D
  pub maximum_penetration_bps : D
  pub duration_bars : ℕ
  pub closes_above_zone : ℕ
  pub bars_above_zone : ℕ
  pub bounce_volume_ratio : Option D
  pub rejection_candle_open_time : Option Datetime
  pub rejection_low : Option D
  pub trigger_candle_open_time : Option Datetime
  pub quality_score : D
  pub reasons : List String
  pub warnings : List String

-- `None if value is None else _aware(value)`
abbrev pub optional_aware : Option Datetime → String → Result (Unit {0})
optional_aware none name = ok tt
optional_aware (some t) name = require_aware t name

-- `trigger_open is not None and trigger_open <= rejection_open`
abbrev pub is_not_after : Option Datetime → Option Datetime → Bool
is_not_after (some trigger) (some rejection) = not_later trigger rejection
is_not_after _ _ = false

module _ {D : Type 0} (os : Platform D) (dec : Num D) where
  -- `ReclaimRules.__post_init__`
  unfoldable pub reclaim_rules : ReclaimRules D → Result (ReclaimRules D)
  unfolding decimal_at_least
  reclaim_rules r = do
    raise_if (r.successful_h4_closes == 0) (value_error "successful_h4_closes must be positive")
    raise_if (r.successful_m15_closes == 0) (value_error "successful_m15_closes must be positive")
    a ←
        decimal_at_least os dec r.minimum_attempt_penetration_bps "minimum_attempt_penetration_bps"
          (dec.lit 0 0)
    b ←
        decimal_at_least os dec r.maximum_failed_reclaim_penetration_bps
          "maximum_failed_reclaim_penetration_bps" (dec.lit 0 0)
    c ←
        decimal_at_least os dec r.maximum_bounce_volume_ratio "maximum_bounce_volume_ratio"
          (dec.lit 0 0)
    d ←
        decimal_at_least os dec r.minimum_rejection_body_fraction "minimum_rejection_body_fraction"
          (dec.lit 0 0)
    e ←
        decimal_at_least os dec r.minimum_rejection_distance_bps "minimum_rejection_distance_bps"
          (dec.lit 0 0)
    raise_if (dec.lt (dec.lit 10 0) r.maximum_bounce_volume_ratio)
        (value_error "maximum_bounce_volume_ratio is unreasonably large")
    raise_if (dec.lt (dec.lit 1 0) r.minimum_rejection_body_fraction)
        (value_error "minimum_rejection_body_fraction must not exceed one")
    raise_if (r.maximum_pullback_bars == 0) (value_error "maximum_pullback_bars must be positive")
    raise_if (ltb r.maximum_setup_age_bars r.maximum_pullback_bars)
        (value_error "maximum_setup_age_bars must cover the pullback window")
    raise_if (ltb r.continuation_minimum_bars 2)
        (value_error "continuation_minimum_bars must be at least two")
    ok r

  unfoldable pub check_place : ReclaimAttempt D → Result (Unit {0})
  check_place a = do
    raise_if
        (is_blank (strip a.attempt_id)
          || is_blank (strip a.break_event_id)
          || is_blank (strip a.zone_id)
          || is_blank (os.upper (strip a.symbol)))
        (value_error "attempt, break-event, zone, and symbol identifiers are required")
    raise_if (not (is_higher a.structure_interval))
        (value_error "reclaim attempt requires Daily or 4H structure evidence")
    require_aware a.started_at "started_at"
    require_aware a.observed_at "observed_at"
    raise_if (earlier a.observed_at a.started_at)
        (value_error "observed_at must not precede started_at")

  unfoldable pub check_values : ReclaimAttempt D → Result (Unit {0})
  unfolding decimal_at_least decimal_between
  check_values a = do
    low ← decimal_at_least os dec a.zone_low "zone_low" (least_price os dec)
    high ← decimal_at_least os dec a.zone_high "zone_high" (least_price os dec)
    greatest ← decimal_at_least os dec a.maximum_price "maximum_price" (least_price os dec)
    raise_if (dec.le a.zone_high a.zone_low) (value_error "zone_low must be below zone_high")
    penetration ←
        decimal_at_least os dec a.maximum_penetration_bps "maximum_penetration_bps" (dec.lit 0 0)
    quality ← decimal_between os dec a.quality_score "quality_score" (dec.lit 0 0) (dec.lit 100 0)
    optional_at_least os dec a.bounce_volume_ratio "bounce_volume_ratio" (dec.lit 0 0)
    optional_at_least os dec a.rejection_low "rejection_low" (least_price os dec)
    optional_aware a.rejection_candle_open_time "rejection_candle_open_time"
    optional_aware a.trigger_candle_open_time "trigger_candle_open_time"

  unfoldable pub check_rejection : ReclaimAttempt D → Result (Unit {0})
  check_rejection a = do
    raise_if (ltb a.bars_above_zone a.closes_above_zone)
        (value_error "closes_above_zone cannot exceed bars_above_zone")
    raise_if
        (if is_some a.rejection_candle_open_time
          then not (is_some a.rejection_low)
          else is_some a.rejection_low)
        (value_error "rejection time and low must be provided together")
    raise_if (is_some a.trigger_candle_open_time && not (is_some a.rejection_candle_open_time))
        (value_error "trigger evidence requires rejection evidence")
    raise_if (is_not_after a.trigger_candle_open_time a.rejection_candle_open_time)
        (value_error "trigger candle must follow the rejection candle")

  unfoldable pub check_outcome : ReclaimAttempt D → Result (Unit {0})
  check_outcome a = do
    raise_if (is_successful a.outcome && not (is_cancelled a.readiness))
        (value_error "successful reclaim must cancel the short setup")
    raise_if (is_successful a.outcome && not (is_no_setup a.setup_type))
        (value_error "successful reclaim cannot retain a short setup type")
    raise_if (is_failed_pullback a.outcome && not (is_failed_pullback_short a.setup_type))
        (value_error "failed pullback must map to FAILED_PULLBACK_SHORT")
    raise_if (is_failed_pullback a.outcome && not (is_qualified a.readiness))
        (value_error "failed pullback must be qualified")
    raise_if
        (is_failed_pullback a.outcome
          && (not (is_some a.rejection_candle_open_time)
              || not (is_some a.trigger_candle_open_time)))
        (value_error "failed pullback requires rejection and trigger evidence")
    raise_if (is_qualified a.readiness && is_no_setup a.setup_type)
        (value_error "qualified evidence requires a setup type")
    raise_if (is_inactive a.readiness && not (is_no_setup a.setup_type))
        (value_error "inactive setup evidence cannot retain a setup type")

  -- `ReclaimAttempt.__post_init__`
  unfoldable pub reclaim_attempt : ReclaimAttempt D → Result (ReclaimAttempt D)
  reclaim_attempt a = do
    check_place a
    check_values a
    check_rejection a
    check_outcome a
    ok (record a {
      attempt_id = strip a.attempt_id;
      break_event_id = strip a.break_event_id;
      zone_id = strip a.zone_id;
      symbol = os.upper (strip a.symbol);
    })
