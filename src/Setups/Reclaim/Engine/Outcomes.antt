-- ===== src/Setups/Reclaim/Engine/Outcomes.antt =====
-- app/setups/reclaim_engine.py: `_result` and the findings that the branches hand to it.
use dumpectorist.Prelude.{
  Bool, false, ℕ, String, List, [], ◌∷◌, Option, none, some, length, if◌then◌else◌,
}
use dumpectorist.Prelude.Int.{pos}
use dumpectorist.Prelude.Number.{Num}
use dumpectorist.Prelude.Platform.{Platform}
use dumpectorist.Prelude.Result.{Result}
use dumpectorist.Prelude.Scans.{count_where}
use dumpectorist.Prelude.Text.{◌<>◌}
use dumpectorist.Candles.{CandleInterval, OhlcvCandle, label}
use dumpectorist.Structure.Htf.{SupportZone, StructureEvent}
use dumpectorist.Setups.Reclaim.{
  ReclaimOutcome, DerivedSetupType, SetupReadiness, ReclaimRules, ReclaimAttempt, reclaim_attempt,
}
use dumpectorist.Setups.Reclaim.Engine.{
  Findings, last_from, smaller, larger, penetration_bps, bounce_ratio, highest, attempt_id_of,
  closes_above,
}

module _ {D : Type 0} (os : Platform D) (dec : Num D) (rules : ReclaimRules D) (z : SupportZone D)
    (event : StructureEvent D) (broken : OhlcvCandle D) where
  -- `_result`
  unfoldable pub result_of : CandleInterval → Findings D → Result (ReclaimAttempt D)
  unfolding attempt_id_of
  result_of interval f = reclaim_attempt os dec (record {
    attempt_id = attempt_id_of os dec event.event_id z.zone_id interval f.started_at;
    break_event_id = event.event_id;
    zone_id = z.zone_id;
    source = z.source;
    symbol = z.symbol;
    structure_interval = z.interval;
    started_at = f.started_at;
    observed_at = f.observed_at;
    outcome = f.outcome;
    setup_type = f.setup_type;
    readiness = f.readiness;
    zone_low = z.low;
    zone_high = z.high;
    maximum_price = f.maximum_price;
    maximum_penetration_bps = dec.quantize 2 f.maximum_penetration_bps;
    duration_bars = f.duration_bars;
    closes_above_zone = f.closes_above_zone;
    bars_above_zone = f.bars_above_zone;
    bounce_volume_ratio = elim f.bounce_volume_ratio [
      | none ↦ none
      | some r ↦ some (dec.quantize 4 r)
    ];
    rejection_candle_open_time = f.rejection_candle_open_time;
    rejection_low = f.rejection_low;
    trigger_candle_open_time = f.trigger_candle_open_time;
    quality_score = f.quality_score;
    reasons = f.reasons;
    warnings = f.warnings;
  })

  -- What is measured over the candles that a result is about.
  unfoldable pub findings_over :
      ReclaimOutcome
      → DerivedSetupType
      → SetupReadiness
      → OhlcvCandle D
      → List (OhlcvCandle D)
      → List String
      → Findings D
  unfolding highest penetration_bps bounce_ratio closes_above
  findings_over outcome setup_type readiness c cs reasons = record {
    started_at = c.open_time;
    observed_at = (last_from c cs).close_time;
    outcome = outcome;
    setup_type = setup_type;
    readiness = readiness;
    maximum_price = highest os dec c cs;
    maximum_penetration_bps = penetration_bps os dec (highest os dec c cs) z.low;
    duration_bars = length (c ∷ cs);
    closes_above_zone = count_where (closes_above os dec rules z) (c ∷ cs);
    bars_above_zone = count_where (λ d. dec.lt z.high d.high_price) (c ∷ cs);
    bounce_volume_ratio = bounce_ratio os dec (c ∷ cs) broken.volume;
    rejection_candle_open_time = none;
    rejection_low = none;
    trigger_candle_open_time = none;
    quality_score = dec.lit 0 0;
    reasons = reasons;
    warnings = [];
  }

  -- Over candles that did not attempt the zone.
  unfoldable pub untested :
      ReclaimOutcome
      → DerivedSetupType
      → SetupReadiness
      → OhlcvCandle D
      → List (OhlcvCandle D)
      → List String
      → Findings D
  unfolding findings_over
  untested outcome setup_type readiness c cs reasons =
      record (findings_over outcome setup_type readiness c cs reasons) {
        maximum_penetration_bps = dec.lit 0 0;
        closes_above_zone = 0;
        bars_above_zone = 0;
      }

  -- The result without a candle after the break.
  unfoldable pub unretested : Findings D
  unretested = record {
    started_at = event.observed_at;
    observed_at = event.observed_at;
    outcome = ReclaimOutcome.no_attempt;
    setup_type = DerivedSetupType.breakdown_short;
    readiness = SetupReadiness.watch;
    maximum_price = event.close_price;
    maximum_penetration_bps = dec.lit 0 0;
    duration_bars = 0;
    closes_above_zone = 0;
    bars_above_zone = 0;
    bounce_volume_ratio = none;
    rejection_candle_open_time = none;
    rejection_low = none;
    trigger_candle_open_time = none;
    quality_score = dec.lit 0 0;
    reasons = "NO_POST_BREAK_CONFIRMATION_CANDLES" ∷ [];
    warnings = [];
  }

  unfoldable pub reclaimed : OhlcvCandle D → List (OhlcvCandle D) → Findings D
  reclaimed c cs =
      findings_over ReclaimOutcome.successful_reclaim DerivedSetupType.no_setup
        SetupReadiness.cancelled c cs
        ("SUCCESSFUL_RECLAIM_CONFIRMED"
          ∷ ("CONFIRMATION_INTERVAL_" <> os.upper (label c.interval))
          ∷ "SHORT_SETUP_CANCELLED"
          ∷ [])

  unfoldable pub continuation_warnings : Option D → List String
  continuation_warnings none = []
  continuation_warnings (some ratio) =
      if dec.lt rules.maximum_bounce_volume_ratio ratio
      then "CONTINUATION_BOUNCE_VOLUME_NOT_WEAK" ∷ []
      else []

  -- `ratio is not None and ratio <= rules.maximum_bounce_volume_ratio`
  abbrev pub is_weak : Option D → Bool
  is_weak none = false
  is_weak (some ratio) = dec.le ratio rules.maximum_bounce_volume_ratio

  unfoldable pub continuation_quality : Option D → ℕ → D
  continuation_quality ratio considered =
      let base = if is_weak ratio then dec.add (dec.lit 65 0) (dec.lit 10 0) else dec.lit 65 0 in
      let spent = smaller os dec (dec.of_int (pos considered)) (dec.lit 10 0) in
      dec.quantize 2 (larger os dec (dec.lit 0 0) (dec.sub base spent))

  -- The continuation, over the candles up to the one that triggers it.
  unfoldable pub continued :
      OhlcvCandle D → List (OhlcvCandle D) → OhlcvCandle D → OhlcvCandle D → Findings D
  unfolding untested continuation_warnings continuation_quality
  continued c cs bounce trigger =
      let ratio = bounce_ratio os dec (c ∷ cs) broken.volume in
      record (untested ReclaimOutcome.continuation DerivedSetupType.continuation_short
        SetupReadiness.qualified c cs
        ("LOWER_HIGH_BELOW_BROKEN_ZONE" ∷ "POST_BOUNCE_LOWER_LOW_CONFIRMED"
          ∷ "CONTINUATION_SETUP_SECONDARY" ∷ [])) {
            observed_at = trigger.close_time;
            rejection_candle_open_time = some bounce.open_time;
            rejection_low = some broken.low_price;
            trigger_candle_open_time = some trigger.open_time;
            quality_score = continuation_quality ratio (length (c ∷ cs));
            warnings = continuation_warnings ratio;
          }
