-- ===== src/Structure/Timeframe.antt =====
-- app/structure/htf_engine.py: the analysis of a timeframe, its zones, their events and the evidence.
pub mod Verdict
use dumpectorist.Prelude.{
  Bool, true, false, not, ◌&&◌, ◌||◌, String, List, [], ◌∷◌, ◌++◌, Option, none, some, str_eq, map,
  if◌then◌else◌,
}
use dumpectorist.Prelude.Number.{Num}
use dumpectorist.Prelude.Platform.{Platform}
use dumpectorist.Prelude.Result.{Result, ok, err, value_error, raise_if, ◌>>=◌, ◌>>◌}
use dumpectorist.Prelude.Sorting.{sort_by, greatest_from}
use dumpectorist.Prelude.Time.{Datetime}
use dumpectorist.Candles.{CandleBatch, OhlcvCandle, earlier}
use dumpectorist.Structure.Htf.{
  SupportZone, StructureEvent, HtfStructureAnalysis, TimeframeStructureEvidence, is_higher,
  htf_structure_analysis,
}
use dumpectorist.Structure.Events.{
  StructureEventRules, build_structure_events, evidence_from_events,
}
use dumpectorist.Structure.Zones.{SupportZoneRules}
use dumpectorist.Structure.Zones.Derive.{derive_support_zones}

-- A zone with its events, and one that has some.
pub record Traced (D : Type 0) : Type 0 where
  pub zone : SupportZone D
  pub events : List (StructureEvent D)

pub record Bearing (D : Type 0) : Type 0 where
  pub bearing_zone : SupportZone D
  pub first_event : StructureEvent D
  pub later_events : List (StructureEvent D)

module _ {D : Type 0} where
  -- `item[1][-1].observed_at`
  abbrev pub last_observed : StructureEvent D → List (StructureEvent D) → Datetime
  last_observed e [] = e.observed_at
  last_observed e (f ∷ fs) = last_observed f fs

  -- `[item for item in events_by_zone if item[1]]`
  abbrev pub add_bearing :
      SupportZone D → List (StructureEvent D) → List (Bearing D) → List (Bearing D)
  add_bearing z [] bs = bs
  add_bearing z (e ∷ es) bs = record { bearing_zone = z; first_event = e; later_events = es } ∷ bs

  unfoldable pub bearing_of : List (Traced D) → List (Bearing D)
  bearing_of [] = []
  bearing_of (t ∷ ts) = add_bearing t.zone t.events (bearing_of ts)

  abbrev pub all_events : List (Traced D) → List (StructureEvent D)
  all_events [] = []
  all_events (t ∷ ts) = t.events ++ all_events ts

-- `text_lt` is `<` of two texts, and `same_zone` the comparison of zones by all their fields.
module _ {D : Type 0} (os : Platform D) (dec : Num D) (text_lt : String → String → Bool)
    (same_zone : SupportZone D → SupportZone D → Bool) where
  -- The comparison of `(observed_at, strength_score, zone_id)`.
  unfoldable pub is_less_recent : Bearing D → Bearing D → Bool
  is_less_recent a b =
      let s = last_observed a.first_event a.later_events in
      let t = last_observed b.first_event b.later_events in
      if earlier s t || earlier t s
      then earlier s t
      else if not (dec.eq a.bearing_zone.strength_score b.bearing_zone.strength_score)
      then dec.lt a.bearing_zone.strength_score b.bearing_zone.strength_score
      else text_lt a.bearing_zone.zone_id b.bearing_zone.zone_id

  -- The comparison of `(observed_at, event_id)`.
  unfoldable pub is_earlier_event : StructureEvent D → StructureEvent D → Bool
  is_earlier_event a b =
      if earlier a.observed_at b.observed_at || earlier b.observed_at a.observed_at
      then earlier a.observed_at b.observed_at
      else text_lt a.event_id b.event_id

  -- Without an event, the first zone, or nothing.
  abbrev pub first_zone : List (Traced D) → Option (Traced D)
  first_zone [] = none
  first_zone (t ∷ ts) = some (record { zone = t.zone; events = [] })

  abbrev pub traced_again : Bearing D → Traced D
  traced_again b = record { zone = b.bearing_zone; events = b.first_event ∷ b.later_events }

  abbrev pub primary_among : List (Bearing D) → List (Traced D) → Option (Traced D)
  primary_among [] traced = first_zone traced
  primary_among (b ∷ bs) traced = some (traced_again (greatest_from is_less_recent b bs))

  -- `primary_zone` and `primary_events`
  unfoldable pub primary_of : List (Traced D) → Option (Traced D)
  unfolding is_less_recent bearing_of
  primary_of traced = primary_among (bearing_of traced) traced

  module _ (zone_rules : SupportZoneRules D) (event_rules : StructureEventRules D) where
    -- The loop over the zones.
    unfoldable pub trace_zones :
        List (SupportZone D) → List (OhlcvCandle D) → Result (List (Traced D))
    trace_zones [] candles = ok []
    trace_zones (z ∷ zs) candles = do
      events ← build_structure_events os dec event_rules z candles
      rest ← trace_zones zs candles
      ok (record { zone = z; events = events } ∷ rest)

    abbrev pub evidence_for : CandleBatch D → Option (Traced D) → Result TimeframeStructureEvidence
    evidence_for b none =
        evidence_from_events os dec none [] b.source b.symbol b.interval b.fetched_at
    evidence_for b (some t) =
        evidence_from_events os dec (some t.zone) t.events b.source b.symbol b.interval b.fetched_at

    abbrev pub zone_in : Option (Traced D) → Option (SupportZone D)
    zone_in none = none
    zone_in (some t) = some t.zone

    unfoldable pub analyze_higher_timeframe : CandleBatch D → Result (HtfStructureAnalysis D)
    unfolding is_earlier_event
    analyze_higher_timeframe b = do
      raise_if (not (is_higher b.interval))
          (value_error "higher-timeframe analysis requires Daily or 4H candles")
      zones ← derive_support_zones os dec zone_rules text_lt b.candles
      traced ← trace_zones zones b.candles
      let primary = primary_of traced
      let events = sort_by is_earlier_event (all_events traced)
      evidence ← evidence_for b primary
      htf_structure_analysis os dec same_zone (record {
        source = b.source;
        symbol = b.symbol;
        interval = b.interval;
        observed_at = b.fetched_at;
        zones = zones;
        primary_zone = zone_in primary;
        events = events;
        evidence = evidence;
      })
