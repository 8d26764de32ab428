-- ===== src/Examples/Breaks.antt =====
-- Twelve 4H candles: two lows at 100 make a support zone, the ninth candle breaks it, the eleventh
-- rejects the return, and the twelfth closes below the rejection.
use dumpectorist.Prelude.{
  Bool, true, false, not, ◌≡◌, ◌⊎◌, ◌≤◌, ◌<◌, ℕ, ◌+◌, ◌*◌, String, List, [], ◌∷◌, refl, All, Option,
  none, some, is_some, length,
}
use mathlib.Core.List.{Perm}
use dumpectorist.Prelude.Int.{ℤ, pos}
use dumpectorist.Prelude.Fixed.{fixed, units}
use dumpectorist.Prelude.Result.{ok, err, value_error, is_ok, get_ok, get_ok-eq, false_no_true}
use dumpectorist.Candles.{CandleSource, CandleInterval, OhlcvCandle, CandleBatch}
use dumpectorist.Structure.Htf.{
  SupportZone, StructureEvent, HtfStructureAnalysis, TimeframeStructureEvidence, is_damaged,
}
use dumpectorist.Structure.Events.{
  StructureEventRules, build_structure_events, evidence_from_events, relevant_to,
}
use dumpectorist.Structure.Events.Order.{
  is_history, states, IsPriced, build_structure_events_ordered,
}
use dumpectorist.Structure.Events.Damage.{is_broken_for_good, evidence_from_events-is_damaged}
use dumpectorist.Structure.Zones.{
  untrapped, SupportZoneRules, PivotLow, support_zone_rules, find_pivots, cluster_pivots,
}
use dumpectorist.Structure.Zones.Pivots.{IsInside, find_pivots-IsInside}
use dumpectorist.Structure.Zones.Clusters.{members, IsTrapped, IsPriceOf, cluster_pivots-perm}
use dumpectorist.Structure.Zones.Refusals.{IsFailure}
use dumpectorist.Structure.Zones.Derive.{count_rejections, padding, derive_support_zones}
use dumpectorist.Structure.Zones.Errors.{derive_support_zones-IsFailure}
use dumpectorist.Structure.Zones.Bounds.{IsStrong, derive_support_zones-IsStrong}
use dumpectorist.Structure.Timeframe.{analyze_higher_timeframe}
use dumpectorist.Structure.Timeframe.Verdict.{analyze_higher_timeframe-is_damaged}
use dumpectorist.Candles.{
  candle_batch, candle_decimal, check_member, check_members, check_prices, check_range,
  ohlcv_candle,
}
use dumpectorist.Prelude.Int.{◌*ℤ◌, ◌+ℤ◌, ◌-ℤ◌}
use dumpectorist.Prelude.Sorting.{greatest_from, place_by, sort_by}
use dumpectorist.Prelude.Text.{is_space, lstrip, rstrip, show_nat, strip}
use dumpectorist.Structure.Events.{
  after_break, average_ratio, before_break, body_fraction, break_event, event_id_of, event_of,
  evidence_of, expiry_event, is_above, is_below, is_confirmed, join_bars, pending_event,
  return_event, structure_event_rules, sum_volume, turn_of, validate_inputs, volume_ratio,
}
use dumpectorist.Structure.Events.Damage.{stays_under}
use dumpectorist.Structure.Htf.{
  all_aware, check_evidence, check_measures, decimal_at_least, decimal_between,
  htf_structure_analysis, is_chronological, structure_event, support_zone,
  timeframe_structure_evidence,
}
use dumpectorist.Structure.Timeframe.{
  bearing_of, is_earlier_event, is_less_recent, primary_of, trace_zones,
}
use dumpectorist.Structure.Zones.{
  add_pivot, check_share, cluster_sorted, clusters_from, is_near, is_pivot, least_low, lowest,
  median_price, middle_of, pivot_step, pivots_from, validate_candles, validate_series,
}
use dumpectorist.Structure.Zones.Derive.{
  is_rejected, is_stronger, strength, width_bps, zone_from_cluster, zone_high, zone_id_of, zone_low,
  zone_of, zone_of_ordered, zones_of,
}
use dumpectorist.Examples.Market.{at_second}
use dumpectorist.Examples.Platforms.{silent}

abbrev tenths : ℕ → ℤ
tenths n = pos (n * 100_000)

-- The n-th candle, its open, high, low and close in tenths.
abbrev pub four_hours : ℕ → ℕ → ℕ → ℕ → ℕ → OhlcvCandle ℤ
four_hours n o h l c = record {
  source = CandleSource.bybit;
  category = "linear";
  symbol = "TIAUSDT";
  interval = CandleInterval.h4;
  open_time = at_second (n * 14_400);
  close_time = at_second (n * 14_400 + 14_400);
  open_price = tenths o;
  high_price = tenths h;
  low_price = tenths l;
  close_price = tenths c;
  volume = units 100;
  turnover = units 10_000;
}

abbrev pub broken : OhlcvCandle ℤ
broken = four_hours 8 1010 1020 940 950

abbrev pub twelve : List (OhlcvCandle ℤ)
twelve =
    four_hours 0 1120 1130 1100 1110
    ∷ four_hours 1 1110 1120 1080 1090
    ∷ four_hours 2 1080 1090 1000 1040
    ∷ four_hours 3 1080 1100 1070 1090
    ∷ four_hours 4 1090 1110 1080 1085
    ∷ four_hours 5 1080 1090 1000 1040
    ∷ four_hours 6 1070 1100 1060 1080
    ∷ four_hours 7 1080 1090 1070 1080
    ∷ broken
    ∷ four_hours 9 960 1010 955 970
    ∷ four_hours 10 995 1000 960 965
    ∷ four_hours 11 960 965 945 950
    ∷ []

abbrev pub day_batch : CandleBatch ℤ
day_batch = record {
  source = CandleSource.bybit;
  category = "linear";
  symbol = "TIAUSDT";
  interval = CandleInterval.h4;
  fetched_at = at_second 180_000;
  candles = twelve;
}

abbrev pub zone_rules : SupportZoneRules ℤ
zone_rules = record {
  pivot_left = 2;
  pivot_right = 2;
  minimum_touches = 2;
  minimum_touch_separation = 2;
  cluster_tolerance_bps = units 75;
  zone_padding_bps = units 20;
  maximum_zone_width_bps = units 180;
  minimum_rejection_bps = units 25;
  maximum_zones = 5;
}

abbrev pub event_rules : StructureEventRules ℤ
event_rules = record {
  minimum_break_distance_bps = units 10;
  minimum_break_body_fraction = pos 450_000;
  fake_break_max_bars = 3;
  maximum_zone_age_bars = 100;
  volume_lookback = 5;
}

-- The zones and events here differ in what is compared before their texts.
abbrev pub no_text_lt : String → String → Bool
no_text_lt s t = false

abbrev pub any_zone : SupportZone ℤ → SupportZone ℤ → Bool
any_zone y z = true

zone_rules-ok : support_zone_rules silent fixed zone_rules ≡ ok zone_rules
unfolding silent is_space lstrip rstrip strip show_nat ◌+ℤ◌ ◌-ℤ◌ ◌*ℤ◌
    dumpectorist.Prelude.Fixed.fixed place_by sort_by greatest_from candle_decimal check_range
    check_prices ohlcv_candle check_member check_members candle_batch is_chronological all_aware
    decimal_at_least decimal_between check_evidence support_zone check_measures structure_event
    timeframe_structure_evidence htf_structure_analysis join_bars structure_event_rules
    validate_inputs body_fraction sum_volume average_ratio volume_ratio event_id_of event_of
    is_below is_above is_confirmed turn_of return_event after_break break_event pending_event
    expiry_event before_break dumpectorist.Structure.Events.relevant_to
    dumpectorist.Structure.Events.build_structure_events evidence_of
    dumpectorist.Structure.Events.evidence_from_events check_share
    dumpectorist.Structure.Zones.support_zone_rules validate_series validate_candles least_low
    lowest middle_of median_price is_pivot add_pivot pivot_step pivots_from
    dumpectorist.Structure.Zones.find_pivots untrapped is_near clusters_from cluster_sorted
    dumpectorist.Structure.Zones.cluster_pivots zone_id_of is_stronger is_rejected count_rejections
    padding zone_low zone_high width_bps strength zone_of zone_of_ordered zone_from_cluster zones_of
    dumpectorist.Structure.Zones.Derive.derive_support_zones
zone_rules-ok = refl

find_pivots-IsInside_example :
    (pivots : List (PivotLow ℤ)) × (find_pivots silent fixed zone_rules twelve ≡ ok pivots)
    × All (IsInside silent fixed zone_rules twelve) pivots
find_pivots-IsInside_example = find_pivots-IsInside silent fixed zone_rules twelve zone_rules-ok

pivots_found : is_ok (find_pivots silent fixed zone_rules twelve) ≡ true
unfolding find_pivots pivots_from
pivots_found = refl

abbrev pivots : List (PivotLow ℤ)
pivots = get_ok (find_pivots silent fixed zone_rules twelve) pivots_found

three_pivots : length pivots ≡ 3
unfolding find_pivots pivots_from fixed
three_pivots = refl

cluster_pivots-perm_example :
    ((clusters : List (List (PivotLow ℤ))) × (cluster_pivots silent fixed zone_rules pivots
        ≡ ok clusters)
      × Perm (members clusters) pivots
      × All (λ cluster. 0 < length cluster) clusters)
    ⊎ IsTrapped fixed (IsPriceOf pivots) (cluster_pivots silent fixed zone_rules pivots)
cluster_pivots-perm_example = cluster_pivots-perm silent fixed zone_rules pivots

abbrev quarter_hours : List (OhlcvCandle ℤ)
quarter_hours = record broken { interval = CandleInterval.m15 } ∷ []

zones_refused :
    derive_support_zones silent fixed zone_rules no_text_lt quarter_hours
    ≡ err (value_error "support zones require Daily or 4H candles")
unfolding derive_support_zones validate_candles
zones_refused = refl

derive_support_zones-IsFailure_example :
    IsFailure (value_error "support zones require Daily or 4H candles")
derive_support_zones-IsFailure_example =
    derive_support_zones-IsFailure silent fixed zone_rules quarter_hours no_text_lt
      (value_error "support zones require Daily or 4H candles") zone_rules-ok zones_refused

zones_derived : is_ok (derive_support_zones silent fixed zone_rules no_text_lt twelve) ≡ true
unfolding silent is_space lstrip rstrip strip show_nat ◌+ℤ◌ ◌-ℤ◌ ◌*ℤ◌
    dumpectorist.Prelude.Fixed.fixed place_by sort_by greatest_from candle_decimal check_range
    check_prices ohlcv_candle check_member check_members candle_batch is_chronological all_aware
    decimal_at_least decimal_between check_evidence support_zone check_measures structure_event
    timeframe_structure_evidence htf_structure_analysis join_bars structure_event_rules
    validate_inputs body_fraction sum_volume average_ratio volume_ratio event_id_of event_of
    is_below is_above is_confirmed turn_of return_event after_break break_event pending_event
    expiry_event before_break dumpectorist.Structure.Events.relevant_to
    dumpectorist.Structure.Events.build_structure_events evidence_of
    dumpectorist.Structure.Events.evidence_from_events check_share
    dumpectorist.Structure.Zones.support_zone_rules validate_series validate_candles least_low
    lowest middle_of median_price is_pivot add_pivot pivot_step pivots_from
    dumpectorist.Structure.Zones.find_pivots untrapped is_near clusters_from cluster_sorted
    dumpectorist.Structure.Zones.cluster_pivots zone_id_of is_stronger is_rejected count_rejections
    padding zone_low zone_high width_bps strength zone_of zone_of_ordered zone_from_cluster zones_of
    dumpectorist.Structure.Zones.Derive.derive_support_zones
zones_derived = refl

abbrev zones : List (SupportZone ℤ)
zones = get_ok (derive_support_zones silent fixed zone_rules no_text_lt twelve) zones_derived

derive_support_zones-IsStrong_example :
    (length zones ≤ 5) × All (IsStrong silent fixed zone_rules twelve) zones
derive_support_zones-IsStrong_example =
    derive_support_zones-IsStrong silent fixed zone_rules twelve no_text_lt zones
      (get_ok-eq (derive_support_zones silent fixed zone_rules no_text_lt twelve) zones_derived)

pub analysis_made :
    is_ok
      (analyze_higher_timeframe silent fixed no_text_lt any_zone zone_rules event_rules day_batch)
    ≡ true
unfolding silent is_space lstrip rstrip strip show_nat ◌+ℤ◌ ◌-ℤ◌ ◌*ℤ◌
    dumpectorist.Prelude.Fixed.fixed place_by sort_by greatest_from candle_decimal check_range
    check_prices ohlcv_candle check_member check_members candle_batch is_chronological all_aware
    decimal_at_least decimal_between check_evidence support_zone check_measures structure_event
    timeframe_structure_evidence htf_structure_analysis join_bars structure_event_rules
    validate_inputs body_fraction sum_volume average_ratio volume_ratio event_id_of event_of
    is_below is_above is_confirmed turn_of return_event after_break break_event pending_event
    expiry_event before_break dumpectorist.Structure.Events.relevant_to
    dumpectorist.Structure.Events.build_structure_events evidence_of
    dumpectorist.Structure.Events.evidence_from_events check_share
    dumpectorist.Structure.Zones.support_zone_rules validate_series validate_candles least_low
    lowest middle_of median_price is_pivot add_pivot pivot_step pivots_from
    dumpectorist.Structure.Zones.find_pivots untrapped is_near clusters_from cluster_sorted
    dumpectorist.Structure.Zones.cluster_pivots zone_id_of is_stronger is_rejected count_rejections
    padding zone_low zone_high width_bps strength zone_of zone_of_ordered zone_from_cluster zones_of
    dumpectorist.Structure.Zones.Derive.derive_support_zones bearing_of is_less_recent
    is_earlier_event primary_of trace_zones
    dumpectorist.Structure.Timeframe.analyze_higher_timeframe stays_under
    dumpectorist.Structure.Events.Damage.is_broken_for_good
analysis_made = refl

abbrev pub analysis : HtfStructureAnalysis ℤ
analysis =
    get_ok
      (analyze_higher_timeframe silent fixed no_text_lt any_zone zone_rules event_rules day_batch)
      analysis_made

abbrev pub get_some {ℓ} : {A : Type ℓ} (o : Option A) → is_some o ≡ true → A
get_some none h = absurd (false_no_true h)
get_some (some a) h = a

pub get_some-eq {ℓ} : {A : Type ℓ} (o : Option A) (h : is_some o ≡ true) → o ≡ some (get_some o h)
get_some-eq none h = absurd (false_no_true h)
get_some-eq (some a) h = refl

pub zone_there : is_some analysis.primary_zone ≡ true
unfolding silent is_space lstrip rstrip strip show_nat ◌+ℤ◌ ◌-ℤ◌ ◌*ℤ◌
    dumpectorist.Prelude.Fixed.fixed place_by sort_by greatest_from candle_decimal check_range
    check_prices ohlcv_candle check_member check_members candle_batch is_chronological all_aware
    decimal_at_least decimal_between check_evidence support_zone check_measures structure_event
    timeframe_structure_evidence htf_structure_analysis join_bars structure_event_rules
    validate_inputs body_fraction sum_volume average_ratio volume_ratio event_id_of event_of
    is_below is_above is_confirmed turn_of return_event after_break break_event pending_event
    expiry_event before_break dumpectorist.Structure.Events.relevant_to
    dumpectorist.Structure.Events.build_structure_events evidence_of
    dumpectorist.Structure.Events.evidence_from_events check_share
    dumpectorist.Structure.Zones.support_zone_rules validate_series validate_candles least_low
    lowest middle_of median_price is_pivot add_pivot pivot_step pivots_from
    dumpectorist.Structure.Zones.find_pivots untrapped is_near clusters_from cluster_sorted
    dumpectorist.Structure.Zones.cluster_pivots zone_id_of is_stronger is_rejected count_rejections
    padding zone_low zone_high width_bps strength zone_of zone_of_ordered zone_from_cluster zones_of
    dumpectorist.Structure.Zones.Derive.derive_support_zones bearing_of is_less_recent
    is_earlier_event primary_of trace_zones
    dumpectorist.Structure.Timeframe.analyze_higher_timeframe stays_under
    dumpectorist.Structure.Events.Damage.is_broken_for_good
zone_there = refl

abbrev pub zone : SupportZone ℤ
zone = get_some analysis.primary_zone zone_there

analyze_higher_timeframe-is_damaged_example :
    is_damaged analysis.evidence.status
    ≡ is_broken_for_good silent fixed event_rules zone 0
        (relevant_to silent fixed event_rules zone twelve)
analyze_higher_timeframe-is_damaged_example =
    analyze_higher_timeframe-is_damaged silent fixed no_text_lt any_zone zone_rules event_rules
      day_batch analysis zone
      (get_ok-eq
        (analyze_higher_timeframe silent fixed no_text_lt any_zone zone_rules event_rules day_batch)
        analysis_made)
      (get_some-eq analysis.primary_zone zone_there)

analysis_damaged : is_damaged analysis.evidence.status ≡ true
unfolding silent is_space lstrip rstrip strip show_nat ◌+ℤ◌ ◌-ℤ◌ ◌*ℤ◌
    dumpectorist.Prelude.Fixed.fixed place_by sort_by greatest_from candle_decimal check_range
    check_prices ohlcv_candle check_member check_members candle_batch is_chronological all_aware
    decimal_at_least decimal_between check_evidence support_zone check_measures structure_event
    timeframe_structure_evidence htf_structure_analysis join_bars structure_event_rules
    validate_inputs body_fraction sum_volume average_ratio volume_ratio event_id_of event_of
    is_below is_above is_confirmed turn_of return_event after_break break_event pending_event
    expiry_event before_break dumpectorist.Structure.Events.relevant_to
    dumpectorist.Structure.Events.build_structure_events evidence_of
    dumpectorist.Structure.Events.evidence_from_events check_share
    dumpectorist.Structure.Zones.support_zone_rules validate_series validate_candles least_low
    lowest middle_of median_price is_pivot add_pivot pivot_step pivots_from
    dumpectorist.Structure.Zones.find_pivots untrapped is_near clusters_from cluster_sorted
    dumpectorist.Structure.Zones.cluster_pivots zone_id_of is_stronger is_rejected count_rejections
    padding zone_low zone_high width_bps strength zone_of zone_of_ordered zone_from_cluster zones_of
    dumpectorist.Structure.Zones.Derive.derive_support_zones bearing_of is_less_recent
    is_earlier_event primary_of trace_zones
    dumpectorist.Structure.Timeframe.analyze_higher_timeframe stays_under
    dumpectorist.Structure.Events.Damage.is_broken_for_good
analysis_damaged = refl

events_built : is_ok (build_structure_events silent fixed event_rules zone twelve) ≡ true
unfolding silent is_space lstrip rstrip strip show_nat ◌+ℤ◌ ◌-ℤ◌ ◌*ℤ◌
    dumpectorist.Prelude.Fixed.fixed place_by sort_by greatest_from candle_decimal check_range
    check_prices ohlcv_candle check_member check_members candle_batch is_chronological all_aware
    decimal_at_least decimal_between check_evidence support_zone check_measures structure_event
    timeframe_structure_evidence htf_structure_analysis join_bars structure_event_rules
    validate_inputs body_fraction sum_volume average_ratio volume_ratio event_id_of event_of
    is_below is_above is_confirmed turn_of return_event after_break break_event pending_event
    expiry_event before_break dumpectorist.Structure.Events.relevant_to
    dumpectorist.Structure.Events.build_structure_events evidence_of
    dumpectorist.Structure.Events.evidence_from_events check_share
    dumpectorist.Structure.Zones.support_zone_rules validate_series validate_candles least_low
    lowest middle_of median_price is_pivot add_pivot pivot_step pivots_from
    dumpectorist.Structure.Zones.find_pivots untrapped is_near clusters_from cluster_sorted
    dumpectorist.Structure.Zones.cluster_pivots zone_id_of is_stronger is_rejected count_rejections
    padding zone_low zone_high width_bps strength zone_of zone_of_ordered zone_from_cluster zones_of
    dumpectorist.Structure.Zones.Derive.derive_support_zones bearing_of is_less_recent
    is_earlier_event primary_of trace_zones
    dumpectorist.Structure.Timeframe.analyze_higher_timeframe stays_under
    dumpectorist.Structure.Events.Damage.is_broken_for_good
events_built = refl

abbrev events : List (StructureEvent ℤ)
events = get_ok (build_structure_events silent fixed event_rules zone twelve) events_built

build_structure_events_ordered_example :
    (is_history false (states silent fixed event_rules zone events) ≡ true)
    × All (IsPriced silent fixed event_rules zone) events
build_structure_events_ordered_example =
    build_structure_events_ordered silent fixed event_rules zone twelve events
      (get_ok-eq (build_structure_events silent fixed event_rules zone twelve) events_built)

evidence_told :
    is_ok (
      evidence_from_events silent fixed
        (some zone)
        events
        CandleSource.bybit
        "TIAUSDT"
        CandleInterval.h4
        (at_second 180_000))
    ≡ true
unfolding silent is_space lstrip rstrip strip show_nat ◌+ℤ◌ ◌-ℤ◌ ◌*ℤ◌
    dumpectorist.Prelude.Fixed.fixed place_by sort_by greatest_from candle_decimal check_range
    check_prices ohlcv_candle check_member check_members candle_batch is_chronological all_aware
    decimal_at_least decimal_between check_evidence support_zone check_measures structure_event
    timeframe_structure_evidence htf_structure_analysis join_bars structure_event_rules
    validate_inputs body_fraction sum_volume average_ratio volume_ratio event_id_of event_of
    is_below is_above is_confirmed turn_of return_event after_break break_event pending_event
    expiry_event before_break dumpectorist.Structure.Events.relevant_to
    dumpectorist.Structure.Events.build_structure_events evidence_of
    dumpectorist.Structure.Events.evidence_from_events check_share
    dumpectorist.Structure.Zones.support_zone_rules validate_series validate_candles least_low
    lowest middle_of median_price is_pivot add_pivot pivot_step pivots_from
    dumpectorist.Structure.Zones.find_pivots untrapped is_near clusters_from cluster_sorted
    dumpectorist.Structure.Zones.cluster_pivots zone_id_of is_stronger is_rejected count_rejections
    padding zone_low zone_high width_bps strength zone_of zone_of_ordered zone_from_cluster zones_of
    dumpectorist.Structure.Zones.Derive.derive_support_zones bearing_of is_less_recent
    is_earlier_event primary_of trace_zones
    dumpectorist.Structure.Timeframe.analyze_higher_timeframe stays_under
    dumpectorist.Structure.Events.Damage.is_broken_for_good
evidence_told = refl

abbrev evidence : TimeframeStructureEvidence
evidence =
    get_ok
      (evidence_from_events silent fixed (some zone) events CandleSource.bybit "TIAUSDT"
        CandleInterval.h4 (at_second 180_000))
      evidence_told

evidence_from_events-is_damaged_example :
    is_damaged evidence.status
    ≡ is_broken_for_good silent fixed event_rules zone 0
        (relevant_to silent fixed event_rules zone twelve)
evidence_from_events-is_damaged_example =
    evidence_from_events-is_damaged silent fixed event_rules zone twelve events CandleSource.bybit
      "TIAUSDT" CandleInterval.h4 (at_second 180_000) evidence
      (get_ok-eq (build_structure_events silent fixed event_rules zone twelve) events_built)
      (get_ok-eq
        (evidence_from_events silent fixed (some zone) events CandleSource.bybit "TIAUSDT"
          CandleInterval.h4 (at_second 180_000))
        evidence_told)
