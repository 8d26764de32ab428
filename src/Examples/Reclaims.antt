-- ===== src/Examples/Reclaims.antt =====
-- The return of the price to the broken zone of the twelve candles: a failed pullback.
use dumpectorist.Prelude.{
  Bool, true, ◌≡◌, ◌<◌, List, [], ◌∷◌, Option, some, is_some, refl, arith, ap, ◌∙◌,
}
use dumpectorist.Prelude.Int.{ℤ, pos}
use dumpectorist.Prelude.Fixed.{fixed, units}
use dumpectorist.Prelude.Result.{Result, ok, is_ok, get_ok, get_ok-eq}
use dumpectorist.Prelude.Scans.{first_where}
use dumpectorist.Structure.Htf.{StructureEvent}
use dumpectorist.Setups.Reclaim.{
  ReclaimRules, ReclaimAttempt, reclaim_rules, is_successful, is_qualified,
}
use dumpectorist.Setups.Reclaim.Engine.{successful_reclaim_index}
use dumpectorist.Setups.Reclaim.Engine.Runs.{has_run, successful_reclaim_index-run}
use dumpectorist.Setups.Reclaim.Engine.Analysis.{analyze_reclaim_attempt, relevant_after}
use dumpectorist.Setups.Reclaim.Engine.Trigger.{IsTriggered}
use dumpectorist.Setups.Reclaim.Engine.Verdict.{
  is_reclaimed, analyze_reclaim_attempt-is_reclaimed, analyze_reclaim_attempt-IsTriggered,
}
use dumpectorist.Setups.Reclaim.FromStructure.{derive_reclaim_from_structure}
use dumpectorist.Setups.Reclaim.FromStructure.Origin.{
  IsAbout, derive_reclaim_from_structure-IsAbout,
}
use dumpectorist.Candles.{
  candle_batch, candle_decimal, check_member, check_members, check_prices, check_range,
  ohlcv_candle,
}
use dumpectorist.Prelude.Int.{◌*ℤ◌, ◌+ℤ◌, ◌-ℤ◌}
use dumpectorist.Prelude.Sorting.{greatest_from, place_by, sort_by}
use dumpectorist.Prelude.Text.{is_space, lstrip, rstrip, show_nat, strip}
use dumpectorist.Setups.Reclaim.{
  check_outcome, check_place, check_rejection, check_values, reclaim_attempt,
}
use dumpectorist.Setups.Reclaim.Engine.{
  attempt_id_of, bounce_ratio, candle_body_fraction, closes_above, first_attempt_index, highest,
  is_rejection, penetration_bps, quality_of, reclaim_from, rejection_index, same_candle,
  validate_break, validate_stream, volume_component, volume_warnings,
}
use dumpectorist.Setups.Reclaim.Engine.Analysis.{
  analyze_relevant, continuation_result, continuation_trigger, pulled_back, rejected, settled,
  unattempted, unless_continued, unrejected, waiting, with_attempt, without_attempt,
}
use dumpectorist.Setups.Reclaim.Engine.Outcomes.{
  continuation_quality, continuation_warnings, continued, findings_over, reclaimed, result_of,
  unretested, untested,
}
use dumpectorist.Setups.Reclaim.Engine.Runs.{starts_run}
use dumpectorist.Setups.Reclaim.FromStructure.{attempt_of, attempt_of_latest, confirmed_breaks}
use dumpectorist.Structure.Events.{
  after_break, average_ratio, before_break, body_fraction, break_event, build_structure_events,
  event_id_of, event_of, evidence_from_events, evidence_of, expiry_event, is_above, is_below,
  is_confirmed, join_bars, pending_event, relevant_to, return_event, structure_event_rules,
  sum_volume, turn_of, validate_inputs, volume_ratio,
}
use dumpectorist.Structure.Htf.{
  all_aware, check_evidence, check_measures, decimal_at_least, decimal_between,
  htf_structure_analysis, is_chronological, structure_event, support_zone,
  timeframe_structure_evidence,
}
use dumpectorist.Structure.Timeframe.{
  analyze_higher_timeframe, bearing_of, is_earlier_event, is_less_recent, primary_of, trace_zones,
}
use dumpectorist.Structure.Zones.{
  untrapped, add_pivot, check_share, cluster_pivots, cluster_sorted, clusters_from, find_pivots,
  is_near, is_pivot, least_low, lowest, median_price, middle_of, pivot_step, pivots_from,
  support_zone_rules, validate_candles, validate_series,
}
use dumpectorist.Structure.Zones.Derive.{
  count_rejections, padding, derive_support_zones, is_rejected, is_stronger, strength, width_bps,
  zone_from_cluster, zone_high, zone_id_of, zone_low, zone_of, zone_of_ordered, zones_of,
}
use dumpectorist.Examples.Platforms.{silent}
use dumpectorist.Examples.Breaks.{
  analysis, zone, broken, twelve, day_batch, no_text_lt, any_zone, four_hours, get_some,
  get_some-eq,
}

abbrev rules : ReclaimRules ℤ
rules = record {
  successful_h4_closes = 2;
  successful_m15_closes = 2;
  minimum_attempt_penetration_bps = units 5;
  maximum_failed_reclaim_penetration_bps = units 100;
  maximum_bounce_volume_ratio = pos 850_000;
  minimum_rejection_body_fraction = pos 250_000;
  minimum_rejection_distance_bps = units 5;
  maximum_pullback_bars = 12;
  maximum_setup_age_bars = 30;
  continuation_minimum_bars = 3;
}

rules-ok : reclaim_rules silent fixed rules ≡ ok rules
unfolding silent is_space lstrip rstrip strip show_nat ◌+ℤ◌ ◌-ℤ◌ ◌*ℤ◌
    dumpectorist.Prelude.Fixed.fixed place_by sort_by greatest_from candle_decimal check_range
    check_prices ohlcv_candle check_member check_members candle_batch is_chronological all_aware
    decimal_at_least decimal_between check_evidence support_zone check_measures structure_event
    timeframe_structure_evidence htf_structure_analysis join_bars structure_event_rules
    validate_inputs body_fraction sum_volume average_ratio volume_ratio event_id_of event_of
    is_below is_above is_confirmed turn_of return_event after_break break_event pending_event
    expiry_event before_break relevant_to build_structure_events evidence_of evidence_from_events
    check_share support_zone_rules validate_series validate_candles least_low lowest middle_of
    median_price is_pivot add_pivot pivot_step pivots_from find_pivots untrapped is_near
    clusters_from cluster_sorted cluster_pivots zone_id_of is_stronger is_rejected count_rejections
    padding zone_low zone_high width_bps strength zone_of zone_of_ordered zone_from_cluster zones_of
    derive_support_zones dumpectorist.Setups.Reclaim.reclaim_rules check_place check_values
    check_rejection check_outcome reclaim_attempt penetration_bps candle_body_fraction bounce_ratio
    highest same_candle attempt_id_of validate_break validate_stream volume_component
    volume_warnings quality_of closes_above reclaim_from
    dumpectorist.Setups.Reclaim.Engine.successful_reclaim_index first_attempt_index is_rejection
    rejection_index result_of findings_over untested unretested reclaimed continuation_warnings
    continuation_quality continued continuation_trigger continuation_result unattempted
    unless_continued without_attempt unrejected waiting pulled_back settled rejected with_attempt
    dumpectorist.Setups.Reclaim.Engine.Analysis.relevant_after analyze_relevant
    dumpectorist.Setups.Reclaim.Engine.Analysis.analyze_reclaim_attempt
    dumpectorist.Setups.Reclaim.Engine.Verdict.is_reclaimed starts_run
    dumpectorist.Setups.Reclaim.Engine.Runs.has_run confirmed_breaks attempt_of attempt_of_latest
    dumpectorist.Setups.Reclaim.FromStructure.derive_reclaim_from_structure bearing_of
    is_less_recent is_earlier_event primary_of trace_zones analyze_higher_timeframe
rules-ok = refl

event_there : is_some (first_where (λ (e : StructureEvent ℤ). true) analysis.events) ≡ true
unfolding silent is_space lstrip rstrip strip show_nat ◌+ℤ◌ ◌-ℤ◌ ◌*ℤ◌
    dumpectorist.Prelude.Fixed.fixed place_by sort_by greatest_from candle_decimal check_range
    check_prices ohlcv_candle check_member check_members candle_batch is_chronological all_aware
    decimal_at_least decimal_between check_evidence support_zone check_measures structure_event
    timeframe_structure_evidence htf_structure_analysis join_bars structure_event_rules
    validate_inputs body_fraction sum_volume average_ratio volume_ratio event_id_of event_of
    is_below is_above is_confirmed turn_of return_event after_break break_event pending_event
    expiry_event before_break relevant_to build_structure_events evidence_of evidence_from_events
    check_share support_zone_rules validate_series validate_candles least_low lowest middle_of
    median_price is_pivot add_pivot pivot_step pivots_from find_pivots untrapped is_near
    clusters_from cluster_sorted cluster_pivots zone_id_of is_stronger is_rejected count_rejections
    padding zone_low zone_high width_bps strength zone_of zone_of_ordered zone_from_cluster zones_of
    derive_support_zones dumpectorist.Setups.Reclaim.reclaim_rules check_place check_values
    check_rejection check_outcome reclaim_attempt penetration_bps candle_body_fraction bounce_ratio
    highest same_candle attempt_id_of validate_break validate_stream volume_component
    volume_warnings quality_of closes_above reclaim_from
    dumpectorist.Setups.Reclaim.Engine.successful_reclaim_index first_attempt_index is_rejection
    rejection_index result_of findings_over untested unretested reclaimed continuation_warnings
    continuation_quality continued continuation_trigger continuation_result unattempted
    unless_continued without_attempt unrejected waiting pulled_back settled rejected with_attempt
    dumpectorist.Setups.Reclaim.Engine.Analysis.relevant_after analyze_relevant
    dumpectorist.Setups.Reclaim.Engine.Analysis.analyze_reclaim_attempt
    dumpectorist.Setups.Reclaim.Engine.Verdict.is_reclaimed starts_run
    dumpectorist.Setups.Reclaim.Engine.Runs.has_run confirmed_breaks attempt_of attempt_of_latest
    dumpectorist.Setups.Reclaim.FromStructure.derive_reclaim_from_structure bearing_of
    is_less_recent is_earlier_event primary_of trace_zones analyze_higher_timeframe
event_there = refl

abbrev event : StructureEvent ℤ
event = get_some (first_where (λ (e : StructureEvent ℤ). true) analysis.events) event_there

attempt_made : is_ok (analyze_reclaim_attempt silent fixed rules zone event broken twelve) ≡ true
unfolding silent is_space lstrip rstrip strip show_nat ◌+ℤ◌ ◌-ℤ◌ ◌*ℤ◌
    dumpectorist.Prelude.Fixed.fixed place_by sort_by greatest_from candle_decimal check_range
    check_prices ohlcv_candle check_member check_members candle_batch is_chronological all_aware
    decimal_at_least decimal_between check_evidence support_zone check_measures structure_event
    timeframe_structure_evidence htf_structure_analysis join_bars structure_event_rules
    validate_inputs body_fraction sum_volume average_ratio volume_ratio event_id_of event_of
    is_below is_above is_confirmed turn_of return_event after_break break_event pending_event
    expiry_event before_break relevant_to build_structure_events evidence_of evidence_from_events
    check_share support_zone_rules validate_series validate_candles least_low lowest middle_of
    median_price is_pivot add_pivot pivot_step pivots_from find_pivots untrapped is_near
    clusters_from cluster_sorted cluster_pivots zone_id_of is_stronger is_rejected count_rejections
    padding zone_low zone_high width_bps strength zone_of zone_of_ordered zone_from_cluster zones_of
    derive_support_zones dumpectorist.Setups.Reclaim.reclaim_rules check_place check_values
    check_rejection check_outcome reclaim_attempt penetration_bps candle_body_fraction bounce_ratio
    highest same_candle attempt_id_of validate_break validate_stream volume_component
    volume_warnings quality_of closes_above reclaim_from
    dumpectorist.Setups.Reclaim.Engine.successful_reclaim_index first_attempt_index is_rejection
    rejection_index result_of findings_over untested unretested reclaimed continuation_warnings
    continuation_quality continued continuation_trigger continuation_result unattempted
    unless_continued without_attempt unrejected waiting pulled_back settled rejected with_attempt
    dumpectorist.Setups.Reclaim.Engine.Analysis.relevant_after analyze_relevant
    dumpectorist.Setups.Reclaim.Engine.Analysis.analyze_reclaim_attempt
    dumpectorist.Setups.Reclaim.Engine.Verdict.is_reclaimed starts_run
    dumpectorist.Setups.Reclaim.Engine.Runs.has_run confirmed_breaks attempt_of attempt_of_latest
    dumpectorist.Setups.Reclaim.FromStructure.derive_reclaim_from_structure bearing_of
    is_less_recent is_earlier_event primary_of trace_zones analyze_higher_timeframe
attempt_made = refl

abbrev attempt : ReclaimAttempt ℤ
attempt = get_ok (analyze_reclaim_attempt silent fixed rules zone event broken twelve) attempt_made

attempt_qualified : is_qualified attempt.readiness ≡ true
unfolding silent is_space lstrip rstrip strip show_nat ◌+ℤ◌ ◌-ℤ◌ ◌*ℤ◌
    dumpectorist.Prelude.Fixed.fixed place_by sort_by greatest_from candle_decimal check_range
    check_prices ohlcv_candle check_member check_members candle_batch is_chronological all_aware
    decimal_at_least decimal_between check_evidence support_zone check_measures structure_event
    timeframe_structure_evidence htf_structure_analysis join_bars structure_event_rules
    validate_inputs body_fraction sum_volume average_ratio volume_ratio event_id_of event_of
    is_below is_above is_confirmed turn_of return_event after_break break_event pending_event
    expiry_event before_break relevant_to build_structure_events evidence_of evidence_from_events
    check_share support_zone_rules validate_series validate_candles least_low lowest middle_of
    median_price is_pivot add_pivot pivot_step pivots_from find_pivots untrapped is_near
    clusters_from cluster_sorted cluster_pivots zone_id_of is_stronger is_rejected count_rejections
    padding zone_low zone_high width_bps strength zone_of zone_of_ordered zone_from_cluster zones_of
    derive_support_zones dumpectorist.Setups.Reclaim.reclaim_rules check_place check_values
    check_rejection check_outcome reclaim_attempt penetration_bps candle_body_fraction bounce_ratio
    highest same_candle attempt_id_of validate_break validate_stream volume_component
    volume_warnings quality_of closes_above reclaim_from
    dumpectorist.Setups.Reclaim.Engine.successful_reclaim_index first_attempt_index is_rejection
    rejection_index result_of findings_over untested unretested reclaimed continuation_warnings
    continuation_quality continued continuation_trigger continuation_result unattempted
    unless_continued without_attempt unrejected waiting pulled_back settled rejected with_attempt
    dumpectorist.Setups.Reclaim.Engine.Analysis.relevant_after analyze_relevant
    dumpectorist.Setups.Reclaim.Engine.Analysis.analyze_reclaim_attempt
    dumpectorist.Setups.Reclaim.Engine.Verdict.is_reclaimed starts_run
    dumpectorist.Setups.Reclaim.Engine.Runs.has_run confirmed_breaks attempt_of attempt_of_latest
    dumpectorist.Setups.Reclaim.FromStructure.derive_reclaim_from_structure bearing_of
    is_less_recent is_earlier_event primary_of trace_zones analyze_higher_timeframe
attempt_qualified = refl

analyze_reclaim_attempt-is_reclaimed_example :
    is_successful attempt.outcome
    ≡ is_reclaimed silent fixed rules zone event broken
        (relevant_after silent fixed rules zone event broken twelve)
analyze_reclaim_attempt-is_reclaimed_example =
    analyze_reclaim_attempt-is_reclaimed silent fixed rules zone event broken twelve attempt
      rules-ok
      (get_ok-eq (analyze_reclaim_attempt silent fixed rules zone event broken twelve) attempt_made)

analyze_reclaim_attempt-IsTriggered_example :
    IsTriggered silent fixed rules zone event broken
      (relevant_after silent fixed rules zone event broken twelve)
      attempt
analyze_reclaim_attempt-IsTriggered_example =
    analyze_reclaim_attempt-IsTriggered silent fixed rules zone event broken twelve attempt
      (get_ok-eq (analyze_reclaim_attempt silent fixed rules zone event broken twelve) attempt_made)
      attempt_qualified

successful_reclaim_index-run_example :
    is_some (
      successful_reclaim_index silent fixed rules zone broken
        (four_hours 9 1010 1050 1000 1040 ∷ four_hours 10 1040 1050 1030 1035 ∷ []))
    ≡ has_run silent fixed rules zone 2
        (broken ∷ four_hours 9 1010 1050 1000 1040 ∷ four_hours 10 1040 1050 1030 1035 ∷ [])
successful_reclaim_index-run_example =
    successful_reclaim_index-run silent fixed rules zone broken
      (four_hours 9 1010 1050 1000 1040 ∷ four_hours 10 1040 1050 1030 1035 ∷ []) (omega arith)

reclaimed_run :
    has_run silent fixed rules zone 2
      (broken ∷ four_hours 9 1010 1050 1000 1040 ∷ four_hours 10 1040 1050 1030 1035 ∷ [])
    ≡ true
unfolding silent is_space lstrip rstrip strip show_nat ◌+ℤ◌ ◌-ℤ◌ ◌*ℤ◌
    dumpectorist.Prelude.Fixed.fixed place_by sort_by greatest_from candle_decimal check_range
    check_prices ohlcv_candle check_member check_members candle_batch is_chronological all_aware
    decimal_at_least decimal_between check_evidence support_zone check_measures structure_event
    timeframe_structure_evidence htf_structure_analysis join_bars structure_event_rules
    validate_inputs body_fraction sum_volume average_ratio volume_ratio event_id_of event_of
    is_below is_above is_confirmed turn_of return_event after_break break_event pending_event
    expiry_event before_break relevant_to build_structure_events evidence_of evidence_from_events
    check_share support_zone_rules validate_series validate_candles least_low lowest middle_of
    median_price is_pivot add_pivot pivot_step pivots_from find_pivots untrapped is_near
    clusters_from cluster_sorted cluster_pivots zone_id_of is_stronger is_rejected count_rejections
    padding zone_low zone_high width_bps strength zone_of zone_of_ordered zone_from_cluster zones_of
    derive_support_zones dumpectorist.Setups.Reclaim.reclaim_rules check_place check_values
    check_rejection check_outcome reclaim_attempt penetration_bps candle_body_fraction bounce_ratio
    highest same_candle attempt_id_of validate_break validate_stream volume_component
    volume_warnings quality_of closes_above reclaim_from
    dumpectorist.Setups.Reclaim.Engine.successful_reclaim_index first_attempt_index is_rejection
    rejection_index result_of findings_over untested unretested reclaimed continuation_warnings
    continuation_quality continued continuation_trigger continuation_result unattempted
    unless_continued without_attempt unrejected waiting pulled_back settled rejected with_attempt
    dumpectorist.Setups.Reclaim.Engine.Analysis.relevant_after analyze_relevant
    dumpectorist.Setups.Reclaim.Engine.Analysis.analyze_reclaim_attempt
    dumpectorist.Setups.Reclaim.Engine.Verdict.is_reclaimed starts_run
    dumpectorist.Setups.Reclaim.Engine.Runs.has_run confirmed_breaks attempt_of attempt_of_latest
    dumpectorist.Setups.Reclaim.FromStructure.derive_reclaim_from_structure bearing_of
    is_less_recent is_earlier_event primary_of trace_zones analyze_higher_timeframe
reclaimed_run = refl

abbrev some_attempt : Result (Option (ReclaimAttempt ℤ))
some_attempt =
    derive_reclaim_from_structure silent fixed no_text_lt any_zone rules day_batch analysis

derivation_made : is_ok some_attempt ≡ true
unfolding silent is_space lstrip rstrip strip show_nat ◌+ℤ◌ ◌-ℤ◌ ◌*ℤ◌
    dumpectorist.Prelude.Fixed.fixed place_by sort_by greatest_from candle_decimal check_range
    check_prices ohlcv_candle check_member check_members candle_batch is_chronological all_aware
    decimal_at_least decimal_between check_evidence support_zone check_measures structure_event
    timeframe_structure_evidence htf_structure_analysis join_bars structure_event_rules
    validate_inputs body_fraction sum_volume average_ratio volume_ratio event_id_of event_of
    is_below is_above is_confirmed turn_of return_event after_break break_event pending_event
    expiry_event before_break relevant_to build_structure_events evidence_of evidence_from_events
    check_share support_zone_rules validate_series validate_candles least_low lowest middle_of
    median_price is_pivot add_pivot pivot_step pivots_from find_pivots untrapped is_near
    clusters_from cluster_sorted cluster_pivots zone_id_of is_stronger is_rejected count_rejections
    padding zone_low zone_high width_bps strength zone_of zone_of_ordered zone_from_cluster zones_of
    derive_support_zones dumpectorist.Setups.Reclaim.reclaim_rules check_place check_values
    check_rejection check_outcome reclaim_attempt penetration_bps candle_body_fraction bounce_ratio
    highest same_candle attempt_id_of validate_break validate_stream volume_component
    volume_warnings quality_of closes_above reclaim_from
    dumpectorist.Setups.Reclaim.Engine.successful_reclaim_index first_attempt_index is_rejection
    rejection_index result_of findings_over untested unretested reclaimed continuation_warnings
    continuation_quality continued continuation_trigger continuation_result unattempted
    unless_continued without_attempt unrejected waiting pulled_back settled rejected with_attempt
    dumpectorist.Setups.Reclaim.Engine.Analysis.relevant_after analyze_relevant
    dumpectorist.Setups.Reclaim.Engine.Analysis.analyze_reclaim_attempt
    dumpectorist.Setups.Reclaim.Engine.Verdict.is_reclaimed starts_run
    dumpectorist.Setups.Reclaim.Engine.Runs.has_run confirmed_breaks attempt_of attempt_of_latest
    dumpectorist.Setups.Reclaim.FromStructure.derive_reclaim_from_structure bearing_of
    is_less_recent is_earlier_event primary_of trace_zones analyze_higher_timeframe
derivation_made = refl

derivation_there : is_some (get_ok some_attempt derivation_made) ≡ true
unfolding silent is_space lstrip rstrip strip show_nat ◌+ℤ◌ ◌-ℤ◌ ◌*ℤ◌
    dumpectorist.Prelude.Fixed.fixed place_by sort_by greatest_from candle_decimal check_range
    check_prices ohlcv_candle check_member check_members candle_batch is_chronological all_aware
    decimal_at_least decimal_between check_evidence support_zone check_measures structure_event
    timeframe_structure_evidence htf_structure_analysis join_bars structure_event_rules
    validate_inputs body_fraction sum_volume average_ratio volume_ratio event_id_of event_of
    is_below is_above is_confirmed turn_of return_event after_break break_event pending_event
    expiry_event before_break relevant_to build_structure_events evidence_of evidence_from_events
    check_share support_zone_rules validate_series validate_candles least_low lowest middle_of
    median_price is_pivot add_pivot pivot_step pivots_from find_pivots untrapped is_near
    clusters_from cluster_sorted cluster_pivots zone_id_of is_stronger is_rejected count_rejections
    padding zone_low zone_high width_bps strength zone_of zone_of_ordered zone_from_cluster zones_of
    derive_support_zones dumpectorist.Setups.Reclaim.reclaim_rules check_place check_values
    check_rejection check_outcome reclaim_attempt penetration_bps candle_body_fraction bounce_ratio
    highest same_candle attempt_id_of validate_break validate_stream volume_component
    volume_warnings quality_of closes_above reclaim_from
    dumpectorist.Setups.Reclaim.Engine.successful_reclaim_index first_attempt_index is_rejection
    rejection_index result_of findings_over untested unretested reclaimed continuation_warnings
    continuation_quality continued continuation_trigger continuation_result unattempted
    unless_continued without_attempt unrejected waiting pulled_back settled rejected with_attempt
    dumpectorist.Setups.Reclaim.Engine.Analysis.relevant_after analyze_relevant
    dumpectorist.Setups.Reclaim.Engine.Analysis.analyze_reclaim_attempt
    dumpectorist.Setups.Reclaim.Engine.Verdict.is_reclaimed starts_run
    dumpectorist.Setups.Reclaim.Engine.Runs.has_run confirmed_breaks attempt_of attempt_of_latest
    dumpectorist.Setups.Reclaim.FromStructure.derive_reclaim_from_structure bearing_of
    is_less_recent is_earlier_event primary_of trace_zones analyze_higher_timeframe
derivation_there = refl

derive_reclaim_from_structure-IsAbout_example :
    IsAbout silent fixed no_text_lt any_zone rules day_batch analysis
      (get_some (get_ok some_attempt derivation_made) derivation_there)
derive_reclaim_from_structure-IsAbout_example =
    derive_reclaim_from_structure-IsAbout silent fixed no_text_lt any_zone rules day_batch analysis
      (get_some (get_ok some_attempt derivation_made) derivation_there) rules-ok
      (get_ok-eq some_attempt derivation_made
        ∙ ap ok (get_some-eq (get_ok some_attempt derivation_made) derivation_there))
