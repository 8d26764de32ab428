-- ===== src/Structure/Zones/Derive.antt =====
-- app/structure/support_zones.py: a zone from a cluster of pivots, and the strongest zones.
use dumpectorist.Prelude.{
  Bool, not, ◌||◌, ℕ, ◌+◌, ◌*◌, String, List, [], ◌∷◌, Option, none, some, length, take, map, ltb,
  if◌then◌else◌,
}
use dumpectorist.Prelude.Int.{pos}
use dumpectorist.Prelude.Number.{Num}
use dumpectorist.Prelude.Platform.{Platform}
use dumpectorist.Prelude.Result.{Result, ok, err, value_error, ◌>>=◌, ◌>>◌}
use dumpectorist.Prelude.Sorting.{sort_by, greatest_from}
use dumpectorist.Prelude.Text.{◌<>◌, show_nat, take_chars}
use dumpectorist.Prelude.Time.{Datetime}
use dumpectorist.Candles.{OhlcvCandle, candle_source_value, interval_value, earlier}
use dumpectorist.Structure.Htf.{SupportZone, SupportZoneState, support_zone}
use dumpectorist.Structure.Events.{join_bars}
use dumpectorist.Structure.Zones.{
  SupportZoneRules, PivotLow, untrapped, item_at, validate_candles, least_low, find_pivots,
  cluster_pivots, is_older,
}

-- `ordered[-1]`
abbrev pub latest_of : {D : Type 0} → PivotLow D → List (PivotLow D) → PivotLow D
latest_of p [] = p
latest_of p (q ∷ qs) = latest_of q qs

module _ {D : Type 0} (os : Platform D) (dec : Num D) where
  -- `_zone_id`
  unfoldable pub zone_id_of : PivotLow D → List Datetime → D → D → Datetime → String
  unfolding join_bars
  zone_id_of p evidence low high confirmed_at =
      "zone_"
      <> take_chars 24 (
          os.sha256 (
            join_bars (
              candle_source_value p.candle.source
              ∷ p.candle.symbol
              ∷ interval_value p.candle.interval
              ∷ dec.show low
              ∷ dec.show high
              ∷ os.isoformat confirmed_at
              ∷ map os.isoformat evidence)))

  -- The order in which the best zones come first: `(strength_score, last_test_at, high, zone_id)`,
  -- the greatest first. `text_lt` is `<` of two texts.
  unfoldable pub is_stronger : (String → String → Bool) → SupportZone D → SupportZone D → Bool
  is_stronger text_lt a b =
      if not (dec.eq a.strength_score b.strength_score)
      then dec.lt b.strength_score a.strength_score
      else if earlier a.last_test_at b.last_test_at || earlier b.last_test_at a.last_test_at
      then earlier b.last_test_at a.last_test_at
      else if not (dec.eq a.high b.high)
      then dec.lt b.high a.high
      else text_lt b.zone_id a.zone_id

  module _ (rules : SupportZoneRules D) where
    unfoldable pub is_rejected : PivotLow D → Result Bool
    unfolding untrapped
    is_rejected p = do
      gap ← untrapped os dec (dec.sub p.candle.close_price p.candle.low_price)
      share ← untrapped os dec (dec.div gap p.candle.low_price)
      rejection_bps ← untrapped os dec (dec.mul share (dec.lit 10000 0))
      ok (dec.le rules.minimum_rejection_bps rejection_bps)

    -- `sum(1 for item in ordered if ...)`
    unfoldable pub count_rejections : ℕ → List (PivotLow D) → Result ℕ
    unfolding is_rejected
    count_rejections found [] = ok found
    count_rejections found (p ∷ ps) = do
      rejected ← is_rejected p
      count_rejections (if rejected then found + 1 else found) ps

    unfoldable pub padding : Result D
    unfolding untrapped
    padding = untrapped os dec (dec.div rules.zone_padding_bps (dec.lit 10000 0))

    -- `zone_low`, `zone_high` and `width_bps` of pivots in their order, the first two with the
    -- padding.
    unfoldable pub zone_low : D → PivotLow D → List (PivotLow D) → Result D
    unfolding untrapped least_low
    zone_low pad p ps = do
      factor ← untrapped os dec (dec.sub (dec.lit 1 0) pad)
      untrapped os dec
          (dec.mul (least_low os dec p.candle.low_price (map (λ q. q.candle) ps)) factor)

    unfoldable pub zone_high : D → PivotLow D → List (PivotLow D) → Result D
    unfolding untrapped
    zone_high pad p ps = do
      factor ← untrapped os dec (dec.add (dec.lit 1 0) pad)
      untrapped os dec (
          dec.mul (greatest_from dec.lt p.candle.low_price (map (λ q. q.candle.low_price) ps))
            factor)

    unfoldable pub width_bps : D → D → Result D
    unfolding untrapped
    width_bps low high = do
      total ← untrapped os dec (dec.add low high)
      midpoint ← untrapped os dec (dec.div total (dec.lit 2 0))
      span ← untrapped os dec (dec.sub high low)
      share ← untrapped os dec (dec.div span midpoint)
      untrapped os dec (dec.mul share (dec.lit 10000 0))

    unfoldable pub strength : ℕ → ℕ → ℕ → ℕ → Result D
    unfolding untrapped
    strength touches rejections index candles = do
      recency ← untrapped os dec (dec.div (dec.of_int (pos (index + 1))) (dec.of_int (pos candles)))
      touched ← untrapped os dec (dec.add (dec.lit 25 0) (dec.of_int (pos (touches * 12))))
      rejected ← untrapped os dec (dec.add touched (dec.of_int (pos (rejections * 6))))
      recent ← untrapped os dec (dec.mul recency (dec.lit 15 0))
      total ← untrapped os dec (dec.add rejected recent)
      untrapped os dec
          (dec.quantize 2 (if dec.lt total (dec.lit 100 0) then total else dec.lit 100 0))

    -- The zone of a cluster in the order of its times, with its bounds and its width.
    unfoldable pub zone_of :
        PivotLow D → List (PivotLow D) → List (OhlcvCandle D) → D → D → D → Result (SupportZone D)
    unfolding zone_id_of strength untrapped count_rejections
    zone_of p ps candles low high width =
        let last = latest_of p ps in
        let touches = length (p ∷ ps) in
        let evidence = map (λ q. q.candle.open_time) (p ∷ ps) in
        do
          rejections ← count_rejections 0 (p ∷ ps)
          score ← strength touches rejections last.index (length candles)
          confirming ← item_at candles (last.index + rules.pivot_right)
          shown ← untrapped os dec (dec.quantize 2 width)
          support_zone os dec (record {
            zone_id = zone_id_of p evidence low high confirming.close_time;
            source = p.candle.source;
            symbol = p.candle.symbol;
            interval = p.candle.interval;
            low = low;
            high = high;
            created_at = p.candle.close_time;
            confirmed_at = confirming.close_time;
            last_test_at = last.candle.close_time;
            touch_count = touches;
            rejection_count = rejections;
            strength_score = score;
            evidence_open_times = evidence;
            state = SupportZoneState.active;
            reasons =
                ("TOUCHES_" <> show_nat touches)
                ∷ ("REJECTIONS_" <> show_nat rejections)
                ∷ ("WIDTH_BPS_" <> dec.show shown)
                ∷ ("PIVOT_RIGHT_" <> show_nat rules.pivot_right)
                ∷ [];
          })

    unfoldable pub zone_of_ordered :
        List (PivotLow D) → List (OhlcvCandle D) → Result (Option (SupportZone D))
    unfolding padding zone_low zone_high width_bps
    zone_of_ordered [] candles = err (value_error "min() iterable argument is empty")
    zone_of_ordered (p ∷ ps) candles = do
      pad ← padding
      low ← zone_low pad p ps
      high ← zone_high pad p ps
      width ← width_bps low high
      if dec.lt rules.maximum_zone_width_bps width
          then ok none
          else (do z ← zone_of p ps candles low high width; ok (some z))

    -- `_zone_from_cluster`
    unfoldable pub zone_from_cluster :
        List (PivotLow D) → List (OhlcvCandle D) → Result (Option (SupportZone D))
    zone_from_cluster cluster candles =
        if ltb (length cluster) rules.minimum_touches
        then ok none
        else zone_of_ordered (sort_by (is_older os dec) cluster) candles

    -- The zones of the clusters that give one.
    unfoldable pub zones_of :
        List (List (PivotLow D)) → List (OhlcvCandle D) → Result (List (SupportZone D))
    zones_of [] candles = ok []
    zones_of (cluster ∷ clusters) candles = do
      zone ← zone_from_cluster cluster candles
      zones ← zones_of clusters candles
      ok (elim zone [ none ↦ zones | some z ↦ z ∷ zones ])

    -- `derive_support_zones`
    unfoldable pub derive_support_zones :
        (String → String → Bool) → List (OhlcvCandle D) → Result (List (SupportZone D))
    unfolding is_stronger
    derive_support_zones text_lt candles = do
      validate_candles os dec candles
      pivots ← find_pivots os dec rules candles
      clusters ← cluster_pivots os dec rules pivots
      zones ← zones_of clusters candles
      ok (take rules.maximum_zones (sort_by (is_stronger text_lt) zones))
