-- ===== src/Structure/Zones.antt =====
-- app/structure/support_zones.py: support zones from the lows of the candles. The counts of the
-- rules are whole numbers here; the constructor refuses the negative ones. A `Decimal` operation that
-- its context traps (overflow, division by zero, too many digits) has no finite value and raises.
pub mod Pivots
pub mod Clusters
pub mod Derive
pub mod Refusals
pub mod Errors
pub mod Bounds
use dumpectorist.Prelude.{
  Bool, true, false, not, ◌&&◌, ◌||◌, ℕ, zero, suc, ◌+◌, ◌-◌, ◌*◌, ◌/◌, ◌%◌, String, List, [], ◌∷◌,
  ◌++◌, Option, none, some, str_eq, length, take, drop, get_last?, map, ltb, leb, ◌==◌,
  if◌then◌else◌,
}
use dumpectorist.Prelude.Int.{pos}
use dumpectorist.Prelude.Number.{Num}
use dumpectorist.Prelude.Platform.{Platform}
use dumpectorist.Prelude.Result.{Error, Result, ok, err, value_error, raise_if, ◌>>=◌, ◌>>◌}
use dumpectorist.Prelude.Scans.{count_where}
use dumpectorist.Prelude.Sorting.{sort_by}
use dumpectorist.Prelude.Text.{◌<>◌, show_nat, take_chars}
use dumpectorist.Prelude.Time.{Datetime, micros}
use dumpectorist.Candles.{
  CandleSource, CandleInterval, OhlcvCandle, same_candle_source, same_interval, candle_source_value,
  interval_value, earlier, not_later,
}
use dumpectorist.Structure.Htf.{SupportZone, SupportZoneState, support_zone, is_higher}
use dumpectorist.Structure.Events.{join_bars}

pub record SupportZoneRules (D : Type 0) : Type 0 where
  pub pivot_left : ℕ
  pub pivot_right : ℕ
  pub minimum_touches : ℕ
  pub minimum_touch_separation : ℕ
  pub cluster_tolerance_bps : D
  pub zone_padding_bps : D
  pub maximum_zone_width_bps : D
  pub minimum_rejection_bps : D
  pub maximum_zones : ℕ

-- `_PivotLow`, whose price is the candle's low.
pub record PivotLow (D : Type 0) : Type 0 where
  pub index : ℕ
  pub candle : OhlcvCandle D

-- `decimal.DecimalException`, which the trapped signals share.
abbrev pub decimal_trap : Error
decimal_trap = record { kind = "DecimalException"; message = "trapped signal" }

abbrev pub index_error : Error
index_error = record { kind = "IndexError"; message = "tuple index out of range" }

-- `xs[n]`
abbrev pub item_at {ℓ} : {A : Type ℓ} → List A → ℕ → Result A
item_at [] n = err index_error
item_at (x ∷ xs) zero = ok x
item_at (x ∷ xs) (suc n) = item_at xs n

-- `xs[-1] = x`
abbrev pub set_last {ℓ} : {A : Type ℓ} → List A → A → List A
set_last [] x = []
set_last (y ∷ []) x = x ∷ []
set_last (y ∷ z ∷ ys) x = y ∷ set_last (z ∷ ys) x

module _ {D : Type 0} (os : Platform D) (dec : Num D) where
  -- What an operation of `Decimal` gives or raises.
  unfoldable pub untrapped : D → Result D
  untrapped v = if dec.is_finite v then ok v else err decimal_trap

  unfoldable pub check_share : D → String → Result (Unit {0})
  check_share value name =
      raise_if (not (dec.is_finite value) || dec.lt value (dec.lit 0 0))
        (value_error (name <> " must be finite and non-negative"))

  -- `SupportZoneRules.__post_init__`
  unfoldable pub support_zone_rules : SupportZoneRules D → Result (SupportZoneRules D)
  unfolding check_share
  support_zone_rules r = do
    raise_if (r.pivot_left == 0 || r.pivot_right == 0)
        (value_error "pivot windows must be positive")
    raise_if (ltb r.minimum_touches 2) (value_error "minimum_touches must be at least two")
    raise_if (r.minimum_touch_separation == 0)
        (value_error "minimum_touch_separation must be positive")
    check_share r.cluster_tolerance_bps "cluster_tolerance_bps"
    check_share r.zone_padding_bps "zone_padding_bps"
    check_share r.maximum_zone_width_bps "maximum_zone_width_bps"
    check_share r.minimum_rejection_bps "minimum_rejection_bps"
    raise_if (r.maximum_zones == 0 || ltb 50 r.maximum_zones)
        (value_error "maximum_zones must be between 1 and 50")
    ok r

  -- The loop of `_validate_candles`, with the first candle and the open time of the one before.
  unfoldable pub validate_series :
      OhlcvCandle D → Option Datetime → List (OhlcvCandle D) → Result (Unit {0})
  validate_series first previous [] = ok tt
  validate_series first previous (c ∷ cs) = do
    raise_if
        (not (
          same_candle_source c.source first.source
          && str_eq c.symbol first.symbol
          && same_interval c.interval first.interval))
        (value_error "candles must share source, symbol, and interval")
    raise_if (elim previous [ none ↦ false | some t ↦ not_later c.open_time t ])
        (value_error "candles must be strictly chronological")
    validate_series first (some c.open_time) cs

  -- `_validate_candles`
  unfoldable pub validate_candles : List (OhlcvCandle D) → Result (Unit {0})
  validate_candles [] = ok tt
  validate_candles (c ∷ cs) = do
    raise_if (not (is_higher c.interval)) (value_error "support zones require Daily or 4H candles")
    validate_series c none (c ∷ cs)

  -- `min(item.low_price for item in candles)`
  unfoldable pub least_low : D → List (OhlcvCandle D) → D
  least_low least [] = least
  least_low least (c ∷ cs) = least_low (if dec.lt c.low_price least then c.low_price else least) cs

  unfoldable pub lowest : List (OhlcvCandle D) → Result D
  unfolding least_low
  lowest [] = err (value_error "min() iterable argument is empty")
  lowest (c ∷ cs) = ok (least_low c.low_price cs)

  -- `_median_price`, of the prices in order.
  unfoldable pub middle_of : List D → Result D
  unfolding untrapped
  middle_of prices =
      let upper = item_at prices (length prices / 2) in
      let below = item_at prices (length prices / 2 - 1) in
      if length prices % 2 == 0
      then (do
        a ← below
        b ← upper
        total ← untrapped (dec.add a b)
        untrapped (dec.div total (dec.lit 2 0)))
      else upper

  unfoldable pub median_price : List (PivotLow D) → Result D
  unfolding middle_of
  median_price cluster = middle_of (sort_by dec.lt (map (λ p. p.candle.low_price) cluster))

  -- The order of the pivots by `(price, open_time)`, and by the open time alone.
  abbrev pub is_lower : PivotLow D → PivotLow D → Bool
  is_lower a b =
      if dec.eq a.candle.low_price b.candle.low_price
      then earlier a.candle.open_time b.candle.open_time
      else dec.lt a.candle.low_price b.candle.low_price

  abbrev pub is_older : PivotLow D → PivotLow D → Bool
  is_older a b = earlier a.candle.open_time b.candle.open_time

  module _ (rules : SupportZoneRules D) where
    -- `is_lowest and has_strict_side`
    unfoldable pub is_pivot : D → D → D → Bool
    is_pivot low left right =
        (dec.le low left && dec.le low right) && (dec.lt low left || dec.lt low right)

    -- A pivot among those found: too near the last one, the lower of the two stays.
    unfoldable pub add_pivot : List (PivotLow D) → PivotLow D → List (PivotLow D)
    add_pivot found p = elim (get_last? found) [
      | none ↦ found ++ p ∷ []
      | some q ↦
          if ltb (p.index - q.index) rules.minimum_touch_separation
          then if dec.lt p.candle.low_price q.candle.low_price then set_last found p else found
          else found ++ p ∷ []
    ]

    -- The body of the loop, at an index.
    unfoldable pub pivot_step :
        List (OhlcvCandle D) → ℕ → List (PivotLow D) → Result (List (PivotLow D))
    unfolding lowest is_pivot add_pivot
    pivot_step candles index found = do
      current ← item_at candles index
      left ← lowest (take rules.pivot_left (drop (index - rules.pivot_left) candles))
      right ← lowest (take rules.pivot_right (drop (index + 1) candles))
      ok (
          if is_pivot current.low_price left right
          then add_pivot found (record { index = index; candle = current })
          else found)

    -- `for index in range(index, index + count)`
    unfoldable pub pivots_from :
        List (OhlcvCandle D) → ℕ → ℕ → List (PivotLow D) → Result (List (PivotLow D))
    unfolding pivot_step
    pivots_from candles index zero found = ok found
    pivots_from candles index (suc count) found = do
      more ← pivot_step candles index found
      pivots_from candles (index + 1) count more

    -- `_find_pivots`
    unfoldable pub find_pivots : List (OhlcvCandle D) → Result (List (PivotLow D))
    find_pivots candles =
        if ltb (length candles) (rules.pivot_left + rules.pivot_right + 1)
        then ok []
        else pivots_from candles rules.pivot_left
            (length candles - rules.pivot_right - rules.pivot_left) []

    -- `distance_bps <= rules.cluster_tolerance_bps`
    unfoldable pub is_near : D → PivotLow D → Result Bool
    unfolding untrapped
    is_near reference p = do
      gap ← untrapped (dec.sub p.candle.low_price reference)
      share ← untrapped (dec.div (dec.abs gap) reference)
      distance_bps ← untrapped (dec.mul share (dec.lit 10000 0))
      ok (dec.le distance_bps rules.cluster_tolerance_bps)

    -- The clusters from the one that grows on. The sorted pivots go into it while they are near its
    -- median.
    unfoldable pub clusters_from :
        List (PivotLow D) → List (PivotLow D) → Result (List (List (PivotLow D)))
    unfolding median_price is_near
    clusters_from current [] = ok (current ∷ [])
    clusters_from current (p ∷ ps) =
        let joined = clusters_from (current ++ p ∷ []) ps in
        let parted = clusters_from (p ∷ []) ps in
        do
          reference ← median_price current
          near ← is_near reference p
          (if near then joined else (do rest ← parted; ok (current ∷ rest)))

    unfoldable pub cluster_sorted : List (PivotLow D) → Result (List (List (PivotLow D)))
    cluster_sorted [] = ok []
    cluster_sorted (p ∷ ps) = clusters_from (p ∷ []) ps

    -- `_cluster_pivots`
    unfoldable pub cluster_pivots : List (PivotLow D) → Result (List (List (PivotLow D)))
    unfolding cluster_sorted
    cluster_pivots pivots = cluster_sorted (sort_by is_lower pivots)
