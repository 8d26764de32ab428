-- ===== src/Candles.antt =====
-- app/candles/models.py: closed candles and batches of them. The role has one value, so its checks
-- cannot fail and it is left out.
pub mod Freshness
pub mod Payload
use dumpectorist.Prelude.{
  Bool, true, false, not, ◌&&◌, ◌||◌, ℕ, ◌*◌, String, List, [], ◌∷◌, Option, none, some, str_eq,
  any, get_last?, ltb, leb, if◌then◌else◌,
}
use dumpectorist.Prelude.Int.{ℤ, pos, leb_ℤ}
use dumpectorist.Prelude.Number.{Num}
use dumpectorist.Prelude.Platform.{Platform}
use dumpectorist.Prelude.Result.{Result, ok, err, value_error, raise_if, ◌>>=◌, ◌>>◌}
use dumpectorist.Prelude.Text.{◌<>◌, strip, is_blank}
use dumpectorist.Prelude.Time.{Datetime, micros, require_aware, same_time, subtract}

pub data CandleSource : Type 0 where
  bybit : CandleSource

abbrev pub same_candle_source : CandleSource → CandleSource → Bool
same_candle_source CandleSource.bybit CandleSource.bybit = true

pub data CandleInterval : Type 0 where
  m5 m15 h4 d1 : CandleInterval

abbrev pub same_interval : CandleInterval → CandleInterval → Bool
same_interval CandleInterval.m5 CandleInterval.m5 = true
same_interval CandleInterval.m15 CandleInterval.m15 = true
same_interval CandleInterval.h4 CandleInterval.h4 = true
same_interval CandleInterval.d1 CandleInterval.d1 = true
same_interval _ _ = false

abbrev pub minutes : CandleInterval → ℕ
minutes CandleInterval.m5 = 5
minutes CandleInterval.m15 = 15
minutes CandleInterval.h4 = 240
minutes CandleInterval.d1 = 1440

-- `CandleInterval.duration`, in microseconds.
abbrev pub duration : CandleInterval → ℕ
duration i = minutes i * 60_000_000

-- `CandleInterval.label`
abbrev pub label : CandleInterval → String
label CandleInterval.m5 = "5m"
label CandleInterval.m15 = "15m"
label CandleInterval.h4 = "4h"
label CandleInterval.d1 = "1d"

-- The enum's values.
abbrev pub interval_value : CandleInterval → String
interval_value CandleInterval.m5 = "5"
interval_value CandleInterval.m15 = "15"
interval_value CandleInterval.h4 = "240"
interval_value CandleInterval.d1 = "D"

abbrev pub candle_source_value : CandleSource → String
candle_source_value CandleSource.bybit = "BYBIT"

pub record OhlcvCandle (D : Type 0) : Type 0 where
  pub source : CandleSource
  pub category : String
  pub symbol : String
  pub interval : CandleInterval
  pub open_time : Datetime
  pub close_time : Datetime
  pub open_price : D
  pub high_price : D
  pub low_price : D
  pub close_price : D
  pub volume : D
  pub turnover : D

pub record CandleBatch (D : Type 0) : Type 0 where
  pub source : CandleSource
  pub category : String
  pub symbol : String
  pub interval : CandleInterval
  pub fetched_at : Datetime
  pub candles : List (OhlcvCandle D)

-- `a < b` of the times of candles, zones and events. Their constructors refuse a naive time, so the
-- comparison cannot raise.
abbrev pub earlier : Datetime → Datetime → Bool
earlier a b = ltb (micros a) (micros b)

abbrev pub not_later : Datetime → Datetime → Bool
not_later a b = leb (micros a) (micros b)

-- `close_time - open_time != self.interval.duration`
abbrev pub is_gap : ℤ → ℕ → Bool
is_gap d n = leb_ℤ d (pos n) && leb_ℤ (pos n) d

abbrev pub is_category : String → Bool
is_category c = str_eq c "spot" || str_eq c "linear" || str_eq c "inverse"

module _ {D : Type 0} (os : Platform D) (dec : Num D) where
  -- `_decimal`
  unfoldable pub candle_decimal : D → String → Bool → Result D
  candle_decimal value name positive = do
    raise_if (not (dec.is_finite value)) (value_error (name <> " must be finite"))
    raise_if (positive && dec.le value (dec.lit 0 0)) (value_error (name <> " must be positive"))
    raise_if (not positive && dec.lt value (dec.lit 0 0))
        (value_error (name <> " must be non-negative"))
    ok value

  -- `min(a, b)`, `max(a, b)`
  abbrev pub lower_of : D → D → D
  lower_of a b = if dec.lt b a then b else a

  abbrev pub higher_of : D → D → D
  higher_of a b = if dec.lt a b then b else a

  -- The checks of the prices among one another.
  unfoldable pub check_range : OhlcvCandle D → Result (Unit {0})
  check_range c = do
    raise_if (dec.lt (lower_of c.open_price c.close_price) c.low_price)
        (value_error "low_price is inconsistent with open and close")
    raise_if (dec.lt c.high_price (higher_of c.open_price c.close_price))
        (value_error "high_price is inconsistent with open and close")
    raise_if (dec.lt c.high_price c.low_price) (value_error "candle range is inconsistent")

  unfoldable pub check_prices : OhlcvCandle D → Result (Unit {0})
  check_prices c = do
    open_price ← candle_decimal c.open_price "open_price" true
    high_price ← candle_decimal c.high_price "high_price" true
    low_price ← candle_decimal c.low_price "low_price" true
    close_price ← candle_decimal c.close_price "close_price" true
    volume ← candle_decimal c.volume "volume" false
    turnover ← candle_decimal c.turnover "turnover" false
    check_range c

  -- `OhlcvCandle.__post_init__`
  unfoldable pub ohlcv_candle : OhlcvCandle D → Result (OhlcvCandle D)
  ohlcv_candle c = do
    let category = os.lower (strip c.category)
    raise_if (not (is_category category)) (value_error "unsupported candle category")
    let symbol = os.upper (strip c.symbol)
    raise_if (is_blank symbol) (value_error "symbol is required")
    require_aware c.open_time "open_time"
    require_aware c.close_time "close_time"
    lasted ← subtract c.close_time c.open_time
    raise_if (not (is_gap lasted (duration c.interval)))
        (value_error "close_time must match interval duration")
    check_prices c
    ok (record c { category = category; symbol = symbol })

  -- The tests of one candle of a batch, which the open times before it end.
  unfoldable pub check_member :
      CandleBatch D → List Datetime → Option Datetime → OhlcvCandle D → Result (Unit {0})
  check_member b seen previous c = do
    raise_if (not (same_candle_source c.source b.source)) (value_error "candle source mismatch")
    raise_if (not (str_eq c.category b.category)) (value_error "candle category mismatch")
    raise_if (not (str_eq c.symbol b.symbol)) (value_error "candle symbol mismatch")
    raise_if (not (same_interval c.interval b.interval)) (value_error "candle interval mismatch")
    raise_if (earlier b.fetched_at c.close_time)
        (value_error "batch must contain only closed candles")
    raise_if (any (λ t. same_time t c.open_time) seen) (value_error "duplicate candle open_time")
    raise_if (elim previous [ none ↦ false | some t ↦ not_later c.open_time t ])
        (value_error "candles must be strictly chronological")

  unfoldable pub check_members :
      CandleBatch D → List Datetime → Option Datetime → List (OhlcvCandle D) → Result (Unit {0})
  check_members b seen previous [] = ok tt
  check_members b seen previous (c ∷ cs) = do
    check_member b seen previous c
    check_members b (c.open_time ∷ seen) (some c.open_time) cs

  -- `CandleBatch.__post_init__`
  unfoldable pub candle_batch : CandleBatch D → Result (CandleBatch D)
  candle_batch b = do
    require_aware b.fetched_at "fetched_at"
    let category = os.lower (strip b.category)
    let symbol = os.upper (strip b.symbol)
    raise_if (not (is_category category)) (value_error "unsupported candle category")
    raise_if (is_blank symbol) (value_error "symbol is required")
    let normalized = record b { category = category; symbol = symbol }
    check_members normalized [] none b.candles
    ok normalized

-- `CandleBatch.latest`
abbrev pub latest_candle : {D : Type 0} → CandleBatch D → Option (OhlcvCandle D)
latest_candle b = get_last? b.candles
