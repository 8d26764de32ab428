-- ===== src/Candles/Payload.antt =====
-- app/candles/serialization.py: a batch as the data of a payload, and back. A dict whose values are
-- texts is a dict of texts; `str(data.get(key))` of a missing key is "None".
pub mod RoundTrip
use dumpectorist.Prelude.{
  Bool, true, false, not, ◌≡◌, String, List, [], ◌∷◌, Option, none, some, str_eq, map, arith, refl,
  ap, ◌∙◌, sym, All, if◌then◌else◌,
}
use dumpectorist.Prelude.Dict.{Dict, string_key, lookup, get_or}
use dumpectorist.Prelude.Number.{Num}
use dumpectorist.Prelude.Platform.{Platform, PlatformLaws}
use dumpectorist.Prelude.Result.{Result, ok, err, value_error, ◌>>=◌, ◌>>◌, >>=-eq-ok}
use dumpectorist.Prelude.Text.{◌<>◌}
use dumpectorist.Prelude.Time.{Datetime, is_aware}
use dumpectorist.Candles.{
  CandleSource, CandleInterval, OhlcvCandle, CandleBatch, candle_source_value, interval_value,
  ohlcv_candle, candle_batch, check_prices, candle_decimal,
}

pub data CandleItem : Type 0 where
  not_object : CandleItem
  object : Dict String String → CandleItem

pub data CandleItems : Type 0 where
  not_list : CandleItems
  items : List CandleItem → CandleItems

pub record PayloadData : Type 0 where
  pub fields : Dict String String
  pub candles : CandleItems

abbrev pub role_value : String
role_value = "STRUCTURE_DATA"

-- `CandleSource(text)`
unfoldable pub candle_source_of : String → Result CandleSource
candle_source_of s =
    if str_eq s "BYBIT"
    then ok CandleSource.bybit
    else err (value_error ("'" <> (s <> "' is not a valid CandleSource")))

-- `CandleRole(text)`
unfoldable pub check_role : String → Result (Unit {0})
check_role s =
    if str_eq s role_value
    then ok tt
    else err (value_error ("'" <> (s <> "' is not a valid CandleRole")))

-- `CandleInterval(text)`
unfoldable pub interval_of : String → Result CandleInterval
interval_of s =
    if str_eq s "5"
    then ok CandleInterval.m5
    else if str_eq s "15"
    then ok CandleInterval.m15
    else if str_eq s "240"
    then ok CandleInterval.h4
    else if str_eq s "D"
    then ok CandleInterval.d1
    else err (value_error ("'" <> (s <> "' is not a valid CandleInterval")))

-- `str(data.get(key))`
abbrev pub text_at : String → Dict String String → String
text_at key d = get_or key "None" d

module _ {D : Type 0} (os : Platform D) (dec : Num D) where
  -- `candle_to_dict`
  unfoldable pub candle_to_dict : OhlcvCandle D → Dict String String
  candle_to_dict c =
      ("source", candle_source_value c.source)
      ∷ ("role", role_value)
      ∷ ("category", c.category)
      ∷ ("symbol", c.symbol)
      ∷ ("interval", interval_value c.interval)
      ∷ ("open_time", os.isoformat c.open_time)
      ∷ ("close_time", os.isoformat c.close_time)
      ∷ ("open_price", dec.show c.open_price)
      ∷ ("high_price", dec.show c.high_price)
      ∷ ("low_price", dec.show c.low_price)
      ∷ ("close_price", dec.show c.close_price)
      ∷ ("volume", dec.show c.volume)
      ∷ ("turnover", dec.show c.turnover)
      ∷ []

  -- `batch_to_payload_data`
  unfoldable pub batch_to_payload_data : CandleBatch D → PayloadData
  batch_to_payload_data b = record {
    fields =
        ("source", candle_source_value b.source)
        ∷ ("role", role_value)
        ∷ ("category", b.category)
        ∷ ("symbol", b.symbol)
        ∷ ("interval", interval_value b.interval)
        ∷ ("fetched_at", os.isoformat b.fetched_at)
        ∷ [];
    candles = CandleItems.items (map (λ c. CandleItem.object (candle_to_dict c)) b.candles);
  }

  -- The body of the loop over the raw candles.
  unfoldable pub candle_from : CandleItem → Result (OhlcvCandle D)
  unfolding get_or lookup
  candle_from CandleItem.not_object = err (value_error "candle item must be an object")
  candle_from (CandleItem.object raw) = do
    source ← candle_source_of (text_at "source" raw)
    check_role (text_at "role" raw)
    interval ← interval_of (text_at "interval" raw)
    open_time ← os.fromisoformat (text_at "open_time" raw)
    close_time ← os.fromisoformat (text_at "close_time" raw)
    open_price ← os.parse_decimal (text_at "open_price" raw)
    high_price ← os.parse_decimal (text_at "high_price" raw)
    low_price ← os.parse_decimal (text_at "low_price" raw)
    close_price ← os.parse_decimal (text_at "close_price" raw)
    volume ← os.parse_decimal (text_at "volume" raw)
    turnover ← os.parse_decimal (text_at "turnover" raw)
    ohlcv_candle os dec (record {
      source = source;
      category = get_or "category" "" raw;
      symbol = get_or "symbol" "" raw;
      interval = interval;
      open_time = open_time;
      close_time = close_time;
      open_price = open_price;
      high_price = high_price;
      low_price = low_price;
      close_price = close_price;
      volume = volume;
      turnover = turnover;
    })

  unfoldable pub candles_from : List CandleItem → Result (List (OhlcvCandle D))
  candles_from [] = ok []
  candles_from (x ∷ xs) = do c ← candle_from x; cs ← candles_from xs; ok (c ∷ cs)

  -- What follows the test for a list.
  unfoldable pub batch_of : Dict String String → List CandleItem → Result (CandleBatch D)
  unfolding get_or lookup
  batch_of data_fields raw = do
    source ← candle_source_of (text_at "source" data_fields)
    check_role (text_at "role" data_fields)
    interval ← interval_of (text_at "interval" data_fields)
    fetched_at ← os.fromisoformat (text_at "fetched_at" data_fields)
    candles ← candles_from raw
    candle_batch os dec (record {
      source = source;
      category = get_or "category" "" data_fields;
      symbol = get_or "symbol" "" data_fields;
      interval = interval;
      fetched_at = fetched_at;
      candles = candles;
    })

  -- `batch_from_payload_data`
  unfoldable pub batch_from_payload_data : PayloadData → Result (CandleBatch D)
  batch_from_payload_data p = elim p.candles [
    | CandleItems.not_list ↦ err (value_error "candles must be a list")
    | CandleItems.items raw ↦ batch_of p.fields raw
  ]
