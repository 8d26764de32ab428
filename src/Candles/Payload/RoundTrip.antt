-- ===== src/Candles/Payload/RoundTrip.antt =====
-- app/candles/serialization.py: what is written is read again.
use dumpectorist.Prelude.{true, ◌≡◌, List, [], ◌∷◌, map, arith, refl, All}
use dumpectorist.Prelude.Dict.{string_key}
use dumpectorist.Prelude.Number.{Num}
use dumpectorist.Prelude.Platform.{Platform, PlatformLaws}
use dumpectorist.Prelude.Result.{ok}
use dumpectorist.Prelude.Time.{is_aware}
use dumpectorist.Candles.{
  CandleSource, CandleInterval, OhlcvCandle, CandleBatch, candle_source_value, interval_value,
  ohlcv_candle, candle_batch, check_prices, candle_decimal,
}
use dumpectorist.Candles.Payload.{
  CandleItem, candle_source_of, check_role, interval_of, role_value, candle_to_dict,
  batch_to_payload_data, candle_from, candles_from, batch_of, batch_from_payload_data,
}

source_again : (s : CandleSource) → candle_source_of (candle_source_value s) ≡ ok s
unfolding candle_source_of
source_again CandleSource.bybit = refl

interval_again : (i : CandleInterval) → interval_of (interval_value i) ≡ ok i
unfolding interval_of
interval_again CandleInterval.m5 = refl
interval_again CandleInterval.m15 = refl
interval_again CandleInterval.h4 = refl
interval_again CandleInterval.d1 = refl

role_again : check_role role_value ≡ ok tt
unfolding check_role
role_again = refl

module _ {D : Type 0} (os : Platform D) (dec : Num D) where
  -- What the constructor has made is made of again as it is.
  abbrev pub IsCandle : OhlcvCandle D → Type 0
  IsCandle c = ohlcv_candle os dec c ≡ ok c

  abbrev pub IsBatch : CandleBatch D → Type 0
  IsBatch b = (candle_batch os dec b ≡ ok b) × All IsCandle b.candles

  record IsReadable (c : OhlcvCandle D) : Type 0 where
    open_aware : is_aware c.open_time ≡ true
    close_aware : is_aware c.close_time ≡ true
    open_finite : dec.is_finite c.open_price ≡ true
    high_finite : dec.is_finite c.high_price ≡ true
    low_finite : dec.is_finite c.low_price ≡ true
    close_finite : dec.is_finite c.close_price ≡ true
    volume_finite : dec.is_finite c.volume ≡ true
    turnover_finite : dec.is_finite c.turnover ≡ true

  IsCandle-IsReadable : (c : OhlcvCandle D) → IsCandle c → IsReadable c
  unfolding ohlcv_candle check_prices candle_decimal
  IsCandle-IsReadable c h = ground arith

  batch_aware : (b : CandleBatch D) → candle_batch os dec b ≡ ok b → is_aware b.fetched_at ≡ true
  unfolding candle_batch
  batch_aware b h = ground arith

  candle_again :
      (laws : PlatformLaws dec os) (c : OhlcvCandle D)
      → IsCandle c
      → candle_from os dec (CandleItem.object (candle_to_dict os dec c)) ≡ ok c
  unfolding candle_from candle_to_dict
  candle_again laws c h =
      let r = IsCandle-IsReadable c h in
      rw
        (
          source_again c.source,
          role_again,
          interval_again c.interval,
          laws.iso_again c.open_time r.open_aware,
          laws.iso_again c.close_time r.close_aware,
          laws.decimal_again c.open_price r.open_finite,
          laws.decimal_again c.high_price r.high_finite,
          laws.decimal_again c.low_price r.low_finite,
          laws.decimal_again c.close_price r.close_finite,
          laws.decimal_again c.volume r.volume_finite,
          laws.decimal_again c.turnover r.turnover_finite,
        )
        h

  candles_again :
      (laws : PlatformLaws dec os) (cs : List (OhlcvCandle D))
      → All IsCandle cs
      → candles_from os dec (map (λ c. CandleItem.object (candle_to_dict os dec c)) cs) ≡ ok cs
  unfolding candles_from
  candles_again laws [] h = refl
  candles_again laws (c ∷ cs) h = rw (candle_again laws c h.0, candles_again laws cs h.1) refl

  -- A batch as its constructor makes it, of candles as theirs makes them, is read back from its own
  -- payload data as it was, where a time and a finite decimal can be read from their texts.
  pub payload-round_trip :
      (laws : PlatformLaws dec os) (b : CandleBatch D)
      → IsBatch b
      → batch_from_payload_data os dec (batch_to_payload_data os dec b) ≡ ok b
  unfolding batch_from_payload_data batch_to_payload_data batch_of
  payload-round_trip laws b h =
      rw
        (
          source_again b.source,
          role_again,
          interval_again b.interval,
          laws.iso_again b.fetched_at (batch_aware b h.0),
          candles_again laws b.candles h.1,
        )
        h.0
