-- ===== src/Examples/Platforms.antt =====
-- Two stand-ins for the platform: one that prints nothing, and one that writes a number as strokes and
-- reads it again. A batch of one candle goes through the second.
use Prim.Native.Char.{code}
use dumpectorist.Prelude.{
  ◌≡◌, ◌==◌, if◌then◌else◌, ℕ, zero, suc, String, List, [], ◌∷◌, ap, refl, All, true,
}
use dumpectorist.Prelude.Int.{ℤ, pos, negsuc}
use dumpectorist.Prelude.Fixed.{fixed, units}
use dumpectorist.Prelude.Number.{Num}
use dumpectorist.Prelude.Platform.{Platform, PlatformLaws}
use dumpectorist.Prelude.Result.{Result, ok, err, value_error}
use dumpectorist.Prelude.Time.{Datetime, is_aware}
use dumpectorist.Candles.{CandleSource, CandleInterval, OhlcvCandle, CandleBatch}
use dumpectorist.Candles.Payload.{batch_to_payload_data, batch_from_payload_data}
use dumpectorist.Candles.Payload.RoundTrip.{IsBatch, payload-round_trip}
use dumpectorist.Examples.Market.{at_second}

unfoldable pub silent : Platform ℤ
silent = record {
  lower = λ s. s;
  upper = λ s. s;
  isoformat = λ t. "";
  fromisoformat = λ s. err (value_error "Invalid isoformat string");
  parse_decimal = λ s. err (value_error "invalid literal");
  sha256 = λ s. "digest";
}

abbrev strokes : ℕ → String
strokes zero = String.[]
strokes (suc n) = String.◌∷◌ "|" (strokes n)

abbrev count_strokes : String → ℕ
count_strokes String.[] = zero
count_strokes (String.◌∷◌ c s) = suc (count_strokes s)

count_strokes-strokes : (n : ℕ) → count_strokes (strokes n) ≡ n
count_strokes-strokes zero = refl
count_strokes-strokes (suc n) = ap suc (count_strokes-strokes n)

abbrev write_number : ℤ → String
write_number (pos n) = String.◌∷◌ "+" (strokes n)
write_number (negsuc n) = String.◌∷◌ "-" (strokes n)

abbrev write_time : Datetime → String
write_time (Datetime.naive t) = String.[]
write_time (Datetime.aware t) = strokes t

abbrev read_number : String → Result ℤ
read_number String.[] = err (value_error "invalid literal")
read_number (String.◌∷◌ c s) =
    if code c == 43 then ok (pos (count_strokes s)) else ok (negsuc (count_strokes s))

unfoldable written : Num ℤ
unfolding fixed
written = record fixed { show = write_number }

unfoldable stroked : Platform ℤ
stroked = record {
  lower = λ s. s;
  upper = λ s. s;
  isoformat = write_time;
  fromisoformat = λ s. ok (Datetime.aware (count_strokes s));
  parse_decimal = read_number;
  sha256 = λ s. s;
}

time_again : (t : Datetime) → is_aware t ≡ true → stroked.fromisoformat (stroked.isoformat t) ≡ ok t
unfolding stroked
time_again (Datetime.naive t) h = cc
time_again (Datetime.aware t) h = ap (λ n. ok (Datetime.aware n)) (count_strokes-strokes t)

number_again : (d : ℤ) → written.is_finite d ≡ true → stroked.parse_decimal (written.show d) ≡ ok d
unfolding written stroked
number_again (pos n) h = ap (λ m. ok (pos m)) (count_strokes-strokes n)
number_again (negsuc n) h = ap (λ m. ok (negsuc m)) (count_strokes-strokes n)

stroked_laws : PlatformLaws written stroked
stroked_laws = record { iso_again = time_again; decimal_again = number_again }

abbrev quarter_hour : OhlcvCandle ℤ
quarter_hour = record {
  source = CandleSource.bybit;
  category = "linear";
  symbol = "TIAUSDT";
  interval = CandleInterval.m15;
  open_time = at_second 0;
  close_time = at_second 900;
  open_price = units 10;
  high_price = units 12;
  low_price = units 9;
  close_price = units 11;
  volume = units 300;
  turnover = units 3200;
}

abbrev one_candle : CandleBatch ℤ
one_candle = record {
  source = CandleSource.bybit;
  category = "linear";
  symbol = "TIAUSDT";
  interval = CandleInterval.m15;
  fetched_at = at_second 1000;
  candles = quarter_hour ∷ [];
}

one_candle-IsBatch : IsBatch stroked written one_candle
unfolding dumpectorist.Candles.candle_batch stroked dumpectorist.Prelude.Text.strip
    dumpectorist.Candles.check_members dumpectorist.Candles.check_member
    dumpectorist.Candles.ohlcv_candle dumpectorist.Candles.check_prices
    dumpectorist.Candles.candle_decimal written dumpectorist.Candles.check_range
one_candle-IsBatch = (refl, (refl, tt))

payload-round_trip_example :
    batch_from_payload_data stroked written (batch_to_payload_data stroked written one_candle)
    ≡ ok one_candle
payload-round_trip_example =
    payload-round_trip stroked written stroked_laws one_candle one_candle-IsBatch
