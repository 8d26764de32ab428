-- ===== src/Adapters/Decimals.antt =====
-- The guards on decimal values and texts that app/adapters/lbank_models.py and
-- app/adapters/benchmark_models.py each declare. Values are decimals already, so the conversion
-- from other types is not met.
use dumpectorist.Prelude.{String, Option, none, some, if◌then◌else◌}
use dumpectorist.Prelude.Number.{Num}
use dumpectorist.Prelude.Result.{Result, ok, err, value_error, raise_if, ◌>>=◌, ◌>>◌}
use dumpectorist.Prelude.Text.{◌<>◌, strip, is_blank}

unfoldable pub required_text : String → String → Result String
required_text value name =
    let normalized = strip value in
    if is_blank normalized then err (value_error (name <> " is required")) else ok normalized

module _ {D : Type 0} (dec : Num D) where
  unfoldable pub finite_decimal : D → String → Result D
  finite_decimal value name =
      if dec.is_finite value then ok value else err (value_error (name <> " must be finite"))

  unfoldable pub positive_decimal : D → String → Result D
  unfolding finite_decimal
  positive_decimal value name = do
    v ← finite_decimal value name
    raise_if (dec.le v (dec.lit 0 0)) (value_error (name <> " must be positive"))
    ok v

  unfoldable pub non_negative_decimal : D → String → Result D
  unfolding finite_decimal
  non_negative_decimal value name = do
    v ← finite_decimal value name
    raise_if (dec.lt v (dec.lit 0 0)) (value_error (name <> " must be non-negative"))
    ok v

-- A check of a value that may be None.
unfoldable pub optionally :
    {D : Type 0} → (D → String → Result D) → Option D → String → Result (Option D)
optionally check none name = ok none
optionally check (some v) name = do w ← check v name; ok (some w)
