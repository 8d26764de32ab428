-- ===== src/Numbers.antt =====
-- app/core/numbers.py: what makes a `float` acceptable. The value is a `float` already; the failure
-- of `float(value)` itself belongs to values of other types and is not met here.
use dumpectorist.Prelude.{String, if◌then◌else◌}
use dumpectorist.Prelude.Number.{Num}
use dumpectorist.Prelude.Result.{Result, ok, err, value_error, raise_if, ◌>>=◌, ◌>>◌}
use dumpectorist.Prelude.Text.{◌<>◌}

module _ {F : Type 0} (flt : Num F) where
  unfoldable pub finite_float : F → String → Result F
  finite_float value name =
      if flt.is_finite value then ok value else err (value_error (name <> " must be finite"))

  unfoldable pub positive_finite_float : F → String → Result F
  unfolding finite_float
  positive_finite_float value name = do
    parsed ← finite_float value name
    raise_if (flt.le parsed (flt.lit 0 0)) (value_error (name <> " must be positive"))
    ok parsed
