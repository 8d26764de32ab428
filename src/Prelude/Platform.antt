-- ===== src/Prelude/Platform.antt =====
-- What Python's `str`, `datetime`, `decimal` and `hashlib` do, where the code only calls them.
use Prim.Native.String.{String}
use mathlib.Core.Path.{◌≡◌}
use mathlib.Core.Bool.{true}
use dumpectorist.Prelude.Number.{Num}
use dumpectorist.Prelude.Result.{Result, ok}
use dumpectorist.Prelude.Time.{Datetime, is_aware}

pub record Platform (D : Type 0) : Type 0 where
  -- `text.lower()`, `text.upper()`
  pub lower : String → String
  pub upper : String → String
  -- `time.isoformat()` and `datetime.fromisoformat(text)`
  pub isoformat : Datetime → String
  pub fromisoformat : String → Result Datetime
  -- `Decimal(text)`
  pub parse_decimal : String → Result D
  -- `sha256(text.encode('utf-8')).hexdigest()`
  pub sha256 : String → String

-- What is printed can be read again.
pub record PlatformLaws {D : Type 0} (dec : Num D) (os : Platform D) : Type 0 where
  pub iso_again : (t : Datetime) → is_aware t ≡ true → os.fromisoformat (os.isoformat t) ≡ ok t
  pub decimal_again : (d : D) → dec.is_finite d ≡ true → os.parse_decimal (dec.show d) ≡ ok d
