-- ===== src/Prelude/Time.antt =====
-- `datetime`: a naive one holds its wall clock, an aware one (here: a fixed offset of zero, as
-- `timezone.utc`) its instant, both in microseconds since 0001-01-01. A `tzinfo` whose `utcoffset`
-- is None makes a naive one. Ordering or subtracting a naive and an aware one raises.
use Prim.Native.Nat.{ℕ, ◌+◌}
use Prim.Native.String.{String}
use mathlib.Core.Bool.{Bool, true, false}
use dumpectorist.Prelude.Tests.{ltb, leb, ◌==◌, if◌then◌else◌}
use dumpectorist.Prelude.Int.{ℤ, sub_ℕ}
use dumpectorist.Prelude.Text.{◌<>◌}
use dumpectorist.Prelude.Result.{Error, Result, ok, err, value_error, type_error}

pub data Datetime : Type 0 where
  naive : ℕ → Datetime
  aware : ℕ → Datetime

abbrev pub micros : Datetime → ℕ
micros (naive t) = t
micros (aware t) = t

-- `not (value.tzinfo is None or value.utcoffset() is None)`
abbrev pub is_aware : Datetime → Bool
is_aware (naive t) = false
is_aware (aware t) = true

-- `raise ValueError(f"{name} must be timezone-aware")` unless it is.
abbrev pub require_aware : Datetime → String → Result (Unit {0})
require_aware (aware t) name = ok tt
require_aware (naive t) name = err (value_error (name <> " must be timezone-aware"))

abbrev pub mixed_compare : Error
mixed_compare = type_error "can't compare offset-naive and offset-aware datetimes"

abbrev pub mixed_subtract : Error
mixed_subtract = type_error "can't subtract offset-naive and offset-aware datetimes"

-- `a < b`
abbrev pub before : Datetime → Datetime → Result Bool
before (naive a) (naive b) = ok (ltb a b)
before (aware a) (aware b) = ok (ltb a b)
before (naive a) (aware b) = err mixed_compare
before (aware a) (naive b) = err mixed_compare

-- `a <= b`
abbrev pub not_after : Datetime → Datetime → Result Bool
not_after (naive a) (naive b) = ok (leb a b)
not_after (aware a) (aware b) = ok (leb a b)
not_after (naive a) (aware b) = err mixed_compare
not_after (aware a) (naive b) = err mixed_compare

-- `a == b`: a naive and an aware one are never equal.
abbrev pub same_time : Datetime → Datetime → Bool
same_time (naive a) (naive b) = a == b
same_time (aware a) (aware b) = a == b
same_time (naive a) (aware b) = false
same_time (aware a) (naive b) = false

-- `a - b`, in microseconds.
abbrev pub subtract : Datetime → Datetime → Result ℤ
subtract (naive a) (naive b) = ok (sub_ℕ a b)
subtract (aware a) (aware b) = ok (sub_ℕ a b)
subtract (naive a) (aware b) = err mixed_subtract
subtract (aware a) (naive b) = err mixed_subtract

-- `datetime.max`, 9999-12-31T23:59:59.999999
abbrev pub max_micros : ℕ
max_micros = 315_537_897_599_999_999

abbrev pub date_overflow : Error
date_overflow = record { kind = "OverflowError"; message = "date value out of range" }

-- `a + d` for a `timedelta` d of zero or more microseconds.
abbrev pub add_micros : Datetime → ℕ → Result Datetime
add_micros (naive a) d = if leb (a + d) max_micros then ok (naive (a + d)) else err date_overflow
add_micros (aware a) d = if leb (a + d) max_micros then ok (aware (a + d)) else err date_overflow

abbrev pub micros_per_minute : ℕ
micros_per_minute = 60_000_000
