-- ===== src/Prelude/Number.antt =====
-- The arithmetic that the program does in `float` and in `decimal.Decimal`: a type of values with
-- the operations the source calls. Rounding, and how a value is printed, are the platform's.
use Prim.Native.Nat.{ℕ}
use Prim.Native.String.{String}
use mathlib.Core.Path.{◌≡◌}
use mathlib.Core.Bool.{Bool, true, false}
use dumpectorist.Prelude.Int.{ℤ}

pub record Num (V : Type 0) : Type 0 where
  -- `a < b`, `a <= b`, `a == b`; false where one is not a number.
  pub lt : V → V → Bool
  pub le : V → V → Bool
  pub eq : V → V → Bool
  pub is_finite : V → Bool
  pub add : V → V → V
  pub sub : V → V → V
  pub mul : V → V → V
  pub div : V → V → V
  pub neg : V → V
  pub abs : V → V
  -- The literal m · 10^-e, and the value of an `int`.
  pub lit : ℕ → ℕ → V
  pub of_int : ℤ → V
  -- True division of two `int`s, which `timedelta.total_seconds` is.
  pub int_div : ℤ → ℤ → V
  -- `value.quantize(10^-e)`
  pub quantize : ℕ → V → V
  pub show : V → String
  -- `f"{value:.2f}"`
  pub show_cents : V → String

-- What the proofs use of comparisons between finite values.
pub record NumLaws {V : Type 0} (N : Num V) : Type 0 where
  pub zero_finite : N.is_finite (N.lit 0 0) ≡ true
  pub lt_of_not-le :
      (a b : V) → N.is_finite a ≡ true → N.is_finite b ≡ true → N.le a b ≡ false → N.lt b a ≡ true
  pub not-le_of_lt : (a b : V) → N.lt b a ≡ true → N.le a b ≡ false
  pub lt_trans : (a b c : V) → N.lt a b ≡ true → N.lt b c ≡ true → N.lt a c ≡ true
  pub lt_irrefl : (a : V) → N.lt a a ≡ false
  pub le_trans : (a b c : V) → N.le a b ≡ true → N.le b c ≡ true → N.le a c ≡ true
  pub le_of_lt : (a b : V) → N.lt a b ≡ true → N.le a b ≡ true
