-- ===== src/Prelude/Fixed.antt =====
-- A fixed-point number, in millionths, with which the examples compute.
use Prim.Native.Nat.{ℕ, ◌+◌, ◌*◌, ◌/◌, ◌^◌}
use mathlib.Core.Path.{refl}
use mathlib.Core.Bool.{true, ◌&&◌}
use native.Mathlib.Omega.{arith}
use dumpectorist.Prelude.Int.{
  ℤ, pos, negsuc, pos_part, neg_part, sub_ℕ, ◌+ℤ◌, ◌-ℤ◌, ◌*ℤ◌, ltb_ℤ, leb_ℤ,
}
use dumpectorist.Prelude.Number.{Num, NumLaws}

-- Division of the magnitude, towards zero.
abbrev quot : ℤ → ℕ → ℤ
quot (pos n) d = pos (n / d)
quot (negsuc n) d = sub_ℕ 0 ((n + 1) / d)

abbrev pub div_ℤ : ℤ → ℤ → ℤ
div_ℤ a (pos d) = quot a d
div_ℤ a (negsuc d) = quot (pos 0 -ℤ a) (d + 1)

abbrev pub scale : ℕ
scale = 1_000_000

abbrev pub abs_ℤ : ℤ → ℤ
abs_ℤ a = pos (pos_part a + neg_part a)

unfoldable pub fixed : Num ℤ
unfolding ◌-ℤ◌ ◌*ℤ◌ ◌+ℤ◌
fixed = record {
  lt = ltb_ℤ;
  le = leb_ℤ;
  eq = λ a b. leb_ℤ a b && leb_ℤ b a;
  is_finite = λ a. true;
  add = ◌+ℤ◌;
  sub = ◌-ℤ◌;
  mul = λ a b. quot (a *ℤ b) scale;
  div = λ a b. div_ℤ (a *ℤ pos scale) b;
  neg = λ a. pos 0 -ℤ a;
  abs = abs_ℤ;
  lit = λ m e. pos (m * scale / 10 ^ e);
  of_int = λ n. n *ℤ pos scale;
  int_div = λ a b. div_ℤ (a *ℤ pos scale) b;
  quantize = λ e a. quot a (scale / 10 ^ e) *ℤ pos (scale / 10 ^ e);
  show = λ a. "";
  show_cents = λ a. "";
}

pub fixed_laws : NumLaws fixed
unfolding fixed
fixed_laws = record {
  zero_finite = refl;
  lt_of_not-le = λ a b f g h. ground arith;
  not-le_of_lt = λ a b h. ground arith;
  lt_trans = λ a b c h k. ground arith;
  lt_irrefl = λ a. ground arith;
  le_trans = λ a b c h k. ground arith;
  le_of_lt = λ a b h. ground arith;
}

-- A value in whole units.
abbrev pub units : ℕ → ℤ
units n = pos (n * scale)
