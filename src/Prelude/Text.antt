-- ===== src/Prelude/Text.antt =====
-- Python's `str` where the program looks into it: `strip`, truthiness, slices, and `str(n)`.
use Prim.Native.Nat.{ℕ, zero, suc, ◌/◌, ◌%◌}
use Prim.Native.Char.{Char, code}
use Prim.Native.String.{String, ◌++◌}
use mathlib.Core.Path.{◌≡◌, refl}
use mathlib.Core.Bool.{Bool, true, false, ◌&&◌, ◌||◌}
use dumpectorist.Prelude.Tests.{ltb, leb, ◌==◌, if◌then◌else◌, Bool-cases}
use mathlib.Core.Logic.{inl, inr}

-- `s + t`
infixl 65 ◌<>◌
abbrev pub ◌<>◌ : String → String → String
s <> t = s ++ t

-- `not s`
abbrev pub is_blank : String → Bool
is_blank String.[] = true
is_blank (String.◌∷◌ c s) = false

-- `str.isspace` of one character.
unfoldable pub is_space : ℕ → Bool
is_space c =
    (leb 9 c && leb c 13)
    || (leb 28 c && leb c 32)
    || c == 133
    || c == 160
    || c == 5760
    || (leb 8192 c && leb c 8202)
    || c == 8232
    || c == 8233
    || c == 8239
    || c == 8287
    || c == 12288

unfoldable pub lstrip : String → String
lstrip String.[] = String.[]
lstrip (String.◌∷◌ c s) = if is_space (code c) then lstrip s else String.◌∷◌ c s

-- A character goes if it is a space and nothing but spaces follows it.
abbrev pub keep_unless : Bool → Char → String → String
keep_unless true c String.[] = String.[]
keep_unless true c (String.◌∷◌ d r) = String.◌∷◌ c (String.◌∷◌ d r)
keep_unless false c r = String.◌∷◌ c r

unfoldable pub rstrip : String → String
rstrip String.[] = String.[]
rstrip (String.◌∷◌ c s) = keep_unless (is_space (code c)) c (rstrip s)

-- `s.strip()`
unfoldable pub strip : String → String
unfolding lstrip rstrip is_space
strip s = rstrip (lstrip s)

-- `s[:n]`
abbrev pub take_chars : ℕ → String → String
take_chars zero s = String.[]
take_chars (suc n) String.[] = String.[]
take_chars (suc n) (String.◌∷◌ c s) = String.◌∷◌ c (take_chars n s)

abbrev pub digit : ℕ → String
digit zero = "0"
digit (suc zero) = "1"
digit (suc (suc zero)) = "2"
digit (suc (suc (suc zero))) = "3"
digit (suc (suc (suc (suc zero)))) = "4"
digit (suc (suc (suc (suc (suc zero))))) = "5"
digit (suc (suc (suc (suc (suc (suc zero)))))) = "6"
digit (suc (suc (suc (suc (suc (suc (suc zero))))))) = "7"
digit (suc (suc (suc (suc (suc (suc (suc (suc zero)))))))) = "8"
digit _ = "9"

show_fuel : ℕ → ℕ → String
show_fuel zero n = ""
show_fuel (suc f) n =
    let front = show_fuel f (n / 10) <> digit (n % 10) in if ltb n 10 then digit n else front

-- `str(n)`; a number has no more digits than its value plus one.
unfoldable pub show_nat : ℕ → String
unfolding show_fuel
show_nat n = show_fuel (suc n) n

show_nat_sample : show_nat 407 ≡ "407"
unfolding show_nat
show_nat_sample = refl

strip_sample : strip "  BTC USDT \n" ≡ "BTC USDT"
unfolding strip
strip_sample = refl

lstrip_keep :
    (b : Bool) (c : Char) (r : String)
    → is_space (code c) ≡ b
    → b ≡ false
    → lstrip (keep_unless b c r) ≡ keep_unless b c r
unfolding lstrip
lstrip_keep true c r e f = cc
lstrip_keep false c r e f = rw e

-- The trailing spaces of a text that begins with another character leave that character.
rstrip-lstrip_head : (s : String) → lstrip (rstrip (lstrip s)) ≡ rstrip (lstrip s)
unfolding lstrip rstrip
rstrip-lstrip_head String.[] = refl
rstrip-lstrip_head (String.◌∷◌ c s) = elim (Bool-cases (is_space (code c))) [
  | inl e ↦ rw e (rstrip-lstrip_head s)
  | inr e ↦ rw e (lstrip_keep (is_space (code c)) c (rstrip s) refl e)
]

rstrip_keep :
    (b : Bool) (c : Char) (r : String)
    → is_space (code c) ≡ b
    → rstrip r ≡ r
    → rstrip (keep_unless b c r) ≡ keep_unless b c r
unfolding rstrip
rstrip_keep true c String.[] e h = refl
rstrip_keep true c (String.◌∷◌ d r) e h = rw h (rw e refl)
rstrip_keep false c r e h = rw h (rw e refl)

rstrip_idem : (s : String) → rstrip (rstrip s) ≡ rstrip s
unfolding rstrip
rstrip_idem String.[] = refl
rstrip_idem (String.◌∷◌ c s) = rstrip_keep (is_space (code c)) c (rstrip s) refl (rstrip_idem s)

-- `s.strip().strip() == s.strip()`
pub strip_idem : (s : String) → strip (strip s) ≡ strip s
unfolding strip
strip_idem s = rw (rstrip-lstrip_head s) (rstrip_idem (lstrip s))
