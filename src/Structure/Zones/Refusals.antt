-- ===== src/Structure/Zones/Refusals.antt =====
-- app/structure/support_zones.py: the errors of the checks and of the arithmetic.
use dumpectorist.Prelude.{◌⊎◌, ◌≡◌, String, List, [], ◌∷◌, Option, none, some, refl, inr, arith}
use dumpectorist.Prelude.Number.{Num}
use dumpectorist.Prelude.Platform.{Platform}
use dumpectorist.Prelude.Result.{Error, Result, ok, err, ◌>>=◌}
use dumpectorist.Prelude.Time.{Datetime, require_aware}
use dumpectorist.Candles.{OhlcvCandle}
use dumpectorist.Structure.Htf.{
  SupportZone, support_zone, decimal_at_least, decimal_between, check_evidence, all_aware,
  least_price,
}
use dumpectorist.Structure.Zones.{validate_candles, validate_series, untrapped, decimal_trap}

-- Raised as a ValueError.
abbrev pub IsRefusal : Error → Type 0
IsRefusal e = e.kind ≡ "ValueError"

require_aware-IsRefusal :
    (t : Datetime) (n : String) (e : Error) → require_aware t n ≡ err e → IsRefusal e
require_aware-IsRefusal t n e h = ground arith

all_aware-IsRefusal : (ts : List Datetime) (e : Error) → all_aware ts ≡ err e → IsRefusal e
unfolding all_aware
all_aware-IsRefusal [] e h = cc
all_aware-IsRefusal (t ∷ ts) e h = ground (arith, all_aware-IsRefusal ts e)

-- Or raised by the arithmetic.
abbrev pub IsFailure : Error → Type 0
IsFailure e = IsRefusal e ⊎ (e ≡ decimal_trap)

-- A chain fails where one of its steps does.
pub bind-IsFailure :
    {A B : Type 0} (m : Result A) (f : A → Result B) (e : Error)
    → ((x : Error) → m ≡ err x → IsFailure x)
    → ((a : A) → m ≡ ok a → f a ≡ err e → IsFailure e)
    → (m >>= f) ≡ err e
    → IsFailure e
bind-IsFailure (ok a) f e g k h = k a refl h
bind-IsFailure (err x) f e g k h = g e cc

module _ {D : Type 0} (os : Platform D) (dec : Num D) where
  decimal_at_least-IsRefusal :
      (v : D) (n : String) (m : D) (e : Error) → decimal_at_least os dec v n m ≡ err e → IsRefusal e
  unfolding decimal_at_least
  decimal_at_least-IsRefusal v n m e h = ground arith

  decimal_between-IsRefusal :
      (v : D) (n : String) (a b : D) (e : Error)
      → decimal_between os dec v n a b ≡ err e
      → IsRefusal e
  unfolding decimal_between
  decimal_between-IsRefusal v n a b e h = ground (arith, decimal_at_least-IsRefusal v n a e)

  check_evidence-IsRefusal :
      (z : SupportZone D) (e : Error) → check_evidence os dec z ≡ err e → IsRefusal e
  unfolding check_evidence
  check_evidence-IsRefusal z e h = ground (
    arith,
    decimal_between-IsRefusal z.strength_score "strength_score" (dec.lit 0 0) (dec.lit 100 0) e,
    all_aware-IsRefusal z.evidence_open_times e,
  )

  pub support_zone-IsRefusal :
      (z : SupportZone D) (e : Error) → support_zone os dec z ≡ err e → IsRefusal e
  unfolding support_zone
  support_zone-IsRefusal z e h = ground (
    arith,
    check_evidence-IsRefusal z e,
    decimal_at_least-IsRefusal z.low "low" (least_price os dec) e,
    decimal_at_least-IsRefusal z.high "high" (least_price os dec) e,
  )

  validate_series-IsRefusal :
      (first : OhlcvCandle D) (previous : Option Datetime) (cs : List (OhlcvCandle D)) (e : Error)
      → validate_series os dec first previous cs ≡ err e
      → IsRefusal e
  unfolding validate_series
  validate_series-IsRefusal first previous [] e h = cc
  validate_series-IsRefusal first previous (c ∷ cs) e h =
      ground (arith, validate_series-IsRefusal first (some c.open_time) cs e)

  pub untrapped-IsFailure : (v : D) (e : Error) → untrapped os dec v ≡ err e → IsFailure e
  unfolding untrapped
  untrapped-IsFailure v e h = inr (ground arith)

  -- A step of the arithmetic, and what follows it.
  pub settled_then :
      {B : Type 0} (v : D) (f : D → Result B) (e : Error)
      → ((a : D) → f a ≡ err e → IsFailure e)
      → (untrapped os dec v >>= f) ≡ err e
      → IsFailure e
  settled_then v f e k h =
      bind-IsFailure (untrapped os dec v) f e (untrapped-IsFailure v) (λ a _. k a) h

  pub validate_candles-IsRefusal :
      (cs : List (OhlcvCandle D)) (e : Error) → validate_candles os dec cs ≡ err e → IsRefusal e
  unfolding validate_candles
  validate_candles-IsRefusal [] e h = cc
  validate_candles-IsRefusal (c ∷ cs) e h =
      ground (arith, validate_series-IsRefusal c none (c ∷ cs) e)
