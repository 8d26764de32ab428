-- ===== src/Setups/Reclaim/Engine/Runs.antt =====
-- app/setups/reclaim_engine.py: when a zone counts as reclaimed, told by runs of closes.
use dumpectorist.Prelude.{
  Bool, true, false, ◌&&◌, ◌||◌, ◌≡◌, ℕ, zero, suc, ◌+◌, ◌≤◌, ◌<◌, List, [], ◌∷◌, is_some, refl,
  arith,
}
use dumpectorist.Prelude.Number.{Num}
use dumpectorist.Prelude.Platform.{Platform}
use dumpectorist.Candles.{OhlcvCandle}
use dumpectorist.Structure.Htf.{SupportZone}
use dumpectorist.Setups.Reclaim.{ReclaimRules}
use dumpectorist.Setups.Reclaim.Engine.{
  closes_above, required_closes, reclaim_from, successful_reclaim_index,
}

module _ {D : Type 0} (os : Platform D) (dec : Num D) (rules : ReclaimRules D)
    (z : SupportZone D) where
  -- The first n candles are there and close above the zone.
  unfoldable pub starts_run : ℕ → List (OhlcvCandle D) → Bool
  starts_run zero cs = true
  starts_run (suc n) [] = false
  starts_run (suc n) (c ∷ cs) = closes_above os dec rules z c && starts_run n cs

  -- Somewhere n candles in a row close above the zone.
  unfoldable pub has_run : ℕ → List (OhlcvCandle D) → Bool
  has_run n [] = false
  has_run n (c ∷ cs) = starts_run n (c ∷ cs) || has_run n cs

  -- A longer run begins with a shorter one.
  starts_run-shorter :
      (n m : ℕ) (cs : List (OhlcvCandle D))
      → n ≤ m
      → starts_run m cs ≡ true
      → starts_run n cs ≡ true
  unfolding starts_run
  starts_run-shorter zero m cs h r = refl
  starts_run-shorter (suc n) zero cs h r = absurd (omega (arith, h))
  starts_run-shorter (suc n) (suc m) [] h r = cc
  starts_run-shorter (suc n) (suc m) (c ∷ cs) h r = ground (arith, starts_run-shorter n m cs)

  has_run-starts_run :
      (n : ℕ) (cs : List (OhlcvCandle D)) → starts_run (suc n) cs ≡ true → has_run (suc n) cs ≡ true
  unfolding has_run starts_run
  has_run-starts_run n [] h = h
  has_run-starts_run n (c ∷ cs) h = ground arith

  -- The counter k stands for the closes above the zone that came last, one and m more are missing.
  reclaim_from-run :
      (n i k m : ℕ) (cs : List (OhlcvCandle D))
      → n ≡ k + m
      → is_some (reclaim_from os dec rules z (suc n) i k cs)
        ≡ (starts_run (suc m) cs || has_run (suc n) cs)
  unfolding reclaim_from has_run starts_run
  reclaim_from-run n i k m [] h = refl
  reclaim_from-run n i k zero (c ∷ cs) h =
      ground (arith, h, reclaim_from-run n (i + 1) 0 n cs (omega arith), has_run-starts_run n cs)
  reclaim_from-run n i k (suc m) (c ∷ cs) h = ground (
    arith,
    h,
    reclaim_from-run n (i + 1) 0 n cs (omega arith),
    has_run-starts_run n cs,
    reclaim_from-run n (i + 1) (k + 1) m cs (omega (arith, h)),
    starts_run-shorter (suc m) n cs (omega (arith, h)),
  )

  scan-run :
      (n : ℕ) (c : OhlcvCandle D) (cs : List (OhlcvCandle D))
      → 0 < n
      → is_some (reclaim_from os dec rules z n 0 0 (c ∷ cs)) ≡ has_run n (c ∷ cs)
  scan-run zero c cs p = absurd (omega (arith, p))
  scan-run (suc n) c cs p =
      ground (arith, reclaim_from-run n 0 0 n (c ∷ cs) (omega arith), has_run-starts_run n (c ∷ cs))

  -- The candles reclaim the zone exactly when, somewhere, as many closes in a row as the interval
  -- requires are above the zone, given that it requires one at least.
  pub successful_reclaim_index-run :
      (c : OhlcvCandle D) (cs : List (OhlcvCandle D))
      → 0 < required_closes os dec rules z c.interval
      → is_some (successful_reclaim_index os dec rules z c cs)
        ≡ has_run (required_closes os dec rules z c.interval) (c ∷ cs)
  unfolding successful_reclaim_index
  successful_reclaim_index-run c cs h = scan-run (required_closes os dec rules z c.interval) c cs h
