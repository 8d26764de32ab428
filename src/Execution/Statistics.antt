-- ===== src/Execution/Statistics.antt =====
-- `sorted`, `statistics.median`, `max` and `min` of the standard library, as app/execution/consensus.py
-- uses them on prices.
use dumpectorist.Prelude.{
  ℕ, suc, zero, ◌-◌, ◌/◌, ◌%◌, List, [], ◌∷◌, Option, none, some, length, ◌==◌, if◌then◌else◌,
}
use dumpectorist.Prelude.Int.{pos}
use dumpectorist.Prelude.Number.{Num}

module _ {D : Type 0} (dec : Num D) where
  -- A stable insertion: past the values that the new one is not below.
  unfoldable pub place : D → List D → List D
  place x [] = x ∷ []
  place x (y ∷ ys) = if dec.lt y x then y ∷ place x ys else x ∷ y ∷ ys

  unfoldable pub sorted : List D → List D
  unfolding place
  sorted [] = []
  sorted (x ∷ xs) = place x (sorted xs)

  abbrev pub item : List D → ℕ → Option D
  item [] i = none
  item (x ∷ xs) zero = some x
  item (x ∷ xs) (suc i) = item xs i

  abbrev pub mean_of : Option D → Option D → Option D
  mean_of (some a) (some b) = some (dec.div (dec.add a b) (dec.of_int (pos 2)))
  mean_of _ _ = none

  -- `median(values)`; `none` is the `StatisticsError` of an empty sequence.
  unfoldable pub median : List D → Option D
  unfolding sorted
  median xs =
      let ys = sorted xs in
      let n = length ys in
      if n % 2 == 1
      then item ys (n / 2)
      else if n == 0
      then none
      else mean_of (item ys (n / 2 - 1)) (item ys (n / 2))

  -- `max`: the first of the greatest; `min`: the first of the least.
  unfoldable pub max_from : D → List D → D
  max_from best [] = best
  max_from best (x ∷ xs) = max_from (if dec.lt best x then x else best) xs

  unfoldable pub min_from : D → List D → D
  min_from best [] = best
  min_from best (x ∷ xs) = min_from (if dec.lt x best then x else best) xs
