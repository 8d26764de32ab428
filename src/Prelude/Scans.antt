-- ===== src/Prelude/Scans.antt =====
-- `next(x for x in xs if ...)`, `sum(... for x in xs)` over tests, and membership.
use Prim.Native.Nat.{ℕ, zero, suc, ◌+◌}
use mathlib.Core.Path.{◌≡◌}
use mathlib.Core.Bool.{Bool, true}
use mathlib.Core.Logic.{inl, inr}
use mathlib.Core.Option.{Option, none, some}
use mathlib.Core.List.{List, [], ◌∷◌}
use native.Mathlib.Omega.{arith}
pub use mathlib.Core.List.{Memᴰ as Member}
use mathlib.Core.List.Memᴰ.{not-nil, head, tail}
use dumpectorist.Prelude.Lists.{drop, take}
use dumpectorist.Prelude.Tests.{if◌then◌else◌, Bool-cases}

module _ {ℓ} {A : Type ℓ} where
  abbrev pub first_where : (A → Bool) → List A → Option A
  first_where p [] = none
  first_where p (x ∷ xs) = let rest = first_where p xs in if p x then some x else rest

  -- The index of the first, counted from the one given.
  abbrev pub index_where : ℕ → (A → Bool) → List A → Option ℕ
  index_where i p [] = none
  index_where i p (x ∷ xs) = let rest = index_where (i + 1) p xs in if p x then some i else rest

  abbrev pub count_where : (A → Bool) → List A → ℕ
  count_where p [] = 0
  count_where p (x ∷ xs) = let rest = count_where p xs in if p x then rest + 1 else rest

  found :
      (p : A → Bool) (y : A) (ys : List A) {x : A}
      → p y ≡ true
      → first_where p (y ∷ ys) ≡ some x
      → x ≡ y
  found p y ys e h = ground arith

  pub first_where-some :
      (p : A → Bool) (xs : List A) {x : A} → first_where p xs ≡ some x → Member x xs × (p x ≡ true)
  first_where-some p [] h = cc
  first_where-some p (y ∷ ys) {x} h = elim (Bool-cases (p y)) [
    | inl here ↦ let e = found p y ys here h in (head e, rw (e) here)
    | inr past ↦ let (m, holds) = first_where-some p ys (rw (past) at h) in (tail m, holds)
  ]

  pub Member-drop : (n : ℕ) (xs : List A) {x : A} → Member x (drop n xs) → Member x xs
  Member-drop zero xs m = m
  Member-drop (suc n) [] m = m
  Member-drop (suc n) (y ∷ ys) m = tail (Member-drop n ys m)

  pub Member-take : (n : ℕ) (xs : List A) {x : A} → Member x (take n xs) → Member x xs
  Member-take zero xs m = absurd (not-nil m)
  Member-take (suc n) [] m = m
  Member-take (suc n) (y ∷ ys) (head e) = head e
  Member-take (suc n) (y ∷ ys) (tail m) = tail (Member-take n ys m)
