-- ===== src/Prelude/Sorting.antt =====
-- `sorted(items, key=...)` and `max(items, key=...)`, given the comparison of the keys. A stable
-- insertion gives the order that Python's stable sort does.
use Prim.Native.Nat.{ℕ, suc, ◌≤◌}
use native.Mathlib.Omega.{arith}
use mathlib.Core.Path.{◌≡◌, refl, ap, ◌∙◌, sym, subst}
use mathlib.Core.Bool.{Bool, true, false}
use mathlib.Core.List.{List, [], ◌∷◌}
use mathlib.Core.List.Perm
use mathlib.Core.List.{Perm}
use dumpectorist.Prelude.Lists.{All, length}
use dumpectorist.Prelude.Tests.{if◌then◌else◌, Bool-cases}
use mathlib.Core.Logic.{inl, inr}

module _ {ℓ} {A : Type ℓ} (less : A → A → Bool) where
  -- Past the items that the new one is not below.
  unfoldable pub place_by : A → List A → List A
  place_by x [] = x ∷ []
  place_by x (y ∷ ys) = let rest = place_by x ys in if less y x then y ∷ rest else x ∷ y ∷ ys

  unfoldable pub sort_by : List A → List A
  unfolding place_by
  sort_by [] = []
  sort_by (x ∷ xs) = place_by x (sort_by xs)

  -- The first of the greatest.
  unfoldable pub greatest_from : A → List A → A
  greatest_from best [] = best
  greatest_from best (x ∷ xs) = greatest_from (if less best x then x else best) xs

  pub place_by-perm : (x : A) (ys : List A) → Perm (place_by x ys) (x ∷ ys)
  unfolding place_by
  place_by-perm x [] = Perm.refl _
  place_by-perm x (y ∷ ys) = elim (Bool-cases (less y x)) [
    | inl past ↦
        rw (place_by, past) (Perm.trans (Perm.cons y (place_by-perm x ys)) (Perm.swap x y ys))
    | inr here ↦ rw (place_by, here) (Perm.refl _)
  ]

  pub sort_by-perm : (xs : List A) → Perm (sort_by xs) xs
  unfolding sort_by
  sort_by-perm [] = Perm.refl _
  sort_by-perm (x ∷ xs) = Perm.trans (place_by-perm x (sort_by xs)) (Perm.cons x (sort_by-perm xs))

  length-place_by : (x : A) (ys : List A) → length (place_by x ys) ≡ suc (length ys)
  unfolding place_by
  length-place_by x [] = refl
  length-place_by x (y ∷ ys) = elim (Bool-cases (less y x)) [
    | inl past ↦ rw (place_by, past) (ap suc (length-place_by x ys))
    | inr here ↦ rw (place_by, here) refl
  ]

  pub length-sort_by : (xs : List A) → length (sort_by xs) ≡ length xs
  unfolding sort_by
  length-sort_by [] = refl
  length-sort_by (x ∷ xs) = length-place_by x (sort_by xs) ∙ ap suc (length-sort_by xs)

module _ {ℓ κ} {A : Type ℓ} (less : A → A → Bool) (P : A → Type κ) where
  pub All-place_by : (x : A) (ys : List A) → P x → All P ys → All P (place_by less x ys)
  unfolding place_by
  All-place_by x [] p h = (p, tt)
  All-place_by x (y ∷ ys) p h = elim (Bool-cases (less y x)) [
    | inl past ↦ rw (place_by, past) (h.0, All-place_by x ys p h.1)
    | inr here ↦ rw (place_by, here) (p, h)
  ]

  pub All-sort_by : (xs : List A) → All P xs → All P (sort_by less xs)
  unfolding sort_by
  All-sort_by [] h = tt
  All-sort_by (x ∷ xs) h = All-place_by x (sort_by less xs) h.0 (All-sort_by xs h.1)

  -- The greatest is one of them.
  pub greatest_from-holds :
      (best : A) (xs : List A) → P best → All P xs → P (greatest_from less best xs)
  unfolding greatest_from
  greatest_from-holds best [] p h = p
  greatest_from-holds best (x ∷ xs) p h = elim (Bool-cases (less best x)) [
    | inl up ↦ rw (up) (greatest_from-holds x xs h.0 h.1)
    | inr down ↦ rw (down) (greatest_from-holds best xs p h.1)
  ]

greatest_from-next {ℓ} :
    {A : Type ℓ} (less : A → A → Bool) (best x : A) (xs : List A) {b : Bool}
    → less best x ≡ b
    → greatest_from less best (x ∷ xs) ≡ greatest_from less (if b then x else best) xs
unfolding greatest_from
greatest_from-next less best x xs h = rw h refl

greatest_from-nil {ℓ} :
    {A : Type ℓ} (less : A → A → Bool) (best : A) → greatest_from less best [] ≡ best
unfolding greatest_from
greatest_from-nil less best = refl

-- Neither the first nor any of the others has a greater key.
abbrev pub IsUpper {ℓ} : {A : Type ℓ} → (A → ℕ) → A → List A → A → Type 0
IsUpper key best xs g = (key best ≤ key g) × All (λ x. key x ≤ key g) xs

-- If the order is that of a key, nothing has a greater key than the greatest.
pub greatest_from-IsUpper {ℓ} :
    {A : Type ℓ} (less : A → A → Bool) (key : A → ℕ)
    → ((a b : A) → less a b ≡ true → key a ≤ key b)
    → ((a b : A) → less a b ≡ false → key b ≤ key a)
    → (best : A) (xs : List A) → IsUpper key best xs (greatest_from less best xs)
greatest_from-IsUpper less key up down best [] =
    (rw (greatest_from-nil less best) (omega arith), tt)
greatest_from-IsUpper less key up down best (x ∷ xs) = elim (Bool-cases (less best x)) [
  | inl higher ↦
      let (here, there) = greatest_from-IsUpper less key up down x xs in
      subst (IsUpper key best (x ∷ xs)) (sym (greatest_from-next less best x xs higher))
        (omega (arith, here, up best x higher), (here, there))
  | inr lower ↦
      let (here, there) = greatest_from-IsUpper less key up down best xs in
      subst (IsUpper key best (x ∷ xs)) (sym (greatest_from-next less best x xs lower))
        (here, (omega (arith, here, down best x lower), there))
]
