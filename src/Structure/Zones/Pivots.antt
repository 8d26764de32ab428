-- ===== src/Structure/Zones/Pivots.antt =====
-- app/structure/support_zones.py: the pivots that are found lie inside the candles, with their
-- windows.
use dumpectorist.Prelude.{
  Bool, true, false, ◌≡◌, ℕ, zero, suc, ◌+◌, ◌-◌, ◌≤◌, ◌<◌, List, [], ◌∷◌, length, take, drop,
  get_last?, ltb, All, All-append, refl, Bool-cases, Option-cases, inl, inr, arith, if◌then◌else◌,
}
use dumpectorist.Prelude.Number.{Num}
use dumpectorist.Prelude.Platform.{Platform}
use dumpectorist.Prelude.Result.{ok}
use dumpectorist.Candles.{OhlcvCandle}
use dumpectorist.Structure.Zones.{
  SupportZoneRules, PivotLow, item_at, set_last, support_zone_rules, lowest, is_pivot, add_pivot,
  pivot_step, pivots_from, find_pivots,
}

pub item_at-ok {ℓ} :
    {A : Type ℓ} (xs : List A) (n : ℕ) → n < length xs → (x : A) × (item_at xs n ≡ ok x)
item_at-ok [] n h = absurd (omega (arith, h))
item_at-ok (x ∷ xs) zero h = (x, refl)
item_at-ok (x ∷ xs) (suc n) h = item_at-ok xs n (omega (arith, h))

window_filled {ℓ} :
    {A : Type ℓ} (n m : ℕ) (xs : List A) → 0 < n → m < length xs → 0 < length (take n (drop m xs))
window_filled n m [] p h = absurd (omega (arith, h))
window_filled zero m (x ∷ xs) p h = absurd (omega (arith, p))
window_filled (suc n) zero (x ∷ xs) p h = omega arith
window_filled (suc n) (suc m) (x ∷ xs) p h = window_filled (suc n) m xs p (omega (arith, h))

All-set_last {ℓ κ} :
    {A : Type ℓ} (P : A → Type κ) (xs : List A) (x : A) → P x → All P xs → All P (set_last xs x)
All-set_last P [] x p h = tt
All-set_last P (y ∷ []) x p h = (p, tt)
All-set_last P (y ∷ z ∷ ys) x p h = (h.0, All-set_last P (z ∷ ys) x p h.1)

module _ {D : Type 0} (os : Platform D) (dec : Num D) where
  lowest-ok : (cs : List (OhlcvCandle D)) → 0 < length cs → (d : D) × (lowest os dec cs ≡ ok d)
  unfolding lowest
  lowest-ok [] h = absurd (omega (arith, h))
  lowest-ok (c ∷ cs) h = (_, refl)

  module _ (rules : SupportZoneRules D) (candles : List (OhlcvCandle D)) where
    -- The pivot is the candle at its index, which has both windows.
    abbrev pub IsInside : PivotLow D → Type 0
    IsInside p =
        (rules.pivot_left ≤ p.index)
        × (p.index + rules.pivot_right < length candles)
        × (item_at candles p.index ≡ ok p.candle)

    add_pivot-IsInside :
        (found : List (PivotLow D)) (p : PivotLow D)
        → IsInside p
        → All IsInside found
        → All IsInside (add_pivot os dec rules found p)
    unfolding add_pivot
    add_pivot-IsInside found p i h = elim (Option-cases (get_last? found)) [
      | inl e ↦ rw (add_pivot, e) (All-append IsInside found (p ∷ []) h (i, tt))
      | inr (q, e) ↦ elim (Bool-cases (ltb (p.index - q.index) rules.minimum_touch_separation)) [
        | inr far ↦ rw (add_pivot, e, far) (All-append IsInside found (p ∷ []) h (i, tt))
        | inl near ↦ elim (Bool-cases (dec.lt p.candle.low_price q.candle.low_price)) [
          | inl lower ↦ rw (add_pivot, e, near, lower) (All-set_last IsInside found p i h)
          | inr higher ↦ rw (add_pivot, e, near, higher) h
        ]
      ]
    ]

    kept :
        (b : Bool) (found : List (PivotLow D)) (p : PivotLow D)
        → IsInside p
        → All IsInside found
        → All IsInside (if b then add_pivot os dec rules found p else found)
    kept true found p i h = add_pivot-IsInside found p i h
    kept false found p i h = h

    pivot_step-IsInside :
        (index : ℕ) (found : List (PivotLow D))
        → 0 < rules.pivot_left
        → 0 < rules.pivot_right
        → rules.pivot_left ≤ index
        → index + rules.pivot_right < length candles
        → All IsInside found
        → (more : List (PivotLow D)) × (pivot_step os dec rules candles index found ≡ ok more)
          × All IsInside more
    unfolding pivot_step
    pivot_step-IsInside index found l r lo hi h =
        let (current, e₀) = item_at-ok candles index (omega (arith, hi)) in
        let (left, e₁) =
          lowest-ok (take rules.pivot_left (drop (index - rules.pivot_left) candles)) (
            window_filled rules.pivot_left (index - rules.pivot_left) candles l
              (omega (arith, hi))) in
        let (right, e₂) =
          lowest-ok (take rules.pivot_right (drop (index + 1) candles))
            (window_filled rules.pivot_right (index + 1) candles r (omega (arith, hi, r))) in
        (
          _,
          rw (e₀, e₁, e₂) refl,
          kept (is_pivot os dec rules current.low_price left right) found _ (lo, hi, e₀) h,
        )

    pivots_from-IsInside :
        (index count : ℕ) (found : List (PivotLow D))
        → 0 < rules.pivot_left
        → 0 < rules.pivot_right
        → rules.pivot_left ≤ index
        → index + count + rules.pivot_right ≤ length candles
        → All IsInside found
        → (more : List (PivotLow D)) × (pivots_from os dec rules candles index count found
            ≡ ok more)
          × All IsInside more
    unfolding pivots_from
    pivots_from-IsInside index zero found l r lo hi h = (found, refl, h)
    pivots_from-IsInside index (suc count) found l r lo hi h =
        let (more, made, inside) = pivot_step-IsInside index found l r lo (omega (arith, hi)) h in
        let (last, rest, all) =
          pivots_from-IsInside (index + 1) count more l r (omega (arith, lo)) (omega (arith, hi))
            inside in
        (last, rw (made) rest, all)

    windows_positive :
        support_zone_rules os dec rules ≡ ok rules
        → (0 < rules.pivot_left) × (0 < rules.pivot_right) × (2 ≤ rules.minimum_touches)
    unfolding support_zone_rules
    windows_positive h = ground arith

    -- With rules that the constructor accepts, the search for pivots always returns: no index leaves
    -- the candles and no window is empty. Each pivot is the candle at its index, with the whole of
    -- both windows among the candles.
    pub find_pivots-IsInside :
        support_zone_rules os dec rules ≡ ok rules
        → (pivots : List (PivotLow D)) × (find_pivots os dec rules candles ≡ ok pivots)
          × All IsInside pivots
    unfolding find_pivots
    find_pivots-IsInside valid =
        let (l, r, m) = windows_positive valid in
        elim (Bool-cases (ltb (length candles) (rules.pivot_left + rules.pivot_right + 1))) [
          | inl few ↦ ([], rw (find_pivots, few) refl, tt)
          | inr enough ↦
              let (pivots, made, inside) =
                pivots_from-IsInside rules.pivot_left
                  (length candles - rules.pivot_right - rules.pivot_left) [] l r (omega arith)
                  (ground (arith, enough)) tt in
              (pivots, rw (find_pivots, enough) made, inside)
        ]
