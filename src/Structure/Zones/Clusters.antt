-- ===== src/Structure/Zones/Clusters.antt =====
-- app/structure/support_zones.py: the clusters hold the pivots, each once.
use dumpectorist.Prelude.{
  ◌≡◌, ◌⊎◌, true, false, ℕ, ◌-◌, ◌/◌, ◌%◌, ◌==◌, ◌<◌, List, [], ◌∷◌, ◌++◌, length, length-append,
  append_assoc, length-map, map, All, All-append, suc, zero, Bool, if◌then◌else◌, refl, ap,
  Bool-cases, inl, inr, arith,
}
use mathlib.Core.List.{Perm}
use dumpectorist.Prelude.Number.{Num}
use dumpectorist.Prelude.Platform.{Platform}
use dumpectorist.Prelude.Result.{Result, ok, err, ◌>>=◌}
use dumpectorist.Prelude.Scans.{Member}
use dumpectorist.Prelude.Sorting.{sort_by, sort_by-perm, length-sort_by, All-sort_by}
use dumpectorist.Structure.Zones.{
  SupportZoneRules, PivotLow, middle_of, median_price, is_near, is_lower, clusters_from,
  cluster_sorted, cluster_pivots, untrapped, decimal_trap, item_at,
}

-- The members of the clusters, one cluster after the other.
abbrev pub members {ℓ} : {A : Type ℓ} → List (List A) → List A
members [] = []
members (xs ∷ xss) = xs ++ members xss

-- The median of given prices: one of them, or the half of the sum of two.
pub data IsReference {D : Type 0} (dec : Num D) (Given : D → Type 0) : D → Type 0 where
  single : {a : D} → Given a → IsReference dec Given a
  middle :
      {a b : D} → Given a → Given b → IsReference dec Given (dec.div (dec.add a b) (dec.lit 2 0))

-- What the clustering computes: the steps to a median, and those from a price to its distance.
pub data IsComputed {D : Type 0} (dec : Num D) (Given : D → Type 0) : D → Type 0 where
  total : {a b : D} → Given a → Given b → IsComputed dec Given (dec.add a b)
  half : {a b : D} → Given a → Given b → IsComputed dec Given (dec.div (dec.add a b) (dec.lit 2 0))
  gap : {p r : D} → Given p → IsReference dec Given r → IsComputed dec Given (dec.sub p r)
  share :
      {p r : D}
      → Given p
      → IsReference dec Given r
      → IsComputed dec Given (dec.div (dec.abs (dec.sub p r)) r)
  scaled :
      {p r : D}
      → Given p
      → IsReference dec Given r
      → IsComputed dec Given (dec.mul (dec.div (dec.abs (dec.sub p r)) r) (dec.lit 10000 0))

-- Raised by the arithmetic, since a value that it computes from the given ones is not finite.
abbrev pub IsTrapped : {A D : Type 0} → Num D → (D → Type 0) → Result A → Type 0
IsTrapped {D = D} dec Given r =
    (r ≡ err decimal_trap) × ((v : D) × IsComputed dec Given v × (dec.is_finite v ≡ false))

module _ {D : Type 0} (os : Platform D) (dec : Num D) (Given : D → Type 0) where
  -- The result has the property, or the arithmetic has raised.
  abbrev Answers : {A : Type 0} → (A → Type 0) → Result A → Type 0
  Answers {A} P r = ((a : A) × (r ≡ ok a) × P a) ⊎ IsTrapped dec Given r

  IsTrapped->>= :
      {A B : Type 0} (m : Result A) (f : A → Result B)
      → IsTrapped dec Given m
      → IsTrapped dec Given (m >>= f)
  IsTrapped->>= (ok a) f h = absurd (cc (h.0))
  IsTrapped->>= (err e) f h = let same : e ≡ decimal_trap = cc (h.0) in (ap err same, h.1)

  Answers->>= :
      {A B : Type 0} {P : A → Type 0} {Q : B → Type 0} (m : Result A) (f : A → Result B)
      → Answers P m
      → ((a : A) → P a → Answers Q (f a))
      → Answers Q (m >>= f)
  Answers->>= m f (inl (a, h, p)) k = rw h (k a p)
  Answers->>= m f (inr t) k = inr (IsTrapped->>= m f t)

  weaken :
      {A : Type 0} {P Q : A → Type 0} (m : Result A)
      → ((a : A) → P a → Q a)
      → Answers P m
      → Answers Q m
  weaken m k (inl (a, h, p)) = inl (a, h, k a p)
  weaken m k (inr t) = inr t

  Answers-untrapped : (v : D) → IsComputed dec Given v → Answers (λ w. w ≡ v) (untrapped os dec v)
  unfolding untrapped
  Answers-untrapped v c = elim (Bool-cases (dec.is_finite v)) [
    | inl finite ↦ inl (v, rw (untrapped, finite) refl, refl)
    | inr infinite ↦ inr (rw (untrapped, infinite) refl, (v, c, infinite))
  ]

  Answers-item_at :
      (xs : List D) (n : ℕ) → n < length xs → All Given xs → Answers Given (item_at xs n)
  Answers-item_at [] n h c = absurd (omega (arith, h))
  Answers-item_at (x ∷ xs) zero h c = inl (x, refl, c.0)
  Answers-item_at (x ∷ xs) (suc n) h c = Answers-item_at xs n (omega (arith, h)) c.1

  -- The half of a sum.
  mean-Answers :
      (a b : D)
      → Given a
      → Given b
      → Answers
          (IsReference dec Given)
          (untrapped os dec (dec.add a b) >>= (λ t. untrapped os dec (dec.div t (dec.lit 2 0))))
  mean-Answers a b p q = Answers->>= _ _ (Answers-untrapped _ (IsComputed.total p q)) (λ t e. rw e (
      weaken _ (λ v h. rw h (IsReference.middle p q))
        (Answers-untrapped (dec.div (dec.add a b) (dec.lit 2 0)) (IsComputed.half p q))))

  middle_of-Answers :
      (prices : List D)
      → 0 < length prices
      → All Given prices
      → Answers (IsReference dec Given) (middle_of os dec prices)
  unfolding middle_of
  middle_of-Answers prices h c =
      let upper = Answers-item_at prices (length prices / 2) (omega (arith, h)) c in
      elim (Bool-cases (length prices % 2 == 0)) [
        | inr odd ↦ rw (middle_of, odd) (weaken _ (λ v g. IsReference.single g) upper)
        | inl even ↦
            rw (middle_of, even)
              (Answers->>= _ _ (Answers-item_at prices (length prices / 2 - 1) (omega (arith, h)) c)
                (λ a p. Answers->>= _ _ upper (λ b q. mean-Answers a b p q)))
      ]

  abbrev IsPriced : PivotLow D → Type 0
  IsPriced p = Given p.candle.low_price

  prices-Given :
      (ps : List (PivotLow D)) → All IsPriced ps → All Given (map (λ p. p.candle.low_price) ps)
  prices-Given [] h = tt
  prices-Given (p ∷ ps) h = (h.0, prices-Given ps h.1)

  median_price-Answers :
      (cluster : List (PivotLow D))
      → 0 < length cluster
      → All IsPriced cluster
      → Answers (IsReference dec Given) (median_price os dec cluster)
  unfolding median_price
  median_price-Answers cluster h c =
      let prices = map (λ p. p.candle.low_price) cluster in
      middle_of-Answers (sort_by dec.lt prices)
        (rw (length-sort_by dec.lt prices, length-map cluster (λ p. p.candle.low_price)) h)
        (All-sort_by dec.lt Given prices (prices-Given cluster c))

  module _ (rules : SupportZoneRules D) where
    is_near-Answers :
        (reference : D) (p : PivotLow D)
        → IsReference dec Given reference
        → IsPriced p
        → Answers (λ b. Unit {0}) (is_near os dec rules reference p)
    unfolding is_near
    is_near-Answers reference p r q =
        Answers->>= _ _ (Answers-untrapped _ (IsComputed.gap q r)) (λ gap g. rw g (
          Answers->>= _ _ (Answers-untrapped _ (IsComputed.share q r)) (λ share s. rw s (
            Answers->>= _ _ (Answers-untrapped _ (IsComputed.scaled q r))
              (λ d c. inl (_, refl, tt))))))

    abbrev pub HasPivots : List (PivotLow D) → Type 0
    HasPivots cluster = 0 < length cluster

    abbrev pub Splits : List (PivotLow D) → Result (List (List (PivotLow D))) → Type 0
    Splits pivots r = Answers (λ clusters. (members clusters ≡ pivots) × All HasPivots clusters) r

    -- What becomes of the next pivot, near or far.
    next_cluster :
        (current : List (PivotLow D)) (p : PivotLow D) (ps : List (PivotLow D)) (near : Bool)
        {joined parted : Result (List (List (PivotLow D)))}
        → HasPivots current
        → Splits (current ++ p ∷ ps) joined
        → Splits (p ∷ ps) parted
        → Splits
            (current ++ p ∷ ps)
            (if near then joined else (parted >>= (λ rest. ok (current ∷ rest))))
    next_cluster current p ps true h j q = j
    next_cluster current p ps false h j q =
        Answers->>= _ _ q
          (λ rest r. inl (current ∷ rest, refl, (ap (λ qs. current ++ qs) r.0, (h, r.1))))

    clusters_from-Splits :
        (current ps : List (PivotLow D))
        → HasPivots current
        → All IsPriced current
        → All IsPriced ps
        → Splits (current ++ ps) (clusters_from os dec rules current ps)
    unfolding clusters_from
    clusters_from-Splits current [] h c d = inl (current ∷ [], refl, (refl, (h, tt)))
    clusters_from-Splits current (p ∷ ps) h c d =
        Answers->>= _ _ (median_price-Answers current h c) (λ reference r.
          Answers->>= _ _ (is_near-Answers reference p r d.0) (λ near _.
            next_cluster current p ps near h
              (rw (← append_assoc current (p ∷ []) ps) (
                clusters_from-Splits (current ++ p ∷ []) ps
                  (omega (arith, length-append current (p ∷ []), h))
                  (All-append IsPriced current (p ∷ []) c (d.0, tt)) d.1))
              (clusters_from-Splits (p ∷ []) ps (omega arith) (d.0, tt) d.1)))

    pub cluster_sorted-Splits :
        (ps : List (PivotLow D)) → All IsPriced ps → Splits ps (cluster_sorted os dec rules ps)
    unfolding cluster_sorted
    cluster_sorted-Splits [] c = inl ([], refl, (refl, tt))
    cluster_sorted-Splits (p ∷ ps) c = clusters_from-Splits (p ∷ []) ps (omega arith) (c.0, tt) c.1

-- The price of one of the pivots.
abbrev pub IsPriceOf : {D : Type 0} → List (PivotLow D) → D → Type 0
IsPriceOf pivots d = (p : PivotLow _) × Member p pivots × (d ≡ p.candle.low_price)

module _ {D : Type 0} (os : Platform D) (dec : Num D) (rules : SupportZoneRules D) where
  own_prices :
      (all ps : List (PivotLow D))
      → ((p : PivotLow D) → Member p ps → Member p all)
      → All (λ p. IsPriceOf all p.candle.low_price) ps
  own_prices all [] k = tt
  own_prices all (p ∷ ps) k =
      ((p, k p (Member.head refl), refl), own_prices all ps (λ q m. k q (Member.tail m)))

  -- The clustering returns, or its arithmetic raises, since a value that it computes is not finite:
  -- the sum of two prices of pivots, its half, or the distance of a price from a median, its share of
  -- the median or that in basis points. No median is taken of nothing. If the clustering returns,
  -- every pivot is in exactly one cluster, as often as it is among the pivots, and no cluster is
  -- empty.
  pub cluster_pivots-perm :
      (pivots : List (PivotLow D))
      → ((clusters : List (List (PivotLow D))) × (cluster_pivots os dec rules pivots ≡ ok clusters)
          × Perm (members clusters) pivots
          × All (λ cluster. 0 < length cluster) clusters)
        ⊎ IsTrapped dec (IsPriceOf pivots) (cluster_pivots os dec rules pivots)
  unfolding cluster_pivots
  cluster_pivots-perm pivots =
      let own = All-sort_by (is_lower os dec) _ pivots (own_prices pivots pivots (λ p m. m)) in
      elim (cluster_sorted-Splits os dec (IsPriceOf pivots) rules (sort_by (is_lower os dec) pivots)
        own) [
          | inr t ↦ inr t
          | inl (clusters, made, (all, filled)) ↦
              inl (clusters, made, rw (all) (sort_by-perm (is_lower os dec) pivots), filled)
        ]
