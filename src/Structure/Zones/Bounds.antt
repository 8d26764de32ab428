-- ===== src/Structure/Zones/Bounds.antt =====
-- app/structure/support_zones.py: how many zones are derived, and what each of them is.
use dumpectorist.Prelude.{
  Bool, false, ◌≡◌, ℕ, zero, suc, ◌+◌, ◌≤◌, String, List, [], ◌∷◌, Option, none, some, length, take,
  ltb, All, Bool-cases, inl, inr, arith, refl, ◌∙◌,
}
use dumpectorist.Prelude.Number.{Num}
use dumpectorist.Prelude.Platform.{Platform}
use dumpectorist.Prelude.Result.{ok, >>=-eq-ok, ok_injective}
use dumpectorist.Prelude.Sorting.{sort_by, All-sort_by, length-sort_by}
use dumpectorist.Candles.{OhlcvCandle}
use dumpectorist.Structure.Htf.{SupportZone, support_zone}
use dumpectorist.Structure.Zones.{
  SupportZoneRules, PivotLow, validate_candles, find_pivots, cluster_pivots, is_older, item_at,
  untrapped,
}
use dumpectorist.Structure.Zones.Derive.{
  latest_of, zone_low, zone_high, zone_of, zone_of_ordered, zone_from_cluster, zones_of,
  is_stronger, derive_support_zones, width_bps, padding, strength, count_rejections,
}

All-take {ℓ κ} : {A : Type ℓ} (P : A → Type κ) (n : ℕ) (xs : List A) → All P xs → All P (take n xs)
All-take P zero xs h = tt
All-take P (suc n) [] h = tt
All-take P (suc n) (x ∷ xs) h = (h.0, All-take P n xs h.1)

length-take {ℓ} : {A : Type ℓ} (n : ℕ) (xs : List A) → length (take n xs) ≤ n
length-take zero xs = omega arith
length-take (suc n) [] = omega arith
length-take (suc n) (x ∷ xs) = omega (arith, length-take n xs)

module _ {D : Type 0} (os : Platform D) (dec : Num D) where
  support_zone-keeps :
      (z : SupportZone D) {w : SupportZone D}
      → support_zone os dec z ≡ ok w
      → (w.touch_count ≡ z.touch_count)
        × (w.low ≡ z.low)
        × (w.high ≡ z.high)
        × (dec.le z.high z.low ≡ false)
        × (w.evidence_open_times ≡ z.evidence_open_times)
  unfolding support_zone
  support_zone-keeps z h = ground arith

  module _ (rules : SupportZoneRules D) (candles : List (OhlcvCandle D)) where
    -- The width in relation to the middle, in basis points.
    abbrev pub relative_width : D → D → D
    relative_width low high =
        dec.mul (dec.div (dec.sub high low) (dec.div (dec.add low high) (dec.lit 2 0)))
          (dec.lit 10000 0)

    untrapped-ok : (v : D) {w : D} → untrapped os dec v ≡ ok w → w ≡ v
    unfolding untrapped
    untrapped-ok v h = ground arith

    width_bps-relative_width :
        (low high : D) {w : D}
        → width_bps os dec rules low high ≡ ok w
        → w ≡ relative_width low high
    unfolding width_bps
    width_bps-relative_width low high h =
        let (total, t, h₁) = >>=-eq-ok (untrapped os dec (dec.add low high)) _ h in
        let (midpoint, m, h₂) = >>=-eq-ok (untrapped os dec (dec.div total (dec.lit 2 0))) _ h₁ in
        let (span, s, h₃) = >>=-eq-ok (untrapped os dec (dec.sub high low)) _ h₂ in
        let (share, r, h₄) = >>=-eq-ok (untrapped os dec (dec.div span midpoint)) _ h₃ in
        untrapped-ok _ h₄
        ∙ rw (untrapped-ok _ r, untrapped-ok _ s, untrapped-ok _ m, untrapped-ok _ t) refl

    -- The zone has the touches that the rules ask for, its high is above its low, and it is no
    -- wider than the rules allow.
    abbrev pub IsStrong : SupportZone D → Type 0
    IsStrong z =
        (rules.minimum_touches ≤ z.touch_count)
        × (dec.le z.high z.low ≡ false)
        × (dec.lt rules.maximum_zone_width_bps (relative_width z.low z.high) ≡ false)

    zone_of-IsStrong :
        (p : PivotLow D) (ps : List (PivotLow D)) (low high width : D) {z : SupportZone D}
        → rules.minimum_touches ≤ length (p ∷ ps)
        → dec.lt rules.maximum_zone_width_bps (relative_width low high) ≡ false
        → zone_of os dec rules p ps candles low high width ≡ ok z
        → IsStrong z
    unfolding zone_of
    zone_of-IsStrong p ps low high width touches narrow made =
        let (n, counted, made₁) = >>=-eq-ok (count_rejections os dec rules 0 (p ∷ ps)) _ made in
        let (s, scored, made₂) =
          >>=-eq-ok
            (strength os dec rules (length (p ∷ ps)) n (latest_of p ps).index (length candles)) _
            made₁ in
        let (c, found, made₃) =
          >>=-eq-ok (item_at candles ((latest_of p ps).index + rules.pivot_right)) _ made₂ in
        let (shown, rounded, made') = >>=-eq-ok (untrapped os dec (dec.quantize 2 width)) _ made₃ in
        let k = support_zone-keeps _ made' in
        (rw (k.0) touches, rw (k.1, k.2) k.3, rw (k.1, k.2) narrow)

    abbrev Strong : Option (SupportZone D) → Type 0
    Strong none = Unit
    Strong (some z) = IsStrong z

    zone_of_ordered-IsStrong :
        (ps : List (PivotLow D)) (o : Option (SupportZone D))
        → rules.minimum_touches ≤ length ps
        → zone_of_ordered os dec rules ps candles ≡ ok o
        → Strong o
    unfolding zone_of_ordered
    zone_of_ordered-IsStrong [] o touches made = cc
    zone_of_ordered-IsStrong (p ∷ ps) o touches made =
        let (pad, padded, made₁) = >>=-eq-ok (padding os dec rules) _ made in
        let (low, below, made₂) = >>=-eq-ok (zone_low os dec rules pad p ps) _ made₁ in
        let (high, above, made₃) = >>=-eq-ok (zone_high os dec rules pad p ps) _ made₂ in
        let (width, wide, made₄) = >>=-eq-ok (width_bps os dec rules low high) _ made₃ in
        elim (Bool-cases (dec.lt rules.maximum_zone_width_bps width)) [
          | inl over ↦ rw (← ok_injective (rw over at made₄)) tt
          | inr narrow ↦
              let (z, drawn, made') =
                >>=-eq-ok (zone_of os dec rules p ps candles low high width) _
                  (rw narrow at made₄) in
              rw (← ok_injective made') (
                zone_of-IsStrong p ps low high width touches
                  (rw (width_bps-relative_width low high wide) at narrow) drawn)
        ]

    zone_from_cluster-IsStrong :
        (ps : List (PivotLow D)) (o : Option (SupportZone D))
        → zone_from_cluster os dec rules ps candles ≡ ok o
        → Strong o
    unfolding zone_from_cluster
    zone_from_cluster-IsStrong ps o made =
        elim (Bool-cases (ltb (length ps) rules.minimum_touches)) [
          | inl few ↦ rw (← ok_injective (rw (zone_from_cluster, few) at made)) tt
          | inr enough ↦
              zone_of_ordered-IsStrong (sort_by (is_older os dec) ps) o
                (rw (length-sort_by (is_older os dec) ps) (ground (arith, enough)))
                (rw (zone_from_cluster, enough) at made)
        ]

    kept :
        (o : Option (SupportZone D)) (zs : List (SupportZone D))
        → Strong o
        → All IsStrong zs
        → All IsStrong (elim o [ none ↦ zs | some z ↦ z ∷ zs ])
    kept none zs s h = h
    kept (some z) zs s h = (s, h)

    zones_of-IsStrong :
        (clusters : List (List (PivotLow D))) (zs : List (SupportZone D))
        → zones_of os dec rules clusters candles ≡ ok zs
        → All IsStrong zs
    unfolding zones_of
    zones_of-IsStrong [] zs made = rw (← ok_injective made) tt
    zones_of-IsStrong (ps ∷ clusters) zs made =
        let (o, here, made₁) = >>=-eq-ok (zone_from_cluster os dec rules ps candles) _ made in
        let (rest, there, made₂) = >>=-eq-ok (zones_of os dec rules clusters candles) _ made₁ in
        rw (← ok_injective made₂) (
          kept o rest (zone_from_cluster-IsStrong ps o here)
            (zones_of-IsStrong clusters rest there))

    -- The zones that are derived are as many as the rules allow at most, and each has the touches
    -- that the rules ask for, a high above its low, and no more than the width that they allow.
    pub derive_support_zones-IsStrong :
        (text_lt : String → String → Bool) (zones : List (SupportZone D))
        → derive_support_zones os dec rules text_lt candles ≡ ok zones
        → (length zones ≤ rules.maximum_zones) × All IsStrong zones
    unfolding derive_support_zones
    derive_support_zones-IsStrong text_lt zones made =
        let (u, valid, made₁) = >>=-eq-ok (validate_candles os dec candles) _ made in
        let (pivots, found, made₂) = >>=-eq-ok (find_pivots os dec rules candles) _ made₁ in
        let (clusters, split, made₃) = >>=-eq-ok (cluster_pivots os dec rules pivots) _ made₂ in
        let (all, drawn, made₄) = >>=-eq-ok (zones_of os dec rules clusters candles) _ made₃ in
        let stronger = is_stronger os dec text_lt in
        rw (← ok_injective made₄) (
          length-take rules.maximum_zones (sort_by stronger all),
          All-take IsStrong rules.maximum_zones (sort_by stronger all)
              (All-sort_by stronger IsStrong all (zones_of-IsStrong clusters all drawn)),
        )
