-- ===== src/Structure/Zones/Errors.antt =====
-- app/structure/support_zones.py: how the derivation of zones can fail.
use dumpectorist.Prelude.{
  ℕ, length, ltb, true, false, sym, ◌∙◌, Bool-cases, if◌then◌else◌, Bool, ◌≡◌, ◌+◌, String, List,
  [], ◌∷◌, none, some, All, All-parts, inl, inr, arith,
}
use dumpectorist.Prelude.Number.{Num}
use dumpectorist.Prelude.Platform.{Platform}
use dumpectorist.Prelude.Result.{Error, ok, err, ◌>>=◌, ok_injective}
use dumpectorist.Prelude.Sorting.{sort_by, All-sort_by}
use dumpectorist.Candles.{OhlcvCandle}
use dumpectorist.Structure.Zones.{
  SupportZoneRules, PivotLow, support_zone_rules, validate_candles, cluster_pivots, is_older,
  is_lower, item_at, find_pivots,
}
use dumpectorist.Structure.Zones.Pivots.{IsInside, item_at-ok, find_pivots-IsInside}
use dumpectorist.Structure.Zones.Clusters.{members, cluster_sorted-Splits}
use dumpectorist.Structure.Zones.Derive.{
  latest_of, zone_low, zone_high, zone_of, zone_of_ordered, zone_from_cluster, zones_of,
  derive_support_zones, is_rejected, count_rejections, strength, width_bps, padding,
}
use dumpectorist.Structure.Zones.Refusals.{
  IsFailure, bind-IsFailure, settled_then, untrapped-IsFailure, support_zone-IsRefusal,
  validate_candles-IsRefusal,
}

module _ {D : Type 0} (os : Platform D) (dec : Num D) where
  module _ (rules : SupportZoneRules D) (candles : List (OhlcvCandle D)) where
    abbrev Inside : PivotLow D → Type 0
    Inside = IsInside os dec rules candles

    latest_of-Inside :
        (p : PivotLow D) (ps : List (PivotLow D))
        → Inside p
        → All Inside ps
        → Inside (latest_of p ps)
    latest_of-Inside p [] i h = i
    latest_of-Inside p (q ∷ qs) i h = latest_of-Inside q qs h.0 h.1

    is_rejected-IsFailure :
        (p : PivotLow D) (e : Error) → is_rejected os dec rules p ≡ err e → IsFailure e
    unfolding is_rejected
    is_rejected-IsFailure p e h =
        settled_then os dec _ _ e
          (λ gap.
            settled_then os dec _ _ e
              (λ share. settled_then os dec _ _ e (λ bps h'. absurd (cc h'))))
          h

    count_rejections-IsFailure :
        (n : ℕ) (ps : List (PivotLow D)) (e : Error)
        → count_rejections os dec rules n ps ≡ err e
        → IsFailure e
    unfolding count_rejections
    count_rejections-IsFailure n [] e h = absurd (cc h)
    count_rejections-IsFailure n (p ∷ ps) e h =
        bind-IsFailure (is_rejected os dec rules p) _ e (is_rejected-IsFailure p)
          (λ b _. count_rejections-IsFailure (if b then n + 1 else n) ps e) h

    strength-IsFailure :
        (t r i n : ℕ) (e : Error) → strength os dec rules t r i n ≡ err e → IsFailure e
    unfolding strength
    strength-IsFailure t r i n e h =
        settled_then os dec _ _ e
          (λ recency. settled_then os dec _ _ e (λ touched. settled_then os dec _ _ e (λ rejected.
            settled_then os dec _ _ e
              (λ recent. settled_then os dec _ _ e (λ total. untrapped-IsFailure os dec _ e)))))
          h

    zone_low-IsFailure :
        (pad : D) (p : PivotLow D) (ps : List (PivotLow D)) (e : Error)
        → zone_low os dec rules pad p ps ≡ err e
        → IsFailure e
    unfolding zone_low
    zone_low-IsFailure pad p ps e h =
        settled_then os dec _ _ e (λ factor. untrapped-IsFailure os dec _ e) h

    zone_high-IsFailure :
        (pad : D) (p : PivotLow D) (ps : List (PivotLow D)) (e : Error)
        → zone_high os dec rules pad p ps ≡ err e
        → IsFailure e
    unfolding zone_high
    zone_high-IsFailure pad p ps e h =
        settled_then os dec _ _ e (λ factor. untrapped-IsFailure os dec _ e) h

    width_bps-IsFailure :
        (low high : D) (e : Error) → width_bps os dec rules low high ≡ err e → IsFailure e
    unfolding width_bps
    width_bps-IsFailure low high e h =
        settled_then os dec _ _ e
          (λ total. settled_then os dec _ _ e (λ midpoint.
            settled_then os dec _ _ e
              (λ span. settled_then os dec _ _ e (λ share. untrapped-IsFailure os dec _ e))))
          h

    padding-IsFailure : (e : Error) → padding os dec rules ≡ err e → IsFailure e
    unfolding padding
    padding-IsFailure e h = untrapped-IsFailure os dec _ e h

    zone_of-IsFailure :
        (p : PivotLow D) (ps : List (PivotLow D)) (low high width : D) (e : Error)
        → Inside p
        → All Inside ps
        → zone_of os dec rules p ps candles low high width ≡ err e
        → IsFailure e
    unfolding zone_of
    zone_of-IsFailure p ps low high width e i h failed =
        let last = latest_of p ps in
        let (c, found) =
          item_at-ok candles (last.index + rules.pivot_right) ((latest_of-Inside p ps i h).1) in
        bind-IsFailure (count_rejections os dec rules 0 (p ∷ ps)) _ e
          (count_rejections-IsFailure 0 (p ∷ ps))
          (λ n _.
            bind-IsFailure (strength os dec rules (length (p ∷ ps)) n last.index (length candles)) _
              e (strength-IsFailure _ _ _ _)
              (λ score _.
                bind-IsFailure (item_at candles (last.index + rules.pivot_right)) _ e
                  (λ x lost. absurd (cc (found, lost)))
                  (λ confirming _.
                    settled_then os dec _ _ e
                      (λ shown f. inl (support_zone-IsRefusal os dec _ e f)))))
          failed

    -- The zone is drawn unless it is too wide.
    drawn-IsFailure :
        (p : PivotLow D) (ps : List (PivotLow D)) (low high width : D) (e : Error)
        → All Inside (p ∷ ps)
        → (wide : Bool)
        → (if wide
            then ok none
            else (zone_of os dec rules p ps candles low high width >>= (λ z. ok (some z))))
          ≡ err e
        → IsFailure e
    drawn-IsFailure p ps low high width e h true f = absurd (cc f)
    drawn-IsFailure p ps low high width e h false f =
        bind-IsFailure (zone_of os dec rules p ps candles low high width) _ e
          (λ x. zone_of-IsFailure p ps low high width x h.0 h.1) (λ z _ g. absurd (cc g)) f

    zone_of_ordered-IsFailure :
        (ps : List (PivotLow D)) (e : Error)
        → All Inside ps
        → zone_of_ordered os dec rules ps candles ≡ err e
        → IsFailure e
    unfolding zone_of_ordered
    zone_of_ordered-IsFailure [] e h failed = inl (ground arith)
    zone_of_ordered-IsFailure (p ∷ ps) e h failed =
        bind-IsFailure (padding os dec rules) _ e padding-IsFailure
          (λ pad _.
            bind-IsFailure (zone_low os dec rules pad p ps) _ e (zone_low-IsFailure pad p ps)
              (λ low _.
                bind-IsFailure (zone_high os dec rules pad p ps) _ e (zone_high-IsFailure pad p ps)
                  (λ high _.
                    bind-IsFailure (width_bps os dec rules low high) _ e
                      (width_bps-IsFailure low high)
                      (λ width _.
                        drawn-IsFailure p ps low high width e h
                          (dec.lt rules.maximum_zone_width_bps width)))))
          failed

    zone_from_cluster-IsFailure :
        (ps : List (PivotLow D)) (e : Error)
        → All Inside ps
        → zone_from_cluster os dec rules ps candles ≡ err e
        → IsFailure e
    unfolding zone_from_cluster
    zone_from_cluster-IsFailure ps e h failed =
        elim (Bool-cases (ltb (length ps) rules.minimum_touches)) [
          | inl few ↦ absurd (cc (rw (zone_from_cluster, few) at failed))
          | inr enough ↦
              zone_of_ordered-IsFailure (sort_by (is_older os dec) ps) e
                (All-sort_by (is_older os dec) Inside ps h)
                (rw (zone_from_cluster, enough) at failed)
        ]

    zones_of-IsFailure :
        (clusters : List (List (PivotLow D))) (e : Error)
        → All Inside (members clusters)
        → zones_of os dec rules clusters candles ≡ err e
        → IsFailure e
    unfolding zones_of
    zones_of-IsFailure [] e h failed = absurd (cc failed)
    zones_of-IsFailure (ps ∷ clusters) e h failed =
        let (here, there) = All-parts Inside ps (members clusters) h in
        bind-IsFailure (zone_from_cluster os dec rules ps candles) _ e
          (λ x. zone_from_cluster-IsFailure ps x here)
          (λ zone _.
            bind-IsFailure (zones_of os dec rules clusters candles) _ e
              (λ x. zones_of-IsFailure clusters x there) (λ zones _ f. absurd (cc f)))
          failed

    any_prices : (ps : List (PivotLow D)) → All (λ p. Unit {0}) ps
    any_prices [] = tt
    any_prices (p ∷ ps) = (tt, any_prices ps)

    -- The clusters of pivots that are inside, or the failure of the arithmetic.
    cluster_pivots-Inside :
        (pivots : List (PivotLow D))
        → All Inside pivots
        → ((e : Error) → cluster_pivots os dec rules pivots ≡ err e → IsFailure e)
          × ((clusters : List (List (PivotLow D)))
              → cluster_pivots os dec rules pivots ≡ ok clusters
              → All Inside (members clusters))
    unfolding cluster_pivots
    cluster_pivots-Inside pivots inside =
        let sorted = sort_by (is_lower os dec) pivots in
        elim (cluster_sorted-Splits os dec (λ d. Unit {0}) rules sorted (any_prices sorted)) [
          | inr t ↦ (λ e h. inr (cc (t.0, h)), λ clusters h. absurd (cc (t.0, h)))
          | inl (clusters, made, (same, filled)) ↦ (
            λ e h. absurd (cc (made, h)),
            λ others h.
                rw (← ok_injective (sym made ∙ h), same)
                  (All-sort_by (is_lower os dec) Inside pivots inside),
          )
        ]

    -- With rules that the constructor accepts, the derivation of zones raises nothing but ValueError
    -- or the error of a decimal operation that is trapped: the candle that confirms a zone is never
    -- looked up past the last candle.
    pub derive_support_zones-IsFailure :
        (text_lt : String → String → Bool) (e : Error)
        → support_zone_rules os dec rules ≡ ok rules
        → derive_support_zones os dec rules text_lt candles ≡ err e
        → IsFailure e
    unfolding derive_support_zones
    derive_support_zones-IsFailure text_lt e valid failed =
        let (pivots, found, inside) = find_pivots-IsInside os dec rules candles valid in
        let clustered = cluster_pivots-Inside pivots inside in
        bind-IsFailure (validate_candles os dec candles) _ e
          (λ x h. inl (validate_candles-IsRefusal os dec candles x h))
          (λ u _.
            bind-IsFailure (find_pivots os dec rules candles) _ e
              (λ x lost. absurd (cc (found, lost)))
              (λ others h.
                bind-IsFailure (cluster_pivots os dec rules others) _ e
                  (rw (ok_injective (sym found ∙ h)) at clustered.0)
                  (λ clusters made.
                    bind-IsFailure (zones_of os dec rules clusters candles) _ e
                      (λ x.
                        zones_of-IsFailure clusters x
                          (clustered.1 clusters (rw (ok_injective (sym h ∙ found)) at made)))
                      (λ zones _ f. absurd (cc f)))))
          failed
