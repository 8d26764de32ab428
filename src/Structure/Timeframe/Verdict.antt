-- ===== src/Structure/Timeframe/Verdict.antt =====
-- app/structure/htf_engine.py: what the evidence of an analysis says about its primary zone, and what
-- the analysis holds.
use dumpectorist.Prelude.{
  Bool, not, ◌≡◌, String, List, [], ◌∷◌, Option, none, some, All, refl, sym, ap, ◌∙◌, arith,
}
use dumpectorist.Prelude.Number.{Num}
use dumpectorist.Prelude.Platform.{Platform}
use dumpectorist.Prelude.Result.{ok, raise_if, value_error, >>=-eq-ok, ok_injective}
use dumpectorist.Prelude.Sorting.{greatest_from, greatest_from-holds}
use dumpectorist.Candles.{CandleBatch, OhlcvCandle}
use dumpectorist.Structure.Htf.{
  SupportZone, StructureEvent, HtfStructureAnalysis, TimeframeStructureEvidence, is_damaged,
  is_higher, htf_structure_analysis,
}
use dumpectorist.Structure.Events.{StructureEventRules, build_structure_events, relevant_to}
use dumpectorist.Structure.Events.Damage.{is_broken_for_good, evidence_from_events-is_damaged}
use dumpectorist.Structure.Zones.{SupportZoneRules}
use dumpectorist.Structure.Zones.Derive.{derive_support_zones}
use dumpectorist.Structure.Timeframe.{
  Traced, Bearing, add_bearing, bearing_of, is_less_recent, traced_again, primary_among, primary_of,
  trace_zones, evidence_for, zone_in, analyze_higher_timeframe,
}

some_injective : {A : Type 0} {a b : A} → some a ≡ some b → a ≡ b
some_injective h = cc

module _ {D : Type 0} (os : Platform D) (dec : Num D) (text_lt : String → String → Bool)
    (same_zone : SupportZone D → SupportZone D → Bool) (zone_rules : SupportZoneRules D)
    (event_rules : StructureEventRules D) where
  -- The events are those that the candles make at the zone.
  abbrev pub IsTraced : List (OhlcvCandle D) → Traced D → Type 0
  IsTraced candles t = build_structure_events os dec event_rules t.zone candles ≡ ok t.events

  abbrev Borne : List (OhlcvCandle D) → Bearing D → Type 0
  Borne candles b = IsTraced candles (traced_again os dec text_lt same_zone b)

  trace_zones-IsTraced :
      (zs : List (SupportZone D)) (candles : List (OhlcvCandle D)) {ts : List (Traced D)}
      → trace_zones os dec text_lt same_zone zone_rules event_rules zs candles ≡ ok ts
      → All (IsTraced candles) ts
  unfolding trace_zones
  trace_zones-IsTraced [] candles h = rw (← ok_injective h) tt
  trace_zones-IsTraced (z ∷ zs) candles h =
      let (es, built, h₁) = >>=-eq-ok (build_structure_events os dec event_rules z candles) _ h in
      let (rest, traced, h₂) =
        >>=-eq-ok (trace_zones os dec text_lt same_zone zone_rules event_rules zs candles) _ h₁ in
      rw (← ok_injective h₂) (built, trace_zones-IsTraced zs candles traced)

  add_bearing-Borne :
      (candles : List (OhlcvCandle D)) (z : SupportZone D) (es : List (StructureEvent D))
      (bs : List (Bearing D))
      → IsTraced candles (record { zone = z; events = es })
      → All (Borne candles) bs
      → All (Borne candles) (add_bearing z es bs)
  add_bearing-Borne candles z [] bs t h = h
  add_bearing-Borne candles z (e ∷ es) bs t h = (t, h)

  bearing_of-Borne :
      (candles : List (OhlcvCandle D)) (ts : List (Traced D))
      → All (IsTraced candles) ts
      → All (Borne candles) (bearing_of ts)
  unfolding bearing_of
  bearing_of-Borne candles [] h = tt
  bearing_of-Borne candles (t ∷ ts) h =
      add_bearing-Borne candles t.zone t.events (bearing_of ts) h.0
        (bearing_of-Borne candles ts h.1)

  most_recent :
      (candles : List (OhlcvCandle D)) (b : Bearing D) (bs : List (Bearing D)) {t : Traced D}
      → Borne candles b
      → All (Borne candles) bs
      → some (
          traced_again os dec text_lt same_zone
            (greatest_from (is_less_recent os dec text_lt same_zone) b bs))
        ≡ some t
      → IsTraced candles t
  most_recent candles b bs i h e =
      rw (← some_injective e)
        (greatest_from-holds (is_less_recent os dec text_lt same_zone) (Borne candles) b bs i h)

  primary_among-IsTraced :
      (candles : List (OhlcvCandle D)) (z : SupportZone D) (es : List (StructureEvent D))
      (ts : List (Traced D)) (bs : List (Bearing D)) {t : Traced D}
      → IsTraced candles (record { zone = z; events = es })
      → All (Borne candles) bs
      → primary_among os dec text_lt same_zone
          (add_bearing z es bs)
          (record { zone = z; events = es } ∷ ts)
        ≡ some t
      → IsTraced candles t
  primary_among-IsTraced candles z [] ts [] i h e = rw (← some_injective e) i
  primary_among-IsTraced candles z [] ts (b ∷ bs) i h e = most_recent candles b bs h.0 h.1 e
  primary_among-IsTraced candles z (f ∷ fs) ts bs i h e =
      most_recent candles (record { bearing_zone = z; first_event = f; later_events = fs }) bs i h e

  primary_of-IsTraced :
      (candles : List (OhlcvCandle D)) (ts : List (Traced D)) {t : Traced D}
      → All (IsTraced candles) ts
      → primary_of os dec text_lt same_zone ts ≡ some t
      → IsTraced candles t
  unfolding primary_of bearing_of
  primary_of-IsTraced candles [] h e = cc
  primary_of-IsTraced candles (t ∷ ts) h e =
      primary_among-IsTraced candles t.zone t.events ts (bearing_of ts) h.0
        (bearing_of-Borne candles ts h.1) e

  htf_structure_analysis-keeps :
      (a : HtfStructureAnalysis D) {b : HtfStructureAnalysis D}
      → htf_structure_analysis os dec same_zone a ≡ ok b
      → (b.evidence ≡ a.evidence)
        × (b.primary_zone ≡ a.primary_zone)
        × (b.zones ≡ a.zones)
        × (b.events ≡ a.events)
  unfolding htf_structure_analysis
  htf_structure_analysis-keeps a h = ground arith

  evidence_for-is_damaged :
      (b : CandleBatch D) (p : Option (Traced D)) (z : SupportZone D)
      (ev : TimeframeStructureEvidence)
      → ((t : Traced D) → p ≡ some t → IsTraced b.candles t)
      → zone_in os dec text_lt same_zone zone_rules event_rules p ≡ some z
      → evidence_for os dec text_lt same_zone zone_rules event_rules b p ≡ ok ev
      → is_damaged ev.status
        ≡ is_broken_for_good os dec event_rules z 0 (relevant_to os dec event_rules z b.candles)
  evidence_for-is_damaged b none z ev h e made = cc
  evidence_for-is_damaged b (some t) z ev h e made = rw (← some_injective e) (
      evidence_from_events-is_damaged os dec event_rules t.zone b.candles t.events b.source b.symbol
        b.interval b.fetched_at ev (h t refl) made)

  -- Take, among the candles since the confirmation of the primary zone, the first that closes below
  -- the zone with enough distance and body. An analysis of a timeframe that has a primary zone calls
  -- it damaged exactly when there is such a candle, no candle after it closes above the zone, and
  -- every candle before it closes below the zone or is within the zone's age.
  pub analyze_higher_timeframe-is_damaged :
      (b : CandleBatch D) (a : HtfStructureAnalysis D) (z : SupportZone D)
      → analyze_higher_timeframe os dec text_lt same_zone zone_rules event_rules b ≡ ok a
      → a.primary_zone ≡ some z
      → is_damaged a.evidence.status
        ≡ is_broken_for_good os dec event_rules z 0 (relevant_to os dec event_rules z b.candles)
  unfolding analyze_higher_timeframe
  analyze_higher_timeframe-is_damaged b a z h e =
      let (u, allowed, h₁) =
        >>=-eq-ok
          (raise_if (not (is_higher b.interval))
            (value_error "higher-timeframe analysis requires Daily or 4H candles"))
          _ h in
      let (zs, derived, h₂) =
        >>=-eq-ok (derive_support_zones os dec zone_rules text_lt b.candles) _ h₁ in
      let (ts, traced, h₃) =
        >>=-eq-ok (trace_zones os dec text_lt same_zone zone_rules event_rules zs b.candles) _ h₂ in
      let p = primary_of os dec text_lt same_zone ts in
      let (ev, made, h₄) =
        >>=-eq-ok (evidence_for os dec text_lt same_zone zone_rules event_rules b p) _ h₃ in
      let k = htf_structure_analysis-keeps _ h₄ in
      ap (λ w. is_damaged w.status) (k.0)
      ∙ evidence_for-is_damaged b p z ev
          (λ t. primary_of-IsTraced b.candles ts (trace_zones-IsTraced zs b.candles traced))
          (sym (k.1) ∙ e) made
