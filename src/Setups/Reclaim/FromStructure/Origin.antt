-- ===== src/Setups/Reclaim/FromStructure/Origin.antt =====
-- app/setups/runtime_analysis.py: which break and which zone a derived attempt is about.
use dumpectorist.Prelude.{
  ◌⊎◌, ◌≤◌, arith, Bool, true, false, not, ◌&&◌, ◌≡◌, String, List, [], ◌∷◌, none, some, str_eq,
  All, refl, ap, ◌∙◌, Bool-cases, Option-cases, inl, inr,
}
use dumpectorist.Prelude.Number.{Num}
use dumpectorist.Prelude.Platform.{Platform}
use dumpectorist.Prelude.Result.{Error, ok, err, value_error, raise_if, >>=-eq-ok, ok_injective}
use dumpectorist.Prelude.Scans.{Member, first_where-some}
use dumpectorist.Prelude.Sorting.{greatest_from, greatest_from-holds, greatest_from-IsUpper}
use dumpectorist.Prelude.Time.{micros}
use dumpectorist.Candles.{earlier, CandleBatch, OhlcvCandle, same_candle_source, same_interval}
use dumpectorist.Structure.Htf.{SupportZone, StructureEvent, HtfStructureAnalysis}
use dumpectorist.Structure.Timeframe.{is_earlier_event}
use dumpectorist.Setups.Reclaim.{
  ReclaimRules, ReclaimAttempt, reclaim_rules, is_successful, is_qualified,
}
use dumpectorist.Setups.Reclaim.Engine.{same_time, is_confirmed_break}
use dumpectorist.Setups.Reclaim.Engine.Analysis.{analyze_reclaim_attempt, relevant_after}
use dumpectorist.Setups.Reclaim.Engine.Identity.{IsFrom, analyze_reclaim_attempt-IsFrom}
use dumpectorist.Setups.Reclaim.Engine.Trigger.{IsTriggered}
use dumpectorist.Setups.Reclaim.Engine.Verdict.{
  is_reclaimed, analyze_reclaim_attempt-is_reclaimed, analyze_reclaim_attempt-IsTriggered,
}
use dumpectorist.Setups.Reclaim.FromStructure.{
  is_four_hours, confirmed_breaks, zone_of_event, candle_of_event, attempt_of, attempt_of_latest,
  derive_reclaim_from_structure,
}

module _ {D : Type 0} (os : Platform D) (dec : Num D) (text_lt : String → String → Bool)
    (same_zone : SupportZone D → SupportZone D → Bool) (rules : ReclaimRules D) where
  -- No other confirmed break of the analysis was observed later.
  abbrev pub IsLatest : HtfStructureAnalysis D → StructureEvent D → Type 0
  IsLatest a e =
      All
        (λ f. (is_confirmed_break f.state ≡ false) ⊎ (earlier e.observed_at f.observed_at ≡ false))
        a.events

  -- The attempt names the latest confirmed break of the analysis and its zone, and has that zone's
  -- bounds; the candle at which the break happened is in the batch. It is called successful when the
  -- candles after the break reclaim that zone, and it is not qualified, or one of those candles
  -- triggers it.
  abbrev pub IsAbout : CandleBatch D → HtfStructureAnalysis D → ReclaimAttempt D → Type 0
  IsAbout b a t =
      (e : StructureEvent D) × (z : SupportZone D) × (c : OhlcvCandle D) × Member e a.events
      × (is_confirmed_break e.state ≡ true)
      × IsLatest a e
      × Member z a.zones
      × (str_eq z.zone_id e.zone_id ≡ true)
      × Member c b.candles
      × (same_time c.open_time e.candle_open_time ≡ true)
      × IsFrom os dec rules z e c t
      × (is_successful t.outcome
          ≡ is_reclaimed os dec rules z e c (relevant_after os dec rules z e c b.candles))
      × ((is_qualified t.readiness ≡ false)
          ⊎ IsTriggered os dec rules z e c (relevant_after os dec rules z e c b.candles) t)

  abbrev IsBreakOf : HtfStructureAnalysis D → StructureEvent D → Type 0
  IsBreakOf a e = Member e a.events × (is_confirmed_break e.state ≡ true)

  -- The order of the events is that of their times first.
  earlier-before :
      (e f : StructureEvent D)
      → is_earlier_event os dec text_lt same_zone e f ≡ true
      → micros e.observed_at ≤ micros f.observed_at
  unfolding is_earlier_event
  earlier-before e f h = ground arith

  later-after :
      (e f : StructureEvent D)
      → is_earlier_event os dec text_lt same_zone e f ≡ false
      → micros f.observed_at ≤ micros e.observed_at
  unfolding is_earlier_event
  later-after e f h = ground arith

  not_earlier :
      (e f : StructureEvent D)
      → micros f.observed_at ≤ micros e.observed_at
      → earlier e.observed_at f.observed_at ≡ false
  not_earlier e f h = ground arith

  -- What bounds the confirmed breaks bounds the events.
  IsLatest-of_bounds :
      (g : StructureEvent D) (es : List (StructureEvent D))
      → All (λ f. micros f.observed_at ≤ micros g.observed_at) (confirmed_breaks es)
      → All
          (λ f.
            (is_confirmed_break f.state ≡ false) ⊎ (earlier g.observed_at f.observed_at ≡ false))
          es
  unfolding confirmed_breaks
  IsLatest-of_bounds g [] h = tt
  IsLatest-of_bounds g (f ∷ es) h = elim (Bool-cases (is_confirmed_break f.state)) [
    | inr other ↦ (inl other, IsLatest-of_bounds g es (rw (confirmed_breaks, other) at h))
    | inl broken ↦
        let (here, there) = rw (confirmed_breaks, broken) at h in
        (inr (not_earlier g f here), IsLatest-of_bounds g es there)
  ]

  confirmed_breaks-IsBreakOf :
      (a : HtfStructureAnalysis D) (es : List (StructureEvent D))
      → ((e : StructureEvent D) → Member e es → Member e a.events)
      → All (IsBreakOf a) (confirmed_breaks es)
  unfolding confirmed_breaks
  confirmed_breaks-IsBreakOf a [] h = tt
  confirmed_breaks-IsBreakOf a (e ∷ es) h =
      let rest = confirmed_breaks-IsBreakOf a es (λ f m. h f (Member.tail m)) in
      elim (Bool-cases (is_confirmed_break e.state)) [
        | inl broken ↦ rw (confirmed_breaks, broken) ((h e (Member.head refl), broken), rest)
        | inr other ↦ rw (confirmed_breaks, other) rest
      ]

  triggered_if : {P : Type 0} (q : Bool) → (q ≡ true → P) → (q ≡ false) ⊎ P
  triggered_if true f = inr (f refl)
  triggered_if false f = inl refl

  no_attempt :
      (b : CandleBatch D) (a : HtfStructureAnalysis D) (t : ReclaimAttempt D) {e : Error}
      → err e ≡ ok (some t)
      → IsAbout b a t
  no_attempt b a t h = cc

  none_attempt :
      (b : CandleBatch D) (a : HtfStructureAnalysis D) (t : ReclaimAttempt D)
      → ok none ≡ ok (some t)
      → IsAbout b a t
  none_attempt b a t h = cc

  some_injective : {s t : ReclaimAttempt D} → some s ≡ some t → s ≡ t
  some_injective h = cc

  attempt_of-IsAbout :
      (b : CandleBatch D) (a : HtfStructureAnalysis D) (e : StructureEvent D) (t : ReclaimAttempt D)
      → reclaim_rules os dec rules ≡ ok rules
      → IsBreakOf a e
      → IsLatest a e
      → attempt_of os dec text_lt same_zone rules b a e ≡ ok (some t)
      → IsAbout b a t
  unfolding attempt_of
  attempt_of-IsAbout b a e t valid k l h =
      elim (Option-cases (zone_of_event os dec text_lt same_zone rules e a.zones)) [
        | inl lost ↦ no_attempt b a t (rw (attempt_of, lost) at h)
        | inr (z, found) ↦
            elim (Option-cases (candle_of_event os dec text_lt same_zone rules e b.candles)) [
              | inl lost ↦ no_attempt b a t (rw (attempt_of, found, lost) at h)
              | inr (c, seen) ↦
                  let (t', made, h') =
                    >>=-eq-ok (analyze_reclaim_attempt os dec rules z e c b.candles) _
                      (rw (attempt_of, found, seen) at h) in
                  let (m, same) = first_where-some _ a.zones found in
                  let (n, at_break) = first_where-some _ b.candles seen in
                  let made' = made ∙ ap ok (some_injective (ok_injective h')) in
                  (
                    e,
                    z,
                    c,
                    k.0,
                    k.1,
                    l,
                    m,
                    same,
                    n,
                    at_break,
                    analyze_reclaim_attempt-IsFrom os dec rules z e c b.candles t made',
                    analyze_reclaim_attempt-is_reclaimed os dec rules z e c b.candles t valid made',
                    triggered_if (is_qualified t.readiness)
                        (analyze_reclaim_attempt-IsTriggered os dec rules z e c b.candles t made'),
                  )
            ]
      ]

  IsLatest-of_breaks :
      (a : HtfStructureAnalysis D) (e : StructureEvent D) (es : List (StructureEvent D))
      → confirmed_breaks a.events ≡ e ∷ es
      → IsLatest a (greatest_from (is_earlier_event os dec text_lt same_zone) e es)
  IsLatest-of_breaks a e es h =
      let top =
        greatest_from-IsUpper (is_earlier_event os dec text_lt same_zone)
          (λ f. micros f.observed_at) earlier-before later-after e es in
      IsLatest-of_bounds (greatest_from (is_earlier_event os dec text_lt same_zone) e es) a.events
        (rw h (top.0, top.1))

  attempt_of_latest-IsAbout :
      (b : CandleBatch D) (a : HtfStructureAnalysis D) (es : List (StructureEvent D))
      (t : ReclaimAttempt D)
      → reclaim_rules os dec rules ≡ ok rules
      → confirmed_breaks a.events ≡ es
      → All (IsBreakOf a) es
      → attempt_of_latest os dec text_lt same_zone rules b a es ≡ ok (some t)
      → IsAbout b a t
  unfolding attempt_of_latest
  attempt_of_latest-IsAbout b a [] t valid same k h = none_attempt b a t h
  attempt_of_latest-IsAbout b a (e ∷ es) t valid same k h =
      let later = is_earlier_event os dec text_lt same_zone in
      attempt_of-IsAbout b a (greatest_from later e es) t valid
        (greatest_from-holds later (IsBreakOf a) e es k.0 k.1) (IsLatest-of_breaks a e es same) h

  -- With rules that the constructor accepts, an attempt that is derived from an analysis names a
  -- confirmed break of that analysis and its zone, and has the zone's bounds. No confirmed break of
  -- the analysis was observed later, and the batch has the candle that opens when the break's does.
  -- The attempt is called successful exactly when the candles after the break reclaim the zone, and
  -- it is not qualified, or one of those candles closes below its rejection low as its trigger.
  pub derive_reclaim_from_structure-IsAbout :
      (b : CandleBatch D) (a : HtfStructureAnalysis D) (t : ReclaimAttempt D)
      → reclaim_rules os dec rules ≡ ok rules
      → derive_reclaim_from_structure os dec text_lt same_zone rules b a ≡ ok (some t)
      → IsAbout b a t
  unfolding derive_reclaim_from_structure
  derive_reclaim_from_structure-IsAbout b a t valid h =
      elim (Bool-cases (is_four_hours b.interval)) [
        | inr other ↦ none_attempt b a t (rw (derive_reclaim_from_structure, other) at h)
        | inl four ↦
            let (u, same, h') =
              >>=-eq-ok
                (raise_if
                  (not (
                    same_candle_source a.source b.source
                    && str_eq a.symbol b.symbol
                    && same_interval a.interval b.interval))
                  (value_error "structure analysis does not match candle batch"))
                _ (rw (derive_reclaim_from_structure, four) at h) in
            attempt_of_latest-IsAbout b a (confirmed_breaks a.events) t valid refl
              (confirmed_breaks-IsBreakOf a a.events (λ e m. m)) h'
      ]
