-- ===== src/Structure/Events/Damage.antt =====
-- app/structure/structure_events.py: when the evidence of a timeframe says that it is damaged, told
-- from the candles alone.
use dumpectorist.Prelude.{
  Bool, false, not, ◌&&◌, ◌||◌, ◌≡◌, ℕ, ◌+◌, String, List, [], ◌∷◌, ◌++◌, none, some, get_last?,
  leb, all, if◌then◌else◌, refl, sym, ap, ◌∙◌, Bool-cases, inl, inr, arith,
}
use dumpectorist.Prelude.Number.{Num}
use dumpectorist.Prelude.Platform.{Platform}
use dumpectorist.Prelude.Result.{ok, >>=-eq-ok, ok_injective}
use dumpectorist.Prelude.Time.{Datetime}
use dumpectorist.Candles.{OhlcvCandle, CandleSource, CandleInterval}
use dumpectorist.Structure.Htf.{
  SupportZone, StructureEvent, StructureEventState, TimeframeStructureEvidence, is_damaged,
  timeframe_structure_evidence,
}
use dumpectorist.Structure.Events.{
  StructureEventRules, Turn, status_of, validate_inputs, is_below, is_above, is_confirmed, turn_of,
  return_state, return_event, after_break, break_event, pending_event, expiry_event, before_break,
  relevant_to, build_structure_events, evidence_of, evidence_from_events,
}
use dumpectorist.Structure.Events.Order.{
  Turn-cases, break_event-state, pending_event-state, expiry_event-state, return_event-state,
}

-- The last event, when there is one, leaves the timeframe damaged.
abbrev pub ends_damaged : {D : Type 0} → List (StructureEvent D) → Bool
ends_damaged [] = false
ends_damaged (e ∷ []) = is_damaged (status_of e.state)
ends_damaged (e ∷ f ∷ es) = ends_damaged (f ∷ es)

module _ {D : Type 0} (os : Platform D) (dec : Num D) where
  module _ (rules : StructureEventRules D) (z : SupportZone D) where
    -- No candle closes above the zone.
    unfoldable pub stays_under : List (OhlcvCandle D) → Bool
    stays_under = all (λ c. not (is_above os dec rules z c))

    -- The first candle that closes below the zone with enough distance and body is the break. It is
    -- there, no candle after it closes above the zone, and every candle before it closes below the
    -- zone or is within the zone's age.
    unfoldable pub is_broken_for_good : ℕ → List (OhlcvCandle D) → Bool
    is_broken_for_good index [] = false
    is_broken_for_good index (c ∷ cs) =
        let later = is_broken_for_good (index + 1) cs in
        if is_below os dec rules z c && is_confirmed os dec rules z c
        then stays_under cs
        else (is_below os dec rules z c || leb (index + 1) rules.maximum_zone_age_bars) && later

    -- The reference, one candle at a time, by the branch that the code takes.
    broken-turn :
        (i : ℕ) (p : Bool) (c : OhlcvCandle D) (cs : List (OhlcvCandle D))
        → (turn_of os dec rules z i p c ≡ Turn.breaks
            → is_broken_for_good i (c ∷ cs) ≡ stays_under cs)
          × (turn_of os dec rules z i p c ≡ Turn.pends
              → is_broken_for_good i (c ∷ cs) ≡ is_broken_for_good (i + 1) cs)
          × (turn_of os dec rules z i p c ≡ Turn.expires → is_broken_for_good i (c ∷ cs) ≡ false)
          × (turn_of os dec rules z i p c ≡ Turn.passes
              → is_broken_for_good i (c ∷ cs) ≡ is_broken_for_good (i + 1) cs)
    unfolding turn_of is_broken_for_good
    broken-turn i p c cs = ground arith

    pending-ends :
        (e : StructureEvent D) (es : List (StructureEvent D))
        → e.state ≡ StructureEventState.pending_break
        → ends_damaged (e ∷ es) ≡ ends_damaged es
    pending-ends e [] s = rw (s) refl
    pending-ends e (f ∷ es) s = refl

    expired-ends :
        (e : StructureEvent D)
        → e.state ≡ StructureEventState.invalidated
        → ends_damaged (e ∷ []) ≡ false
    expired-ends e s = rw (s) refl

    returned-ends :
        (n : ℕ) (e f : StructureEvent D)
        → f.state ≡ return_state os dec rules z n
        → ends_damaged (e ∷ f ∷ []) ≡ false
    returned-ends n e f s = ground (arith, s)

    -- After a confirmed break the damage lasts as long as no candle closes above the zone.
    after_break-ends :
        (broken : String) (n : ℕ) (before cs : List (OhlcvCandle D)) (e : StructureEvent D)
        {es : List (StructureEvent D)}
        → e.state ≡ StructureEventState.confirmed_break
        → after_break os dec rules z broken n before cs ≡ ok es
        → ends_damaged (e ∷ es) ≡ stays_under cs
    unfolding after_break stays_under
    after_break-ends broken n before [] e s h = rw (← ok_injective h, s) refl
    after_break-ends broken n before (c ∷ cs) e s h =
        elim (Bool-cases (is_above os dec rules z c)) [
          | inr under ↦ rw (under) (
              after_break-ends broken (n + 1) (before ++ c ∷ []) cs e s
                (rw (after_break, under) at h))
          | inl above ↦
              let (f, made, h') =
                >>=-eq-ok (return_event os dec rules z broken n before c) _
                  (rw (after_break, above) at h) in
              rw (← ok_injective h', above)
                (returned-ends n e f (return_event-state os dec rules z broken n before c made).0)
        ]

    before_break-ends :
        (i : ℕ) (p : Bool) (before cs : List (OhlcvCandle D)) {es : List (StructureEvent D)}
        → before_break os dec rules z i p before cs ≡ ok es
        → ends_damaged es ≡ is_broken_for_good i cs
    unfolding before_break is_broken_for_good
    before_break-ends i p before [] h = rw (← ok_injective h) refl
    before_break-ends i p before (c ∷ cs) h = elim (Turn-cases (turn_of os dec rules z i p c)) [
      | inl t ↦
          let (e, made, h₁) =
            >>=-eq-ok (break_event os dec rules z before c) _ (rw (before_break, t) at h) in
          let (later, told, h₂) =
            >>=-eq-ok (after_break os dec rules z e.event_id 1 (before ++ c ∷ []) cs) _ h₁ in
          rw (← ok_injective h₂) (
            after_break-ends e.event_id 1 (before ++ c ∷ []) cs e
              (break_event-state os dec rules z before c made).0 told
            ∙ sym ((broken-turn i p c cs).0 t))
      | inr (inl t) ↦
          let (e, made, h₁) =
            >>=-eq-ok (pending_event os dec rules z before c) _ (rw (before_break, t) at h) in
          let (later, told, h₂) =
            >>=-eq-ok
              (before_break os dec rules z (i + 1) (p || is_below os dec rules z c)
                (before ++ c ∷ []) cs)
              _ h₁ in
          rw (← ok_injective h₂) (
            pending-ends e later (pending_event-state os dec rules z before c made).0
            ∙ before_break-ends (i + 1) (p || is_below os dec rules z c) (before ++ c ∷ []) cs told
            ∙ sym ((broken-turn i p c cs).1 t))
      | inr (inr (inl t)) ↦
          let (e, made, h₁) =
            >>=-eq-ok (expiry_event os dec rules z before c) _ (rw (before_break, t) at h) in
          rw (← ok_injective h₁) (
            expired-ends e (expiry_event-state os dec rules z before c made).0
            ∙ sym ((broken-turn i p c cs).2 t))
      | inr (inr (inr t)) ↦
          before_break-ends (i + 1) (p || is_below os dec rules z c) (before ++ c ∷ []) cs
            (rw (before_break, t) at h)
          ∙ sym ((broken-turn i p c cs).3 t)
    ]

  timeframe_structure_evidence-status :
      (e : TimeframeStructureEvidence) {f : TimeframeStructureEvidence}
      → timeframe_structure_evidence os dec e ≡ ok f
      → f.status ≡ e.status
  unfolding timeframe_structure_evidence
  timeframe_structure_evidence-status e h = ground arith

  evidence_of-ends :
      (z : SupportZone D) (es : List (StructureEvent D)) (s : CandleSource) (n : String)
      (i : CandleInterval) (t : Datetime)
      → is_damaged (evidence_of os dec (some z) (get_last? es) s n i t).status ≡ ends_damaged es
  unfolding evidence_of
  evidence_of-ends z [] s n i t = refl
  evidence_of-ends z (e ∷ []) s n i t = refl
  evidence_of-ends z (e ∷ f ∷ es) s n i t = evidence_of-ends z (f ∷ es) s n i t

  -- Take, among the candles since a zone's confirmation, the first that closes below the zone with
  -- enough distance and body. The evidence for the zone, made from the events of its candles, says
  -- damaged exactly when there is such a candle, no candle after it closes above the zone, and every
  -- candle before it closes below the zone or is within the zone's age.
  pub evidence_from_events-is_damaged :
      (rules : StructureEventRules D) (z : SupportZone D) (candles : List (OhlcvCandle D))
      (es : List (StructureEvent D)) (s : CandleSource) (n : String) (i : CandleInterval)
      (t : Datetime) (ev : TimeframeStructureEvidence)
      → build_structure_events os dec rules z candles ≡ ok es
      → evidence_from_events os dec (some z) es s n i t ≡ ok ev
      → is_damaged ev.status ≡ is_broken_for_good rules z 0 (relevant_to os dec rules z candles)
  unfolding build_structure_events evidence_from_events
  evidence_from_events-is_damaged rules z candles es s n i t ev h told =
      let (u, valid, h₁) = >>=-eq-ok (validate_inputs os dec z none candles) _ h in
      ap is_damaged (
        timeframe_structure_evidence-status (evidence_of os dec (some z) (get_last? es) s n i t)
          told)
      ∙ evidence_of-ends z es s n i t
      ∙ before_break-ends rules z 0 false [] (relevant_to os dec rules z candles) h₁
