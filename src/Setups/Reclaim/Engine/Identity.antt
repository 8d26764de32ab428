-- ===== src/Setups/Reclaim/Engine/Identity.antt =====
-- app/setups/reclaim_engine.py: every attempt names the break and the zone that it is made of.
use dumpectorist.Prelude.{
  ◌≡◌, ◌-◌, List, [], ◌∷◌, none, some, length, take, drop, ltb, ap, ◌∙◌, Bool-cases, Option-cases,
  inl, inr, arith,
}
use dumpectorist.Prelude.Number.{Num}
use dumpectorist.Prelude.Platform.{Platform}
use dumpectorist.Prelude.Result.{ok, >>=-eq-ok, ok_injective}
use dumpectorist.Prelude.Scans.{index_where}
use dumpectorist.Prelude.Text.{strip}
use dumpectorist.Candles.{CandleInterval, OhlcvCandle}
use dumpectorist.Structure.Htf.{SupportZone, StructureEvent}
use dumpectorist.Setups.Reclaim.{ReclaimRules, ReclaimAttempt, reclaim_attempt}
use dumpectorist.Setups.Reclaim.Engine.{
  Findings, same_candle, validate_break, validate_stream, rejection_index, successful_reclaim_index,
  first_attempt_index,
}
use dumpectorist.Setups.Reclaim.Engine.Outcomes.{result_of, reclaimed, unretested, continued}
use dumpectorist.Setups.Reclaim.Engine.Analysis.{
  continuation_trigger, continuation_result, without_attempt, unrejected, rejected, unattempted,
  unless_continued, with_attempt, peak_from, relevant_after, analyze_relevant,
  analyze_reclaim_attempt,
}

module _ {D : Type 0} (os : Platform D) (dec : Num D) (rules : ReclaimRules D) (z : SupportZone D)
    (event : StructureEvent D) (broken : OhlcvCandle D) where
  -- The ids of the event and of the zone, stripped, and the zone's bounds.
  abbrev pub IsFrom : ReclaimAttempt D → Type 0
  IsFrom a =
      (a.break_event_id ≡ strip event.event_id)
      × (a.zone_id ≡ strip z.zone_id)
      × (a.zone_low ≡ z.low)
      × (a.zone_high ≡ z.high)

  result_of-IsFrom :
      (i : CandleInterval) (f : Findings D) (a : ReclaimAttempt D)
      → result_of os dec rules z event broken i f ≡ ok a
      → IsFrom a
  unfolding result_of reclaim_attempt
  result_of-IsFrom i f a h = ground arith

  continuation_result-IsFrom :
      (c : OhlcvCandle D) (cs : List (OhlcvCandle D)) (a : ReclaimAttempt D)
      → continuation_result os dec rules z event broken c cs ≡ ok (some a)
      → IsFrom a
  unfolding continuation_result
  continuation_result-IsFrom c cs a h =
      let rest = take (rules.maximum_pullback_bars - 1) cs in
      let peak = peak_from dec 0 c 1 rest in
      elim (Bool-cases (ltb (length (c ∷ cs)) rules.continuation_minimum_bars)) [
        | inl few ↦ absurd (cc (rw (continuation_result, few) at h))
        | inr enough ↦
            elim (Option-cases (continuation_trigger os dec rules z event broken c peak rest)) [
              | inl e ↦ absurd (cc (rw (continuation_result, enough, e) at h))
              | inr (t, e) ↦ elim (Option-cases (index_where 0 (same_candle os dec t) (c ∷ rest))) [
                | inl e' ↦ absurd (cc (rw (continuation_result, enough, e, e') at h))
                | inr (k, e') ↦
                    let (b, made, h₁) =
                      >>=-eq-ok
                        (result_of os dec rules z event broken c.interval
                          (continued os dec rules z event broken c (take k rest) peak.1 t))
                        _ (rw (continuation_result, enough, e, e') at h) in
                    let same : b ≡ a = cc (ok_injective h₁) in
                    result_of-IsFrom c.interval _ a (made ∙ ap ok same)
              ]
            ]
      ]

  without_attempt-IsFrom :
      (c : OhlcvCandle D) (cs : List (OhlcvCandle D)) (a : ReclaimAttempt D)
      → without_attempt os dec rules z event broken c cs ≡ ok a
      → IsFrom a
  unfolding without_attempt unless_continued
  without_attempt-IsFrom c cs a h =
      let (o, told, h₁) = >>=-eq-ok (continuation_result os dec rules z event broken c cs) _ h in
      elim (Option-cases o) [
        | inl e ↦
            result_of-IsFrom c.interval (unattempted os dec rules z event broken c cs) a
              (rw (unless_continued, e) at h₁)
        | inr (b, e) ↦
            continuation_result-IsFrom c cs a
              (told ∙ ap ok (e ∙ ap some (ok_injective (rw (unless_continued, e) at h₁))))
      ]

  with_attempt-IsFrom :
      (interval : CandleInterval) (cs : List (OhlcvCandle D)) (a : ReclaimAttempt D)
      → with_attempt os dec rules z event broken interval cs ≡ ok a
      → IsFrom a
  unfolding with_attempt
  with_attempt-IsFrom interval [] a h = absurd (cc h)
  with_attempt-IsFrom interval (x ∷ rest) a h =
      let limited = take (rules.maximum_pullback_bars - 1) rest in
      elim (Option-cases (rejection_index os dec rules z (x ∷ limited))) [
        | inl e ↦
            result_of-IsFrom interval (unrejected os dec rules z event broken x limited rest) a
              (rw (with_attempt, e) at h)
        | inr (r, e) ↦
            result_of-IsFrom interval (rejected os dec rules z event broken r x limited rest) a
              (rw (with_attempt, e) at h)
      ]

  analyze_relevant-IsFrom :
      (cs : List (OhlcvCandle D)) (a : ReclaimAttempt D)
      → analyze_relevant os dec rules z event broken cs ≡ ok a
      → IsFrom a
  unfolding analyze_relevant
  analyze_relevant-IsFrom [] a h =
      result_of-IsFrom CandleInterval.h4 (unretested os dec rules z event broken) a h
  analyze_relevant-IsFrom (c ∷ cs) a h =
      elim (Option-cases (successful_reclaim_index os dec rules z c cs)) [
        | inr (i, e) ↦
            result_of-IsFrom c.interval (reclaimed os dec rules z event broken c (take i cs)) a
              (rw (analyze_relevant, e) at h)
        | inl e ↦ elim (Option-cases (first_attempt_index os dec rules z (c ∷ cs))) [
          | inl e' ↦ without_attempt-IsFrom c cs a (rw (analyze_relevant, e, e') at h)
          | inr (i, e') ↦
              with_attempt-IsFrom c.interval (drop i (c ∷ cs)) a (rw (analyze_relevant, e, e') at h)
        ]
      ]

  -- Whatever branch makes the attempt, it is about this break and this zone.
  pub analyze_reclaim_attempt-IsFrom :
      (candles : List (OhlcvCandle D)) (a : ReclaimAttempt D)
      → analyze_reclaim_attempt os dec rules z event broken candles ≡ ok a
      → IsFrom a
  unfolding analyze_reclaim_attempt
  analyze_reclaim_attempt-IsFrom candles a h =
      let (u, checked, h₁) = >>=-eq-ok (validate_break os dec z event broken) _ h in
      let (v, streamed, h₂) = >>=-eq-ok (validate_stream os dec z none candles) _ h₁ in
      analyze_relevant-IsFrom (relevant_after os dec rules z event broken candles) a h₂
