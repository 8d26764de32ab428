-- ===== src/Setups/Reclaim/Engine/Verdict.antt =====
-- app/setups/reclaim_engine.py: the verdict on the whole stream.
use dumpectorist.Prelude.{
  Bool, true, false, ◌≡◌, ◌<◌, List, [], ◌∷◌, none, is_some, take, drop, refl, sym, ◌∙◌,
  Option-cases, inl, inr, arith,
}
use dumpectorist.Prelude.Number.{Num}
use dumpectorist.Prelude.Platform.{Platform}
use dumpectorist.Prelude.Result.{ok, >>=-eq-ok, false_no_true}
use dumpectorist.Prelude.Scans.{Member-drop}
use dumpectorist.Candles.{CandleInterval, OhlcvCandle}
use dumpectorist.Structure.Htf.{SupportZone, StructureEvent}
use dumpectorist.Setups.Reclaim.{
  ReclaimRules, ReclaimAttempt, is_successful, is_qualified, reclaim_rules,
}
use dumpectorist.Setups.Reclaim.Engine.{
  required_closes, successful_reclaim_index, first_attempt_index, validate_break, validate_stream,
}
use dumpectorist.Setups.Reclaim.Engine.Outcomes.{result_of, findings_over, unretested, reclaimed}
use dumpectorist.Setups.Reclaim.Engine.Analysis.{
  relevant_after, analyze_relevant, analyze_reclaim_attempt,
}
use dumpectorist.Setups.Reclaim.Engine.Runs.{has_run, successful_reclaim_index-run}
use dumpectorist.Setups.Reclaim.Engine.Trigger.{
  IsSound, IsTriggered, quiet, result_of-keeps, with_attempt-IsSound, without_attempt-IsSound,
}

module _ {D : Type 0} (os : Platform D) (dec : Num D) (rules : ReclaimRules D) (z : SupportZone D)
    (event : StructureEvent D) (broken : OhlcvCandle D) where
  reclaimed-tells :
      (c : OhlcvCandle D) (cs : List (OhlcvCandle D)) (i : CandleInterval) (a : ReclaimAttempt D)
      → result_of os dec rules z event broken i (reclaimed os dec rules z event broken c cs) ≡ ok a
      → (is_successful a.outcome ≡ true) × (is_qualified a.readiness ≡ false)
  unfolding reclaimed findings_over
  reclaimed-tells c cs i a h =
      let k =
        result_of-keeps os dec rules z event broken i (reclaimed os dec rules z event broken c cs)
          h in
      (rw (k.0) refl, rw (k.1) refl)

  -- The first close that completes a run decides; without one the other branches are sound.
  analyze_relevant-cases :
      (c : OhlcvCandle D) (cs : List (OhlcvCandle D)) (a : ReclaimAttempt D)
      → analyze_relevant os dec rules z event broken (c ∷ cs) ≡ ok a
      → (is_successful a.outcome ≡ is_some (successful_reclaim_index os dec rules z c cs))
        × (is_qualified a.readiness ≡ true → IsTriggered os dec rules z event broken (c ∷ cs) a)
  unfolding analyze_relevant
  analyze_relevant-cases c cs a h =
      elim (Option-cases (successful_reclaim_index os dec rules z c cs)) [
        | inr (i, e) ↦
            let (won, unarmed) =
              reclaimed-tells c (take i cs) c.interval a (rw (analyze_relevant, e) at h) in
            (rw (e, won) refl, λ p. absurd (false_no_true (sym unarmed ∙ p)))
        | inl e ↦ elim (Option-cases (first_attempt_index os dec rules z (c ∷ cs))) [
          | inl e' ↦
              let (lost, armed) =
                without_attempt-IsSound os dec rules z event broken c cs a
                  (rw (analyze_relevant, e, e') at h) in
              (rw (e, lost) refl, armed)
          | inr (i, e') ↦
              let (lost, armed) =
                with_attempt-IsSound os dec rules z event broken c.interval (drop i (c ∷ cs)) a
                  (rw (analyze_relevant, e, e') at h) in
              (
                rw (e, lost) refl,
                λ p.
                    let (t, low, m, o, r, below) = armed p in
                    (t, low, Member-drop i (c ∷ cs) m, o, r, below),
              )
        ]
      ]

  unretested-IsSound :
      (a : ReclaimAttempt D)
      → analyze_relevant os dec rules z event broken [] ≡ ok a
      → IsSound os dec rules z event broken [] a
  unfolding analyze_relevant unretested
  unretested-IsSound a h =
      quiet os dec rules z event broken [] (unretested os dec rules z event broken) a
        (result_of-keeps os dec rules z event broken CandleInterval.h4
          (unretested os dec rules z event broken) h)
        refl refl

  -- Somewhere in the stream as many closes in a row as its interval requires are above the zone.
  unfoldable pub is_reclaimed : List (OhlcvCandle D) → Bool
  unfolding has_run
  is_reclaimed [] = false
  is_reclaimed (c ∷ cs) =
      has_run os dec rules z (required_closes os dec rules z c.interval) (c ∷ cs)

  required_closes-positive :
      (i : CandleInterval)
      → reclaim_rules os dec rules ≡ ok rules
      → 0 < required_closes os dec rules z i
  unfolding reclaim_rules
  required_closes-positive CandleInterval.m5 h = ground arith
  required_closes-positive CandleInterval.m15 h = ground arith
  required_closes-positive CandleInterval.h4 h = ground arith
  required_closes-positive CandleInterval.d1 h = ground arith

  analyze_relevant-reclaimed :
      (cs : List (OhlcvCandle D)) (a : ReclaimAttempt D)
      → reclaim_rules os dec rules ≡ ok rules
      → analyze_relevant os dec rules z event broken cs ≡ ok a
      → is_successful a.outcome ≡ is_reclaimed cs
  unfolding is_reclaimed
  analyze_relevant-reclaimed [] a valid h = (unretested-IsSound a h).0
  analyze_relevant-reclaimed (c ∷ cs) a valid h =
      (analyze_relevant-cases c cs a h).0
      ∙ successful_reclaim_index-run os dec rules z c cs (required_closes-positive c.interval valid)

  analyze_relevant-IsTriggered :
      (cs : List (OhlcvCandle D)) (a : ReclaimAttempt D)
      → analyze_relevant os dec rules z event broken cs ≡ ok a
      → is_qualified a.readiness ≡ true
      → IsTriggered os dec rules z event broken cs a
  analyze_relevant-IsTriggered [] a h = (unretested-IsSound a h).1
  analyze_relevant-IsTriggered (c ∷ cs) a h = (analyze_relevant-cases c cs a h).1

  -- With rules that the constructor accepts, an analysis that returns calls the reclaim successful
  -- exactly when, among the candles that close after the break, as many in a row as their interval
  -- requires close above the zone.
  pub analyze_reclaim_attempt-is_reclaimed :
      (candles : List (OhlcvCandle D)) (a : ReclaimAttempt D)
      → reclaim_rules os dec rules ≡ ok rules
      → analyze_reclaim_attempt os dec rules z event broken candles ≡ ok a
      → is_successful a.outcome ≡ is_reclaimed (relevant_after os dec rules z event broken candles)
  unfolding analyze_reclaim_attempt
  analyze_reclaim_attempt-is_reclaimed candles a valid h =
      let (u, checked, h₁) = >>=-eq-ok (validate_break os dec z event broken) _ h in
      let (v, streamed, h₂) = >>=-eq-ok (validate_stream os dec z none candles) _ h₁ in
      analyze_relevant-reclaimed (relevant_after os dec rules z event broken candles) a valid h₂

  -- A qualified attempt names a rejection low, and as its trigger a candle of the stream after the
  -- break that closes below that low.
  pub analyze_reclaim_attempt-IsTriggered :
      (candles : List (OhlcvCandle D)) (a : ReclaimAttempt D)
      → analyze_reclaim_attempt os dec rules z event broken candles ≡ ok a
      → is_qualified a.readiness ≡ true
      → IsTriggered os dec rules z event broken
          (relevant_after os dec rules z event broken candles)
          a
  unfolding analyze_reclaim_attempt
  analyze_reclaim_attempt-IsTriggered candles a h =
      let (u, checked, h₁) = >>=-eq-ok (validate_break os dec z event broken) _ h in
      let (v, streamed, h₂) = >>=-eq-ok (validate_stream os dec z none candles) _ h₁ in
      analyze_relevant-IsTriggered (relevant_after os dec rules z event broken candles) a h₂
