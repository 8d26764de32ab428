-- ===== src/Setups/Reclaim/Engine/Trigger.antt =====
-- app/setups/reclaim_engine.py: which attempts are qualified, and which are cancelled.
use dumpectorist.Prelude.{
  Bool, true, false, ◌&&◌, ◌≡◌, ℕ, ◌-◌, List, [], ◌∷◌, Option, none, some, length, take, drop, ltb,
  refl, sym, ap, ◌∙◌, Bool-cases, Option-cases, inl, inr, arith,
}
use dumpectorist.Prelude.Number.{Num}
use dumpectorist.Prelude.Platform.{Platform}
use dumpectorist.Prelude.Result.{Error, ok, err, >>=-eq-ok, ok_injective, false_no_true}
use dumpectorist.Prelude.Scans.{
  Member, first_where, first_where-some, Member-drop, Member-take, index_where,
}
use dumpectorist.Candles.{CandleInterval, OhlcvCandle}
use dumpectorist.Structure.Htf.{SupportZone, StructureEvent}
use dumpectorist.Setups.Reclaim.{
  ReclaimRules, ReclaimAttempt, is_successful, is_qualified, reclaim_attempt,
}
use dumpectorist.Setups.Reclaim.Engine.{Findings, Quality, last_from, same_candle, rejection_index}
use dumpectorist.Setups.Reclaim.Engine.Outcomes.{result_of, findings_over, untested, continued}
use dumpectorist.Setups.Reclaim.Engine.Analysis.{
  continuation_trigger, continuation_result, without_attempt, unrejected, waiting, pulled_back,
  settled, rejected, unattempted, unless_continued, with_attempt, peak_from, pullback_trigger,
}

module _ {D : Type 0} (os : Platform D) (dec : Num D) (rules : ReclaimRules D) (z : SupportZone D)
    (event : StructureEvent D) (broken : OhlcvCandle D) where
  -- The attempt says what was found.
  abbrev pub Tells : ReclaimAttempt D → Findings D → Type 0
  Tells a f =
      (a.outcome ≡ f.outcome)
      × (a.readiness ≡ f.readiness)
      × (a.rejection_low ≡ f.rejection_low)
      × (a.trigger_candle_open_time ≡ f.trigger_candle_open_time)

  reclaim_attempt-keeps :
      (b : ReclaimAttempt D) {a : ReclaimAttempt D}
      → reclaim_attempt os dec b ≡ ok a
      → (a.outcome ≡ b.outcome)
        × (a.readiness ≡ b.readiness)
        × (a.rejection_low ≡ b.rejection_low)
        × (a.trigger_candle_open_time ≡ b.trigger_candle_open_time)
  unfolding reclaim_attempt
  reclaim_attempt-keeps b h = ground arith

  pub result_of-keeps :
      (i : CandleInterval) (f : Findings D) {a : ReclaimAttempt D}
      → result_of os dec rules z event broken i f ≡ ok a
      → Tells a f
  unfolding result_of
  result_of-keeps i f h = reclaim_attempt-keeps _ h

  -- A candle of the list that opens at the attempt's trigger and closes below the attempt's
  -- rejection low.
  abbrev pub IsTriggered : List (OhlcvCandle D) → ReclaimAttempt D → Type 0
  IsTriggered cs a =
      (t : OhlcvCandle D) × (low : D) × Member t cs
      × (a.trigger_candle_open_time ≡ some t.open_time)
      × (a.rejection_low ≡ some low)
      × (dec.lt t.close_price low ≡ true)

  -- What every branch but the first leaves.
  abbrev pub IsSound : List (OhlcvCandle D) → ReclaimAttempt D → Type 0
  IsSound cs a =
      (is_successful a.outcome ≡ false) × (is_qualified a.readiness ≡ true → IsTriggered cs a)

  -- A finding that is not qualified has nothing to show.
  pub quiet :
      (cs : List (OhlcvCandle D)) (f : Findings D) (a : ReclaimAttempt D)
      → Tells a f
      → is_successful f.outcome ≡ false
      → is_qualified f.readiness ≡ false
      → IsSound cs a
  quiet cs f a k s q = (rw (k.0) s, λ p. absurd (false_no_true (sym q ∙ rw (k.1) at p)))

  loud :
      (cs : List (OhlcvCandle D)) (f : Findings D) (a : ReclaimAttempt D) (t : OhlcvCandle D)
      (low : D)
      → Tells a f
      → is_successful f.outcome ≡ false
      → f.trigger_candle_open_time ≡ some t.open_time
      → f.rejection_low ≡ some low
      → Member t cs
      → dec.lt t.close_price low ≡ true
      → IsSound cs a
  loud cs f a t low k s o r m below = (rw (k.0) s, λ p. (t, low, m, k.3 ∙ o, k.2 ∙ r, below))

  continuation_trigger-below :
      (c : OhlcvCandle D) (i : ℕ) (bounce : OhlcvCandle D) (rest : List (OhlcvCandle D))
      {t : OhlcvCandle D}
      → continuation_trigger os dec rules z event broken c (i, bounce) rest ≡ some t
      → first_where
          (λ d. dec.lt d.close_price broken.low_price && dec.lt d.high_price bounce.high_price)
          (drop i rest)
        ≡ some t
  unfolding continuation_trigger
  continuation_trigger-below c i bounce rest h = ground arith

  left_true : (a b : Bool) → (a && b) ≡ true → a ≡ true
  left_true a b h = ground arith

  continued-IsSound :
      (c : OhlcvCandle D) (cs : List (OhlcvCandle D)) (i : ℕ) (bounce : OhlcvCandle D) (k : ℕ)
      (t : OhlcvCandle D) (a : ReclaimAttempt D)
      → continuation_trigger os dec rules z event broken c
          (i, bounce)
          (take (rules.maximum_pullback_bars - 1) cs)
        ≡ some t
      → result_of os dec rules z event broken c.interval (
          continued os dec rules z event broken c
            (take k (take (rules.maximum_pullback_bars - 1) cs))
            bounce
            t)
        ≡ ok a
      → IsSound (c ∷ cs) a
  unfolding continued untested
  continued-IsSound c cs i bounce k t a found h =
      let rest = take (rules.maximum_pullback_bars - 1) cs in
      let (m, below) =
        first_where-some _ (drop i rest) (continuation_trigger-below c i bounce rest found) in
      loud (c ∷ cs) (continued os dec rules z event broken c (take k rest) bounce t) a t
        broken.low_price (result_of-keeps c.interval _ h) refl refl refl
        (Member.tail (Member-take (rules.maximum_pullback_bars - 1) cs (Member-drop i rest m)))
        (left_true _ _ below)

  settled-IsSound :
      (r : ℕ) (x : OhlcvCandle D) (considered rest : List (OhlcvCandle D)) (v : OhlcvCandle D)
      (q : Quality D) (trigger : Option (OhlcvCandle D)) (a : ReclaimAttempt D)
      → pullback_trigger os dec rules z event broken r v rest ≡ trigger
      → Tells a (settled os dec rules z event broken r x considered v q trigger)
      → IsSound (x ∷ rest) a
  unfolding settled waiting pulled_back findings_over
  settled-IsSound r x considered rest v q none a e k =
      quiet (x ∷ rest) (settled os dec rules z event broken r x considered v q none) a k refl refl
  settled-IsSound r x considered rest v q (some t) a e k =
      let (m, below) = first_where-some _ (drop r rest) e in
      loud (x ∷ rest) (settled os dec rules z event broken r x considered v q (some t)) a t
        v.low_price k refl refl refl (Member.tail (Member-drop r rest m)) below

  rejected-IsSound :
      (interval : CandleInterval) (r : ℕ) (x : OhlcvCandle D) (limited rest : List (OhlcvCandle D))
      (a : ReclaimAttempt D)
      → result_of os dec rules z event broken interval
          (rejected os dec rules z event broken r x limited rest)
        ≡ ok a
      → IsSound (x ∷ rest) a
  unfolding rejected
  rejected-IsSound interval r x limited rest a h =
      settled-IsSound r x (take r limited) rest (last_from x (take r limited)) _
        (pullback_trigger os dec rules z event broken r (last_from x (take r limited)) rest) a refl
        (result_of-keeps interval (rejected os dec rules z event broken r x limited rest) h)

  unrejected-IsSound :
      (x : OhlcvCandle D) (limited rest cs : List (OhlcvCandle D)) (a : ReclaimAttempt D)
      → Tells a (unrejected os dec rules z event broken x limited rest)
      → IsSound cs a
  unfolding unrejected findings_over
  unrejected-IsSound x limited rest cs a k =
      quiet cs (unrejected os dec rules z event broken x limited rest) a k (ground arith)
        (ground arith)

  pub with_attempt-IsSound :
      (interval : CandleInterval) (cs : List (OhlcvCandle D)) (a : ReclaimAttempt D)
      → with_attempt os dec rules z event broken interval cs ≡ ok a
      → IsSound cs a
  unfolding with_attempt
  with_attempt-IsSound interval [] a h = cc
  with_attempt-IsSound interval (x ∷ rest) a h =
      let limited = take (rules.maximum_pullback_bars - 1) rest in
      elim (Option-cases (rejection_index os dec rules z (x ∷ limited))) [
        | inl e ↦ unrejected-IsSound x limited rest (x ∷ rest) a (
            result_of-keeps interval (unrejected os dec rules z event broken x limited rest)
              (rw (with_attempt, e) at h))
        | inr (r, e) ↦ rejected-IsSound interval r x limited rest a (rw (with_attempt, e) at h)
      ]

  nothing :
      (cs : List (OhlcvCandle D)) (a : ReclaimAttempt D) → ok none ≡ ok (some a) → IsSound cs a
  nothing cs a h = cc

  unfound :
      (cs : List (OhlcvCandle D)) (a : ReclaimAttempt D) {e : Error}
      → err e ≡ ok (some a)
      → IsSound cs a
  unfound cs a h = cc

  some_injective : {b a : ReclaimAttempt D} → some b ≡ some a → b ≡ a
  some_injective h = cc

  continuation_result-IsSound :
      (c : OhlcvCandle D) (cs : List (OhlcvCandle D)) (a : ReclaimAttempt D)
      → continuation_result os dec rules z event broken c cs ≡ ok (some a)
      → IsSound (c ∷ cs) a
  unfolding continuation_result
  continuation_result-IsSound c cs a h =
      let rest = take (rules.maximum_pullback_bars - 1) cs in
      let peak = peak_from dec 0 c 1 rest in
      elim (Bool-cases (ltb (length (c ∷ cs)) rules.continuation_minimum_bars)) [
        | inl few ↦ nothing (c ∷ cs) a (rw (continuation_result, few) at h)
        | inr enough ↦
            elim (Option-cases (continuation_trigger os dec rules z event broken c peak rest)) [
              | inl e ↦ nothing (c ∷ cs) a (rw (continuation_result, enough, e) at h)
              | inr (t, e) ↦ elim (Option-cases (index_where 0 (same_candle os dec t) (c ∷ rest))) [
                | inl e' ↦ unfound (c ∷ cs) a (rw (continuation_result, enough, e, e') at h)
                | inr (k, e') ↦
                    let (b, made, h₁) =
                      >>=-eq-ok
                        (result_of os dec rules z event broken c.interval
                          (continued os dec rules z event broken c (take k rest) peak.1 t))
                        _ (rw (continuation_result, enough, e, e') at h) in
                    continued-IsSound c cs peak.0 peak.1 k t a e
                      (made ∙ ap ok (some_injective (ok_injective h₁)))
              ]
            ]
      ]

  unless_continued-IsSound :
      (c : OhlcvCandle D) (cs : List (OhlcvCandle D)) (o : Option (ReclaimAttempt D))
      (a : ReclaimAttempt D)
      → continuation_result os dec rules z event broken c cs ≡ ok o
      → unless_continued os dec rules z event broken c cs o ≡ ok a
      → IsSound (c ∷ cs) a
  unfolding unless_continued unattempted untested findings_over
  unless_continued-IsSound c cs (some b) a told h =
      continuation_result-IsSound c cs a (told ∙ ap (λ x. ok (some x)) (ok_injective h))
  unless_continued-IsSound c cs none a told h =
      quiet (c ∷ cs) (unattempted os dec rules z event broken c cs) a
        (result_of-keeps c.interval (unattempted os dec rules z event broken c cs) h) (ground arith)
        (ground arith)

  pub without_attempt-IsSound :
      (c : OhlcvCandle D) (cs : List (OhlcvCandle D)) (a : ReclaimAttempt D)
      → without_attempt os dec rules z event broken c cs ≡ ok a
      → IsSound (c ∷ cs) a
  unfolding without_attempt
  without_attempt-IsSound c cs a h =
      let (o, told, h₁) = >>=-eq-ok (continuation_result os dec rules z event broken c cs) _ h in
      unless_continued-IsSound c cs o a told h₁
