-- ===== src/Structure/Events/Order.antt =====
-- app/structure/structure_events.py: the order of the events at a zone, and the prices that they
-- stand for.
use dumpectorist.Prelude.{
  Bool, true, false, not, ◌⊎◌, ◌&&◌, ◌||◌, ◌≡◌, ℕ, ◌+◌, String, List, [], ◌∷◌, ◌++◌, Option, none,
  map, is_empty, All, arith, refl, Bool-cases, inl, inr,
}
use dumpectorist.Prelude.Number.{Num}
use dumpectorist.Prelude.Platform.{Platform}
use dumpectorist.Prelude.Result.{ok, >>=-eq-ok, ok_injective}
use dumpectorist.Candles.{OhlcvCandle}
use dumpectorist.Structure.Htf.{SupportZone, StructureEvent, StructureEventState, structure_event}
use dumpectorist.Structure.Events.{
  StructureEventRules, Turn, event_of, validate_inputs, is_below, is_above, turn_of, return_state,
  return_event, after_break, break_event, pending_event, expiry_event, before_break, relevant_to,
  build_structure_events,
}

-- What may follow a confirmed break: nothing, or one return above the zone.
abbrev pub ends_well : List StructureEventState → Bool
ends_well [] = true
ends_well (StructureEventState.fake_break ∷ ss) = is_empty ss
ends_well (StructureEventState.reclaimed ∷ ss) = is_empty ss
ends_well (StructureEventState.pending_break ∷ ss) = false
ends_well (StructureEventState.confirmed_break ∷ ss) = false
ends_well (StructureEventState.invalidated ∷ ss) = false

-- The states in an order that is allowed: one pending break at most, then a confirmed break with
-- what may follow it, or the expiry, which nothing follows.
abbrev pub is_history : Bool → List StructureEventState → Bool
is_history pending [] = true
is_history pending (StructureEventState.pending_break ∷ ss) = not pending && is_history true ss
is_history pending (StructureEventState.confirmed_break ∷ ss) = ends_well ss
is_history pending (StructureEventState.invalidated ∷ ss) = is_empty ss
is_history pending (StructureEventState.fake_break ∷ ss) = false
is_history pending (StructureEventState.reclaimed ∷ ss) = false

pub Turn-cases :
    (t : Turn) → (t ≡ Turn.breaks) ⊎ (t ≡ Turn.pends) ⊎ (t ≡ Turn.expires) ⊎ (t ≡ Turn.passes)
Turn-cases Turn.breaks = inl refl
Turn-cases Turn.pends = inr (inl refl)
Turn-cases Turn.expires = inr (inr (inl refl))
Turn-cases Turn.passes = inr (inr (inr refl))

-- What may follow a pending break may come with none before it.
weaken :
    (p q : Bool) (ss : List StructureEventState)
    → is_history (p || q) ss ≡ true
    → is_history p ss ≡ true
weaken true q ss h = h
weaken false false ss h = h
weaken false true [] h = refl
weaken false true (StructureEventState.confirmed_break ∷ ss) h = h
weaken false true (StructureEventState.invalidated ∷ ss) h = h
weaken false true (StructureEventState.fake_break ∷ ss) h = h
weaken false true (StructureEventState.reclaimed ∷ ss) h = h
weaken false true (StructureEventState.pending_break ∷ ss) h = cc

either_true : (p q : Bool) → q ≡ true → (p || q) ≡ true
either_true true q h = refl
either_true false q h = h

structure_event-keeps :
    {D : Type 0} (os : Platform D) (dec : Num D) (e : StructureEvent D) {f : StructureEvent D}
    → structure_event os dec e ≡ ok f
    → (f.state ≡ e.state) × (f.close_price ≡ e.close_price)
unfolding structure_event
structure_event-keeps os dec e h = ground arith

module _ {D : Type 0} (os : Platform D) (dec : Num D) where
  -- An event tells of its candle.
  pub event_of-keeps :
      (z : SupportZone D) (c : OhlcvCandle D) (s : StructureEventState) (d : D) (v : Option D)
      (i : Option String) (rs : List String) {e : StructureEvent D}
      → event_of os dec z c s d v i rs ≡ ok e
      → (e.state ≡ s) × (e.close_price ≡ c.close_price)
  unfolding event_of
  event_of-keeps z c s d v i rs h = structure_event-keeps os dec _ h

  module _ (rules : StructureEventRules D) (z : SupportZone D) where
    abbrev pub states : List (StructureEvent D) → List StructureEventState
    states = map (λ e. e.state)

    -- The close that an event of this state tells of.
    abbrev pub price_fits : StructureEventState → D → Bool
    price_fits StructureEventState.pending_break p = dec.lt p z.low
    price_fits StructureEventState.confirmed_break p = dec.lt p z.low
    price_fits StructureEventState.fake_break p = dec.lt z.high p
    price_fits StructureEventState.reclaimed p = dec.lt z.high p
    price_fits StructureEventState.invalidated p = not (dec.lt p z.low)

    abbrev pub IsPriced : StructureEvent D → Type 0
    IsPriced e = price_fits e.state e.close_price ≡ true

    pub break_event-state :
        (before : List (OhlcvCandle D)) (c : OhlcvCandle D) {e : StructureEvent D}
        → break_event os dec rules z before c ≡ ok e
        → (e.state ≡ StructureEventState.confirmed_break) × (e.close_price ≡ c.close_price)
    unfolding break_event
    break_event-state before c h = event_of-keeps z c _ _ _ _ _ h

    pub pending_event-state :
        (before : List (OhlcvCandle D)) (c : OhlcvCandle D) {e : StructureEvent D}
        → pending_event os dec rules z before c ≡ ok e
        → (e.state ≡ StructureEventState.pending_break) × (e.close_price ≡ c.close_price)
    unfolding pending_event
    pending_event-state before c h = event_of-keeps z c _ _ _ _ _ h

    pub expiry_event-state :
        (before : List (OhlcvCandle D)) (c : OhlcvCandle D) {e : StructureEvent D}
        → expiry_event os dec rules z before c ≡ ok e
        → (e.state ≡ StructureEventState.invalidated) × (e.close_price ≡ c.close_price)
    unfolding expiry_event
    expiry_event-state before c h = event_of-keeps z c _ _ _ _ _ h

    pub return_event-state :
        (broken : String) (bars : ℕ) (before : List (OhlcvCandle D)) (c : OhlcvCandle D)
        {e : StructureEvent D}
        → return_event os dec rules z broken bars before c ≡ ok e
        → (e.state ≡ return_state os dec rules z bars) × (e.close_price ≡ c.close_price)
    unfolding return_event
    return_event-state broken bars before c h = event_of-keeps z c _ _ _ _ _ h

    -- The branch that was taken says where the candle closed.
    pub turn_of-below :
        (i : ℕ) (p : Bool) (c : OhlcvCandle D)
        → (turn_of os dec rules z i p c ≡ Turn.breaks → dec.lt c.close_price z.low ≡ true)
          × (turn_of os dec rules z i p c ≡ Turn.pends
              → (dec.lt c.close_price z.low ≡ true) × (p ≡ false))
          × (turn_of os dec rules z i p c ≡ Turn.expires → dec.lt c.close_price z.low ≡ false)
    unfolding turn_of is_below
    turn_of-below i p c = ground arith

    abbrev IsToldOf : (List StructureEventState → Bool) → List (StructureEvent D) → Type 0
    IsToldOf fits es = (fits (states es) ≡ true) × All IsPriced es

    returned :
        (n : ℕ) (c : OhlcvCandle D) (e : StructureEvent D)
        → dec.lt z.high c.close_price ≡ true
        → (e.state ≡ return_state os dec rules z n) × (e.close_price ≡ c.close_price)
        → IsToldOf ends_well (e ∷ [])
    returned n c e above k = (ground (arith, k.0, k.1), (ground (arith, k.0, k.1), tt))

    after_break-told :
        (broken : String) (n : ℕ) (before cs : List (OhlcvCandle D)) {es : List (StructureEvent D)}
        → after_break os dec rules z broken n before cs ≡ ok es
        → IsToldOf ends_well es
    unfolding after_break is_above
    after_break-told broken n before [] h = rw (← ok_injective h) (refl, tt)
    after_break-told broken n before (c ∷ cs) h = elim (Bool-cases (is_above os dec rules z c)) [
      | inr under ↦
          after_break-told broken (n + 1) (before ++ c ∷ []) cs (rw (after_break, under) at h)
      | inl above ↦
          let (e, made, h') =
            >>=-eq-ok (return_event os dec rules z broken n before c) _
              (rw (after_break, above) at h) in
          rw (← ok_injective h') (returned n c e above (return_event-state broken n before c made))
    ]

    after_a_break :
        (c : OhlcvCandle D) (e : StructureEvent D) (later : List (StructureEvent D)) (p : Bool)
        → dec.lt c.close_price z.low ≡ true
        → (e.state ≡ StructureEventState.confirmed_break) × (e.close_price ≡ c.close_price)
        → IsToldOf ends_well later
        → IsToldOf (is_history p) (e ∷ later)
    after_a_break c e later p below k told = (rw (k.0) told.0, (rw (k.0, k.1) below, told.1))

    after_a_pending :
        (p : Bool) (c : OhlcvCandle D) (e : StructureEvent D) (later : List (StructureEvent D))
        → (dec.lt c.close_price z.low ≡ true) × (p ≡ false)
        → (e.state ≡ StructureEventState.pending_break) × (e.close_price ≡ c.close_price)
        → IsToldOf (is_history true) later
        → IsToldOf (is_history p) (e ∷ later)
    after_a_pending p c e later below k told =
        (rw (k.0, below.1) told.0, (rw (k.0, k.1) below.0, told.1))

    once_pending :
        (q : Bool) (later : List (StructureEvent D))
        → q ≡ true
        → IsToldOf (is_history q) later
        → IsToldOf (is_history true) later
    once_pending true later q told = told
    once_pending false later q told = cc

    expired :
        (p : Bool) (c : OhlcvCandle D) (e : StructureEvent D)
        → dec.lt c.close_price z.low ≡ false
        → (e.state ≡ StructureEventState.invalidated) × (e.close_price ≡ c.close_price)
        → IsToldOf (is_history p) (e ∷ [])
    expired p c e above k = (rw (k.0) refl, (rw (k.0, k.1, above) refl, tt))

    before_break-told :
        (i : ℕ) (p : Bool) (before cs : List (OhlcvCandle D)) {es : List (StructureEvent D)}
        → before_break os dec rules z i p before cs ≡ ok es
        → IsToldOf (is_history p) es
    unfolding before_break is_below
    before_break-told i p before [] h = rw (← ok_injective h) (refl, tt)
    before_break-told i p before (c ∷ cs) h = elim (Turn-cases (turn_of os dec rules z i p c)) [
      | inl t ↦
          let (e, made, h₁) =
            >>=-eq-ok (break_event os dec rules z before c) _ (rw (before_break, t) at h) in
          let (later, told, h₂) =
            >>=-eq-ok (after_break os dec rules z e.event_id 1 (before ++ c ∷ []) cs) _ h₁ in
          rw (← ok_injective h₂) (
            after_a_break c e later p ((turn_of-below i p c).0 t) (break_event-state before c made)
              (after_break-told e.event_id 1 (before ++ c ∷ []) cs told))
      | inr (inl t) ↦
          let (e, made, h₁) =
            >>=-eq-ok (pending_event os dec rules z before c) _ (rw (before_break, t) at h) in
          let (later, told, h₂) =
            >>=-eq-ok
              (before_break os dec rules z (i + 1) (p || is_below os dec rules z c)
                (before ++ c ∷ []) cs)
              _ h₁ in
          rw (← ok_injective h₂) (
            after_a_pending p c e later ((turn_of-below i p c).1 t)
              (pending_event-state before c made)
              (once_pending (p || is_below os dec rules z c) later
                (either_true p _ ((turn_of-below i p c).1 t).0)
                (before_break-told (i + 1) (p || is_below os dec rules z c) (before ++ c ∷ []) cs
                  told)))
      | inr (inr (inl t)) ↦
          let (e, made, h₁) =
            >>=-eq-ok (expiry_event os dec rules z before c) _ (rw (before_break, t) at h) in
          rw (← ok_injective h₁)
            (expired p c e ((turn_of-below i p c).2 t) (expiry_event-state before c made))
      | inr (inr (inr t)) ↦
          let told =
            before_break-told (i + 1) (p || is_below os dec rules z c) (before ++ c ∷ []) cs
              (rw (before_break, t) at h) in
          (weaken p (is_below os dec rules z c) _ told.0, told.1)
    ]

    -- The events of a zone that are built come in an order that is allowed, one pending break at
    -- most, then a confirmed break and one return after it at most, or an expiry at the end, and
    -- each tells of a close below the zone, above it, or, when it expires, not below it.
    pub build_structure_events_ordered :
        (candles : List (OhlcvCandle D)) (es : List (StructureEvent D))
        → build_structure_events os dec rules z candles ≡ ok es
        → (is_history false (states es) ≡ true) × All IsPriced es
    unfolding build_structure_events
    build_structure_events_ordered candles es h =
        let (u, valid, h₁) = >>=-eq-ok (validate_inputs os dec z none candles) _ h in
        before_break-told 0 false [] (relevant_to os dec rules z candles) h₁
