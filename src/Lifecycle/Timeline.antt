-- ===== src/Lifecycle/Timeline.antt =====
-- app/lifecycle/service.py: the operations as steps of one machine, and what holds over any number
-- of them.
use dumpectorist.Prelude.{
  Bool, true, false, ◌≡◌, ◌≢◌, ◌≤◌, ◌<◌, String, List, [], ◌∷◌, ◌++◌, arith, refl, ap, ◌∙◌, take,
  length, ◌↔◌,
}
use dumpectorist.Prelude.Result.{Result, ok, is_ok}
use dumpectorist.Prelude.Int.{ℤ}
use dumpectorist.Prelude.Time.{Datetime, is_aware, micros}
use dumpectorist.Planning.{PlanDraft}
use dumpectorist.Lifecycle.{
  LifecycleState, LifecycleRecord, is_terminal, create_lifecycle, advance_lifecycle,
  activate_lifecycle, close_lifecycle, close_note,
}
use dumpectorist.Lifecycle.Machine.{
  IsValid, create_lifecycle-IsValid, advance-IsValid, activate-IsValid, close-IsValid,
}

-- What may be asked of a record; an operation that raises leaves no new record.
pub data Command : Type 0 where
  advance : Datetime → Command
  activate : Datetime → Command
  close : Datetime → String → Command

unfoldable pub apply : Command → LifecycleRecord → Result LifecycleRecord
apply (advance now) r = advance_lifecycle r now
apply (activate now) r = activate_lifecycle r now
apply (close now note) r = close_lifecycle r now note

abbrev pub at : Command → Datetime
at (advance now) = now
at (activate now) = now
at (close now note) = now

pub data Reach (r : LifecycleRecord) : LifecycleRecord → Type 0 where
  here : Reach r r
  next : {s t : LifecycleRecord} (c : Command) → Reach r s → apply c s ≡ ok t → Reach r t

apply-IsValid :
    (c : Command) (r : LifecycleRecord) {s : LifecycleRecord}
    → IsValid r
    → apply c r ≡ ok s
    → IsValid s
unfolding apply
apply-IsValid (advance now) r v h = advance-IsValid r now v h
apply-IsValid (activate now) r v h = activate-IsValid r now v h
apply-IsValid (close now note) r v h = close-IsValid r now note v h

pub Reach-IsValid : {r s : LifecycleRecord} → IsValid r → Reach r s → IsValid s
Reach-IsValid v here = v
Reach-IsValid v (next {s} c p h) = apply-IsValid c s (Reach-IsValid v p) h

-- Every record that any sequence of operations makes of a created one is valid: its times are
-- ordered, an active record is before its expiry, an expired one is not, and it has a closing time
-- exactly when it is closed.
pub created-Reach-IsValid :
    {F : Type 0} (plan : PlanDraft F) (now : Datetime) (ttl : ℤ) {r s : LifecycleRecord}
    → create_lifecycle plan now ttl ≡ ok r
    → Reach r s
    → IsValid s
created-Reach-IsValid plan now ttl made p =
    Reach-IsValid (create_lifecycle-IsValid plan now ttl made) p

-- The edges between states.
abbrev pub follows : LifecycleState → LifecycleState → Bool
follows LifecycleState.pending s = true
follows LifecycleState.active LifecycleState.pending = false
follows LifecycleState.active _ = true
follows LifecycleState.expired LifecycleState.expired = true
follows LifecycleState.expired _ = false
follows LifecycleState.closed LifecycleState.closed = true
follows LifecycleState.closed _ = false

pub record IsTransition (now : Datetime) (r s : LifecycleRecord) : Type 0 where
  pub edge : follows r.state s.state ≡ true
  pub same_symbol : s.symbol ≡ r.symbol
  pub same_created : s.created_at ≡ r.created_at
  pub same_expires : s.expires_at ≡ r.expires_at
  pub forward : micros r.updated_at ≤ micros s.updated_at
  pub not_later : micros s.updated_at ≤ micros now
  pub kept_notes : take (length r.notes) s.notes ≡ r.notes
  pub expiry_due :
      r.state ≢ LifecycleState.expired
      → s.state ≡ LifecycleState.expired
      → micros r.expires_at ≤ micros now
  pub active_early :
      r.state ≢ LifecycleState.active
      → s.state ≡ LifecycleState.active
      → micros now < micros r.expires_at

take-length {ℓ} : {A : Type ℓ} (xs : List A) → take (length xs) xs ≡ xs
take-length [] = refl
take-length (x ∷ xs) = ap (λ r. x ∷ r) (take-length xs)

take-length_append {ℓ} : {A : Type ℓ} (xs ys : List A) → take (length xs) (xs ++ ys) ≡ xs
take-length_append [] ys = refl
take-length_append (x ∷ xs) ys = ap (λ r. x ∷ r) (take-length_append xs ys)

advance-IsTransition :
    (r : LifecycleRecord) (now : Datetime) {s : LifecycleRecord}
    → advance_lifecycle r now ≡ ok s
    → IsTransition now r s
unfolding advance_lifecycle
advance-IsTransition r now h =
    ground (arith, take-length r.notes, take-length_append r.notes ("expired" ∷ []))

activate-IsTransition :
    (r : LifecycleRecord) (now : Datetime) {s : LifecycleRecord}
    → activate_lifecycle r now ≡ ok s
    → IsTransition now r s
unfolding activate_lifecycle
activate-IsTransition r now h = ground (
  arith,
  take-length r.notes,
  take-length_append r.notes ("expired" ∷ []),
  take-length_append r.notes ("activated" ∷ []),
)

close-IsTransition :
    (r : LifecycleRecord) (now : Datetime) (note : String) {s : LifecycleRecord}
    → close_lifecycle r now note ≡ ok s
    → IsTransition now r s
unfolding close_lifecycle
close-IsTransition r now note h =
    ground (arith, take-length r.notes, take-length_append r.notes (close_note note ∷ []))

-- A successful operation at time `now` follows an edge of the state diagram (nothing leaves
-- `expired` or `closed`), keeps the symbol, the creation and the expiry time, moves `updated_at`
-- forward and not past `now`, only appends notes, expires a record only at or after its expiry, and
-- activates one only before it.
pub apply-IsTransition :
    (c : Command) (r : LifecycleRecord) {s : LifecycleRecord}
    → apply c r ≡ ok s
    → IsTransition (at c) r s
unfolding apply
apply-IsTransition (advance now) r h = advance-IsTransition r now h
apply-IsTransition (activate now) r h = activate-IsTransition r now h
apply-IsTransition (close now note) r h = close-IsTransition r now note h

apply_terminal :
    (c : Command) (r : LifecycleRecord) {s : LifecycleRecord}
    → is_terminal r ≡ true
    → apply c r ≡ ok s
    → s ≡ r
unfolding apply advance_lifecycle activate_lifecycle close_lifecycle
apply_terminal (advance now) r t h = ground arith
apply_terminal (activate now) r t h = ground arith
apply_terminal (close now note) r t h = ground arith

-- An expired or closed record never changes again, whatever is asked of it.
pub Reach-terminal : {r s : LifecycleRecord} → is_terminal r ≡ true → Reach r s → s ≡ r
Reach-terminal t here = refl
Reach-terminal t (next {s} c p h) =
    let same = Reach-terminal t p in apply_terminal c s (rw same t) h ∙ same

-- On a valid record an operation succeeds exactly when its time is aware and not before the last
-- update.
pub apply_succeeds :
    (c : Command) (r : LifecycleRecord)
    → IsValid r
    → (is_ok (apply c r) ≡ true)
      ↔ ((is_aware (at c) ≡ true) × (micros r.updated_at ≤ micros (at c)))
unfolding apply advance_lifecycle activate_lifecycle close_lifecycle
apply_succeeds (advance now) r v = ground arith
apply_succeeds (activate now) r v = ground arith
apply_succeeds (close now note) r v = ground arith
