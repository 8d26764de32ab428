-- ===== src/Lifecycle.antt =====
-- app/lifecycle: the life of a plan, from creation to expiry or closing.
pub mod Machine
pub mod Timeline
use dumpectorist.Prelude.{
  Bool, true, false, ◌||◌, not, String, List, [], ◌∷◌, ◌++◌, Option, none, some, ◌*◌, if◌then◌else◌,
}
use dumpectorist.Prelude.Int.{ℤ, pos, leb_ℤ, pos_part}
use dumpectorist.Prelude.Result.{Result, ok, err, value_error, raise_if, ◌>>=◌, ◌>>◌}
use dumpectorist.Prelude.Text.{strip, is_blank}
use dumpectorist.Prelude.Time.{Datetime, require_aware, before, add_micros, micros_per_minute}
use dumpectorist.Planning.{PlanStatus, PlanDraft}

pub data LifecycleState : Type 0 where
  pending active expired closed : LifecycleState

abbrev pub state_value : LifecycleState → String
state_value LifecycleState.pending = "PENDING"
state_value LifecycleState.active = "ACTIVE"
state_value LifecycleState.expired = "EXPIRED"
state_value LifecycleState.closed = "CLOSED"

pub record LifecycleRecord : Type 0 where
  pub symbol : String
  pub state : LifecycleState
  pub created_at : Datetime
  pub updated_at : Datetime
  pub expires_at : Datetime
  pub closed_at : Option Datetime
  pub notes : List String

unfoldable pub is_terminal : LifecycleRecord → Bool
is_terminal r = elim r.state [
  | LifecycleState.expired ↦ true
  | LifecycleState.closed ↦ true
  | _ ↦ false
]

unfoldable pub is_active : LifecycleState → Bool
is_active s = elim s [ LifecycleState.active ↦ true | _ ↦ false ]

-- `_require_forward_time`
unfoldable pub require_forward_time : LifecycleRecord → Datetime → Result (Unit {0})
require_forward_time r now = do
  require_aware now "now"
  backwards ← before now r.updated_at
  raise_if backwards (value_error "time cannot move backwards")

unfoldable pub initial_state : PlanStatus → LifecycleState
initial_state PlanStatus.ready = LifecycleState.active
initial_state PlanStatus.hold = LifecycleState.pending

-- `now + timedelta(minutes=ttl_minutes)` is past the end of the calendar for a large `ttl_minutes`.
unfoldable pub create_lifecycle : {F : Type 0} → PlanDraft F → Datetime → ℤ → Result LifecycleRecord
unfolding initial_state is_active
create_lifecycle plan now ttl_minutes = do
  require_aware now "now"
  raise_if (leb_ℤ ttl_minutes (pos 0)) (value_error "ttl_minutes must be positive")
  let state = initial_state plan.status
  let note = if is_active state then "ready plan activated" else "held plan pending"
  expires_at ← add_micros now (pos_part ttl_minutes * micros_per_minute)
  ok (record {
    symbol = plan.symbol;
    state = state;
    created_at = now;
    updated_at = now;
    expires_at = expires_at;
    closed_at = none;
    notes = note ∷ [];
  })

unfoldable pub advance_lifecycle : LifecycleRecord → Datetime → Result LifecycleRecord
unfolding require_forward_time is_terminal
advance_lifecycle r now = do
  require_forward_time r now
  if is_terminal r then ok r else do
    early ← before now r.expires_at
    ok (
        if early then r else record r {
          state = LifecycleState.expired;
          updated_at = now;
          notes = r.notes ++ "expired" ∷ [];
        })

unfoldable pub activate_lifecycle : LifecycleRecord → Datetime → Result LifecycleRecord
unfolding require_forward_time is_terminal is_active advance_lifecycle
activate_lifecycle r now = do
  require_forward_time r now
  if is_terminal r || is_active r.state then ok r else do
    early ← before now r.expires_at
    if not early
        then advance_lifecycle r now
        else ok (record r {
          state = LifecycleState.active;
          updated_at = now;
          notes = r.notes ++ "activated" ∷ [];
        })

-- `note.strip() or "closed"`
unfoldable pub close_note : String → String
close_note note = let text = strip note in if is_blank text then "closed" else text

unfoldable pub close_lifecycle : LifecycleRecord → Datetime → String → Result LifecycleRecord
unfolding require_forward_time is_terminal close_note
close_lifecycle r now note = do
  require_forward_time r now
  if is_terminal r
      then ok r
      else ok (record r {
        state = LifecycleState.closed;
        updated_at = now;
        closed_at = some now;
        notes = r.notes ++ close_note note ∷ [];
      })
