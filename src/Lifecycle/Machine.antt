-- ===== src/Lifecycle/Machine.antt =====
-- app/lifecycle/service.py: the invariant of a lifecycle record, and what each operation does to it.
use dumpectorist.Prelude.{true, ◌≡◌, ◌≢◌, ◌≤◌, ◌<◌, none, some, String, arith}
use dumpectorist.Prelude.Int.{ℤ}
use dumpectorist.Prelude.Result.{ok}
use dumpectorist.Prelude.Time.{Datetime, is_aware, micros}
use dumpectorist.Planning.{PlanDraft}
use dumpectorist.Lifecycle.{
  LifecycleState, LifecycleRecord, create_lifecycle, advance_lifecycle, activate_lifecycle,
  close_lifecycle,
}

pub record IsValid (r : LifecycleRecord) : Type 0 where
  pub created_aware : is_aware r.created_at ≡ true
  pub updated_aware : is_aware r.updated_at ≡ true
  pub expires_aware : is_aware r.expires_at ≡ true
  pub created_le_updated : micros r.created_at ≤ micros r.updated_at
  pub created_lt_expires : micros r.created_at < micros r.expires_at
  -- A live record is not past its expiry, and an expired one is.
  pub active_before : r.state ≡ LifecycleState.active → micros r.updated_at < micros r.expires_at
  pub expired_after : r.state ≡ LifecycleState.expired → micros r.expires_at ≤ micros r.updated_at
  -- The closing time is set exactly when the record is closed.
  pub closed_time : r.state ≡ LifecycleState.closed → r.closed_at ≡ some r.updated_at
  pub open_time : r.state ≢ LifecycleState.closed → r.closed_at ≡ none

pub create_lifecycle-IsValid :
    {F : Type 0} (plan : PlanDraft F) (now : Datetime) (ttl : ℤ) {r : LifecycleRecord}
    → create_lifecycle plan now ttl ≡ ok r
    → IsValid r
unfolding create_lifecycle
create_lifecycle-IsValid plan now ttl h = ground arith

pub advance-IsValid :
    (r : LifecycleRecord) (now : Datetime) {s : LifecycleRecord}
    → IsValid r
    → advance_lifecycle r now ≡ ok s
    → IsValid s
unfolding advance_lifecycle
advance-IsValid r now v h = ground arith

pub activate-IsValid :
    (r : LifecycleRecord) (now : Datetime) {s : LifecycleRecord}
    → IsValid r
    → activate_lifecycle r now ≡ ok s
    → IsValid s
unfolding activate_lifecycle
activate-IsValid r now v h = ground arith

pub close-IsValid :
    (r : LifecycleRecord) (now : Datetime) (note : String) {s : LifecycleRecord}
    → IsValid r
    → close_lifecycle r now note ≡ ok s
    → IsValid s
unfolding close_lifecycle
close-IsValid r now note v h = ground arith
