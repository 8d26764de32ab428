-- ===== src/Examples/Lifecycles.antt =====
-- A held plan's record: activated, closed, and then left as it is.
use dumpectorist.Prelude.{true, ◌≡◌, ◌↔◌, ◌≤◌, [], none, refl}
use dumpectorist.Prelude.Int.{ℤ, pos}
use dumpectorist.Prelude.Fixed.{units}
use dumpectorist.Prelude.Result.{ok, is_ok, get_ok, get_ok-eq}
use dumpectorist.Prelude.Time.{is_aware, micros}
use dumpectorist.Planning.{PlanStatus, PlanDraft}
use dumpectorist.Lifecycle.{LifecycleRecord, is_terminal, create_lifecycle}
use dumpectorist.Lifecycle.Machine.{IsValid}
use dumpectorist.Lifecycle.Timeline.{
  Command, apply, Reach, IsTransition, created-Reach-IsValid, apply-IsTransition, Reach-terminal,
  apply_succeeds,
}
use dumpectorist.Examples.Market.{at_second}

abbrev held : PlanDraft ℤ
held = record {
  symbol = "BTC";
  status = PlanStatus.hold;
  entry_value = none;
  boundary_value = none;
  objective_value = none;
  multiplier = pos 1;
  ratio = units 2;
  notes = [];
}

held_creates : is_ok (create_lifecycle held (at_second 0) (pos 60)) ≡ true
unfolding create_lifecycle
held_creates = refl

abbrev created : LifecycleRecord
created = get_ok (create_lifecycle held (at_second 0) (pos 60)) held_creates

created_eq : create_lifecycle held (at_second 0) (pos 60) ≡ ok created
created_eq = get_ok-eq (create_lifecycle held (at_second 0) (pos 60)) held_creates

activates : is_ok (apply (Command.activate (at_second 5)) created) ≡ true
unfolding apply create_lifecycle dumpectorist.Lifecycle.activate_lifecycle
activates = refl

abbrev activated : LifecycleRecord
activated = get_ok (apply (Command.activate (at_second 5)) created) activates

activated_eq : apply (Command.activate (at_second 5)) created ≡ ok activated
activated_eq = get_ok-eq (apply (Command.activate (at_second 5)) created) activates

closes : is_ok (apply (Command.close (at_second 9) "  ") activated) ≡ true
unfolding apply create_lifecycle dumpectorist.Lifecycle.close_lifecycle
    dumpectorist.Lifecycle.activate_lifecycle
closes = refl

abbrev finished : LifecycleRecord
finished = get_ok (apply (Command.close (at_second 9) "  ") activated) closes

finished_eq : apply (Command.close (at_second 9) "  ") activated ≡ ok finished
finished_eq = get_ok-eq (apply (Command.close (at_second 9) "  ") activated) closes

two_steps : Reach created finished
two_steps =
    Reach.next (Command.close (at_second 9) "  ")
      (Reach.next (Command.activate (at_second 5)) Reach.here activated_eq) finished_eq

created-Reach-IsValid_example : IsValid finished
created-Reach-IsValid_example =
    created-Reach-IsValid held (at_second 0) (pos 60) created_eq two_steps

apply-IsTransition_example : IsTransition (at_second 9) activated finished
apply-IsTransition_example =
    apply-IsTransition (Command.close (at_second 9) "  ") activated finished_eq

finished_terminal : is_terminal finished ≡ true
unfolding apply create_lifecycle is_terminal dumpectorist.Lifecycle.close_lifecycle
    dumpectorist.Lifecycle.activate_lifecycle
finished_terminal = refl

advances : is_ok (apply (Command.advance (at_second 9_000)) finished) ≡ true
unfolding apply create_lifecycle dumpectorist.Lifecycle.advance_lifecycle
    dumpectorist.Lifecycle.close_lifecycle dumpectorist.Lifecycle.activate_lifecycle
advances = refl

abbrev advanced : LifecycleRecord
advanced = get_ok (apply (Command.advance (at_second 9_000)) finished) advances

much_later : Reach finished advanced
much_later =
    Reach.next (Command.advance (at_second 9_000)) Reach.here
      (get_ok-eq (apply (Command.advance (at_second 9_000)) finished) advances)

Reach-terminal_example : advanced ≡ finished
Reach-terminal_example = Reach-terminal finished_terminal much_later

apply_succeeds_example :
    (is_ok (apply (Command.advance (at_second 8)) created) ≡ true)
    ↔ ((is_aware (at_second 8) ≡ true) × (micros created.updated_at ≤ micros (at_second 8)))
apply_succeeds_example =
    apply_succeeds (Command.advance (at_second 8)) created
      (created-Reach-IsValid held (at_second 0) (pos 60) created_eq Reach.here)
