-- ===== src/Signals/Assembly/Stops.antt =====
-- app/signals/service.py: the gates that an evaluation has appended, and how it stops early.
use dumpectorist.Prelude.{
  Bool, true, ◌≡◌, ◌≢◌, ℕ, suc, String, List, [], ◌∷◌, ◌++◌, Option, none, some, map, take, any,
  All, All-append, arith, ap, ◌∙◌,
}
use mathlib.Core.List.{map-append}
use dumpectorist.Planning.{PlanStatus, PlanDraft}
use dumpectorist.Signals.Models.{GateDecision, SignalAssemblyStatus, passed}
use dumpectorist.Signals.Gates.{gate_order, Verdict, named}
use dumpectorist.Signals.Assembly.{Evaluation, is_fail}

abbrev pub Passed : GateDecision → Type 0
Passed g = passed g.state ≡ true

-- The gates so far are the first n of the order, and all have passed.
abbrev pub HasPassed : ℕ → List GateDecision → Type 0
HasPassed n gates = (map (λ g. g.name) gates ≡ take n gate_order) × All Passed gates

-- A stop: the gates are the first n of the order, and one has failed.
abbrev pub failed : GateDecision → Bool
failed g = is_fail g.state

unfoldable pub any_failed : List GateDecision → Bool
any_failed = any failed

-- A run that ends before `SHORT_READY`: some gate failed, there is no lifecycle, and no plan but a
-- held one.
pub record IsBlocked {D F : Type 0} (ev : Evaluation D F) : Type 0 where
  pub status : ev.status ≢ SignalAssemblyStatus.short_ready
  pub count : ℕ
  pub names : map (λ g. g.name) ev.gates ≡ take count gate_order
  pub failure : any_failed ev.gates ≡ true
  pub lifecycle : ev.lifecycle ≡ none
  pub plan : (p : PlanDraft F) → ev.plan ≡ some p → p.status ≡ PlanStatus.hold

pub any-append :
    (gs : List GateDecision) (g : GateDecision) → failed g ≡ true → any_failed (gs ++ g ∷ []) ≡ true
unfolding any_failed
any-append [] g h = ground arith
any-append (x ∷ gs) g h = ground (arith, any-append gs g h)

pub append-HasPassed :
    (n : ℕ) (gates : List GateDecision) (name : String) (v : Verdict)
    → HasPassed n gates
    → take n gate_order ++ name ∷ [] ≡ take (suc n) gate_order
    → passed v.0 ≡ true
    → HasPassed (suc n) (gates ++ named name v ∷ [])
append-HasPassed n gates name v h next good = (
  map-append (λ g. g.name) gates (named name v ∷ []) ∙ ap (λ ns. ns ++ name ∷ []) h.0 ∙ next,
  All-append Passed gates (named name v ∷ []) h.1 (good, tt),
)

pub append_names :
    (n : ℕ) (gates : List GateDecision) (name : String) (v : Verdict)
    → map (λ g. g.name) gates ≡ take n gate_order
    → take n gate_order ++ name ∷ [] ≡ take (suc n) gate_order
    → map (λ g. g.name) (gates ++ named name v ∷ []) ≡ take (suc n) gate_order
append_names n gates name v h next =
    map-append (λ g. g.name) gates (named name v ∷ []) ∙ ap (λ ns. ns ++ name ∷ []) h ∙ next

pub no_plan :
    {F : Type 0} {o : Option (PlanDraft F)}
    → o ≡ none
    → (p : PlanDraft F) → o ≡ some p
    → p.status ≡ PlanStatus.hold
no_plan h p e = absurd (cc (h, e))

-- A stop right after a gate that failed.
pub stop-IsBlocked :
    {D F : Type 0} (n : ℕ) (ev : Evaluation D F) (name : String) (v : Verdict)
    (status : SignalAssemblyStatus)
    → HasPassed n ev.gates
    → take n gate_order ++ name ∷ [] ≡ take (suc n) gate_order
    → is_fail v.0 ≡ true
    → status ≢ SignalAssemblyStatus.short_ready
    → ev.lifecycle ≡ none
    → ((p : PlanDraft F) → ev.plan ≡ some p → p.status ≡ PlanStatus.hold)
    → IsBlocked (record ev { gates = ev.gates ++ named name v ∷ []; status = status })
stop-IsBlocked n ev name v status h next bad other no_life no_plan = record {
  status = other;
  count = suc n;
  names = append_names n ev.gates name v h.0 next;
  failure = any-append ev.gates (named name v) bad;
  lifecycle = no_life;
  plan = no_plan;
}
