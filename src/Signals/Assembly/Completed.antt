-- ===== src/Signals/Assembly/Completed.antt =====
-- app/signals/service.py: the gates of a report, after `_complete_gates`.
use dumpectorist.Prelude.{
  ◌≡◌, String, List, [], ◌∷◌, some, map, arith, refl, eq_iff, Option-cases, inl, inr,
}
use dumpectorist.Prelude.Dict.{Dict, string_key, insert, lookup, lookup-insert}
use dumpectorist.Prelude.Number.{Num}
use dumpectorist.Prelude.Result.{ok, >>=-eq-ok}
use dumpectorist.Prelude.Time.{Datetime, require_aware}
use dumpectorist.Signals.Models.{
  GateDecision, SignalAssemblyRules, SignalAssemblyRequest, SignalAssemblyReport,
}
use dumpectorist.Signals.Gates.{gate_order}
use dumpectorist.Signals.Assembly.{by_name, gate_named, complete_gates, evaluate, assemble_signal}
use dumpectorist.Signals.Assembly.Report.{finish-Finished}

-- Each gate is filed under its own name.
abbrev IsFiled : Dict String GateDecision → Type 0
IsFiled d = (k : String) (g : GateDecision) → lookup k d ≡ some g → g.name ≡ k

insert-IsFiled :
    (g : GateDecision) (d : Dict String GateDecision) → IsFiled d → IsFiled (insert g.name g d)
insert-IsFiled g d filed k h found =
    ground (arith, lookup-insert g.name k g d, eq_iff g.name k, filed k h)

module _ {D F : Type 0} (dec : Num D) (flt : Num F) (exact : F → D)
    (request : SignalAssemblyRequest D F) (now : Datetime) (rules : SignalAssemblyRules D F) where
  by_name-IsFiled :
      (gates : List GateDecision) (d : Dict String GateDecision)
      → IsFiled d
      → IsFiled (by_name dec flt exact request now rules d gates)
  unfolding by_name
  by_name-IsFiled [] d filed = filed
  by_name-IsFiled (g ∷ gs) d filed =
      by_name-IsFiled gs (insert g.name g d) (insert-IsFiled g d filed)

  gate_named-name :
      (d : Dict String GateDecision) (k : String)
      → IsFiled d
      → (gate_named dec flt exact request now rules d k).name ≡ k
  unfolding gate_named
  gate_named-name d k filed = elim (Option-cases (lookup k d)) [
    | inl missing ↦ rw (gate_named, missing) refl
    | inr (g, found) ↦ rw (gate_named, found) (filed k g found)
  ]

  map-gate_named :
      (d : Dict String GateDecision) (ks : List String)
      → IsFiled d
      → map (λ g. g.name) (map (gate_named dec flt exact request now rules d) ks) ≡ ks
  map-gate_named d [] filed = refl
  map-gate_named d (k ∷ ks) filed = rw (gate_named-name d k filed, map-gate_named d ks filed) refl

  -- Every report lists all eleven gates, by name and in their order, wherever the evaluation
  -- stopped.
  pub assemble-gates :
      (report : SignalAssemblyReport D F)
      → assemble_signal dec flt exact request now rules ≡ ok report
      → map (λ g. g.name) report.gates ≡ gate_order
  unfolding assemble_signal complete_gates lookup
  assemble-gates report h =
      let (_, _, h₁) = >>=-eq-ok (require_aware now "now") _ h in
      let (ev, run, h₂) = >>=-eq-ok (evaluate dec flt exact request now rules) _ h₁ in
      let f = finish-Finished dec flt exact request now rules ev h₂ in
      rw f.gates (
        map-gate_named (by_name dec flt exact request now rules [] ev.gates) gate_order
          (by_name-IsFiled ev.gates [] (λ k g found. cc)))
