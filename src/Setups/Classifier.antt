-- ===== src/Setups/Classifier.antt =====
-- app/setups/models.py and app/setups/classifier.py: the label that a structure snapshot earns.
use dumpectorist.Prelude.{Bool, true, false, String, List, [], ◌∷◌, ◌++◌}
use dumpectorist.Structure.Analyzer.{StructureState, StructureSnapshot, state_value}

pub data SetupLabel : Type 0 where
  ignore watch review : SetupLabel

pub record SetupCandidate (F : Type 0) : Type 0 where
  pub symbol : String
  pub label : SetupLabel
  pub source_state : String
  -- `data`, in insertion order.
  pub values : List (String × F)
  pub reasons : List String

unfoldable pub is_actionable : {F : Type 0} → SetupCandidate F → Bool
is_actionable c = elim c.label [ SetupLabel.review ↦ true | _ ↦ false ]

unfoldable pub classify_state : StructureState → SetupLabel × String
classify_state StructureState.alert = (SetupLabel.review, "alert snapshot")
classify_state StructureState.weak = (SetupLabel.watch, "weak snapshot")
classify_state StructureState.neutral = (SetupLabel.ignore, "neutral snapshot")

unfoldable pub classify_snapshot : {F : Type 0} → StructureSnapshot F → SetupCandidate F
unfolding classify_state
classify_snapshot s =
    let (label, reason) = classify_state s.state in
    record {
      symbol = s.symbol;
      label = label;
      source_state = state_value s.state;
      values =
          ("current_value", s.current_value)
          ∷ ("reference_low", s.reference_low)
          ∷ ("reference_high", s.reference_high)
          ∷ [];
      reasons = s.reasons ++ reason ∷ [];
    }
