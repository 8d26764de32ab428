-- ===== src/Structure/Analyzer.antt =====
-- app/structure/models.py and app/structure/analyzer.py: where a price stands in its range.
use dumpectorist.Prelude.{Bool, true, false, String, List, [], ◌∷◌, if◌then◌else◌}
use dumpectorist.Prelude.Number.{Num}
use dumpectorist.Prelude.Result.{Result, ok, value_error, raise_if, ◌>>=◌, ◌>>◌}
use dumpectorist.Prelude.Text.{strip, is_blank}
use dumpectorist.Numbers.{positive_finite_float}

pub data StructureState : Type 0 where
  neutral weak alert : StructureState

-- The value of the `StrEnum` member.
abbrev pub state_value : StructureState → String
state_value StructureState.neutral = "NEUTRAL"
state_value StructureState.weak = "WEAK"
state_value StructureState.alert = "ALERT"

pub record StructureInput (F : Type 0) : Type 0 where
  pub symbol : String
  pub current_value : F
  pub reference_low : F
  pub reference_high : F

pub record StructureSnapshot (F : Type 0) : Type 0 where
  pub symbol : String
  pub state : StructureState
  pub current_value : F
  pub reference_low : F
  pub reference_high : F
  pub reasons : List String

abbrev pub needs_review : {F : Type 0} → StructureSnapshot F → Bool
needs_review s = elim s.state [ StructureState.neutral ↦ false | _ ↦ true ]

module _ {F : Type 0} (flt : Num F) where
  -- `StructureInput.__post_init__`
  unfoldable pub structure_input : StructureInput F → Result (StructureInput F)
  unfolding positive_finite_float
  structure_input i = do
    let symbol = strip i.symbol
    raise_if (is_blank symbol) (value_error "symbol is required")
    current ← positive_finite_float flt i.current_value "current_value"
    low ← positive_finite_float flt i.reference_low "reference_low"
    high ← positive_finite_float flt i.reference_high "reference_high"
    raise_if (flt.le high low) (value_error "reference_low must be below reference_high")
    ok (record {
      symbol = symbol;
      current_value = current;
      reference_low = low;
      reference_high = high;
    })

  -- `StructureSnapshot.__post_init__`
  unfoldable pub structure_snapshot : StructureSnapshot F → Result (StructureSnapshot F)
  unfolding positive_finite_float
  structure_snapshot s = do
    let symbol = strip s.symbol
    raise_if (is_blank symbol) (value_error "symbol is required")
    current ← positive_finite_float flt s.current_value "current_value"
    low ← positive_finite_float flt s.reference_low "reference_low"
    high ← positive_finite_float flt s.reference_high "reference_high"
    raise_if (flt.le high low) (value_error "reference_low must be below reference_high")
    ok (record {
      symbol = symbol;
      state = s.state;
      current_value = current;
      reference_low = low;
      reference_high = high;
      reasons = s.reasons;
    })

  -- The three ranges of `analyze_structure`, with the reason that each gives.
  unfoldable pub classify_range : F → F → F → StructureState
  classify_range current low high =
      let midpoint = flt.div (flt.add low high) (flt.lit 2 0) in
      if flt.lt current low
      then StructureState.alert
      else if flt.lt current midpoint
      then StructureState.weak
      else StructureState.neutral

  abbrev pub range_reason : StructureState → String
  range_reason StructureState.alert = "outside reference range"
  range_reason StructureState.weak = "below midpoint"
  range_reason StructureState.neutral = "inside expected range"

  unfoldable pub analyze_structure : StructureInput F → Result (StructureSnapshot F)
  unfolding classify_range structure_snapshot
  analyze_structure i = do
    raise_if (flt.le i.reference_high i.reference_low) (value_error "invalid reference range")
    let state = classify_range i.current_value i.reference_low i.reference_high
    structure_snapshot (record {
      symbol = i.symbol;
      state = state;
      current_value = i.current_value;
      reference_low = i.reference_low;
      reference_high = i.reference_high;
      reasons = range_reason state ∷ [];
    })
