-- ===== src/Flow.antt =====
-- app/flow: whether a candidate has its data and may go on.
use dumpectorist.Prelude.{
  Bool, true, false, not, ◌||◌, String, List, [], ◌∷◌, ◌++◌, is_empty, str_eq, if◌then◌else◌,
}
use dumpectorist.Setups.Classifier.{SetupCandidate, is_actionable}

pub data FlowStatus : Type 0 where
  ready wait incomplete : FlowStatus

abbrev pub status_value : FlowStatus → String
status_value FlowStatus.ready = "READY"
status_value FlowStatus.wait = "WAIT"
status_value FlowStatus.incomplete = "INCOMPLETE"

pub record FlowResult : Type 0 where
  pub symbol : String
  pub status : FlowStatus
  pub reasons : List String

unfoldable pub is_ready : FlowResult → Bool
is_ready f = elim f.status [ FlowStatus.ready ↦ true | _ ↦ false ]

abbrev pub required_keys : List String
required_keys = "current_value" ∷ "reference_low" ∷ "reference_high" ∷ []

-- `key in data`
abbrev pub has_key : {F : Type 0} → String → List (String × F) → Bool
has_key k [] = false
has_key k ((j, v) ∷ d) = str_eq k j || has_key k d

-- `tuple(key for key in keys if key not in data)`
unfoldable pub missing_keys : {F : Type 0} → List String → List (String × F) → List String
missing_keys [] d = []
missing_keys (k ∷ ks) d = let rest = missing_keys ks d in if has_key k d then rest else k ∷ rest

unfoldable pub run_flow : {F : Type 0} → SetupCandidate F → FlowResult
unfolding missing_keys is_actionable
run_flow c =
    let missing = missing_keys required_keys c.values in
    if not (is_empty missing)
    then record {
      symbol = c.symbol;
      status = FlowStatus.incomplete;
      reasons = ("missing data" ∷ []) ++ missing;
    }
    else if not (is_actionable c)
    then record { symbol = c.symbol; status = FlowStatus.wait; reasons = "waiting" ∷ [] }
    else record { symbol = c.symbol; status = FlowStatus.ready; reasons = "ready" ∷ [] }
