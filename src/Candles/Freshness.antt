-- ===== src/Candles/Freshness.antt =====
-- app/candles/health.py: how old the latest candle of a batch may be.
use dumpectorist.Prelude.{
  Bool, true, false, String, List, [], ◌∷◌, Option, none, some, if◌then◌else◌,
}
use dumpectorist.Prelude.Int.{pos}
use dumpectorist.Prelude.Number.{Num}
use dumpectorist.Prelude.Result.{Result, value_error, raise_if, ◌>>=◌, ◌>>◌}
use dumpectorist.Prelude.Time.{Datetime, require_aware}
use dumpectorist.Adapters.Benchmark.{age_seconds}
use dumpectorist.Candles.{CandleBatch, duration, latest_candle}

pub data CandleFreshnessState : Type 0 where
  ok empty stale future : CandleFreshnessState

pub record CandleFreshnessRules (F : Type 0) : Type 0 where
  pub max_age_intervals : F
  pub future_tolerance_seconds : F

pub record CandleFreshnessReport (F : Type 0) : Type 0 where
  pub state : CandleFreshnessState
  pub age_seconds : Option F
  pub reasons : List String

abbrev is_ok_state : CandleFreshnessState → Bool
is_ok_state CandleFreshnessState.ok = true
is_ok_state _ = false

-- `CandleFreshnessReport.is_usable`
abbrev pub is_fresh : {F : Type 0} → CandleFreshnessReport F → Bool
is_fresh r = is_ok_state r.state

module _ {F : Type 0} (flt : Num F) where
  -- `CandleFreshnessRules.__post_init__`
  unfoldable pub candle_freshness_rules : CandleFreshnessRules F → Result (CandleFreshnessRules F)
  candle_freshness_rules r = do
    raise_if (flt.le r.max_age_intervals (flt.lit 0 0))
        (value_error "max_age_intervals must be positive")
    raise_if (flt.lt r.future_tolerance_seconds (flt.lit 0 0))
        (value_error "future_tolerance_seconds must be non-negative")
    Result.ok r

  abbrev pub aged : CandleFreshnessState → F → List String → CandleFreshnessReport F
  aged state age reasons = record { state = state; age_seconds = some age; reasons = reasons }

  -- `batch.interval.duration.total_seconds() * max_age_intervals`
  unfoldable pub maximum_age : {D : Type 0} → CandleBatch D → CandleFreshnessRules F → F
  maximum_age b rules =
      flt.mul (flt.int_div (pos (duration b.interval)) (pos 1_000_000)) rules.max_age_intervals

  unfoldable pub freshness_of :
      {D : Type 0} → CandleBatch D → CandleFreshnessRules F → F → CandleFreshnessReport F
  freshness_of b rules age =
      if flt.lt age (flt.neg rules.future_tolerance_seconds)
      then aged CandleFreshnessState.future age ("LATEST_CANDLE_FROM_FUTURE" ∷ [])
      else if flt.lt (maximum_age b rules) age
      then aged CandleFreshnessState.stale age ("LATEST_CANDLE_STALE" ∷ [])
      else aged CandleFreshnessState.ok age []

  unfoldable pub evaluate_candle_freshness :
      {D : Type 0}
      → CandleBatch D
      → Datetime
      → CandleFreshnessRules F
      → Result (CandleFreshnessReport F)
  evaluate_candle_freshness b now rules = do
    require_aware now "now"
    elim (latest_candle b) [
      | none ↦ Result.ok (record {
        state = CandleFreshnessState.empty;
        age_seconds = none;
        reasons = "NO_CLOSED_CANDLES" ∷ [];
      })
      | some c ↦ do age ← age_seconds flt now c.close_time; Result.ok (freshness_of b rules age)
    ]
