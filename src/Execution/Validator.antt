-- ===== src/Execution/Validator.antt =====
-- app/execution/lbank_validator.py: the hard gates on an LBank snapshot.
pub mod Gates
use dumpectorist.Prelude.{Bool, true, false, ◌||◌, String, List, [], ◌∷◌, ◌++◌, if◌then◌else◌}
use dumpectorist.Prelude.Int.{ℤ, pos, ltb_ℤ, leb_ℤ}
use dumpectorist.Prelude.Number.{Num}
use dumpectorist.Prelude.Result.{Result, value_error, raise_if, ◌>>=◌, ◌>>◌}
use dumpectorist.Prelude.Time.{Datetime, require_aware}
use dumpectorist.Adapters.Lbank.{LBankExecutionSnapshot}
use dumpectorist.Adapters.Benchmark.{reason_if, age_seconds, is_future, is_old}

pub data LBankExecutionStatus : Type 0 where
  ok execution_pending data_degraded : LBankExecutionStatus

abbrev pub execution_status_value : LBankExecutionStatus → String
execution_status_value LBankExecutionStatus.ok = "OK"
execution_status_value LBankExecutionStatus.execution_pending = "EXECUTION_PENDING"
execution_status_value LBankExecutionStatus.data_degraded = "DATA_DEGRADED"

pub record LBankExecutionRules (D F : Type 0) : Type 0 where
  pub max_age_seconds : F
  pub max_latency_ms : ℤ
  pub max_spread_bps : D
  pub min_bid_depth_quote : D
  pub min_ask_depth_quote : D

pub record LBankExecutionValidation (F : Type 0) : Type 0 where
  pub symbol : String
  pub status : LBankExecutionStatus
  pub age_seconds : F
  pub reasons : List String

-- The status and the reasons that the two lists of reasons give.
abbrev pub verdict : List String → List String → LBankExecutionStatus × List String
verdict (r ∷ rs) pending = (LBankExecutionStatus.data_degraded, (r ∷ rs) ++ pending)
verdict [] (r ∷ rs) = (LBankExecutionStatus.execution_pending, r ∷ rs)
verdict [] [] = (LBankExecutionStatus.ok, [])

module _ {D F : Type 0} (dec : Num D) (flt : Num F) where
  -- `LBankExecutionRules.__post_init__`
  unfoldable pub lbank_execution_rules : LBankExecutionRules D F → Result (LBankExecutionRules D F)
  lbank_execution_rules r = do
    raise_if (flt.le r.max_age_seconds (flt.lit 0 0))
        (value_error "max_age_seconds must be positive")
    raise_if (leb_ℤ r.max_latency_ms (pos 0)) (value_error "max_latency_ms must be positive")
    raise_if (dec.le r.max_spread_bps (dec.lit 0 0)) (value_error "max_spread_bps must be positive")
    raise_if
        (dec.lt r.min_bid_depth_quote (dec.lit 0 0) || dec.lt r.min_ask_depth_quote (dec.lit 0 0))
        (value_error "depth thresholds must be non-negative")
    Result.ok r

  unfoldable pub spread_invalid : LBankExecutionSnapshot D → Bool
  spread_invalid s = dec.le s.spread (dec.lit 0 0) || dec.le s.spread_bps (dec.lit 0 0)

  unfoldable pub degraded_reasons :
      LBankExecutionRules D F → LBankExecutionSnapshot D → F → List String
  unfolding spread_invalid is_future is_old
  degraded_reasons rules s age =
      reason_if (is_future flt age) "SNAPSHOT_FROM_FUTURE"
      ++ (reason_if (is_old flt age rules.max_age_seconds) "SNAPSHOT_STALE"
          ++ (reason_if (ltb_ℤ rules.max_latency_ms s.latency_ms) "SOURCE_LATENCY_HIGH"
              ++ (reason_if
                    (dec.le s.quote.last_price (dec.lit 0 0)
                      || dec.le s.quote.marked_price (dec.lit 0 0))
                    "PRICE_INVALID"
                  ++ reason_if (spread_invalid s) "SPREAD_INVALID")))

  unfoldable pub pending_reasons : LBankExecutionRules D F → LBankExecutionSnapshot D → List String
  unfolding spread_invalid
  pending_reasons rules s =
      (if spread_invalid s
        then []
        else reason_if (dec.lt rules.max_spread_bps s.spread_bps) "SPREAD_TOO_WIDE")
      ++ (reason_if (dec.lt s.bid_depth_quote rules.min_bid_depth_quote) "BID_DEPTH_INSUFFICIENT"
          ++ reason_if (dec.lt s.ask_depth_quote rules.min_ask_depth_quote)
              "ASK_DEPTH_INSUFFICIENT")

  unfoldable pub validate_lbank_execution :
      LBankExecutionSnapshot D
      → Datetime
      → LBankExecutionRules D F
      → Result (LBankExecutionValidation F)
  validate_lbank_execution s now rules = do
    require_aware now "now"
    require_aware s.received_at "snapshot received_at"
    age ← age_seconds flt now s.received_at
    let (status, reasons) = verdict (degraded_reasons rules s age) (pending_reasons rules s)
    Result.ok (record { symbol = s.symbol; status = status; age_seconds = age; reasons = reasons })
