-- ===== src/Adapters/Benchmark.antt =====
-- app/adapters/benchmark_models.py and app/adapters/benchmark_health.py: the snapshot of a
-- benchmark exchange, and whether it is fresh enough to count.
use dumpectorist.Prelude.{
  Bool, true, false, not, ◌≡◌, ◌↔◌, String, List, [], ◌∷◌, ◌++◌, Option, none, some, arith,
  if◌then◌else◌,
}
use dumpectorist.Prelude.Dict.{Key}
use dumpectorist.Prelude.Int.{ℤ, pos, ltb_ℤ, leb_ℤ}
use dumpectorist.Prelude.Number.{Num}
use dumpectorist.Prelude.Result.{Result, value_error, raise_if, ◌>>=◌, ◌>>◌}
use dumpectorist.Prelude.Text.{strip, is_blank}
use dumpectorist.Prelude.Time.{Datetime, require_aware, subtract}
use dumpectorist.Adapters.Decimals.{
  finite_decimal, positive_decimal, non_negative_decimal, optionally,
}

pub data BenchmarkSource : Type 0 where
  mexc gate bybit binance : BenchmarkSource

abbrev pub same_source : BenchmarkSource → BenchmarkSource → Bool
same_source BenchmarkSource.mexc BenchmarkSource.mexc = true
same_source BenchmarkSource.gate BenchmarkSource.gate = true
same_source BenchmarkSource.bybit BenchmarkSource.bybit = true
same_source BenchmarkSource.binance BenchmarkSource.binance = true
same_source _ _ = false

pub same_source_iff : (a b : BenchmarkSource) → (same_source a b ≡ true) ↔ (a ≡ b)
same_source_iff a b = ground arith

instance abbrev pub source_key : Key BenchmarkSource
source_key = record { same = same_source; same_iff = same_source_iff }

-- `role` has one value, `BENCHMARK_ONLY`, so its check cannot fail and it is left out.
pub record BenchmarkSnapshot (D : Type 0) : Type 0 where
  pub source : BenchmarkSource
  pub symbol : String
  pub received_at : Datetime
  pub latency_ms : ℤ
  pub source_timestamp : Option Datetime
  pub last_price : D
  pub mark_price : Option D
  pub index_price : Option D
  pub funding_rate : Option D
  pub open_interest : Option D
  pub best_bid : D
  pub best_ask : D
  pub spread : D
  pub spread_bps : D
  pub bid_depth_quote : D
  pub ask_depth_quote : D

abbrev pub require_aware_if_some : Option Datetime → String → Result (Unit {0})
require_aware_if_some none name = Result.ok tt
require_aware_if_some (some t) name = require_aware t name

-- `BenchmarkSnapshot.__post_init__`
unfoldable pub benchmark_snapshot :
    {D : Type 0} → Num D → BenchmarkSnapshot D → Result (BenchmarkSnapshot D)
unfolding positive_decimal finite_decimal non_negative_decimal optionally
benchmark_snapshot dec s = do
  let symbol = strip s.symbol
  raise_if (is_blank symbol) (value_error "symbol is required")
  require_aware s.received_at "received_at"
  require_aware_if_some s.source_timestamp "source_timestamp"
  raise_if (ltb_ℤ s.latency_ms (pos 0)) (value_error "latency_ms must be non-negative")
  last ← positive_decimal dec s.last_price "last_price"
  mark ← optionally (positive_decimal dec) s.mark_price "mark_price"
  index ← optionally (positive_decimal dec) s.index_price "index_price"
  funding ← optionally (finite_decimal dec) s.funding_rate "funding_rate"
  interest ← optionally (non_negative_decimal dec) s.open_interest "open_interest"
  bid ← positive_decimal dec s.best_bid "best_bid"
  ask ← positive_decimal dec s.best_ask "best_ask"
  raise_if (dec.le ask bid) (value_error "benchmark book must not be crossed or locked")
  spread ← positive_decimal dec s.spread "spread"
  raise_if (not (dec.eq spread (dec.sub ask bid)))
      (value_error "spread does not match best bid and ask")
  bps ← positive_decimal dec s.spread_bps "spread_bps"
  bid_depth ← non_negative_decimal dec s.bid_depth_quote "bid_depth_quote"
  ask_depth ← non_negative_decimal dec s.ask_depth_quote "ask_depth_quote"
  Result.ok (record s {
    symbol = symbol;
    last_price = last;
    mark_price = mark;
    index_price = index;
    funding_rate = funding;
    open_interest = interest;
    best_bid = bid;
    best_ask = ask;
    spread = spread;
    spread_bps = bps;
    bid_depth_quote = bid_depth;
    ask_depth_quote = ask_depth;
  })

pub data BenchmarkHealthState : Type 0 where
  ok degraded stale : BenchmarkHealthState

pub record BenchmarkHealthRules (F : Type 0) : Type 0 where
  pub max_source_age_seconds : F
  pub max_receive_age_seconds : F
  pub max_latency_ms : ℤ

pub record BenchmarkHealthReport (F : Type 0) : Type 0 where
  pub source : BenchmarkSource
  pub symbol : String
  pub state : BenchmarkHealthState
  pub receive_age_seconds : F
  pub source_age_seconds : Option F
  pub reasons : List String

abbrev pub is_usable : {F : Type 0} → BenchmarkHealthReport F → Bool
is_usable r = elim r.state [ BenchmarkHealthState.ok ↦ true | _ ↦ false ]

-- `if b: reasons.append(text)`
abbrev pub reason_if : Bool → String → List String
reason_if true text = text ∷ []
reason_if false text = []

abbrev pub health_state : List String → List String → BenchmarkHealthState
health_state (r ∷ rs) others = BenchmarkHealthState.stale
health_state [] (r ∷ rs) = BenchmarkHealthState.degraded
health_state [] [] = BenchmarkHealthState.ok

module _ {F : Type 0} (flt : Num F) where
  -- `BenchmarkHealthRules.__post_init__`
  unfoldable pub benchmark_health_rules : BenchmarkHealthRules F → Result (BenchmarkHealthRules F)
  benchmark_health_rules r = do
    raise_if (flt.le r.max_source_age_seconds (flt.lit 0 0))
        (value_error "max_source_age_seconds must be positive")
    raise_if (flt.le r.max_receive_age_seconds (flt.lit 0 0))
        (value_error "max_receive_age_seconds must be positive")
    raise_if (leb_ℤ r.max_latency_ms (pos 0)) (value_error "max_latency_ms must be positive")
    Result.ok r

  -- `(a - b).total_seconds()`
  unfoldable pub age_seconds : Datetime → Datetime → Result F
  age_seconds a b = do d ← subtract a b; Result.ok (flt.int_div d (pos 1_000_000))

  unfoldable pub source_age : Datetime → Option Datetime → Result (Option F)
  unfolding age_seconds
  source_age now none = Result.ok none
  source_age now (some t) = do age ← age_seconds now t; Result.ok (some age)

  -- `age < -1`
  unfoldable pub is_future : F → Bool
  is_future age = flt.lt age (flt.neg (flt.lit 1 0))

  -- `elif age > limit`, after the test for the future.
  unfoldable pub is_old : F → F → Bool
  unfolding is_future
  is_old age limit = if is_future age then false else flt.lt limit age

  unfoldable pub stale_reasons : BenchmarkHealthRules F → F → Option F → List String
  unfolding is_old
  stale_reasons rules receive source =
      reason_if (is_old receive rules.max_receive_age_seconds) "RECEIVE_TIME_STALE" ++ elim source [
        | none ↦ []
        | some age ↦ reason_if (is_old age rules.max_source_age_seconds) "SOURCE_TIME_STALE"
      ]

  unfoldable pub degraded_reasons : BenchmarkHealthRules F → F → Option F → ℤ → List String
  unfolding is_future
  degraded_reasons rules receive source latency =
      reason_if (is_future receive) "RECEIVE_TIME_FROM_FUTURE"
      ++ (elim source [
        | none ↦ "SOURCE_TIMESTAMP_MISSING" ∷ []
        | some age ↦ reason_if (is_future age) "SOURCE_TIME_FROM_FUTURE"
      ]
          ++ reason_if (ltb_ℤ rules.max_latency_ms latency) "SOURCE_LATENCY_HIGH")

  unfoldable pub evaluate_benchmark_health :
      {D : Type 0}
      → BenchmarkSnapshot D
      → Datetime
      → BenchmarkHealthRules F
      → Result (BenchmarkHealthReport F)
  evaluate_benchmark_health s now rules = do
    require_aware now "now"
    receive ← age_seconds now s.received_at
    source ← source_age now s.source_timestamp
    let aged = stale_reasons rules receive source
    let doubtful = degraded_reasons rules receive source s.latency_ms
    Result.ok (record {
      source = s.source;
      symbol = s.symbol;
      state = health_state aged doubtful;
      receive_age_seconds = receive;
      source_age_seconds = source;
      reasons = aged ++ doubtful;
    })
