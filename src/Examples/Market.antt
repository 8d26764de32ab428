-- ===== src/Examples/Market.antt =====
-- Market data that passes every gate: the snapshots, the rules and the requests of the examples.
use dumpectorist.Prelude.{true, ℕ, ◌+◌, ◌*◌, List, [], ◌∷◌, none, some}
use dumpectorist.Prelude.Int.{ℤ, pos}
use dumpectorist.Prelude.Fixed.{units}
use dumpectorist.Prelude.Time.{Datetime}
use dumpectorist.Flow.{FlowStatus, FlowResult}
use dumpectorist.Planning.{PlanRequest}
use dumpectorist.Adapters.Lbank.{LBankExecutionSnapshot}
use dumpectorist.Adapters.Benchmark.{BenchmarkSource, BenchmarkSnapshot}
use dumpectorist.Execution.Validator.{LBankExecutionRules}
use dumpectorist.Execution.SymbolMap.{CrossExchangeSymbolMap}
use dumpectorist.Execution.Consensus.{ConsensusRules}
use dumpectorist.Signals.Models.{
  ShortSetupType, HigherTimeframeEvidenceOrigin, SignalAssemblyRules, SignalAssemblyRequest,
}

-- A time, in seconds after the start of a day.
abbrev pub at_second : ℕ → Datetime
at_second n = Datetime.aware (63_000_000_000_000_000 + n * 1_000_000)

abbrev pub noon : Datetime
noon = at_second 43_200

abbrev pub lbank_now : LBankExecutionSnapshot ℤ
lbank_now = record {
  source = "LBANK";
  product_group = "SwapU";
  symbol = "BTCUSDT";
  received_at = noon;
  latency_ms = pos 120;
  instrument = record {
    symbol = "BTCUSDT";
    base_currency = "BTC";
    price_currency = "USDT";
    clear_currency = "USDT";
    price_tick = pos 100_000;
    volume_tick = pos 1_000;
    volume_multiple = units 1;
    min_order_volume = none;
    min_order_cost = none;
  };
  quote = record {
    symbol = "BTCUSDT";
    last_price = units 100;
    marked_price = units 100;
    funding_rate = none;
    volume_24h = none;
    turnover_24h = none;
  };
  order_book = record {
    symbol = "BTCUSDT";
    best_bid = record { price = units 100; volume = units 50; orders = none };
    more_bids = [];
    best_ask = record { price = pos 100_100_000; volume = units 50; orders = none };
    more_asks = [];
  };
  spread = pos 100_000;
  spread_bps = units 10;
  bid_depth_quote = units 50_000;
  ask_depth_quote = units 50_000;
}

abbrev pub benchmark_of : BenchmarkSource → BenchmarkSnapshot ℤ
benchmark_of source = record {
  source = source;
  symbol = "BTCUSDT";
  received_at = noon;
  latency_ms = pos 90;
  source_timestamp = some noon;
  last_price = units 100;
  mark_price = none;
  index_price = none;
  funding_rate = none;
  open_interest = none;
  best_bid = units 99;
  best_ask = units 101;
  spread = units 2;
  spread_bps = units 200;
  bid_depth_quote = units 90_000;
  ask_depth_quote = units 90_000;
}

-- Two sources that count, and a third that repeats the first.
abbrev pub benchmarks : List (BenchmarkSnapshot ℤ)
benchmarks =
    benchmark_of BenchmarkSource.bybit
    ∷ benchmark_of BenchmarkSource.gate
    ∷ benchmark_of BenchmarkSource.bybit
    ∷ []

abbrev pub symbols : CrossExchangeSymbolMap
symbols = record {
  canonical_symbol = "BTC";
  lbank_symbol = "BTCUSDT";
  benchmark_symbols = (BenchmarkSource.bybit, "BTCUSDT") ∷ (BenchmarkSource.gate, "BTCUSDT") ∷ [];
  reliable = true;
}

abbrev pub lbank_rules : LBankExecutionRules ℤ ℤ
lbank_rules = record {
  max_age_seconds = units 15;
  max_latency_ms = pos 2_000;
  max_spread_bps = units 30;
  min_bid_depth_quote = units 10_000;
  min_ask_depth_quote = units 10_000;
}

abbrev pub rules_of_consensus : ConsensusRules ℤ ℤ
rules_of_consensus = record {
  minimum_fresh_sources = pos 2;
  warning_deviation_pct = pos 300_000;
  degraded_deviation_pct = pos 750_000;
  avoid_deviation_pct = pos 1_500_000;
  max_benchmark_dispersion_pct = units 1;
  benchmark_health = record {
    max_source_age_seconds = units 30;
    max_receive_age_seconds = units 15;
    max_latency_ms = pos 2_000;
  };
  lbank_execution = lbank_rules;
}

-- A short at 100, with the boundary at 105 and twice that distance to the objective, 90.
abbrev pub short_request : PlanRequest ℤ
short_request = record {
  symbol = "BTC";
  entry_value = units 100;
  boundary_value = units 105;
  multiplier = pos 3;
  ratio = units 2;
}

abbrev pub ready_flow : FlowResult
ready_flow = record { symbol = "BTC"; status = FlowStatus.ready; reasons = "ready" ∷ [] }

abbrev pub rules_of_assembly : SignalAssemblyRules ℤ ℤ
rules_of_assembly = record {
  max_structure_age_minutes = units 240;
  max_entry_deviation_bps = units 50;
  lifecycle_ttl_minutes = pos 60;
  max_discovery_records = pos 100;
  consensus = rules_of_consensus;
}

abbrev pub breakdown : SignalAssemblyRequest ℤ ℤ
breakdown = record {
  symbol = "BTC";
  setup_type = ShortSetupType.breakdown_short;
  higher_timeframe = record {
    symbol = "BTC";
    market_symbol = "BTCUSDT";
    observed_at = noon;
    daily_damaged = true;
    four_hour_damaged = true;
    origin = HigherTimeframeEvidenceOrigin.derived;
    daily_zone_id = some "d1";
    daily_event_id = some "d2";
    four_hour_zone_id = some "h1";
    four_hour_event_id = some "h2";
    reasons = [];
  };
  structure_input = record {
    symbol = "BTC";
    current_value = units 100;
    reference_low = units 110;
    reference_high = units 130;
  };
  lbank_snapshot = lbank_now;
  benchmark_snapshots = benchmarks;
  symbol_map = symbols;
  plan_request = short_request;
  discovery_records = [];
}
