-- ===== src/Execution/SymbolMap.antt =====
-- app/execution/symbol_mapping.py: what an instrument is called on each exchange.
use dumpectorist.Prelude.{Bool, true, false, String, [], ◌∷◌, Option, is_empty}
use dumpectorist.Prelude.Dict.{Dict, lookup, insert}
use dumpectorist.Prelude.Result.{Result, ok, err, value_error, raise_if, ◌>>=◌, ◌>>◌}
use dumpectorist.Prelude.Text.{◌<>◌, strip, is_blank}
use dumpectorist.Adapters.Benchmark.{BenchmarkSource, source_key}

abbrev pub source_value : BenchmarkSource → String
source_value BenchmarkSource.mexc = "MEXC"
source_value BenchmarkSource.gate = "GATE"
source_value BenchmarkSource.bybit = "BYBIT"
source_value BenchmarkSource.binance = "BINANCE"

pub record CrossExchangeSymbolMap : Type 0 where
  pub canonical_symbol : String
  pub lbank_symbol : String
  pub benchmark_symbols : Dict BenchmarkSource String
  pub reliable : Bool

-- The loop that strips the symbols, into the dict so far.
unfoldable pub normalize_symbols :
    Dict BenchmarkSource String → Dict BenchmarkSource String → Result (Dict BenchmarkSource String)
normalize_symbols clean [] = ok clean
normalize_symbols clean ((source, symbol) ∷ rest) = elim (is_blank (strip symbol)) [
  | true ↦ err (value_error ("symbol is required for " <> source_value source))
  | false ↦ normalize_symbols (insert source (strip symbol) clean) rest
]

-- `CrossExchangeSymbolMap.__post_init__`
unfoldable pub cross_exchange_symbol_map : CrossExchangeSymbolMap → Result CrossExchangeSymbolMap
unfolding normalize_symbols
cross_exchange_symbol_map m = do
  let canonical = strip m.canonical_symbol
  let lbank = strip m.lbank_symbol
  raise_if (is_blank canonical) (value_error "canonical_symbol is required")
  raise_if (is_blank lbank) (value_error "lbank_symbol is required")
  symbols ← normalize_symbols [] m.benchmark_symbols
  raise_if (is_empty symbols) (value_error "at least one benchmark symbol is required")
  ok (record m { canonical_symbol = canonical; lbank_symbol = lbank; benchmark_symbols = symbols })

unfoldable pub expected_symbol : CrossExchangeSymbolMap → BenchmarkSource → Option String
unfolding lookup
expected_symbol m source = lookup source m.benchmark_symbols
