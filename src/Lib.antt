-- ===== src/Lib.antt =====
-- Dumpectorist finds candidates for short positions: it looks at a market's structure, checks the
-- price on LBank against other exchanges, draws a plan, and follows the plan's life. This library
-- models the program's decisions, and proves what they promise.
--
-- How the parts stand to the code:
-- - Signals (app/signals): `assemble_signal` runs a request through eleven gates. Each return of the
--   source hands the gates so far and what was computed to `_finish`; here `evaluate` returns them as
--   an `Evaluation`, and `finish` completes it. A caught exception is a case on a `Result`.
--   Assembly/Stops, Assembly/Grounds and Assembly/Outcome are about the gates, Assembly/Report and
--   Assembly/Completed about the report.
-- - Candles (app/candles): candles and their batches with the checks of the constructors, the report on
--   their age, and the payload that they are written to and read from.
-- - Structure (app/structure): Analyzer for a snapshot of one timeframe; Htf, Zones, Events and
--   Timeframe for htf_models.py, support_zones.py, structure_events.py and htf_engine.py. The loop of
--   `build_structure_events` is two functions, one before a break is confirmed and one after; an index
--   out of range is an IndexError as a value, and a list that the code knows not to be empty is its
--   first member and the rest.
-- - Setups (app/setups): Classifier labels a snapshot; Reclaim is reclaim_models.py, its Engine
--   reclaim_engine.py, and FromStructure the derivation of an attempt in runtime_analysis.py, which
--   takes an analysis of Structure.
-- - Flow (app/flow): whether the flow goes on.
-- - Planning (app/planning): `build_plan` with the checks of the constructors.
-- - Lifecycle (app/lifecycle): `create_lifecycle` and the three operations; Timeline is the machine
--   that they make.
-- - Adapters (app/adapters): the snapshots of LBank and of the benchmarks with the checks of their
--   constructors, the health of a benchmark, and in Limits the cache and the budget of requests of
--   source_cache.py, whose methods hold a lock and are one step. Fetching and parsing are not modelled.
-- - Execution (app/execution): the hard gates on an LBank snapshot, the symbol map, and the consensus
--   with the benchmark exchanges.
-- - Runtime (app/runtime): the models, the counters of telemetry.py, and the scheduler. The claims of
--   `run_due` hold a lock and are one step; a run ends in a step of its own, so a sequence of steps is
--   an interleaving. What the clock, the adapter and the store answer is an input of a run.
-- - Backtest (app/backtest): `run_backtest` over historical bars, and the metrics of its results.
-- - Numbers (app/core/numbers.py): the checks of a float.
-- - Prelude: texts, times, results, dicts and numbers. Examples: concrete cases.
--
-- What the platform does is a parameter. `float` and `Decimal` arithmetic is a record of operations
-- (Prelude.Number), taken twice where the code uses both; the laws of comparison that a proof uses
-- are a record as well, and Prelude.Fixed is a fixed-point instance of both. So are the conversion
-- from `float` to `Decimal`, the case of Unicode texts, the order of texts, the digest of a text,
-- the rounding of `timedelta(seconds=...)`, and `math.fsum`. Prelude.Platform holds what is called
-- of `datetime`, `decimal` and `hashlib`, with the law that what is printed can be read again, and
-- Prelude.Sorting the stable sort. An exception is a value with its type's name and its text; an
-- `except` compares the name, and no subclass of TimeoutError is modelled. In Structure.Zones a
-- `Decimal` operation that its context traps has no finite value, and raises; elsewhere such an
-- operation is taken to succeed. A time is naive or aware, in microseconds, and adding to it may
-- pass the end of the calendar. Integers are unbounded, as in Python.
--
-- No definition needs fuel: every loop of the code that is modelled goes over a sequence, and the
-- machines are relations.
--
-- Not modelled: input and output over HTTP, the database, the API, configuration, notifications,
-- backups, the parsers of exchange data, and the scheduler's waiting loop and cancellation: most of
-- what is left is calls of libraries. The stores of zones, events, attempts and candles are database
-- access.
pub mod Prelude
pub mod Numbers
pub mod Candles
pub mod Structure
pub mod Setups
pub mod Flow
pub mod Planning
pub mod Lifecycle
pub mod Adapters
pub mod Runtime
pub mod Execution
pub mod Signals
pub mod Backtest
pub mod Examples
