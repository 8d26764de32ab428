-- ===== src/Execution/Validator/Gates.antt =====
-- app/execution/lbank_validator.py: what an OK, a pending and a degraded validation mean.
use dumpectorist.Prelude.{false, ◌≡◌, ◌↔◌, String, List, [], ◌∷◌, arith, refl, sym, ◌∙◌}
use dumpectorist.Prelude.Int.{ℤ, pos, ◌≤ℤ◌}
use dumpectorist.Prelude.Number.{Num}
use dumpectorist.Prelude.Result.{ok, >>=-eq-ok, ok_injective}
use dumpectorist.Prelude.Time.{Datetime, subtract}
use dumpectorist.Adapters.Benchmark.{age_seconds}
use dumpectorist.Adapters.Lbank.{LBankExecutionSnapshot}
use dumpectorist.Execution.Validator.{
  LBankExecutionStatus, LBankExecutionRules, LBankExecutionValidation, degraded_reasons,
  pending_reasons, verdict, validate_lbank_execution,
}

verdict_ok :
    (ds ps : List String) → ((verdict ds ps).0 ≡ LBankExecutionStatus.ok) ↔ ((ds ≡ []) × (ps ≡ []))
verdict_ok [] [] = ground arith
verdict_ok [] (p ∷ ps) = ground arith
verdict_ok (d ∷ ds) ps = ground arith

verdict_reasons :
    (ds ps : List String) → ((verdict ds ps).0 ≡ LBankExecutionStatus.ok) ↔ ((verdict ds ps).1 ≡ [])
verdict_reasons [] [] = ground arith
verdict_reasons [] (p ∷ ps) = ground arith
verdict_reasons (d ∷ ds) ps = ground arith

verdict_pending :
    (ds ps : List String) → (verdict ds ps).0 ≡ LBankExecutionStatus.execution_pending → ds ≡ []
verdict_pending [] ps h = refl
verdict_pending (d ∷ ds) ps h = cc

module _ {D F : Type 0} (dec : Num D) (flt : Num F) where
  -- The gates on freshness, latency, prices, spread and depth.
  pub record IsTradable (rules : LBankExecutionRules D F) (s : LBankExecutionSnapshot D) (age : F)
      : Type 0 where
    pub not_future : flt.lt age (flt.neg (flt.lit 1 0)) ≡ false
    pub not_stale : flt.lt rules.max_age_seconds age ≡ false
    pub latency : s.latency_ms ≤ℤ rules.max_latency_ms
    pub last_price : dec.le s.quote.last_price (dec.lit 0 0) ≡ false
    pub marked_price : dec.le s.quote.marked_price (dec.lit 0 0) ≡ false
    pub spread : dec.le s.spread (dec.lit 0 0) ≡ false
    pub spread_bps : dec.le s.spread_bps (dec.lit 0 0) ≡ false
    pub spread_width : dec.lt rules.max_spread_bps s.spread_bps ≡ false
    pub bid_depth : dec.lt s.bid_depth_quote rules.min_bid_depth_quote ≡ false
    pub ask_depth : dec.lt s.ask_depth_quote rules.min_ask_depth_quote ≡ false

  -- The part of them whose failure degrades the data.
  abbrev pub IsFresh : LBankExecutionRules D F → LBankExecutionSnapshot D → F → Type 0
  IsFresh rules s age =
      (flt.lt age (flt.neg (flt.lit 1 0)) ≡ false)
      × (flt.lt rules.max_age_seconds age ≡ false)
      × (s.latency_ms ≤ℤ rules.max_latency_ms)
      × (dec.le s.quote.last_price (dec.lit 0 0) ≡ false)
      × (dec.le s.quote.marked_price (dec.lit 0 0) ≡ false)
      × (dec.le s.spread (dec.lit 0 0) ≡ false)
      × (dec.le s.spread_bps (dec.lit 0 0) ≡ false)

  degraded-nil :
      (rules : LBankExecutionRules D F) (s : LBankExecutionSnapshot D) (age : F)
      → degraded_reasons dec flt rules s age ≡ []
      → IsFresh rules s age
  unfolding degraded_reasons
  degraded-nil rules s age h = ground arith

  nil-degraded :
      (rules : LBankExecutionRules D F) (s : LBankExecutionSnapshot D) (age : F)
      → IsTradable rules s age
      → degraded_reasons dec flt rules s age ≡ []
  unfolding degraded_reasons
  nil-degraded rules s age h = ground arith

  pending-nil :
      (rules : LBankExecutionRules D F) (s : LBankExecutionSnapshot D) (age : F)
      → IsFresh rules s age
      → pending_reasons dec flt rules s ≡ []
      → IsTradable rules s age
  unfolding pending_reasons
  pending-nil rules s age fresh h = ground arith

  nil-pending :
      (rules : LBankExecutionRules D F) (s : LBankExecutionSnapshot D) (age : F)
      → IsTradable rules s age
      → pending_reasons dec flt rules s ≡ []
  unfolding pending_reasons
  nil-pending rules s age h = ground arith

  -- The age is the time from the receipt of the snapshot to now, in seconds.
  abbrev pub IsAge : Datetime → LBankExecutionSnapshot D → F → Type 0
  IsAge now s age =
      (micros : ℤ) × (subtract now s.received_at ≡ ok micros)
      × (age ≡ flt.int_div micros (pos 1_000_000))

  IsAge-of_seconds :
      (now : Datetime) (s : LBankExecutionSnapshot D) {age : F}
      → age_seconds flt now s.received_at ≡ ok age
      → IsAge now s age
  unfolding age_seconds
  IsAge-of_seconds now s h =
      let (micros, taken, made) = >>=-eq-ok (subtract now s.received_at) _ h in
      (micros, taken, sym (ok_injective made))

  -- How the fields of a validation come about.
  validate_parts :
      (s : LBankExecutionSnapshot D) (now : Datetime) (rules : LBankExecutionRules D F)
      {v : LBankExecutionValidation F}
      → validate_lbank_execution dec flt s now rules ≡ ok v
      → (v.symbol ≡ s.symbol)
        × IsAge now s v.age_seconds
        × (v.status
            ≡ (verdict
                (degraded_reasons dec flt rules s v.age_seconds)
                (pending_reasons dec flt rules s)).0)
        × (v.reasons
            ≡ (verdict
                (degraded_reasons dec flt rules s v.age_seconds)
                (pending_reasons dec flt rules s)).1)
  unfolding validate_lbank_execution
  validate_parts s now rules {v} h =
      let aged : age_seconds flt now s.received_at ≡ ok v.age_seconds = ground arith in
      (ground arith, IsAge-of_seconds now s aged, ground arith, ground arith)

  -- The age of a validation is the time from the receipt of the snapshot to now, in seconds. The
  -- validation is OK exactly when the snapshot passes every gate at that age, and exactly then it
  -- has no reasons. A pending one has fresh and sound data: its age, latency, prices and spread are
  -- within bounds.
  pub validate-ok_iff :
      (s : LBankExecutionSnapshot D) (now : Datetime) (rules : LBankExecutionRules D F)
      {v : LBankExecutionValidation F}
      → validate_lbank_execution dec flt s now rules ≡ ok v
      → IsAge now s v.age_seconds
        × ((v.status ≡ LBankExecutionStatus.ok) ↔ IsTradable rules s v.age_seconds)
        × ((v.status ≡ LBankExecutionStatus.ok) ↔ (v.reasons ≡ []))
        × (v.status ≡ LBankExecutionStatus.execution_pending → IsFresh rules s v.age_seconds)
  validate-ok_iff s now rules {v} h =
      let age = v.age_seconds in
      let (_, aged, status, reasons) = validate_parts s now rules h in
      let passed =
        verdict_ok (degraded_reasons dec flt rules s age) (pending_reasons dec flt rules s) in
      (
        aged,
        (
          λ e.
              let (ds, ps) = passed.0 (sym status ∙ e) in
              pending-nil rules s age (degraded-nil rules s age ds) ps,
          λ t. status ∙ passed.1 (nil-degraded rules s age t, nil-pending rules s age t),
        ),
        rw (status, reasons) (verdict_reasons _ _),
        λ e. degraded-nil rules s age (verdict_pending _ _ (sym status ∙ e)),
      )
