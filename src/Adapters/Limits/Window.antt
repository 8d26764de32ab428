-- ===== src/Adapters/Limits/Window.antt =====
-- app/adapters/source_cache.py: the budget against the log of all requests that it has granted.
use dumpectorist.Prelude.{
  Bool, true, false, not, ◌≡◌, ℕ, ◌+◌, ◌≤◌, List, [], ◌∷◌, ◌++◌, length, length-append,
  append_assoc, leb, ltb, All, All-append, All-map, All-parts, refl, sym, ap, ◌∙◌, Bool-cases, inl,
  inr, arith, if◌then◌else◌,
}
use dumpectorist.Prelude.Number.{Num, NumLaws}
use dumpectorist.Prelude.Result.{is_ok}
use dumpectorist.Prelude.Scans.{count_where}
use dumpectorist.Adapters.Limits.{SlidingWindowBudget, purge, acquire}

module _ {F : Type 0} (flt : Num F) (laws : NumLaws flt) where
  -- The granted requests after the boundary.
  abbrev pub since : F → List F → ℕ
  since boundary = count_where (λ t. not (flt.le t boundary))

  -- Each time is not before those before it.
  abbrev IsOrdered : List F → Type 0
  IsOrdered [] = Unit
  IsOrdered (t ∷ ts) = All (λ u. flt.le t u ≡ true) ts × IsOrdered ts

  since-append : (b : F) (xs ys : List F) → since b (xs ++ ys) ≡ since b xs + since b ys
  since-append b [] ys = omega arith
  since-append b (x ∷ xs) ys = ground (arith, since-append b xs ys)

  since-old : (b : F) (xs : List F) → All (λ t. flt.le t b ≡ true) xs → since b xs ≡ 0
  since-old b [] h = refl
  since-old b (x ∷ xs) h = ground (arith, h.0, since-old b xs h.1)

  since-young :
      (b t : F) (ts : List F)
      → flt.le t b ≡ false
      → All (λ u. flt.le t u ≡ true) ts
      → since b ts ≡ length ts
  since-young b t [] h k = refl
  since-young b t (u ∷ us) h k =
      ground (arith, laws.le_trans t u b, h, k.0, since-young b t us h k.1)

  -- What is dropped and what is kept.
  purge-parts :
      (b : F) (ts : List F)
      → IsOrdered ts
      → (gone : List F) × (ts ≡ gone ++ purge flt b ts)
        × All (λ t. flt.le t b ≡ true) gone
        × IsOrdered (purge flt b ts)
        × (since b (purge flt b ts) ≡ length (purge flt b ts))
  unfolding purge
  purge-parts b [] h = ([], refl, tt, tt, refl)
  purge-parts b (t ∷ ts) h = elim (Bool-cases (flt.le t b)) [
    | inl old ↦
        let (gone, same, all, ordered, young) = purge-parts b ts h.1 in
        (
          t ∷ gone,
          rw (purge, old) (ap (λ r. t ∷ r) same),
          (old, all),
          rw (purge, old) ordered,
          rw (purge, old) young,
        )
    | inr fresh ↦ (
      [],
      rw (purge, fresh) refl,
      tt,
      rw (purge, fresh) h,
      rw (purge, fresh) (ground (arith, fresh, since-young b t ts fresh h.0)),
    )
  ]

  since_bounded : (b : F) (xs : List F) → since b xs ≤ length xs
  since_bounded b [] = omega arith
  since_bounded b (x ∷ xs) = ground (arith, since_bounded b xs)

  All-later :
      (a b : F) (ts : List F)
      → flt.le a b ≡ true
      → All (λ t. flt.le t a ≡ true) ts
      → All (λ t. flt.le t b ≡ true) ts
  All-later a b ts h k = All-map ts (λ t below. laws.le_trans t a b below h) k

  IsOrdered-append :
      (ts : List F) (now : F)
      → IsOrdered ts
      → All (λ t. flt.le t now ≡ true) ts
      → IsOrdered (ts ++ now ∷ [])
  IsOrdered-append [] now h k = (tt, tt)
  IsOrdered-append (t ∷ ts) now h k = (
    All-append (λ u. flt.le t u ≡ true) ts (now ∷ []) h.0 (k.0, tt),
    IsOrdered-append ts now h.1 k.1,
  )

  module _ (shift : (a b w : F) → flt.le a b ≡ true → flt.le (flt.sub a w) (flt.sub b w) ≡ true)
      (m : ℕ) (w : F) where
    abbrev pub budget_of : List F → SlidingWindowBudget F
    budget_of ts = record { max_requests = m; window_seconds = w; requests = ts }

    -- The log after an answer.
    abbrev pub log_after : List F → F → Bool → List F
    log_after log now granted = if granted then log ++ now ∷ [] else log

    -- What a budget has come to: the last time of the clock, the log of what was granted, and the
    -- requests that are held. The clock is monotonic, and what it says is a number.
    pub data Reach : F → List F → List F → Type 0 where
      fresh : (c : F) → Reach c [] []
      asked :
          {c now : F} {log ts : List F}
          → Reach c log ts
          → flt.le c now ≡ true
          → flt.le now now ≡ true
          → Reach now
              (log_after log now (is_ok (acquire flt (budget_of ts) now).1))
              (acquire flt (budget_of ts) now).0.requests

    -- The log is what was dropped and what is held.
    record Holds (c : F) (log ts : List F) : Type 0 where
      gone : List F
      parts : log ≡ gone ++ ts
      old : All (λ t. flt.le t (flt.sub c w) ≡ true) gone
      ordered : IsOrdered ts
      past : All (λ t. flt.le t c ≡ true) ts
      few : length ts ≤ m

    -- The purge at a later time.
    record Purged (now : F) (log ts : List F) : Type 0 where
      dropped : List F
      log_parts : log ≡ dropped ++ purge flt (flt.sub now w) ts
      dropped_old : All (λ t. flt.le t (flt.sub now w) ≡ true) dropped
      kept_ordered : IsOrdered (purge flt (flt.sub now w) ts)
      kept_past : All (λ t. flt.le t now ≡ true) (purge flt (flt.sub now w) ts)
      counted : since (flt.sub now w) log ≡ length (purge flt (flt.sub now w) ts)
      fewer : length (purge flt (flt.sub now w) ts) ≤ m

    purged :
        (c now : F) (log ts : List F) → flt.le c now ≡ true → Holds c log ts → Purged now log ts
    purged c now log ts h k =
        let b = flt.sub now w in
        let (gone, same, all, ordered, young) = purge-parts b ts k.ordered in
        let kept = purge flt b ts in
        let stale =
          All-append (λ t. flt.le t b ≡ true) k.gone gone
            (All-later (flt.sub c w) b k.gone (shift c now w h) k.old) all in
        let split : log ≡ (k.gone ++ gone) ++ kept =
          k.parts ∙ ap (λ r. k.gone ++ r) same ∙ sym (append_assoc k.gone gone kept) in
        let late = All-later c now ts h k.past in
        record {
          dropped = k.gone ++ gone;
          log_parts = split;
          dropped_old = stale;
          kept_ordered = ordered;
          kept_past = (All-parts (λ t. flt.le t now ≡ true) gone kept (rw (same) at late)).1;
          counted =
              ap (since b) split
              ∙ since-append b (k.gone ++ gone) kept
              ∙ omega (arith, since-old b (k.gone ++ gone) stale, young);
          fewer = omega (arith, k.few, ap length same, length-append gone kept);
        }

    step-Holds :
        (now : F) (log ts : List F)
        → flt.le now now ≡ true
        → Purged now log ts
        → Holds now
            (log_after log now (is_ok (acquire flt (budget_of ts) now).1))
            (acquire flt (budget_of ts) now).0.requests
    unfolding acquire
    step-Holds now log ts number p =
        let kept = purge flt (flt.sub now w) ts in
        elim (Bool-cases (leb m (length kept))) [
          | inl full ↦
              rw (acquire, full)
                (record {
                  gone = p.dropped;
                  parts = p.log_parts;
                  old = p.dropped_old;
                  ordered = p.kept_ordered;
                  past = p.kept_past;
                  few = p.fewer;
                })
          | inr room ↦
              rw (acquire, room)
                (record {
                  gone = p.dropped;
                  parts =
                      ap (λ r. r ++ now ∷ []) p.log_parts ∙ append_assoc p.dropped kept (now ∷ []);
                  old = p.dropped_old;
                  ordered = IsOrdered-append kept now p.kept_ordered p.kept_past;
                  past =
                      All-append (λ t. flt.le t now ≡ true) kept (now ∷ []) p.kept_past
                        (number, tt);
                  few = ground (arith, room, length-append kept (now ∷ []));
                })
        ]

    Reach-Holds : {c : F} {log ts : List F} → Reach c log ts → Holds c log ts
    Reach-Holds (Reach.fresh c) = record {
      gone = [];
      parts = refl;
      old = tt;
      ordered = tt;
      past = tt;
      few = omega arith;
    }
    Reach-Holds (Reach.asked {c} {now} {log} {ts} r later number) =
        step-Holds now log ts number (purged c now log ts later (Reach-Holds r))

    granted_iff :
        (now : F) (log ts : List F)
        → Purged now log ts
        → is_ok (acquire flt (budget_of ts) now).1 ≡ ltb (since (flt.sub now w) log) m
    unfolding acquire
    granted_iff now log ts p = ground (arith, p.counted)

    -- Where the order of times is transitive and subtraction keeps it, and the clock never goes back: a
    -- request is granted exactly when fewer than the maximum of those granted before are inside the
    -- window, and never are more than the maximum inside it.
    pub Reach-since :
        {c : F} {log ts : List F} (now : F)
        → Reach c log ts
        → flt.le c now ≡ true
        → (is_ok (acquire flt (budget_of ts) now).1 ≡ ltb (since (flt.sub now w) log) m)
          × (since (flt.sub now w) log ≤ m)
    Reach-since {c} {log} {ts} now r later =
        let p = purged c now log ts later (Reach-Holds r) in
        (granted_iff now log ts p, omega (arith, p.counted, p.fewer))
