-- ===== src/Adapters/Limits/Cache.antt =====
-- app/adapters/source_cache.py: what the cache answers.
use dumpectorist.Prelude.{
  Bool, true, false, ◌≡◌, String, [], ◌∷◌, Option, none, some, Bool-cases, inl, inr, refl, sym, ap,
  ◌∙◌, arith, if◌then◌else◌,
}
use dumpectorist.Prelude.Dict.{Dict, lookup, lookup-insert, string_key}
use dumpectorist.Prelude.Number.{Num, NumLaws}
use dumpectorist.Adapters.Limits.{CacheEntry, AsyncTtlCache, forget, answer, get, set}

skipped :
    {V : Type 0} (p q : Bool) (v : V) (l : Option V)
    → q ≡ p
    → (if p then none else l) ≡ (if p then none else if q then some v else l)
skipped true q v l h = refl
skipped false q v l h = rw (h) refl

kept :
    {V : Type 0} (p q : Bool) (v : V) (l m : Option V)
    → l ≡ (if p then none else m)
    → (p ≡ true → q ≡ false)
    → (if q then some v else l) ≡ (if p then none else if q then some v else m)
kept true q v l m h f = rw (f refl) h
kept false q v l m h f = rw (h) refl

lookup-forget :
    {V : Type 0} (a b : String) (d : Dict String V)
    → lookup b (forget a d) ≡ (if string_key.same a b then none else lookup b d)
unfolding lookup forget
lookup-forget a b [] = ground arith
lookup-forget a b ((x, v) ∷ d) = elim (Bool-cases (string_key.same x a)) [
  | inl here ↦
      rw (forget, here)
        (lookup-forget a b d
          ∙ skipped (string_key.same a b) (string_key.same x b) v (lookup b d)
              (ap (λ k. string_key.same k b) ((string_key.same_iff x a).0 here)))
  | inr there ↦
      rw (forget, there)
        (kept (string_key.same a b) (string_key.same x b) v (lookup b (forget a d)) (lookup b d)
          (lookup-forget a b d)
          (λ e. ap (λ k. string_key.same x k) (sym ((string_key.same_iff a b).0 e)) ∙ there))
]

module _ {X F : Type 0} (flt : Num F) where
  -- What a read shows.
  abbrev pub shown : F → Option (CacheEntry X F) → Option X
  shown now none = none
  shown now (some e) = if flt.le e.expires_at now then none else some e.value

  get-shown :
      (c : AsyncTtlCache X F) (key : String) (now : F)
      → (get flt c key now).1 ≡ shown now (lookup key c.items)
  unfolding get answer
  get-shown c key now = ground arith

  shown_either :
      (later : F) (p : Bool) (e : CacheEntry X F) (o : Option (CacheEntry X F))
      → shown later (if p then some e else o)
        ≡ (if p then if flt.le e.expires_at later then none else some e.value else shown later o)
  shown_either later true e o = refl
  shown_either later false e o = refl

  gone :
      (later : F) (e : CacheEntry X F)
      → flt.le e.expires_at later ≡ true
      → shown later (some e) ≡ none
  gone later e past = rw (past) refl

  expired_shown :
      (later : F) (a b : String) (e : CacheEntry X F) (d : Dict String (CacheEntry X F))
      → lookup a d ≡ some e
      → flt.le e.expires_at later ≡ true
      → shown later (lookup b (forget a d)) ≡ shown later (lookup b d)
  expired_shown later a b e d found past = elim (Bool-cases (string_key.same a b)) [
    | inr other ↦ rw (lookup-forget a b d, other) refl
    | inl same ↦
        rw (lookup-forget a b d, same, ← (string_key.same_iff a b).0 same, found)
          (sym (gone later e past))
  ]

  answer-shown :
      (c : AsyncTtlCache X F) (a b : String) (now later : F) (o : Option (CacheEntry X F))
      → lookup a c.items ≡ o
      → ((e : CacheEntry X F)
          → o ≡ some e
          → flt.le e.expires_at now ≡ true
          → flt.le e.expires_at later ≡ true)
      → shown later (lookup b (answer flt c a now o).0.items) ≡ shown later (lookup b c.items)
  unfolding answer
  answer-shown c a b now later none found past = refl
  answer-shown c a b now later (some e) found past = elim (Bool-cases (flt.le e.expires_at now)) [
    | inl old ↦ rw (answer, old) (expired_shown later a b e c.items found (past e refl old))
    | inr young ↦ rw (answer, young) refl
  ]

  -- A value that is set is read until its time to live has passed, and not from then on, and what the
  -- other keys hold is read as before.
  pub get-set :
      (c : AsyncTtlCache X F) (a b : String) (v : X) (now later : F)
      → (get flt (set flt c a v now) b later).1 ≡ (
          if string_key.same a b
          then if flt.le (flt.add now c.ttl_seconds) later then none else some v
          else (get flt c b later).1)
  unfolding set
  get-set c a b v now later =
      let e : CacheEntry X F = record { value = v; expires_at = flt.add now c.ttl_seconds } in
      get-shown (set flt c a v now) b later
      ∙ ap (shown later) (lookup-insert a b e c.items)
      ∙ shown_either later (string_key.same a b) e (lookup b c.items)
      ∙ ap
          (λ r.
            if string_key.same a b
            then if flt.le (flt.add now c.ttl_seconds) later then none else some v
            else r)
          (sym (get-shown c b later))

  -- Where the order of times is transitive, a read changes no later read, of any key.
  pub get-get :
      (laws : NumLaws flt) (c : AsyncTtlCache X F) (a b : String) (now later : F)
      → flt.le now later ≡ true
      → (get flt (get flt c a now).0 b later).1 ≡ (get flt c b later).1
  unfolding get
  get-get laws c a b now later h =
      get-shown (get flt c a now).0 b later
      ∙ answer-shown c a b now later (lookup a c.items) refl
          (λ e found old. laws.le_trans e.expires_at now later old h)
      ∙ sym (get-shown c b later)
