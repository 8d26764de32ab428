-- ===== src/Adapters/Limits.antt =====
-- app/adapters/source_cache.py: the cache of answers with a time to live, and the budget of requests
-- in a sliding window. Each method holds a lock, and is one step; what the clock says is an argument.
pub mod Window
pub mod Cache
use dumpectorist.Prelude.{
  Bool, true, false, ◌≡◌, ℕ, String, List, [], ◌∷◌, ◌++◌, Option, none, some, length, leb, ◌==◌,
  if◌then◌else◌,
}
use dumpectorist.Prelude.Dict.{Key, Dict, lookup, insert, string_key}
use dumpectorist.Prelude.Number.{Num}
use dumpectorist.Prelude.Result.{Error, Result, ok, err, value_error, raise_if, ◌>>=◌, ◌>>◌}

pub record CacheEntry (X F : Type 0) : Type 0 where
  pub value : X
  pub expires_at : F

pub record AsyncTtlCache (X F : Type 0) : Type 0 where
  pub ttl_seconds : F
  pub items : Dict String (CacheEntry X F)

pub record SlidingWindowBudget (F : Type 0) : Type 0 where
  pub max_requests : ℕ
  pub window_seconds : F
  pub requests : List F

abbrev pub budget_exceeded : Error
budget_exceeded = record {
  kind = "RequestBudgetExceeded";
  message = "source request budget exceeded";
}

module _ {F : Type 0} (flt : Num F) where
  -- `SlidingWindowBudget.__init__`
  unfoldable pub sliding_window_budget : ℕ → F → Result (SlidingWindowBudget F)
  sliding_window_budget max_requests window_seconds = do
    raise_if (max_requests == 0) (value_error "max_requests must be positive")
    raise_if (flt.le window_seconds (flt.lit 0 0)) (value_error "window_seconds must be positive")
    ok (record { max_requests = max_requests; window_seconds = window_seconds; requests = [] })

  -- The loop that drops what has left the window.
  unfoldable pub purge : F → List F → List F
  purge boundary [] = []
  purge boundary (t ∷ ts) =
      let rest = purge boundary ts in if flt.le t boundary then rest else t ∷ ts

  -- `acquire`: the budget after it, and what it returns.
  unfoldable pub acquire : SlidingWindowBudget F → F → SlidingWindowBudget F × Result (Unit {0})
  unfolding purge
  acquire b now =
      let kept = purge (flt.sub now b.window_seconds) b.requests in
      if leb b.max_requests (length kept)
      then (record b { requests = kept }, err budget_exceeded)
      else (record b { requests = kept ++ now ∷ [] }, ok tt)

-- `self._items.pop(key, None)`
unfoldable pub forget : {V : Type 0} → String → Dict String V → Dict String V
forget a [] = []
forget a ((b, v) ∷ d) = let rest = forget a d in if string_key.same b a then rest else (b, v) ∷ rest

module _ {X F : Type 0} (flt : Num F) where
  -- `AsyncTtlCache.__init__`
  unfoldable pub async_ttl_cache : F → Result (AsyncTtlCache X F)
  async_ttl_cache ttl_seconds = do
    raise_if (flt.le ttl_seconds (flt.lit 0 0)) (value_error "ttl_seconds must be positive")
    ok (record { ttl_seconds = ttl_seconds; items = [] })

  -- What `get` returns, and the cache after it, of the entry that the key has.
  unfoldable pub answer :
      AsyncTtlCache X F → String → F → Option (CacheEntry X F) → AsyncTtlCache X F × Option X
  unfolding forget
  answer c key now none = (c, none)
  answer c key now (some e) =
      if flt.le e.expires_at now
      then (record c { items = forget key c.items }, none)
      else (c, some e.value)

  -- `get`
  unfoldable pub get : AsyncTtlCache X F → String → F → AsyncTtlCache X F × Option X
  unfolding answer
  get c key now = answer c key now (lookup key c.items)

  -- `set`
  unfoldable pub set : AsyncTtlCache X F → String → X → F → AsyncTtlCache X F
  set c key value now = record c {
    items = insert key (record { value = value; expires_at = flt.add now c.ttl_seconds }) c.items;
  }

  -- `clear`
  unfoldable pub clear : AsyncTtlCache X F → AsyncTtlCache X F
  clear c = record c { items = [] }
