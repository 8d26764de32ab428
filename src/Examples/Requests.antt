-- ===== src/Examples/Requests.antt =====
-- Two requests in a window of ten seconds that allows two, and a cache of five seconds.
use dumpectorist.Prelude.{true, ◌≡◌, ◌≤◌, ℕ, [], ◌∷◌, none, some, ltb, refl, arith, if◌then◌else◌}
use dumpectorist.Prelude.Dict.{string_key}
use dumpectorist.Prelude.Int.{ℤ, ◌-ℤ◌}
use dumpectorist.Prelude.Fixed.{fixed, fixed_laws, units}
use dumpectorist.Prelude.Result.{is_ok}
use dumpectorist.Adapters.Limits.{AsyncTtlCache, SlidingWindowBudget, acquire, get, set}
use dumpectorist.Adapters.Limits.Window.{Reach, since, budget_of, Reach-since}
use dumpectorist.Adapters.Limits.Cache.{get-set, get-get}

shift : (a b w : ℤ) → fixed.le a b ≡ true → fixed.le (fixed.sub a w) (fixed.sub b w) ≡ true
unfolding fixed ◌-ℤ◌
shift a b w h = ground arith

one_request : Reach fixed fixed_laws shift 2 (units 10) (units 1) (units 1 ∷ []) (units 1 ∷ [])
unfolding fixed acquire dumpectorist.Adapters.Limits.purge ◌-ℤ◌
one_request =
    Reach.asked {c = units 0} {now = units 1} {log = []} {ts = []} (Reach.fresh (units 0)) refl refl

two_requests :
    Reach fixed fixed_laws shift 2
      (units 10)
      (units 3)
      (units 1 ∷ units 3 ∷ [])
      (units 1 ∷ units 3 ∷ [])
unfolding fixed acquire dumpectorist.Adapters.Limits.purge ◌-ℤ◌
two_requests =
    Reach.asked {c = units 1} {now = units 3} {log = units 1 ∷ []} {ts = units 1 ∷ []} one_request
      refl refl

not_later_yet : fixed.le (units 3) (units 5) ≡ true
unfolding fixed
not_later_yet = refl

Reach-since_example :
    (is_ok
        (acquire fixed
          (budget_of fixed fixed_laws shift 2 (units 10) (units 1 ∷ units 3 ∷ []))
          (units 5)).1
      ≡ ltb (since fixed fixed_laws (fixed.sub (units 5) (units 10)) (units 1 ∷ units 3 ∷ [])) 2)
    × (since fixed fixed_laws (fixed.sub (units 5) (units 10)) (units 1 ∷ units 3 ∷ []) ≤ 2)
Reach-since_example =
    Reach-since fixed fixed_laws shift 2 (units 10) (units 5) two_requests not_later_yet

abbrev cache : AsyncTtlCache ℕ ℤ
cache = record { ttl_seconds = units 5; items = [] }

get-set_example : (get fixed (set fixed cache "book" 7 (units 1)) "book" (units 4)).1 ≡ (
    if string_key.same "book" "book"
    then if fixed.le (fixed.add (units 1) (units 5)) (units 4) then none else some 7
    else (get fixed cache "book" (units 4)).1)
get-set_example = get-set fixed cache "book" "book" 7 (units 1) (units 4)

in_order : fixed.le (units 4) (units 5) ≡ true
unfolding fixed
in_order = refl

get-get_example :
    (get fixed
      (get fixed (set fixed cache "book" 7 (units 1)) "book" (units 4)).0
      "book"
      (units 5)).1
    ≡ (get fixed (set fixed cache "book" 7 (units 1)) "book" (units 5)).1
get-get_example =
    get-get fixed fixed_laws (set fixed cache "book" 7 (units 1)) "book" "book" (units 4) (units 5)
      in_order
