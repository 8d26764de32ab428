-- ===== src/Prelude/Dict.antt =====
-- Python's `dict` in insertion order and `set`, over any type of keys with a test for equality.
use Prim.Native.String.{String}
use mathlib.Core.Path.{◌≡◌, refl, sym, ap, ◌∙◌}
use mathlib.Core.Logic.{◌↔◌, inl, inr}
use mathlib.Core.Bool.{Bool, true, false, ◌&&◌, ◌||◌, not}
use mathlib.Core.Option.{Option, none, some}
use mathlib.Core.List.{List, [], ◌∷◌, ◌++◌}
use native.Mathlib.Omega.{arith}
use text.Mathlib.Text.{◌==◌ as str_eq}
use text.Mathlib.TextEquality.{eq_iff}
use dumpectorist.Prelude.Tests.{if◌then◌else◌, Bool-cases}

pub record Key (K : Type 0) : Type 0 where
  pub same : K → K → Bool
  pub same_iff : (a b : K) → (same a b ≡ true) ↔ (a ≡ b)

instance abbrev pub string_key : Key String
string_key = record { same = str_eq; same_iff = eq_iff }

abbrev pub Dict : Type 0 → Type 0 → Type 0
Dict K V = List (K × V)

or_false : (b : Bool) → b ≡ (b || false)
or_false b = ground arith

or_true : (b : Bool) → true ≡ (b || true)
or_true b = ground arith

module _ {K : Type 0} ⦃k : Key K⦄ where
  pub same_refl : (a : K) → k.same a a ≡ true
  same_refl a = (k.same_iff a a).1 refl

  -- `x in s` for a set kept as a list.
  unfoldable pub contains : K → List K → Bool
  contains a [] = false
  contains a (b ∷ s) = k.same b a || contains a s

  -- `s.add(x)`
  unfoldable pub add : K → List K → List K
  add a s = if contains a s then s else s ++ a ∷ []

  -- `s.discard(x)`
  unfoldable pub discard : K → List K → List K
  discard a [] = []
  discard a (b ∷ s) = let rest = discard a s in if k.same b a then rest else b ∷ rest

  pub contains-append :
      (a : K) (s t : List K) → contains a (s ++ t) ≡ (contains a s || contains a t)
  unfolding contains
  contains-append a [] t = refl
  contains-append a (b ∷ s) t = ground (arith, contains-append a s t)

  contains_same :
      (a b : K) (s : List K) → contains a s ≡ true → contains b s ≡ (contains b s || k.same a b)
  contains_same a b s h = elim (Bool-cases (k.same a b)) [
    | inl e ↦ rw e (rw ((k.same_iff a b).0 e) at h ∙ or_true (contains b s))
    | inr e ↦ rw e (or_false (contains b s))
  ]

  pub contains-add : (a b : K) (s : List K) → contains b (add a s) ≡ (contains b s || k.same a b)
  unfolding add contains
  contains-add a b s = elim (Bool-cases (contains a s)) [
    | inl old ↦ rw old (contains_same a b s old)
    | inr new ↦
        rw new
          (contains-append b s (a ∷ []) ∙ ap (λ x. contains b s || x) (sym (or_false (k.same a b))))
  ]

  pub contains-discard :
      (a b : K) (s : List K) → contains b (discard a s) ≡ (contains b s && not (k.same a b))
  unfolding contains discard
  contains-discard a b [] = refl
  contains-discard a b (c ∷ s) =
      ground (arith, contains-discard a b s, k.same_iff c a, k.same_iff c b, k.same_iff a b)

  module _ {V : Type 0} where
    -- `d.get(key)`
    unfoldable pub lookup : K → Dict K V → Option V
    lookup a [] = none
    lookup a ((b, v) ∷ d) = if k.same b a then some v else lookup a d

    -- `d[key] = value`
    unfoldable pub insert : K → V → Dict K V → Dict K V
    insert a v [] = (a, v) ∷ []
    insert a v ((b, w) ∷ d) = if k.same b a then (b, v) ∷ d else (b, w) ∷ insert a v d

    -- `d.get(key, default)`
    unfoldable pub get_or : K → V → Dict K V → V
    unfolding lookup
    get_or a v d = elim (lookup a d) [ none ↦ v | some w ↦ w ]

    pub lookup-insert :
        (a b : K) (v : V) (d : Dict K V)
        → lookup b (insert a v d) ≡ (if k.same a b then some v else lookup b d)
    unfolding lookup insert
    lookup-insert a b v [] = refl
    lookup-insert a b v ((c, w) ∷ d) =
        ground (arith, k.same_iff c a, k.same_iff c b, k.same_iff a b, lookup-insert a b v d)

    pub get_or-insert :
        (a b : K) (v w : V) (d : Dict K V)
        → get_or b w (insert a v d) ≡ (if k.same a b then v else get_or b w d)
    unfolding get_or
    get_or-insert a b v w d = ground (arith, lookup-insert a b v d)
