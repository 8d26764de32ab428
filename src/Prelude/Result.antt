-- ===== src/Prelude/Result.antt =====
-- Python's exceptions as values: the exception's type and its text. A function that may raise
-- returns a `Result`, and a chain of such calls is a `do` block.
use Prim.Native.String.{String}
use mathlib.Core.Path.{◌≡◌, refl}
use mathlib.Core.Logic.{◌≢◌, ◌⊎◌, inl, inr}
use mathlib.Core.Bool.{Bool, true, false}

pub record Error : Type 0 where
  pub kind : String
  pub message : String

-- What a call leaves: an exception, or its value.
pub data Result {ℓ} (X : Type ℓ) : Type ℓ where
  err : Error → Result X
  ok : X → Result X

abbrev pub value_error : String → Error
value_error m = record { kind = "ValueError"; message = m }

abbrev pub type_error : String → Error
type_error m = record { kind = "TypeError"; message = m }

abbrev pub is_ok {ℓ} : {X : Type ℓ} → Result X → Bool
is_ok (err raised) = false
is_ok (ok value) = true

-- `if b: raise e`
abbrev pub raise_if : Bool → Error → Result (Unit {0})
raise_if false e = ok tt
raise_if true e = err e

-- The statements that follow, with the value that was computed and without it.
infixl 5 ◌>>◌
infixl 5 ◌>>=◌
abbrev pub ◌>>=◌ {ℓ κ} : {X : Type ℓ} {Y : Type κ} → Result X → (X → Result Y) → Result Y
err raised >>= rest = err raised
ok value >>= rest = rest value

abbrev pub ◌>>◌ {κ} : {Y : Type κ} → Result (Unit {0}) → Result Y → Result Y
check >> rest = check >>= (λ done. rest)

pub Result-cases {ℓ} :
    {A : Type ℓ} (r : Result A) → ((a : A) × (r ≡ ok a)) ⊎ ((e : Error) × (r ≡ err e))
Result-cases (ok a) = inl (a, refl)
Result-cases (err e) = inr (e, refl)

-- What a chain that returned has passed through.
pub >>=-eq-ok {ℓ κ} :
    {X : Type ℓ} {Y : Type κ} (first : Result X) (rest : X → Result Y) {y : Y}
    → (first >>= rest) ≡ ok y
    → (x : X) × (first ≡ ok x) × (rest x ≡ ok y)
>>=-eq-ok (err raised) rest h = cc
>>=-eq-ok (ok x) rest h = (x, refl, h)

pub ok_injective {ℓ} : {A : Type ℓ} {a b : A} → ok a ≡ ok b → a ≡ b
ok_injective h = cc

pub false_no_true : false ≢ true
false_no_true h = cc

-- The value of a result that is known to be there.
abbrev pub get_ok {ℓ} : {A : Type ℓ} (r : Result A) → is_ok r ≡ true → A
get_ok (ok a) h = a
get_ok (err e) h = absurd (false_no_true h)

pub get_ok-eq {ℓ} : {A : Type ℓ} (r : Result A) (h : is_ok r ≡ true) → r ≡ ok (get_ok r h)
get_ok-eq (ok a) h = refl
get_ok-eq (err e) h = absurd (false_no_true h)
