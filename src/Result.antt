-- ===== src/Result.antt =====
-- Python's exceptions as values: the classes that the bridge raises, and the results of the
-- functions that may raise and change nothing.
use nbte_bridge.Prelude.{
  ◌≡◌, refl, ◌⊎◌, inl, inr, Bool, true, false, Option, none, some, List, [], ◌∷◌,
}

-- `validation` is the service's `ValidationError`; `no_result` and `multiple_results` are those of
-- SQLAlchemy's `one()`; `communication` is Pyro's `CommunicationError`; `external` is whatever else a
-- call of another program raises.
pub data Error : Type 0 where
  value_error validation runtime lookup_error index_error assertion timeout : Error
  zero_transfer_amount unindexed_output : Error
  insufficient_btc_balance insufficient_rune_balance : Error
  no_result multiple_results communication external : Error

pub data Result {ℓ} (A : Type ℓ) : Type ℓ where
  ok : A → Result A
  err : Error → Result A

-- An exception goes past everything after it.
infixl 5 ◌>>=◌
abbrev pub ◌>>=◌ {ℓ κ} : {A : Type ℓ} {B : Type κ} → Result A → (A → Result B) → Result B
err e >>= next = err e
ok a >>= next = next a

-- `if b: raise e`
abbrev pub raise_if : Bool → Error → Result (Unit {0})
raise_if true e = err e
raise_if false e = ok tt

infixl 5 ◌>>◌
abbrev pub ◌>>◌ {ℓ} : {A : Type ℓ} → Result (Unit {0}) → Result A → Result A
check >> rest = check >>= λ done. rest

abbrev pub or_raise {ℓ} : {A : Type ℓ} → Option A → Error → Result A
or_raise none e = err e
or_raise (some a) e = ok a

-- SQLAlchemy's `one()` and `one_or_none()` on the rows that a query selects.
abbrev pub one {ℓ} : {A : Type ℓ} → List A → Result A
one [] = err no_result
one (x ∷ []) = ok x
one (x ∷ y ∷ xs) = err multiple_results

abbrev pub one_or_none {ℓ} : {A : Type ℓ} → List A → Result (Option A)
one_or_none [] = ok none
one_or_none (x ∷ []) = ok (some x)
one_or_none (x ∷ y ∷ xs) = err multiple_results

abbrev pub first {ℓ} : {A : Type ℓ} → List A → Option A
first [] = none
first (x ∷ xs) = some x

-- What a chain of calls that returned has returned on the way, where the calls stay shut.
pub >>=-eq-ok {ℓ κ} :
    {A : Type ℓ} {B : Type κ} (call : Result A) (next : A → Result B) {b : B}
    → (call >>= next) ≡ ok b
    → (a : A) × (call ≡ ok a) × (next a ≡ ok b)
>>=-eq-ok (err e) next returned = cc
>>=-eq-ok (ok a) next returned = (a, refl, returned)

pub raise_if-eq-ok : (b : Bool) (e : Error) → raise_if b e ≡ ok tt → b ≡ false
raise_if-eq-ok true e h = cc
raise_if-eq-ok false e h = refl

pub Result-cases {ℓ} :
    {A : Type ℓ} (r : Result A) → ((a : A) × (r ≡ ok a)) ⊎ ((e : Error) × (r ≡ err e))
Result-cases (ok a) = inl (a, refl)
Result-cases (err e) = inr (e, refl)

pub or_raise-eq-ok {ℓ} :
    {A : Type ℓ} (o : Option A) (e : Error) {a : A} → or_raise o e ≡ ok a → o ≡ some a
or_raise-eq-ok none e h = cc
or_raise-eq-ok (some a) e h = cc
