-- ===== src/Base/Results.antt =====
-- Go's `(value, error)` results, for calls whose value is not used beside an error.
use mathlib.Core.Path.{◌≡◌, refl}
use mathlib.Core.Logic.{◌⊎◌, inl, inr}
use mathlib.Core.Bool.{Bool, true, false}
use mathlib.Core.Option.{Option, none, some}

pub data Result {ℓ} (E : Type 0) (A : Type ℓ) : Type ℓ where
  ok : A → Result E A
  err : E → Result E A

infixl 5 ◌>>=◌
abbrev pub ◌>>=◌ {ℓ κ} :
    {E : Type 0} {A : Type ℓ} {C : Type κ} → Result E A → (A → Result E C) → Result E C
ok x >>= next = next x
err e >>= next = err e

-- A fallible call of a library that returns no value on failure, with the error it is reported as.
abbrev pub or_fail {ℓ} : {E : Type 0} {A : Type ℓ} → Option A → E → Result E A
or_fail none e = err e
or_fail (some a) e = ok a

abbrev pub is_ok {ℓ} : {E : Type 0} {A : Type ℓ} → Result E A → Bool
is_ok (ok a) = true
is_ok (err e) = false

abbrev pub is_some {ℓ} : {A : Type ℓ} → Option A → Bool
is_some none = false
is_some (some a) = true

-- `err == nil`
abbrev pub succeeded : {E : Type 0} → Option E → Bool
succeeded none = true
succeeded (some e) = false

pub Result-cases {ℓ} :
    {E : Type 0} {A : Type ℓ} (r : Result E A) → ((e : E) × (r ≡ err e)) ⊎ ((a : A) × (r ≡ ok a))
Result-cases (ok a) = inr (a, refl)
Result-cases (err e) = inl (e, refl)

pub ok-injective {ℓ} :
    {E : Type 0} {A : Type ℓ} {a b : A} → ◌≡◌ {A = Result E A} (ok a) (ok b) → a ≡ b
ok-injective h = cc

-- A chain that succeeds has a first step that does.
pub >>=-eq-ok {ℓ κ} :
    {E : Type 0} {A : Type ℓ} {C : Type κ} (first : Result E A) (next : A → Result E C) {c : C}
    → (first >>= next) ≡ ok c
    → (x : A) × (first ≡ ok x) × (next x ≡ ok c)
>>=-eq-ok (ok x) next chain = (x, refl, chain)
>>=-eq-ok (err e) next chain = cc

pub or_fail-eq-ok {ℓ κ} :
    {E : Type 0} {A : Type ℓ} {B : Type κ} (o : Option A) (e : E) (f : A → Result E B) {b : B}
    → (or_fail o e >>= f) ≡ ok b
    → (a : A) × (o ≡ some a) × (f a ≡ ok b)
or_fail-eq-ok none e f h = cc
or_fail-eq-ok (some a) e f h = (a, refl, h)
