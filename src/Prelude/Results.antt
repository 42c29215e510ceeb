-- ===== src/Prelude/Results.antt =====
-- Exceptions as values: the standard exceptions that the code throws, with their messages.
use Prim.Native.String.{String}
use mathlib.Core.Path.{◌≡◌, refl, ap}
use mathlib.Core.Bool.{Bool, true, false}
use hump.Prelude.Tests.{if◌then◌else◌}

pub data Error : Type 0 where
  invalid_argument out_of_range runtime_error json_exception bad_weak_ptr : String → Error

pub data Result {ℓ} (A : Type ℓ) : Type ℓ where
  err : Error → Result A
  ok : A → Result A

infixl 5 ◌>>=◌
abbrev pub ◌>>=◌ {κ ℓ} : {B : Type κ} {A : Type ℓ} → Result B → (B → Result A) → Result A
err thrown >>= next = err thrown
ok value >>= next = next value

-- Inversion of a successful bind, and of a guard that throws.
pub >>=-eq-ok {κ ℓ} :
    {B : Type κ} {A : Type ℓ} (first : Result B) (next : B → Result A) {last : A}
    → (first >>= next) ≡ ok last
    → (value : B) × (first ≡ ok value) × (next value ≡ ok last)
>>=-eq-ok (err thrown) next same = cc
>>=-eq-ok (ok value) next same = (value, refl, same)

pub if-err-eq-ok :
    {A : Type 0} (b : Bool) (e : Error) (m : Result A) {a : A}
    → (if b then err e else m) ≡ ok a
    → m ≡ ok a
if-err-eq-ok true e m h = cc
if-err-eq-ok false e m h = h

pub ok-injective {ℓ} : {A : Type ℓ} {a b : A} → ok a ≡ ok b → a ≡ b
ok-injective {A} {a} {b} h = ap (λ r. value_or a r) h
  where
    value_or : A → Result A → A
    value_or d (ok x) = x
    value_or d (err e) = d
