-- ===== src/Base/Results.antt =====
-- Exceptions: a call returns a value or throws one of the standard exception classes.
use mathlib.Core.Path.{◌≡◌, refl}
use mathlib.Core.Bool.{Bool, true, false}

pub data Error : Type 0 where
  invalid_argument length_error logic_error out_of_range overflow_error bad_variant_access : Error

pub data Result {ℓ} (A : Type ℓ) : Type ℓ where
  err : Error → Result A
  ok : A → Result A

-- What follows a call runs only if the call has not thrown.
module _ {ℓ κ} {A : Type ℓ} {B : Type κ} where
  infixl 5 ◌>>=◌
  abbrev pub ◌>>=◌ : Result A → (A → Result B) → Result B
  err thrown >>= next = err thrown
  ok x >>= next = next x

-- `if (bad) throw e;`
abbrev pub throw_if : Bool → Error → Result (Unit {0})
throw_if true e = err e
throw_if false e = ok tt

-- A call that returns nothing, and then another
infixl 5 ◌>>◌
abbrev pub ◌>>◌ {κ} : {B : Type κ} → Result (Unit {0}) → Result B → Result B
checked >> next = checked >>= λ done. next

-- A chain that returned: its first call returned, and so did what follows.
pub >>=-eq-ok {ℓ κ} :
    {A : Type ℓ} {B : Type κ} (first : Result A) (next : A → Result B) {end : B}
    → (first >>= next) ≡ ok end
    → (x : A) × (first ≡ ok x) × (next x ≡ ok end)
>>=-eq-ok (err thrown) next returned = cc
>>=-eq-ok (ok x) next returned = (x, refl, returned)

pub ok-injective {ℓ} : {A : Type ℓ} {a b : A} → ok a ≡ ok b → a ≡ b
ok-injective same = cc
