-- ===== src/Python/Result.antt =====
-- Python's exceptions as results.
use mathlib.Core.Path.{◌≡◌, refl}
use mathlib.Core.Bool.{Bool, true, false}

pub data Error : Type 0 where
  key_error value_error type_error overflow_error : Error
  integrity_error programming_error runtime_error os_error config_error dependency_error
        yaml_error :
      Error

pub data Result {ℓ} (A : Type ℓ) : Type ℓ where
  ok : A → Result A
  raise : Error → Result A

pub ok-injective {ℓ} : {V : Type ℓ} {v w : V} → ok v ≡ ok w → v ≡ w
ok-injective same = cc

pub raise-injective {ℓ} :
    {V : Type ℓ} {r : Result V} {a b : Error} → r ≡ raise a → r ≡ raise b → a ≡ b
raise-injective first second = cc

infixl 5 ◌>>=◌ ◌>>◌
-- An exception skips what comes next.
abbrev pub ◌>>=◌ {ℓ ℓ'} : {V : Type ℓ} {W : Type ℓ'} → Result V → (V → Result W) → Result W
raise error >>= next = raise error
ok value >>= next = next value

-- `if test: raise error`
abbrev pub raise_if : Bool → Error → Result (Unit {0})
raise_if true error = raise error
raise_if false error = ok tt

abbrev pub ◌>>◌ {ℓ} : {W : Type ℓ} → Result (Unit {0}) → Result W → Result W
first >> next = first >>= λ _. next

pub >>=-eq-ok {ℓ ℓ'} :
    {V : Type ℓ} {W : Type ℓ'} (r : Result V) (next : V → Result W) {w : W}
    → (r >>= next) ≡ ok w
    → (v : V) × (r ≡ ok v) × (next v ≡ ok w)
>>=-eq-ok (raise error) next returned = cc
>>=-eq-ok (ok v) next returned = (v, refl, returned)
