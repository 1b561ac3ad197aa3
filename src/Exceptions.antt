-- ===== src/Exceptions.antt =====
-- Python functions that may raise: the result, or the exception that ends the call.
use kenaz_ml.Prelude.{◌≡◌, refl, Bool, true, false}

pub data Error : Type 0 where
  value_error overflow_error index_error : Error

pub data Exc {ℓ} (A : Type ℓ) : Type ℓ where
  ok : A → Exc A
  raised : Error → Exc A

infixl 5 ◌>>=◌
abbrev pub ◌>>=◌ {ℓ κ} : {A : Type ℓ} {B : Type κ} → Exc A → (A → Exc B) → Exc B
ok a >>= f = f a
raised x >>= f = raised x

-- Whether the call ends by an exception.
abbrev pub raises {ℓ} : {A : Type ℓ} → Exc A → Bool
raises (ok a) = false
raises (raised x) = true

pub returned {ℓ} : {A : Type ℓ} (m : Exc A) → raises m ≡ false → (a : A) × (m ≡ ok a)
returned (ok a) h = (a, refl)
returned (raised x) h = cc

pub ok_injective {ℓ} : {A : Type ℓ} {a b : A} → ok a ≡ ok b → a ≡ b
ok_injective h = cc

-- A chain that returned had a first call that returned.
pub bind_ok {ℓ κ} :
    {A : Type ℓ} {B : Type κ} (m : Exc A) (f : A → Exc B) {b : B}
    → (m >>= f) ≡ ok b
    → (a : A) × (m ≡ ok a) × (f a ≡ ok b)
bind_ok (ok a) f h = (a, refl, h)
bind_ok (raised x) f h = cc
