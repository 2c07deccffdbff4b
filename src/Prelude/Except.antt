-- ===== src/Prelude/Except.antt =====
-- A JavaScript call that may throw: the value, or the message of the error.
use hikari.Prelude.{◌≡◌, ◌⊎◌, inl, inr, refl, Option, none, some}
use hikari.Prelude.Text.{String}

pub data Except {ℓ} (A : Type ℓ) : Type ℓ where
  ok : A → Except A
  thrown : String → Except A

infixl 5 ◌>>=◌
abbrev pub ◌>>=◌ {ℓ κ} : {A : Type ℓ} {B : Type κ} → Except A → (A → Except B) → Except B
ok a >>= f = f a
thrown e >>= f = thrown e

-- `try { … } catch (e) { … }`
abbrev pub catch {ℓ} : {A : Type ℓ} → Except A → (String → A) → A
catch (ok a) handler = a
catch (thrown e) handler = handler e

-- The value of a call, or the error with this message where there is none.
abbrev pub or_throw {ℓ} : {A : Type ℓ} → Option A → String → Except A
or_throw none e = thrown e
or_throw (some a) e = ok a

-- To split on the outcome of a call and keep the equation.
pub Except-cases {ℓ} :
    {A : Type ℓ} (m : Except A) → ((a : A) × (m ≡ ok a)) ⊎ ((e : String) × (m ≡ thrown e))
Except-cases (ok a) = inl (a, refl)
Except-cases (thrown e) = inr (e, refl)
