-- ===== src/Base/Result.antt =====
-- Exceptions as values, and the monad of handlers that read and write a state and may throw.
-- What a handler wrote before it threw stays written: there is no transaction around it.

use mathlib.Core.Path.{◌≡◌, refl}
use mathlib.Core.Logic.{◌⊎◌, inl, inr}

pub data Error : Type 0 where
  not_found conflict bad_request invalid_transition unsupported serialization_failure : Error
  forbidden : Error

pub data Result {ℓ} (A : Type ℓ) : Type ℓ where
  ok : A → Result A
  err : Error → Result A

abbrev pub Exec : Type 0 → Type 0 → Type 0
Exec S A = S → Result A × S

module _ {S : Type 0} where
  abbrev pub bind_result : {A B : Type 0} → Result A × S → (A → Exec S B) → Result B × S
  bind_result (ok a, s) f = f a s
  bind_result (err e, s) f = (err e, s)

  infixl 5 ◌>>=◌ ◌>>◌
  abbrev pub ◌>>=◌ : {A B : Type 0} → Exec S A → (A → Exec S B) → Exec S B
  ◌>>=◌ m f s = bind_result (m s) f

  abbrev pub ◌>>◌ : {B : Type 0} → Exec S (Unit {0}) → Exec S B → Exec S B
  m >> k = m >>= λ _. k

  abbrev pub pure : {A : Type 0} → A → Exec S A
  pure a s = (ok a, s)

  abbrev pub throw : {A : Type 0} → Error → Exec S A
  throw e s = (err e, s)

  abbrev pub gets : {A : Type 0} → (S → A) → Exec S A
  gets f s = (ok (f s), s)

  abbrev pub modify : (S → S) → Exec S (Unit {0})
  modify f s = (ok tt, f s)

module _ {S A : Type 0} where
  pub Result-cases :
      (p : Result A × S)
      → ((a : A) × (s : S) × (p ≡ (ok a, s))) ⊎ ((e : Error) × (s : S) × (p ≡ (err e, s)))
  Result-cases (ok a, s) = inl (a, s, refl)
  Result-cases (err e, s) = inr (e, s, refl)

  -- Two results that are equal, taken apart.
  pub ok_inj :
      (p : Result A × S) (a b : A) (s t : S) → p ≡ (ok a, s) → p ≡ (ok b, t) → (b ≡ a) × (t ≡ s)
  ok_inj p a b s t e f = (cc, cc)

  pub ok_ne_err :
      (p : Result A × S) (a : A) (e : Error) (s t : S) → p ≡ (ok a, s) → p ≡ (err e, t) → ⊥
  ok_ne_err p a e s t f g = cc
