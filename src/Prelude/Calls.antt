-- ===== src/Prelude/Calls.antt =====
-- How a call ends: Rust's `Result` as a value, and a panic, a hang or a loop cut off as an outcome.
use mathlib.Core.Path.{◌≡◌, refl}
use mathlib.Core.Logic.{◌⊎◌, inl, inr}

pub data Result {ℓ} (A E : Type ℓ) : Type ℓ where
  ok : A → Result A E
  err : E → Result A E

pub Result-cases {ℓ} :
    {A E : Type ℓ} (r : Result A E) → ((a : A) × (r ≡ ok a)) ⊎ ((e : E) × (r ≡ err e))
Result-cases (ok a) = inl (a, refl)
Result-cases (err e) = inr (e, refl)

-- `hangs` is a call that never returns; `out_of_fuel` is a loop that the model cut off.
pub data Outcome {ℓ} (A : Type ℓ) : Type ℓ where
  returns : A → Outcome A
  panics : Outcome A
  hangs : Outcome A
  out_of_fuel : Outcome A

-- A call over a state that is gone with the thread when the call does not return.
abbrev pub Exec {ℓ} : Type ℓ → Type ℓ → Type ℓ
Exec S A = S → Outcome (A × S)

module _ {ℓ} {S A : Type ℓ} where
  abbrev pub pure : A → Exec S A
  pure a s = returns (a, s)

  abbrev pub panic : Exec S A
  panic s = panics

  abbrev pub gets : (S → A) → Exec S A
  gets f s = returns (f s, s)

module _ {ℓ} {S : Type ℓ} where
  abbrev pub modify : (S → S) → Exec S (Unit {ℓ})
  modify f s = returns (tt, f s)

module _ {ℓ} {S A B : Type ℓ} where
  infixl 5 ◌>>=◌ ◌>>◌
  abbrev pub ◌>>=◌ : Exec S A → (A → Exec S B) → Exec S B
  ◌>>=◌ m f s = elim (m s) [
    | returns (a, t) ↦ f a t
    | panics ↦ panics
    | hangs ↦ hangs
    | out_of_fuel ↦ out_of_fuel
  ]

  abbrev pub ◌>>◌ : Exec S A → Exec S B → Exec S B
  m >> k = m >>= λ _. k

module _ {ℓ} {S A B E : Type ℓ} where
  -- `?` on the result of a call: an error ends the function that makes the call.
  abbrev pub and_then : Exec S (Result A E) → (A → Exec S (Result B E)) → Exec S (Result B E)
  and_then m f = m >>= elim [ ok a ↦ f a | err e ↦ pure (err e) ]
