-- ===== src/Prelude/Results.antt =====
-- Rust's `Result<T, E>`.
use mathlib.Core.Bool.{Bool, true, false}
use mathlib.Core.Path.{◌≡◌, refl}
use mathlib.Core.Logic.{◌⊎◌, inl, inr}

pub data Result {ℓ κ} (T : Type ℓ) (E : Type κ) : Type (ℓ ⊔ κ) where
  ok : T → Result T E
  err : E → Result T E

module _ {ℓ κ} {T : Type ℓ} {E : Type κ} where
  abbrev pub is_ok : Result T E → Bool
  is_ok (ok _) = true
  is_ok (err _) = false

  pub ok_injective : {a b : T} → ◌≡◌ {A = Result T E} (ok a) (ok b) → a ≡ b
  ok_injective h = cc

  pub err_injective : {a b : E} → ◌≡◌ {A = Result T E} (err a) (err b) → a ≡ b
  err_injective h = cc

  pub Result-cases : (r : Result T E) → ((a : T) × (r ≡ ok a)) ⊎ ((e : E) × (r ≡ err e))
  Result-cases (ok a) = inl (a, refl)
  Result-cases (err e) = inr (e, refl)

-- A property of both branches of a match on a result, each with what the result is.
pub Result_both {ℓ κ μ ν} :
    {T : Type ℓ} {E : Type κ} {X : Type μ} (P : X → Type ν) (r : Result T E) (f : T → X) (g : E → X)
    → ((t : T) → r ≡ ok t → P (f t))
    → ((e : E) → r ≡ err e → P (g e))
    → P (elim r [ ok t ↦ f t | err e ↦ g e ])
Result_both P (ok t) f g p q = p t refl
Result_both P (err e) f g p q = q e refl
