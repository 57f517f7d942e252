-- ===== src/Prelude/Counts.antt =====
-- How many elements of a list satisfy a test, as a sum.
use Prim.Native.Nat.{ℕ, ◌+◌}
use mathlib.Core.Path.{◌≡◌, refl, ap₂}
use mathlib.Core.Bool.{Bool, true, false}
use mathlib.Core.List.{List, [], ◌∷◌, map}
use native.Mathlib.Omega.{arith}
use composable_rust.Prelude.Lists.{All, length, filter}
use composable_rust.Prelude.Picks.{total}

abbrev pub one : Bool → ℕ
one true = 1
one false = 0

module _ {ℓ} {A : Type ℓ} where
  abbrev pub count : (A → Bool) → List A → ℕ
  count p xs = total (λ x. one (p x)) xs

  pub total-split :
      (f g h : A → ℕ) (xs : List A)
      → All (λ x. f x ≡ g x + h x) xs
      → total f xs ≡ total g xs + total h xs
  total-split f g h [] all = refl
  total-split f g h (x ∷ xs) (here, all) = omega (arith, here, total-split f g h xs all)

  pub total-eq : (f g : A → ℕ) (xs : List A) → All (λ x. f x ≡ g x) xs → total f xs ≡ total g xs
  total-eq f g [] all = refl
  total-eq f g (x ∷ xs) (here, all) = omega (arith, here, total-eq f g xs all)

  pub total-map :
      {B : Type ℓ} (f : B → ℕ) (g : A → B) (xs : List A)
      → total f (map g xs) ≡ total (λ x. f (g x)) xs
  total-map f g [] = refl
  total-map f g (x ∷ xs) = omega (arith, total-map f g xs)

  pub everywhere {κ} : (P : A → Type κ) (xs : List A) → ((x : A) → P x) → All P xs
  everywhere P [] f = tt
  everywhere P (x ∷ xs) f = (f x, everywhere P xs f)

  pub total-zero : (f : A → ℕ) (xs : List A) → ((x : A) → f x ≡ 0) → total f xs ≡ 0
  total-zero f [] h = refl
  total-zero f (x ∷ xs) h = omega (arith, h x, total-zero f xs h)

  pub mapped-All {κ κ'} :
      (P : A → Type κ) (Q : A → Type κ') (xs : List A) → ((x : A) → P x → Q x) → All P xs → All Q xs
  mapped-All P Q [] f all = tt
  mapped-All P Q (x ∷ xs) f (here, all) = (f x here, mapped-All P Q xs f all)

  pub zipped-All {κ κ' κ''} :
      (P : A → Type κ) (Q : A → Type κ') (R : A → Type κ'') (xs : List A)
      → ((x : A) → P x → Q x → R x)
      → All P xs
      → All Q xs
      → All R xs
  zipped-All P Q R [] f p q = tt
  zipped-All P Q R (x ∷ xs) f (p, ps) (q, qs) = (f x p q, zipped-All P Q R xs f ps qs)

  pub All-map {κ} :
      {B : Type ℓ} (P : A → Type κ) (g : B → A) (xs : List B)
      → All (λ x. P (g x)) xs
      → All P (map g xs)
  All-map P g [] all = tt
  All-map P g (x ∷ xs) (here, all) = (here, All-map P g xs all)

  pub All-unmap {κ} :
      {B : Type ℓ} (P : A → Type κ) (g : B → A) (xs : List B)
      → All P (map g xs)
      → All (λ x. P (g x)) xs
  All-unmap P g [] all = tt
  All-unmap P g (x ∷ xs) (here, all) = (here, All-unmap P g xs all)

  pub map_back : (f g : A → A) (xs : List A) → All (λ x. f (g x) ≡ x) xs → map f (map g xs) ≡ xs
  map_back f g [] all = refl
  map_back f g (x ∷ xs) (here, all) = ap₂ ◌∷◌ here (map_back f g xs all)

  pub length-filter : (p : A → Bool) (xs : List A) → length (filter p xs) ≡ count p xs
  length-filter p [] = refl
  length-filter p (x ∷ xs) = ground (arith, length-filter p xs)
