-- ===== src/Prelude/Picks.antt =====
-- One element taken out of a list, as a scheduler does.
use Prim.Native.Nat.{ℕ, zero, suc, ◌+◌}
use mathlib.Core.Path.{◌≡◌, refl}
use mathlib.Core.List.{List, [], ◌∷◌}
use mathlib.Core.Option
use mathlib.Core.Option.{Option, none, some}
use native.Mathlib.Omega.{arith}
use composable_rust.Prelude.Lists.{All}

-- The element at a position of the list, and the others.
abbrev pub pick {ℓ} : {B : Type ℓ} → ℕ → List B → Option (B × List B)
pick i [] = none
pick zero (x ∷ xs) = some (x, xs)
pick (suc i) (x ∷ xs) = Option.map (λ p. (p.0, x ∷ p.1)) (pick i xs)

abbrev pub total {ℓ} : {B : Type ℓ} → (B → ℕ) → List B → ℕ
total f [] = 0
total f (x ∷ xs) = f x + total f xs

module _ {B : Type 0} where
  -- The list consists of `x` and the others.
  pub record Taken (x : B) (others xs : List B) : Type 1 where
    pub taken_total : (f : B → ℕ) → total f xs ≡ f x + total f others
    pub taken_All : (P : B → Type 0) → All P xs → All P (x ∷ others)

  pub data Pick (xs : List B) : Option (B × List B) → Type 1 where
    nothing_there : Pick xs none
    taken : {x : B} {others : List B} → Taken x others xs → Pick xs (some (x, others))

  Pick-later :
      (y : B) (p : Option (B × List B)) (xs : List B)
      → Pick xs p
      → Pick (y ∷ xs) (Option.map (λ q. (q.0, y ∷ q.1)) p)
  Pick-later y none xs nothing_there = nothing_there
  Pick-later y (some (x, others)) xs (taken h) = taken (record {
    taken_total = λ f. omega (arith, h.taken_total f);
    taken_All = λ P all. let rest = h.taken_All P all.1 in (rest.0, (all.0, rest.1));
  })

  pub pick-Pick : (i : ℕ) (xs : List B) → Pick xs (pick i xs)
  pick-Pick i [] = nothing_there
  pick-Pick zero (x ∷ xs) = taken (record { taken_total = λ f. refl; taken_All = λ P all. all })
  pick-Pick (suc i) (x ∷ xs) = Pick-later x (pick i xs) xs (pick-Pick i xs)
