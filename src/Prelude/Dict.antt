-- ===== src/Prelude/Dict.antt =====
-- `HashMap<K, V>` as an association list with one entry for each key.

use mathlib.Core.Path.{◌≡◌, refl, sym, ap, ap₂}
use mathlib.Core.Logic.{inl, inr}
use mathlib.Core.Option
use mathlib.Core.Option.{Option, none, some}
use mathlib.Core.Bool.{Bool}
use mathlib.Core.List.{List, [], ◌∷◌}
use native.Mathlib.Omega.{arith}
use composable_rust.Prelude.Tests.{if◌then◌else◌, if_both, Bool-cases}
use composable_rust.Prelude.Keys.{Key}

module _ {ℓ κ} {K : Type ℓ} {V : Type κ} ⦃key : Key K⦄ where
  unfoldable pub get : K → List (K × V) → Option V
  get k [] = none
  get k ((j, v) ∷ m) = if key.same j k then some v else get k m

  unfoldable pub insert : K → V → List (K × V) → List (K × V)
  insert k v [] = (k, v) ∷ []
  insert k v ((j, w) ∷ m) = if key.same j k then (k, v) ∷ m else (j, w) ∷ insert k v m

  -- `if let Some(v) = map.get_mut(k) { .. }`, where `f` is what the block does to the value.
  unfoldable pub adjust : K → (V → V) → List (K × V) → List (K × V)
  adjust k f [] = []
  adjust k f ((j, v) ∷ m) = if key.same j k then (j, f v) ∷ m else (j, v) ∷ adjust k f m

  unfoldable pub remove : K → List (K × V) → List (K × V)
  remove k [] = []
  remove k ((j, v) ∷ m) = if key.same j k then remove k m else (j, v) ∷ remove k m

  -- `map.retain(|_, v| ..)`
  unfoldable pub retain : (V → Bool) → List (K × V) → List (K × V)
  retain p [] = []
  retain p ((j, v) ∷ m) = if p v then (j, v) ∷ retain p m else retain p m

  pub get-remove :
      (k j : K) (m : List (K × V)) → get j (remove k m) ≡ (if key.same k j then none else get j m)
  unfolding get remove
  get-remove k j [] = if_both (λ x. none ≡ x) (key.same k j) none none refl refl
  get-remove k j ((i, w) ∷ m) =
      ground (arith, key.same_iff k j, key.same_iff i k, key.same_iff i j, get-remove k j m)

  pub get-insert :
      (k j : K) (v : V) (m : List (K × V))
      → get j (insert k v m) ≡ (if key.same k j then some v else get j m)
  unfolding get insert
  get-insert k j v [] = refl
  get-insert k j v ((i, w) ∷ m) =
      ground (arith, key.same_iff k j, key.same_iff i k, key.same_iff i j, get-insert k j v m)

  pub get-adjust :
      (k j : K) (f : V → V) (m : List (K × V))
      → get j (adjust k f m) ≡ (if key.same k j then Option.map f (get j m) else get j m)
  unfolding get adjust
  get-adjust k j f [] = if_both (λ x. none ≡ x) (key.same k j) none none refl refl
  get-adjust k j f ((i, w) ∷ m) =
      ground (arith, key.same_iff k j, key.same_iff i k, key.same_iff i j, get-adjust k j f m)

  -- An entry that is there already changes nothing.
  pub insert-get : (k : K) (v : V) (m : List (K × V)) → get k m ≡ some v → insert k v m ≡ m
  unfolding get insert
  insert-get k v [] h = absurd cc
  insert-get k v ((j, w) ∷ m) h = elim (Bool-cases (key.same j k)) [
    | inl here ↦
        let same : j ≡ k = (key.same_iff j k).0 here in
        let value : w ≡ v = ground (arith, here, h) in
        rw here (ap₂ (λ a b. (a, b) ∷ m) (sym same) (sym value))
    | inr elsewhere ↦
        rw elsewhere (ap (λ l. (j, w) ∷ l) (insert-get k v m (ground (arith, elsewhere, h))))
  ]
