-- ===== src/Prelude/Maps.antt =====
-- `HashMap<String, V>` as an association list with one entry for each key.
use Prim.Native.String.{String}
use mathlib.Core.Path.{◌≡◌, refl}
use mathlib.Core.Bool.{Bool, true, false}
use mathlib.Core.Option.{Option, none, some}
use mathlib.Core.List.{List, [], ◌∷◌}
use native.Mathlib.Omega.{arith}
use text.Mathlib.Text.{◌==◌ as str_eq}
use text.Mathlib.TextEquality.{eq_iff}
use composable_rust.Prelude.Tests.{if◌then◌else◌}

abbrev pub HashMap {ℓ} : Type ℓ → Type ℓ
HashMap V = List (String × V)

module _ {ℓ} {V : Type ℓ} where
  unfoldable pub get : String → HashMap V → Option V
  get k [] = none
  get k ((j, v) ∷ m) = if str_eq j k then some v else get k m

  unfoldable pub insert : String → V → HashMap V → HashMap V
  insert k v [] = (k, v) ∷ []
  insert k v ((j, w) ∷ m) = if str_eq j k then (k, v) ∷ m else (j, w) ∷ insert k v m

  pub get-insert :
      (k j : String) (v : V) (m : HashMap V)
      → get j (insert k v m) ≡ (if str_eq k j then some v else get j m)
  unfolding get insert
  get-insert k j v [] = refl
  get-insert k j v ((i, w) ∷ m) =
      ground (arith, eq_iff k j, eq_iff i k, eq_iff i j, get-insert k j v m)

  abbrev pub contains_key : String → HashMap V → Bool
  contains_key k m = elim (get k m) [ none ↦ false | some _ ↦ true ]

  -- `map.get(k).map_or(d, ..)`, and what `entry(k).or_default()` sees.
  abbrev pub get_or : String → V → HashMap V → V
  get_or k d m = elim (get k m) [ none ↦ d | some v ↦ v ]

module _ {ℓ} {V : Type ℓ} where
  pub get_or-insert :
      (k j : String) (d v : V) (m : HashMap V)
      → get_or j d (insert k v m) ≡ (if str_eq k j then v else get_or j d m)
  get_or-insert k j d v m = ground (arith, get-insert k j v m)

  -- Writing back what is there changes no look-up with a default.
  pub get_or-insert_self :
      (k j : String) (d : V) (m : HashMap V) → get_or j d (insert k (get_or k d m) m) ≡ get_or j d m
  get_or-insert_self k j d m = ground (arith, get-insert k j (get_or k d m) m, eq_iff k j)

  pub contains_key-insert :
      (k j : String) (v : V) (m : HashMap V)
      → contains_key j (insert k v m) ≡ (if str_eq k j then true else contains_key j m)
  contains_key-insert k j v m = ground (arith, get-insert k j v m)
