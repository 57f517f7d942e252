-- ===== src/Prelude/Sort.antt =====
-- `Vec::sort` on numbers, as an insertion sort, and how often a number occurs in a list.
use Prim.Native.Nat.{ℕ, zero, suc, ◌≤◌}
use mathlib.Core.Path.{◌≡◌, refl, ap, ◌∙◌}
use mathlib.Core.Logic.{inl, inr}
use mathlib.Core.Bool.{Bool}
use mathlib.Core.List.{List, [], ◌∷◌, map, Perm, Permᴰ, is_set}
use mathlib.Core.Logic.{∥∥₁_elim}
use native.Mathlib.Nat.{ℕ_set}
use native.Mathlib.Omega.{arith}
use composable_rust.Prelude.Tests.{if◌then◌else◌, ltb, Bool-cases, ◌==◌}
use composable_rust.Prelude.Lists.{length, take, filter}

abbrev pub occurrences : ℕ → List ℕ → ℕ
occurrences x [] = 0
occurrences x (y ∷ ys) = if y == x then suc (occurrences x ys) else occurrences x ys

abbrev pub insert_sorted : ℕ → List ℕ → List ℕ
insert_sorted x [] = x ∷ []
insert_sorted x (y ∷ ys) = if ltb y x then y ∷ insert_sorted x ys else x ∷ y ∷ ys

abbrev pub sort : List ℕ → List ℕ
sort [] = []
sort (x ∷ xs) = insert_sorted x (sort xs)

occurrences-insert_sorted :
    (a x : ℕ) (ys : List ℕ) → occurrences a (insert_sorted x ys) ≡ occurrences a (x ∷ ys)
occurrences-insert_sorted a x [] = refl
occurrences-insert_sorted a x (y ∷ ys) = ground (arith, occurrences-insert_sorted a x ys)

pub occurrences-sort : (a : ℕ) (xs : List ℕ) → occurrences a (sort xs) ≡ occurrences a xs
occurrences-sort a [] = refl
occurrences-sort a (x ∷ xs) =
    ground (arith, occurrences-insert_sorted a x (sort xs), occurrences-sort a xs)

length-insert_sorted : (x : ℕ) (ys : List ℕ) → length (insert_sorted x ys) ≡ suc (length ys)
length-insert_sorted x [] = refl
length-insert_sorted x (y ∷ ys) = ground (arith, length-insert_sorted x ys)

pub length-sort : (xs : List ℕ) → length (sort xs) ≡ length xs
length-sort [] = refl
length-sort (x ∷ xs) = ground (arith, length-insert_sorted x (sort xs), length-sort xs)

pub occurrences-take : (a n : ℕ) (xs : List ℕ) → occurrences a (take n xs) ≤ occurrences a xs
occurrences-take a zero xs = omega arith
occurrences-take a (suc n) [] = omega arith
occurrences-take a (suc n) (x ∷ xs) = ground (arith, occurrences-take a n xs)

pub length-take : (n : ℕ) (xs : List ℕ) → n ≤ length xs → length (take n xs) ≡ n
length-take zero xs h = refl
length-take (suc n) [] h = absurd (omega arith)
length-take (suc n) (x ∷ xs) h = omega (arith, length-take n xs (omega arith))

insert_sorted_comm :
    (x y : ℕ) (l : List ℕ)
    → insert_sorted x (insert_sorted y l) ≡ insert_sorted y (insert_sorted x l)
insert_sorted_comm x y [] = ground arith
insert_sorted_comm x y (z ∷ l) = ground (arith, insert_sorted_comm x y l)

module _ {A : Type 0} (p : A → Bool) (f : A → ℕ) where
  sort-filter-Permᴰ :
      {xs ys : List A} → Permᴰ xs ys → sort (map f (filter p xs)) ≡ sort (map f (filter p ys))
  sort-filter-Permᴰ Permᴰ.nil = refl
  sort-filter-Permᴰ (Permᴰ.cons {a} {b} {l₁} {l₂} e q) = elim (Bool-cases (p b)) [
    | inl h ↦ rw (e, h) (ap (insert_sorted (f b)) (sort-filter-Permᴰ q))
    | inr h ↦ rw (e, h) (sort-filter-Permᴰ q)
  ]
  sort-filter-Permᴰ (Permᴰ.swap {a} {b} {a'} {b'} {l} e e') =
      rw (e, e') (grind (arith, insert_sorted_comm (f b') (f a') (sort (map f (filter p l)))))
  sort-filter-Permᴰ (Permᴰ.trans q r) = sort-filter-Permᴰ q ∙ sort-filter-Permᴰ r

  -- Whatever the order of the elements is, those that pass a test come out in the same order.
  pub sort-filter-Perm :
      {xs ys : List A} → Perm xs ys → sort (map f (filter p xs)) ≡ sort (map f (filter p ys))
  sort-filter-Perm q = ∥∥₁_elim q (is_set ℕ_set _ _) sort-filter-Permᴰ
