-- ===== src/Prelude/Entries.antt =====
-- Hash maps whose keys are numbers: sums over the entries, and the entries of some keys rewritten.
use Prim.Native.Nat.{ℕ, ◌+◌, ◌≤◌}
use mathlib.Core.Path.{◌≡◌, refl, ap, ap₂, ◌∙◌, subst}
use mathlib.Core.Logic.{inl, inr}
use mathlib.Core.Bool.{Bool, true, false}
use mathlib.Core.Option
use mathlib.Core.Option.{some}
use mathlib.Core.List.{List, [], ◌∷◌, map}
use native.Mathlib.Omega.{arith}
use composable_rust.Prelude.Tests.{if◌then◌else◌, leb, ◌==◌, Bool-cases, ==_iff, if_both}
use composable_rust.Prelude.Keys.{number_key}
use composable_rust.Prelude.Lists.{length, filter, All}
use composable_rust.Prelude.Picks.{total}
use composable_rust.Prelude.Sort.{occurrences}
use composable_rust.Prelude.Counts.{
  one, count, total-split, total-zero, everywhere, mapped-All, zipped-All,
}
use composable_rust.Prelude.Dict

module _ {V : Type 0} where
  abbrev pub keys : List (ℕ × V) → List ℕ
  keys m = map (λ e. e.0) m

  -- What every map satisfies: no key has two entries.
  abbrev pub Unique : List (ℕ × V) → Type 0
  Unique m = (i : ℕ) → occurrences i (keys m) ≤ 1

  abbrev pub at_key : ℕ → (ℕ × V → ℕ) → ℕ × V → ℕ
  at_key i g e = if e.0 == i then g e else 0

  pub Unique-tail : (e : ℕ × V) (m : List (ℕ × V)) → Unique (e ∷ m) → Unique m
  Unique-tail e m u i = ground (arith, u i)

  absent-total :
      (i : ℕ) (g : ℕ × V → ℕ) (m : List (ℕ × V))
      → occurrences i (keys m) ≡ 0
      → total (at_key i g) m ≡ 0
  absent-total i g [] h = refl
  absent-total i g (e ∷ m) h = ground (arith, absent-total i g m)

  absent_keys :
      (i : ℕ) (m : List (ℕ × V)) → occurrences i (keys m) ≡ 0 → All (λ e. (i == e.0) ≡ false) m
  absent_keys i [] h = tt
  absent_keys i (e ∷ m) h = (ground arith, absent_keys i m (ground arith))

  absent_head : (e : ℕ × V) (m : List (ℕ × V)) → Unique (e ∷ m) → occurrences e.0 (keys m) ≡ 0
  absent_head e m u = ground (arith, u e.0)

  -- The entries of an entry's own key are that entry.
  pub total-at_key :
      (g : ℕ × V → ℕ) (m : List (ℕ × V)) → Unique m → All (λ e. total (at_key e.0 g) m ≡ g e) m
  total-at_key g [] u = tt
  total-at_key g (x ∷ m) u = (
    ground (arith, absent-total x.0 g m (absent_head x m u)),
    zipped-All (λ e. total (at_key e.0 g) m ≡ g e) (λ e. (x.0 == e.0) ≡ false)
        (λ e. total (at_key e.0 g) (x ∷ m) ≡ g e) m (λ e h k. ground arith)
        (total-at_key g m (Unique-tail x m u)) (absent_keys x.0 m (absent_head x m u)),
  )

  abbrev pub is_one_of : List ℕ → ℕ × V → Bool
  is_one_of l e = leb 1 (occurrences e.0 l)

  total-key : (i : ℕ) (m : List (ℕ × V)) → total (λ e. one (e.0 == i)) m ≡ occurrences i (keys m)
  total-key i [] = refl
  total-key i (e ∷ m) = ground (arith, total-key i m)

  -- Distinct keys that are all there are as many entries.
  pub count-is_one_of :
      (l : List ℕ) (m : List (ℕ × V))
      → Unique m
      → ((i : ℕ) → occurrences i l ≤ occurrences i (keys m))
      → count (is_one_of l) m ≡ length l
  count-is_one_of [] m u h = total-zero (λ e. one (is_one_of [] e)) m (λ e. refl)
  count-is_one_of (x ∷ l) m u h =
      let once : occurrences x l ≡ 0 = ground (arith, h x, u x) in
      let present : occurrences x (keys m) ≡ 1 = ground (arith, h x, u x) in
      let rest = count-is_one_of l m u (λ i. ground (arith, h i)) in
      let sum =
        total-split (λ e. one (is_one_of (x ∷ l) e)) (λ e. one (e.0 == x))
          (λ e. one (is_one_of l e)) m (everywhere _ m (λ e. ground arith)) in
      omega (arith, rest, sum, total-key x m, present)

  -- The entries of the keys of a list, rewritten.
  abbrev pub rewritten : (V → V) → List ℕ → ℕ × V → ℕ × V
  rewritten f l e = if is_one_of l e then (e.0, f e.1) else e

  pub keys-rewritten :
      (f : V → V) (l : List ℕ) (m : List (ℕ × V)) → keys (map (rewritten f l) m) ≡ keys m
  keys-rewritten f l [] = refl
  keys-rewritten f l (e ∷ m) = ground (arith, keys-rewritten f l m)

  pub rewritten_none : (f : V → V) (m : List (ℕ × V)) → map (rewritten f []) m ≡ m
  rewritten_none f [] = refl
  rewritten_none f (e ∷ m) = ap (◌∷◌ e) (rewritten_none f m)

  pub rewritten-Unique :
      (f : V → V) (l : List ℕ) (m : List (ℕ × V)) → Unique m → Unique (map (rewritten f l) m)
  rewritten-Unique f l m u i = rw (keys-rewritten f l m) (u i)

  rewritten_absent :
      (f : V → V) (i : ℕ) (m : List (ℕ × V))
      → occurrences i (keys m) ≡ 0
      → map (rewritten f (i ∷ [])) m ≡ m
  rewritten_absent f i [] h = refl
  rewritten_absent f i (e ∷ m) h = ground (arith, rewritten_absent f i m)

  pub adjust-map :
      (f : V → V) (i : ℕ) (m : List (ℕ × V))
      → Unique m
      → Dict.adjust i f m ≡ map (rewritten f (i ∷ [])) m
  unfolding Dict.adjust
  adjust-map f i [] u = refl
  adjust-map f i (e ∷ m) u =
      ground (arith, u i, rewritten_absent f i m, adjust-map f i m (Unique-tail e m u))

  -- Rewriting twice is rewriting once, when a second rewriting of an entry changes nothing.
  pub rewritten-rewritten :
      (f : V → V) (x : ℕ) (l : List ℕ) (m : List (ℕ × V))
      → ((v : V) → f (f v) ≡ f v)
      → map (rewritten f l) (map (rewritten f (x ∷ [])) m) ≡ map (rewritten f (x ∷ l)) m
  rewritten-rewritten f x l [] h = refl
  rewritten-rewritten f x l (e ∷ m) h =
      ap₂ ◌∷◌ (ground (arith, h e.1)) (rewritten-rewritten f x l m h)

  occurrences-filter :
      (p : ℕ × V → Bool) (i : ℕ) (m : List (ℕ × V))
      → occurrences i (keys (filter p m)) ≡ total (at_key i (λ e. one (p e))) m
  occurrences-filter p i [] = refl
  occurrences-filter p i (e ∷ m) = ground (arith, occurrences-filter p i m)

  -- A key is among those of the entries that pass a test exactly if its entry passes.
  pub own-occurrences :
      (p : ℕ × V → Bool) (m : List (ℕ × V))
      → Unique m
      → All (λ e. occurrences e.0 (keys (filter p m)) ≡ one (p e)) m
  own-occurrences p m u =
      mapped-All (λ e. total (at_key e.0 (λ x. one (p x))) m ≡ one (p e)) _ m
        (λ e h. occurrences-filter p e.0 m ∙ h) (total-at_key (λ e. one (p e)) m u)

  pub filter-occurrences :
      (p : ℕ × V → Bool) (i : ℕ) (m : List (ℕ × V))
      → occurrences i (keys (filter p m)) ≤ occurrences i (keys m)
  filter-occurrences p i [] = omega arith
  filter-occurrences p i (e ∷ m) = ground (arith, filter-occurrences p i m)

  pub get-occurs :
      (i : ℕ) (v : V) (m : List (ℕ × V)) → Dict.get i m ≡ some v → 1 ≤ occurrences i (keys m)
  unfolding Dict.get
  get-occurs i v [] h = cc
  get-occurs i v (e ∷ m) h = ground (arith, get-occurs i v m)

  -- What holds of every entry holds of the one that is found.
  pub All-get {κ} :
      (P : ℕ × V → Type κ) (i : ℕ) (v : V) (m : List (ℕ × V))
      → All P m
      → Dict.get i m ≡ some v
      → P (i, v)
  unfolding Dict.get
  All-get P i v [] all h = absurd cc
  All-get P i v (e ∷ m) all h = elim (Bool-cases (e.0 == i)) [
    | inl same ↦
        let e1 : e.1 ≡ v = ground (arith, h, same) in
        subst {A = ℕ × V} P (ap₂ (λ a b. (a, b)) ((==_iff e.0 i).0 same) e1) all.0
    | inr other ↦ All-get P i v m all.1 (ground (arith, h, other))
  ]

  -- The first key of the entries that pass a test has an entry that passes.
  pub get-first :
      (p : ℕ × V → Bool) (first : ℕ) (rest : List ℕ) (m : List (ℕ × V))
      → Unique m
      → keys (filter p m) ≡ first ∷ rest
      → (v : V) × (Dict.get first m ≡ some v) × (p (first, v) ≡ true)
  unfolding Dict.get
  get-first p first rest [] u h = absurd cc
  get-first p first rest (e ∷ m) u h = elim (Bool-cases (p e)) [
    | inl passes ↦
        let here : e.0 ≡ first = ground (arith, h) in
        (e.1, ground (arith, here), subst (λ i. p (i, e.1) ≡ true) here passes)
    | inr fails ↦
        let later = get-first p first rest m (Unique-tail e m u) (ground (arith, h)) in
        (later.0, ground (arith, get-occurs first later.0 m later.1, u e.0), later.2)
  ]

  -- A new key is one more entry.
  pub total-insert_new :
      (g : ℕ × V → ℕ) (i : ℕ) (v : V) (m : List (ℕ × V))
      → occurrences i (keys m) ≡ 0
      → total g (Dict.insert i v m) ≡ total g m + g (i, v)
  unfolding Dict.insert
  total-insert_new g i v [] h = omega arith
  total-insert_new g i v (e ∷ m) h = ground (arith, total-insert_new g i v m)

  pub occurrences-insert_new :
      (i j : ℕ) (v : V) (m : List (ℕ × V))
      → occurrences i (keys m) ≡ 0
      → occurrences j (keys (Dict.insert i v m)) ≡ occurrences j (keys m) + one (i == j)
  unfolding Dict.insert
  occurrences-insert_new i j v [] h = ground arith
  occurrences-insert_new i j v (e ∷ m) h = ground (arith, occurrences-insert_new i j v m)

  pub All-insert {κ} :
      (P : ℕ × V → Type κ) (i : ℕ) (v : V) (m : List (ℕ × V))
      → All P m
      → P (i, v)
      → All P (Dict.insert i v m)
  unfolding Dict.insert
  All-insert P i v [] all h = (h, tt)
  All-insert P i v (e ∷ m) all h =
      if_both (All P) (e.0 == i) _ _ (h, all.1) (all.0, All-insert P i v m all.1 h)

  -- What is found after a rewriting is what was found, rewritten.
  pub get-rewritten :
      (f : V → V) (l : List ℕ) (i : ℕ) (m : List (ℕ × V))
      → Dict.get i (map (rewritten f l) m)
        ≡ Option.map (λ v. if leb 1 (occurrences i l) then f v else v) (Dict.get i m)
  unfolding Dict.get
  get-rewritten f l i [] = refl
  get-rewritten f l i (e ∷ m) = ground (arith, ==_iff e.0 i, get-rewritten f l i m)

  -- The rewriting of the same entries undone.
  pub rewritten_undone :
      (f g : V → V) (l k : List ℕ) (e : ℕ × V)
      → is_one_of k (rewritten g l e) ≡ is_one_of l e
      → (is_one_of l e ≡ true → f (g e.1) ≡ e.1)
      → rewritten f k (rewritten g l e) ≡ e
  rewritten_undone f g l k e same back = elim (Bool-cases (is_one_of l e)) [
    | inl among ↦ ground (arith, among, same, back among)
    | inr apart ↦ ground (arith, apart, same)
  ]
