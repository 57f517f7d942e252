-- ===== src/Core/Composition/Laws.antt =====
-- core/src/composition.rs: what combined and scoped reducers do.
use composable_rust.Prelude.{◌≡◌, refl, ap, ◌∙◌, List, [], ◌∷◌, ◌++◌, map, append-nil, append_assoc}
use composable_rust.Core.Effect.{Effect}
use composable_rust.Core.Composition.{Reducer, combined_loop, combine_reducers, scope_reducer}

-- What a combination is to do: each reducer runs on the state that the one before it left, and the
-- effects of the first come before those of the others.
abbrev pub in_turn {ℓ} : {S A E : Type ℓ} → List (Reducer S A E) → S → A → E → S × List (Effect A)
in_turn [] s a env = (s, [])
in_turn (r ∷ rs) s a env =
    let (s', es) = r s a env in let (s'', fs) = in_turn rs s' a env in (s'', es ++ fs)

module _ {ℓ} {S A E : Type ℓ} where
  -- The accumulator only collects: what was there stays in front.
  combined_loop-acc :
      (rs : List (Reducer S A E)) (s : S) (a : A) (env : E) (acc : List (Effect A))
      → combined_loop rs s a env acc
        ≡ (let (s', es) = combine_reducers rs s a env in (s', acc ++ es))
  unfolding combine_reducers
  combined_loop-acc [] s a env acc = rw append-nil
  combined_loop-acc (r ∷ rs) s a env acc =
      let s' = (r s a env).0 in
      let es = (r s a env).1 in
      rw (combined_loop-acc rs s' a env (acc ++ es), combined_loop-acc rs s' a env es, append_assoc)

  combine_reducers-in_turn :
      (rs : List (Reducer S A E)) (s : S) (a : A) (env : E)
      → combine_reducers rs s a env ≡ in_turn rs s a env
  unfolding combine_reducers
  combine_reducers-in_turn [] s a env = refl
  combine_reducers-in_turn (r ∷ rs) s a env =
      combined_loop-acc rs (r s a env).0 a env (r s a env).1
      ∙ ap (λ p. (p.0, (r s a env).1 ++ p.1)) (combine_reducers-in_turn rs (r s a env).0 a env)

-- A lens is lawful: reading back what was written, writing back what was read, and a second write
-- that overrides the first.
pub record IsLens {ℓ} {S SubS : Type ℓ} (get : S → SubS) (set : S → SubS → S) : Type ℓ where
  pub get-set : (s : S) (x : SubS) → get (set s x) ≡ x
  pub set-get : (s : S) → set s (get s) ≡ s
  pub set-set : (s : S) (x y : SubS) → set (set s x) y ≡ set s y

module _ {ℓ} {S SubS A E : Type ℓ} (get : S → SubS) (set : S → SubS → S) where
  abbrev scoped : Reducer SubS A E → Reducer S A E
  scoped r = scope_reducer r get set

  combined_loop-scope :
      (rs : List (Reducer SubS A E)) (s : S) (a : A) (env : E) (acc : List (Effect A))
      → IsLens get set
      → combined_loop (map scoped rs) s a env acc
        ≡ (let (x, es) = combined_loop rs (get s) a env acc in (set s x, es))
  unfolding combined_loop scope_reducer
  combined_loop-scope [] s a env acc lens = rw (lens.set-get s)
  combined_loop-scope (r ∷ rs) s a env acc lens =
      let x' = (r (get s) a env).0 in
      let es = (r (get s) a env).1 in
      rw (combined_loop-scope rs (set s x') a env (acc ++ es) lens, lens.get-set s x', lens.set-set)

  combine_scoped :
      (rs : List (Reducer SubS A E)) (s : S) (a : A) (env : E)
      → IsLens get set
      → combine_reducers (map scoped rs) s a env
        ≡ (let (x, es) = combine_reducers rs (get s) a env in (set s x, es))
  unfolding combine_reducers
  combine_scoped rs s a env lens = combined_loop-scope rs s a env [] lens

  -- A combination runs its reducers in turn, each on the state that the one before it left, and
  -- returns their effects in that order; and for a lawful lens the combination of the scoped reducers
  -- does to the part of the state what the reducers do in turn, and nothing to the rest, with the same
  -- effects in the same order, as does the scoped combination.
  pub combine_reducers-scope :
      (rs : List (Reducer SubS A E)) (s : S) (a : A) (env : E)
      → IsLens get set
      → let (x, es) = in_turn rs (get s) a env in
        (combine_reducers rs (get s) a env ≡ (x, es))
        × (combine_reducers (map (λ r. scope_reducer r get set) rs) s a env ≡ (set s x, es))
        × (scope_reducer (combine_reducers rs) get set s a env ≡ (set s x, es))
  unfolding scope_reducer
  combine_reducers-scope rs s a env lens =
      let combined = combine_reducers-in_turn rs (get s) a env in
      let scoped_combination = ap (λ p. (set s p.0, p.1)) combined in
      (combined, combine_scoped rs s a env lens ∙ scoped_combination, scoped_combination)
