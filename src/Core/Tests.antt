-- ===== src/Core/Tests.antt =====
-- core/src/composition.rs and core/src/lib.rs: reducers and effects at concrete values.
use composable_rust.Prelude.{ℕ, ◌+◌, ◌≡◌, refl, some, [], ◌∷◌, map}
use composable_rust.Core.Effect.{
  Effect, nothing, parallel, sequential, delay, future, stream, nil, cons,
}
use composable_rust.Core.Composition.{Reducer, combine_reducers, scope_reducer}
use composable_rust.Core.Composition.Laws.{in_turn, combine_reducers-scope, IsLens}

abbrev adding : Reducer ℕ ℕ ℕ
adding s a env = (s + a, future (some s) ∷ [])

abbrev scaling : Reducer ℕ ℕ ℕ
scaling s a env = (s + env, delay 5 a ∷ nothing ∷ [])

abbrev first : ℕ × ℕ → ℕ
first s = s.0

abbrev set_first : ℕ × ℕ → ℕ → ℕ × ℕ
set_first s x = (x, s.1)

first-IsLens : IsLens first set_first
first-IsLens = record { get-set = λ s x. refl; set-get = λ s. refl; set-set = λ s x y. refl }

combine_reducers-scope_example :
    let (x, es) = in_turn (adding ∷ scaling ∷ []) 1 2 10 in
    (combine_reducers (adding ∷ scaling ∷ []) 1 2 10 ≡ (x, es))
    × (combine_reducers
          (map (λ (r : Reducer ℕ ℕ ℕ). scope_reducer r first set_first) (adding ∷ scaling ∷ []))
          (1, 7)
          2
          10
        ≡ (set_first (1, 7) x, es))
    × (scope_reducer (combine_reducers (adding ∷ scaling ∷ [])) first set_first (1, 7) 2 10
        ≡ (set_first (1, 7) x, es))
combine_reducers-scope_example =
    combine_reducers-scope first set_first (adding ∷ scaling ∷ []) (1, 7) 2 10 first-IsLens

abbrev nested : Effect ℕ
nested = sequential (
    cons (parallel (cons (future (some 3)) (cons (delay 9 4) nil)))
      (cons (stream (5 ∷ 6 ∷ [])) nil))
