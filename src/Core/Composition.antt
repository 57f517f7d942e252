-- ===== src/Core/Composition.antt =====
-- core/src/composition.rs: combining and scoping reducers.
-- A reducer is its method `reduce`; the `&mut` state comes back beside the effects, which are in
-- the order of the `SmallVec`.
pub mod Laws
use composable_rust.Prelude.{List, [], ◌∷◌, ◌++◌}
use composable_rust.Core.Effect.{Effect}

module _ {ℓ} (S A E : Type ℓ) where
  abbrev pub Reducer : Type ℓ
  Reducer = S → A → E → S × List (Effect A)

module _ {ℓ} {S A E : Type ℓ} where
  -- The loop of `CombinedReducer::reduce`, with `all_effects` as its accumulator.
  combined_loop : List (Reducer S A E) → S → A → E → List (Effect A) → S × List (Effect A)
  combined_loop [] state action env all_effects = (state, all_effects)
  combined_loop (reducer ∷ reducers) state action env all_effects =
      let (state', effects) = reducer state action env in
      combined_loop reducers state' action env (all_effects ++ effects)

  -- `combine_reducers`
  unfoldable pub combine_reducers : List (Reducer S A E) → Reducer S A E
  unfolding combined_loop
  combine_reducers reducers state action env = combined_loop reducers state action env []

  -- `scope_reducer`
  unfoldable pub scope_reducer :
      {SubS : Type ℓ} → Reducer SubS A E → (S → SubS) → (S → SubS → S) → Reducer S A E
  scope_reducer reducer get_state set_state state action env =
      let (sub_state, effects) = reducer (get_state state) action env in
      (set_state state sub_state, effects)
