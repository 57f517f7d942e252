-- ===== src/Agents/Orchestrator/Starting.antt =====
-- agent-patterns/src/orchestrator.rs: which subtasks may start.
use composable_rust.Prelude.{
  ◌≢◌, ◌↔◌, Bool, ap, contains_key, eq_iff, arith, String, true, false, List, [], ◌∷◌, filter,
  is_empty, ◌≡◌, refl, ◌⊎◌, All, inl, inr, if_cases,
}
use composable_rust.Agents.Orchestrator.{
  Subtask, OrchestratorState, is_ready, contains, dependencies_satisfied-All,
}

abbrev pub Listed : {A : Type 0} → A → List A → Type 0
Listed a [] = ⊥
Listed a (x ∷ l) = (a ≡ x) ⊎ Listed a l

-- A subtask of the plan whose dependencies all have a result, and that neither has one nor is being
-- executed itself.
abbrev pub MayStart : OrchestratorState → Subtask → Type 0
MayStart state st =
    Listed st state.subtasks
    × All (λ id. contains_key id state.completed ≡ true) st.dependencies
    × (contains_key st.id state.completed ≡ false)
    × All (λ id. id ≢ st.id) state.executing

contains-All : (id : String) (l : List String) → (contains id l ≡ false) ↔ All (λ x. x ≢ id) l
contains-All id [] = (λ h. tt, λ h. refl)
contains-All id (x ∷ l) =
    let rest = contains-All id l in
    (
      λ h. (λ same. ground (arith, h, same, eq_iff x id), rest.0 (ground (arith, h))),
      λ h. let here = h.0 in let there = rest.1 h.1 in ground (arith, here, there, eq_iff x id),
    )

pub is_ready-MayStart :
    (state : OrchestratorState) (st : Subtask)
    → Listed st state.subtasks
    → is_ready state st ≡ true
    → MayStart state st
is_ready-MayStart state st listed ready = (
  listed,
  (dependencies_satisfied-All st state.completed).0 (ground (arith, ready)),
  ground (arith, ready),
  (contains-All st.id state.executing).0 (ground (arith, ready)),
)

pub MayStart-is_ready :
    (state : OrchestratorState) (st : Subtask) → MayStart state st → is_ready state st ≡ true
MayStart-is_ready state st (listed, done, open_one, idle) =
    let done' = (dependencies_satisfied-All st state.completed).1 done in
    let idle' = (contains-All st.id state.executing).1 idle in
    ground (arith, done', open_one, idle')

pub Listed-filter :
    (p : Subtask → Bool) (st : Subtask) (l : List Subtask)
    → p st ≡ true
    → Listed st l
    → Listed st (filter p l)
Listed-filter p st [] h listed = absurd listed
Listed-filter p st (x ∷ l) h (inl same) =
    if_cases (Listed st) (p x) _ _ (λ _. inl same)
      (λ refused. absurd (ground (arith, h, refused, ap p same)))
Listed-filter p st (x ∷ l) h (inr later) =
    let rest = Listed-filter p st l h later in
    if_cases (Listed st) (p x) _ _ (λ _. inr rest) (λ _. rest)

pub not-Listed : (st : Subtask) (l : List Subtask) → is_empty l ≡ true → Listed st l → ⊥
not-Listed st [] h listed = absurd listed
not-Listed st (x ∷ l) h listed = absurd cc

pub ready_ones :
    (state : OrchestratorState) (l : List Subtask)
    → ((st : Subtask) → Listed st l → Listed st state.subtasks)
    → All (MayStart state) (filter (is_ready state) l)
ready_ones state [] listed = tt
ready_ones state (st ∷ l) listed =
    let rest = ready_ones state l (λ x h. listed x (inr h)) in
    if_cases (All (MayStart state)) (is_ready state st) _ _
      (λ h. (is_ready-MayStart state st (listed st (inl refl)) h, rest)) (λ _. rest)
