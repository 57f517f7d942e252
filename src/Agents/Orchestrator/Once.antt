-- ===== src/Agents/Orchestrator/Once.antt =====
-- agent-patterns/src/orchestrator.rs: no subtask is launched twice.
use composable_rust.Prelude.{
  ℕ, String, Bool, true, false, not, ◌||◌, some, List, [], ◌∷◌, ◌++◌, contains_key, filter,
  is_empty, str_eq, if◌then◌else◌, ◌≡◌, refl, sym, arith, ◌+◌, ◌≤◌, suc, eq_iff, Bool-cases,
  Option-cases, inl, inr, if_both, leb, leb→le, subst, contains_key-insert,
}
use composable_rust.Core.Effect.{Effect, future}
use composable_rust.Agents.Orchestrator.{
  Subtask, TaskResult, WorkerRegistry, OrchestratorState, OrchestratorAction, planned,
  subtask_complete, all_subtasks_complete, contains, is_ready, get_ready_subtasks, launch,
  get_worker, reduce,
}
use composable_rust.Agents.Orchestrator.Launches.{after_plan, after_completion}

-- How many effects launch a subtask with an identifier.
abbrev pub launches : String → List (Effect OrchestratorAction) → ℕ
launches id [] = 0
launches id (future (some (subtask_complete x _)) ∷ effects) =
    if str_eq x id then suc (launches id effects) else launches id effects
launches id (_ ∷ effects) = launches id effects

abbrev pub planned_times : String → List Subtask → ℕ
planned_times id [] = 0
planned_times id (st ∷ l) = if str_eq st.id id then suc (planned_times id l) else planned_times id l

-- The subtask is executing or completed.
abbrev pub is_taken : String → OrchestratorState → Bool
is_taken id state = contains id state.executing || contains_key id state.completed

contains-append :
    (id x : String) (l : List String) → contains id (l ++ x ∷ []) ≡ (contains id l || str_eq x id)
contains-append id x [] = ground arith
contains-append id x (y ∷ l) = ground (arith, contains-append id x l)

-- A launch of an identifier puts it among the executing ones.
launch-executing :
    (registry : WorkerRegistry) (id : String) (ready : List Subtask) (executing : List String)
    → (launches id (launch registry ready executing).1 ≤ planned_times id ready)
      × (contains id executing ≡ true → contains id (launch registry ready executing).0 ≡ true)
      × (1 ≤ launches id (launch registry ready executing).1
          → contains id (launch registry ready executing).0 ≡ true)
unfolding launch
launch-executing registry id [] executing = (omega arith, λ h. h, λ h. absurd (omega (arith, h)))
launch-executing registry id (st ∷ ready) executing =
    elim (Option-cases (get_worker registry st.worker_type)) [
      | inl missing ↦
          let rest = launch-executing registry id ready executing in
          (
            ground (arith, missing, rest.0),
            λ h. ground (arith, missing, rest.1 h),
            λ h. ground (arith, missing, rest.2 (ground (arith, missing, h))),
          )
      | inr (worker, found) ↦
          let rest = launch-executing registry id ready (executing ++ st.id ∷ []) in
          (
            ground (arith, found, rest.0),
            λ h. ground (arith, found, h, contains-append id st.id executing, rest.1),
            λ h. elim (Bool-cases (str_eq st.id id)) [
              | inl same ↦ ground (arith, found, same, contains-append id st.id executing, rest.1)
              | inr other ↦ ground (arith, found, other, h, rest.2)
            ],
          )
    ]

-- A subtask that is taken is not ready.
ready_times :
    (state : OrchestratorState) (id : String) (l : List Subtask)
    → (planned_times id (filter (is_ready state) l) ≤ planned_times id l)
      × (is_taken id state ≡ true → planned_times id (filter (is_ready state) l) ≡ 0)
ready_times state id [] = (omega arith, λ _. refl)
ready_times state id (st ∷ l) =
    let rest = ready_times state id l in
    (
      ground (arith, rest.0),
      λ h. elim (Bool-cases (str_eq st.id id)) [
        | inl same ↦
            let equal : st.id ≡ id = (eq_iff st.id id).0 same in ground (arith, rest.1 h, equal, h)
        | inr other ↦ ground (arith, rest.1 h, other)
      ],
    )

contains-filter :
    (id x : String) (l : List String)
    → contains id (filter (λ y. not (str_eq y x)) l)
      ≡ (if str_eq x id then false else contains id l)
contains-filter id x [] = ground arith
contains-filter id x (y ∷ l) =
    ground (arith, contains-filter id x l, eq_iff x id, eq_iff y x, eq_iff y id)

taken_after :
    (state : OrchestratorState) (x : String) (r : TaskResult) (id : String)
    → is_taken id state ≡ true
    → is_taken id (after_completion state x r) ≡ true
taken_after state x r id h =
    ground
      (arith, h, contains-filter id x state.executing, contains_key-insert x id r state.completed)

-- What one completion does to the launches of an identifier.
record Step (id : String) (before : OrchestratorState)
    (p : OrchestratorState × List (Effect OrchestratorAction)) : Type 0 where
  same_subtasks : p.0.subtasks ≡ before.subtasks
  at_most : launches id p.1 ≤ planned_times id before.subtasks
  when_taken : is_taken id before ≡ true → (launches id p.1 ≡ 0) × (is_taken id p.0 ≡ true)
  when_launched : 1 ≤ launches id p.1 → is_taken id p.0 ≡ true

completion-Step :
    (registry : WorkerRegistry) (state : OrchestratorState) (x : String) (r : TaskResult)
    (id : String)
    → Step id state (reduce registry state (subtask_complete x r))
unfolding reduce get_ready_subtasks
completion-Step registry state x r id =
    let chosen = after_completion state x r in
    let later = taken_after state x r id in
    let launched = launch-executing registry id (get_ready_subtasks chosen) chosen.executing in
    let ready = ready_times chosen id chosen.subtasks in
    if_both (Step id state) (all_subtasks_complete chosen) _ _
      (record {
        same_subtasks = refl;
        at_most = omega arith;
        when_taken = λ h. (refl, later h);
        when_launched = λ h. absurd (omega (arith, h));
      })
      (if_both (Step id state) (is_empty (get_ready_subtasks chosen)) _ _
        (record {
          same_subtasks = refl;
          at_most = omega arith;
          when_taken = λ h. (refl, later h);
          when_launched = λ h. absurd (omega (arith, h));
        })
        (record {
          same_subtasks = refl;
          at_most = omega (arith, launched.0, ready.0);
          when_taken = λ h.
              (omega (arith, launched.0, ready.1 (later h)), ground (arith, later h, launched.1));
          when_launched = λ h. ground (arith, launched.2 h);
        }))

-- The launches of an identifier while some completions are reduced.
unfoldable pub all_launches :
    String → WorkerRegistry → OrchestratorState → List (String × TaskResult) → ℕ
unfolding reduce
all_launches id registry state [] = 0
all_launches id registry state ((x, r) ∷ done) =
    let next = reduce registry state (subtask_complete x r) in
    launches id next.1 + all_launches id registry next.0 done

-- An identifier that is planned once is launched at most once, and not at all once it is taken.
all_launches-bound :
    (id : String) (registry : WorkerRegistry) (state : OrchestratorState)
    (done : List (String × TaskResult))
    → planned_times id state.subtasks ≤ 1
    → (all_launches id registry state done ≤ 1)
      × (is_taken id state ≡ true → all_launches id registry state done ≡ 0)
unfolding all_launches
all_launches-bound id registry state [] once = (omega arith, λ _. refl)
all_launches-bound id registry state ((x, r) ∷ done) once =
    let step = completion-Step registry state x r id in
    let next = reduce registry state (subtask_complete x r) in
    let later =
      all_launches-bound id registry next.0 done
        (subst (λ l. planned_times id l ≤ 1) (sym step.same_subtasks) once) in
    (
      elim (Bool-cases (leb 1 (launches id next.1))) [
        | inl launched ↦
            omega (arith, step.at_most, once, later.1 (step.when_launched (leb→le _ _ launched)))
        | inr not_launched ↦ ground (arith, not_launched, later.0)
      ],
      λ h. let taken = step.when_taken h in omega (arith, taken.0, later.1 taken.1),
    )

-- From a plan in which an identifier occurs at most once, whatever completions come in afterwards
-- and in whatever order, also repeated or unknown ones, the subtask is launched at most once.
pub launched_once :
    (id : String) (registry : WorkerRegistry) (state : OrchestratorState) (first : Subtask)
    (subtasks : List Subtask) (done : List (String × TaskResult))
    → planned_times id (first ∷ subtasks) ≤ 1
    → let begun = reduce registry state (planned (first ∷ subtasks)) in
      launches id begun.1 + all_launches id registry begun.0 done ≤ 1
unfolding reduce get_ready_subtasks
launched_once id registry state first subtasks done once =
    let chosen = after_plan state (first ∷ subtasks) in
    let begun = reduce registry state (planned (first ∷ subtasks)) in
    let launched = launch-executing registry id (get_ready_subtasks chosen) [] in
    let ready = ready_times chosen id (first ∷ subtasks) in
    let later = all_launches-bound id registry begun.0 done once in
    elim (Bool-cases (leb 1 (launches id begun.1))) [
      | inl some_launch ↦
          let executing = launched.2 (leb→le _ _ some_launch) in
          omega (arith, launched.0, ready.0, once, later.1 (ground (arith, executing)))
      | inr no_launch ↦ ground (arith, no_launch, later.0)
    ]
