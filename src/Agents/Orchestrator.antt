-- ===== src/Agents/Orchestrator.antt =====
-- agent-patterns/src/orchestrator.rs: subtasks with dependencies, executed by registered workers.
-- A worker is a function from its input to the result of its future.
pub mod Starting
pub mod Launches
pub mod Once
use composable_rust.Prelude.{
  ◌≡◌, ◌↔◌, All, refl, arith, ℕ, String, Bool, true, false, not, ◌&&◌, ◌||◌, Option, none, some,
  List, [], ◌∷◌, ◌++◌, map, Result, ok, err, HashMap, get, insert, contains_key, filter, length,
  is_empty, str_eq, if◌then◌else◌, ◌==◌,
}
use Prim.Native.String.{◌++◌ as text_append}
use composable_rust.Core.Effect.{Effect, nothing, future}

pub record Subtask : Type 0 where
  pub id : String
  pub worker_type : String
  pub input : String
  pub dependencies : List String

abbrev pub TaskResult : Type 0
TaskResult = Result String String

abbrev pub WorkerFn : Type 0
WorkerFn = String → TaskResult

abbrev pub WorkerRegistry : Type 0
WorkerRegistry = HashMap WorkerFn

unfoldable pub register : WorkerRegistry → String → WorkerFn → WorkerRegistry
unfolding insert
register registry worker_type worker = insert worker_type worker registry

unfoldable pub get_worker : WorkerRegistry → String → Option WorkerFn
unfolding get
get_worker registry worker_type = get worker_type registry

pub record OrchestratorState : Type 0 where
  pub subtasks : List Subtask
  pub completed : HashMap TaskResult
  pub executing : List String
  pub result : Option String
  pub completed_flag : Bool

-- `OrchestratorState::new`
abbrev pub new_state : OrchestratorState
new_state = record {
  subtasks = [];
  completed = [];
  executing = [];
  result = none;
  completed_flag = false;
}

unfoldable pub all_subtasks_complete : OrchestratorState → Bool
all_subtasks_complete state =
    not (is_empty state.subtasks)
    && length state.completed == length state.subtasks
    && is_empty state.executing

pub data OrchestratorAction : Type 0 where
  plan : (task : String) → OrchestratorAction
  planned : List Subtask → OrchestratorAction
  subtask_complete : (subtask_id : String) → TaskResult → OrchestratorAction
  aggregate : OrchestratorAction
  complete : (result : String) → OrchestratorAction
  error : (message : String) → OrchestratorAction

abbrev pub contains : String → List String → Bool
contains id [] = false
contains id (x ∷ xs) = str_eq x id || contains id xs

all_keys : HashMap TaskResult → List String → Bool
unfolding get
all_keys completed [] = true
all_keys completed (dep ∷ deps) = contains_key dep completed && all_keys completed deps

all_keys-All :
    (completed : HashMap TaskResult) (deps : List String)
    → (all_keys completed deps ≡ true) ↔ All (λ id. contains_key id completed ≡ true) deps
unfolding all_keys
all_keys-All completed [] = (λ h. tt, λ h. refl)
all_keys-All completed (dep ∷ deps) =
    let rest = all_keys-All completed deps in
    (
      λ h. (ground (arith, h), rest.0 (ground (arith, h))),
      λ h. let here = h.0 in let there = rest.1 h.1 in ground (arith, here, there),
    )

unfoldable pub dependencies_satisfied : Subtask → HashMap TaskResult → Bool
unfolding all_keys
dependencies_satisfied subtask completed = all_keys completed subtask.dependencies

pub dependencies_satisfied-All :
    (st : Subtask) (completed : HashMap TaskResult)
    → (dependencies_satisfied st completed ≡ true)
      ↔ All (λ id. contains_key id completed ≡ true) st.dependencies
unfolding dependencies_satisfied
dependencies_satisfied-All st completed = all_keys-All completed st.dependencies

abbrev pub is_ready : OrchestratorState → Subtask → Bool
is_ready state st =
    not (contains_key st.id state.completed)
    && not (contains st.id state.executing)
    && dependencies_satisfied st state.completed

unfoldable pub get_ready_subtasks : OrchestratorState → List Subtask
unfolding dependencies_satisfied get
get_ready_subtasks state = filter (is_ready state) state.subtasks

result_line : String × TaskResult → String
result_line (task_id, ok value) =
    text_append "- Subtask " (text_append task_id (text_append ": " (text_append value "\n")))
result_line (task_id, err message) =
    text_append "- Subtask "
      (text_append task_id (text_append " (failed): " (text_append message "\n")))

push_lines : String → List (String × TaskResult) → String
unfolding result_line
push_lines output [] = output
push_lines output (r ∷ results) = push_lines (text_append output (result_line r)) results

unfoldable pub aggregate_results : HashMap TaskResult → String
unfolding push_lines
aggregate_results results = push_lines "Orchestrated results:\n" results

-- The loop over the ready subtasks: those with a worker are added to the executing ones.
unfoldable pub launch :
    WorkerRegistry → List Subtask → List String → List String × List (Effect OrchestratorAction)
unfolding get_worker
launch registry [] executing = (executing, [])
launch registry (subtask ∷ ready) executing = elim (get_worker registry subtask.worker_type) [
  | none ↦ launch registry ready executing
  | some worker ↦
      let rest = launch registry ready (executing ++ subtask.id ∷ []) in
      (rest.0, future (some (subtask_complete subtask.id (worker subtask.input))) ∷ rest.1)
]

unfoldable pub reduce :
    WorkerRegistry
    → OrchestratorState
    → OrchestratorAction
    → OrchestratorState × List (Effect OrchestratorAction)
unfolding get_ready_subtasks launch all_subtasks_complete aggregate_results insert
reduce registry state (plan _) = (state, future none ∷ [])
reduce registry state (planned subtasks) =
    if is_empty subtasks
    then (record state { completed_flag = true }, nothing ∷ [])
    else let state' = record state {
      subtasks = subtasks;
      completed = [];
      executing = [];
      result = none;
      completed_flag = false;
    } in
      let launched = launch registry (get_ready_subtasks state') state'.executing in
      (record state' { executing = launched.0 }, launched.1)
reduce registry state (subtask_complete subtask_id result) =
    let state' = record state {
      executing = filter (λ id. not (str_eq id subtask_id)) state.executing;
      completed = insert subtask_id result state.completed;
    } in
    if all_subtasks_complete state'
    then (state', future (some aggregate) ∷ [])
    else let ready = get_ready_subtasks state' in
      if is_empty ready
      then (state', nothing ∷ [])
      else let launched = launch registry ready state'.executing in
        (record state' { executing = launched.0 }, launched.1)
reduce registry state aggregate =
    let aggregated = aggregate_results state.completed in
    (
      record state { result = some aggregated; completed_flag = true },
      future (some (complete aggregated)) ∷ [],
    )
reduce registry state (complete _) = (state, nothing ∷ [])
reduce registry state (error _) = (record state { completed_flag = true }, nothing ∷ [])
