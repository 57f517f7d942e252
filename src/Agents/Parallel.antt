-- ===== src/Agents/Parallel.antt =====
-- agent-patterns/src/parallelization.rs: tasks that are executed in parallel.
-- The entries of the map of results are in the order in which it iterates.
pub mod Completion
use composable_rust.Prelude.{
  ℕ, String, Bool, true, false, not, ◌&&◌, Option, none, some, List, [], ◌∷◌, map, Result, ok, err,
  HashMap, insert, filter, take, min, length, is_empty, str_eq, if◌then◌else◌,
}
use Prim.Native.String.{◌++◌ as text_append}
use composable_rust.Core.Effect.{Effect, nothing, future}

pub record Task : Type 0 where
  pub id : String
  pub input : String

abbrev pub TaskResult : Type 0
TaskResult = Result String String

pub record ParallelState : Type 0 where
  pub pending_tasks : List String
  pub completed_tasks : HashMap TaskResult
  pub result : Option String
  pub completed : Bool

-- `ParallelState::new`
abbrev pub new_state : ParallelState
new_state = record { pending_tasks = []; completed_tasks = []; result = none; completed = false }

unfoldable pub all_tasks_complete : ParallelState → Bool
all_tasks_complete state = is_empty state.pending_tasks && not (is_empty state.completed_tasks)

pub data ParallelAction : Type 0 where
  execute : List Task → ParallelAction
  task_complete : (task_id : String) → TaskResult → ParallelAction
  aggregate : ParallelAction
  complete : (result : String) → ParallelAction
  error : (message : String) → ParallelAction

-- The line that one result adds to the output.
result_line : String × TaskResult → String
result_line (task_id, ok value) =
    text_append "- Task " (text_append task_id (text_append ": " (text_append value "\n")))
result_line (task_id, err message) =
    text_append "- Task "
      (text_append task_id (text_append " (failed): " (text_append message "\n")))

push_lines : String → List (String × TaskResult) → String
unfolding result_line
push_lines output [] = output
push_lines output (r ∷ results) = push_lines (text_append output (result_line r)) results

unfoldable pub aggregate_results : HashMap TaskResult → String
unfolding push_lines
aggregate_results results = push_lines "Aggregated results:\n" results

-- The placeholder that stands for the execution of a task.
abbrev pub task_effect : Task → Effect ParallelAction
task_effect task = future (some (task_complete task.id (ok "completed")))

unfoldable pub reduce :
    (max_concurrent : ℕ)
    → ParallelState
    → ParallelAction
    → ParallelState × List (Effect ParallelAction)
unfolding all_tasks_complete aggregate_results insert
reduce max_concurrent state (execute tasks) =
    if is_empty tasks then (record state { completed = true }, nothing ∷ []) else (
      record state {
        pending_tasks = map (λ t. t.id) tasks;
        completed_tasks = [];
        result = none;
        completed = false;
      },
      map task_effect (take (min max_concurrent (length tasks)) tasks),
    )
reduce max_concurrent state (task_complete task_id result) =
    let state' = record state {
      pending_tasks = filter (λ id. not (str_eq id task_id)) state.pending_tasks;
      completed_tasks = insert task_id result state.completed_tasks;
    } in
    (state', if all_tasks_complete state' then future (some aggregate) ∷ [] else nothing ∷ [])
reduce max_concurrent state aggregate =
    let aggregated = aggregate_results state.completed_tasks in
    (
      record state { result = some aggregated; completed = true },
      future (some (complete aggregated)) ∷ [],
    )
reduce max_concurrent state (complete _) = (state, nothing ∷ [])
reduce max_concurrent state (error _) = (record state { completed = true }, nothing ∷ [])
