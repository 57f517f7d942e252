-- ===== src/Agents/Orchestrator/Launches.antt =====
-- agent-patterns/src/orchestrator.rs: which subtasks are launched, and how often.
use composable_rust.Prelude.{
  String, false, not, none, some, List, [], insert, filter, str_eq, ◌≡◌, All,
}
use composable_rust.Core.Effect.{Effect, future}
use composable_rust.Agents.Orchestrator.{
  Subtask, TaskResult, WorkerFn, WorkerRegistry, OrchestratorState, OrchestratorAction,
  subtask_complete, get_worker,
}
use composable_rust.Agents.Orchestrator.Starting.{Listed, MayStart}

-- An effect that executes a subtask which may start, by its registered worker.
abbrev pub IsLaunchOf : WorkerRegistry → OrchestratorState → Effect OrchestratorAction → Type 0
IsLaunchOf registry state effect =
    (st : Subtask) × (worker : WorkerFn) × MayStart state st
    × (get_worker registry st.worker_type ≡ some worker)
    × (effect ≡ future (some (subtask_complete st.id (worker st.input))))

abbrev pub launch_of : Subtask → WorkerFn → Effect OrchestratorAction
launch_of st worker = future (some (subtask_complete st.id (worker st.input)))

-- Launches of subtasks that may start, and of all of these whose workers are registered.
abbrev pub StartsAll :
    WorkerRegistry → OrchestratorState → List (Effect OrchestratorAction) → Type 0
StartsAll registry state effects =
    All (IsLaunchOf registry state) effects
    × ((st : Subtask) (worker : WorkerFn)
        → MayStart state st
        → get_worker registry st.worker_type ≡ some worker
        → Listed (launch_of st worker) effects)

-- The state in which the subtasks that are to be launched are chosen: after a plan, and after a
-- completion.
abbrev pub after_plan : OrchestratorState → List Subtask → OrchestratorState
after_plan state subtasks = record state {
  subtasks = subtasks;
  completed = [];
  executing = [];
  result = none;
  completed_flag = false;
}

abbrev pub after_completion : OrchestratorState → String → TaskResult → OrchestratorState
after_completion state id r = record state {
  executing = filter (λ x. not (str_eq x id)) state.executing;
  completed = insert id r state.completed;
}
