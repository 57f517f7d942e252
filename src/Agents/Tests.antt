-- ===== src/Agents/Tests.antt =====
-- The properties of the patterns on a few tasks.
use composable_rust.Prelude.{
  String, not, some, [], ◌∷◌, map, ok, ◌≡◌, refl, ◌+◌, ◌≤◌, filter, is_empty, str_eq, if◌then◌else◌,
  arith,
}
use composable_rust.Core.Effect.{nothing, future}
use composable_rust.Agents.Parallel
use composable_rust.Agents.Parallel.{Task}
use composable_rust.Agents.Parallel.Completion
use composable_rust.Agents.Parallel.Completion.{completions-pending, left_out_stalls}
use composable_rust.Agents.Orchestrator
use composable_rust.Agents.Orchestrator.{Subtask, WorkerRegistry, OrchestratorState}
use composable_rust.Agents.Orchestrator.Once.{launches, all_launches, launched_once}

abbrev task : String → Task
task name = record { id = name; input = "" }

completions-pending_example :
    let started =
      (Parallel.reduce 2 Parallel.new_state (Parallel.execute (task "a" ∷ task "b" ∷ []))).0 in
    let before = Completion.complete_all 2 started (("b", ok "done") ∷ []) in
    let pending = filter (λ id. not (Completion.contains id ("b" ∷ []))) ("a" ∷ "b" ∷ []) in
    (before.pending_tasks ≡ pending)
    × ((Parallel.reduce 2 before (Parallel.task_complete "a" (ok "done"))).1 ≡ (
        if is_empty (filter (λ id. not (str_eq id "a")) pending)
        then future (some Parallel.aggregate) ∷ []
        else nothing ∷ []))
completions-pending_example =
    completions-pending 2 Parallel.new_state (task "a") (task "b" ∷ []) (("b", ok "done") ∷ []) "a"
      (ok "done")

-- Three tasks, of which two may run at once.
left_out_stalls_example :
    let (begun, started) =
      Parallel.reduce 2 Parallel.new_state
        (Parallel.execute (task "a" ∷ task "b" ∷ task "c" ∷ [])) in
    let before = Completion.complete_all 2 begun (("a", ok "done") ∷ []) in
    let (after, effects) = Parallel.reduce 2 before (Parallel.task_complete "b" (ok "done")) in
    (started ≡ map Parallel.task_effect (task "a" ∷ task "b" ∷ []))
    × Completion.IsStalled (task "c") before
    × Completion.IsStalled (task "c") after
    × (effects ≡ nothing ∷ [])
left_out_stalls_example =
    left_out_stalls 2 Parallel.new_state (task "a") (task "c") (task "b" ∷ task "c" ∷ [])
      (("a", ok "done") ∷ []) "b" (ok "done") (refl, refl) (refl, tt) refl

abbrev registry : WorkerRegistry
registry = ("upper", λ input. ok input) ∷ []

abbrev first_subtask : Subtask
first_subtask = record { id = "a"; worker_type = "upper"; input = "x"; dependencies = [] }

abbrev second_subtask : Subtask
second_subtask = record { id = "b"; worker_type = "upper"; input = "y"; dependencies = "a" ∷ [] }

abbrev begun : OrchestratorState
begun = record Orchestrator.new_state {
  subtasks = first_subtask ∷ second_subtask ∷ [];
  executing = "a" ∷ [];
}

second_is_launched :
    (Orchestrator.reduce registry begun (Orchestrator.subtask_complete "a" (ok "x"))).1
    ≡ future (some (Orchestrator.subtask_complete "b" (ok "y"))) ∷ []
unfolding Orchestrator.reduce
second_is_launched = refl

launched_once_example :
    let plan = Orchestrator.planned (first_subtask ∷ second_subtask ∷ []) in
    let started = Orchestrator.reduce registry Orchestrator.new_state plan in
    launches "b" started.1
      + all_launches "b" registry started.0 (("a", ok "x") ∷ ("a", ok "x") ∷ ("b", ok "y") ∷ [])
    ≤ 1
launched_once_example =
    launched_once "b" registry Orchestrator.new_state first_subtask (second_subtask ∷ [])
      (("a", ok "x") ∷ ("a", ok "x") ∷ ("b", ok "y") ∷ []) (omega arith)
