-- ===== src/Agents/Parallel/Completion.antt =====
-- agent-patterns/src/parallelization.rs: when the results of the tasks are aggregated.
use composable_rust.Prelude.{
  ℕ, String, Bool, true, false, not, ◌||◌, none, some, List, [], ◌∷◌, map, HashMap, insert, filter,
  take, min, length, is_empty, str_eq, if◌then◌else◌, ◌≡◌, refl, ◌∙◌, ap, sym, arith, All, eq_iff,
  Bool-cases, inl, inr, zero, suc, eq_refl, subst,
}
use composable_rust.Core.Effect.{nothing, future}
use composable_rust.Agents.Parallel.{
  Task, TaskResult, ParallelState, execute, task_complete, aggregate, reduce, all_tasks_complete,
  task_effect,
}

abbrev pub Completion : Type 0
Completion = String × TaskResult

abbrev pub contains : String → List String → Bool
contains id [] = false
contains id (x ∷ xs) = str_eq id x || contains id xs

abbrev pub ids : List Task → List String
ids tasks = map (λ t. t.id) tasks

abbrev pub done_ids : List Completion → List String
done_ids done = map (λ d. d.0) done

-- The state after some completions have been reduced.
unfoldable pub complete_all : (max_concurrent : ℕ) → ParallelState → List Completion → ParallelState
unfolding reduce
complete_all max state [] = state
complete_all max state ((id, result) ∷ done) =
    complete_all max (reduce max state (task_complete id result)).0 done

filter-filter :
    (x : String) (ds xs : List String)
    → filter (λ id. not (contains id ds)) (filter (λ id. not (str_eq id x)) xs)
      ≡ filter (λ id. not (contains id (x ∷ ds))) xs
filter-filter x ds [] = refl
filter-filter x ds (y ∷ xs) = ground (arith, filter-filter x ds xs)

filter_all : (xs : List String) → filter (λ id. not (contains id [])) xs ≡ xs
filter_all [] = refl
filter_all (x ∷ xs) = ap (◌∷◌ x) (filter_all xs)

pending-complete_all :
    (max : ℕ) (state : ParallelState) (done : List Completion)
    → (complete_all max state done).pending_tasks
      ≡ filter (λ id. not (contains id (done_ids done))) state.pending_tasks
unfolding complete_all reduce
pending-complete_all max state [] = sym (filter_all state.pending_tasks)
pending-complete_all max state ((x, r) ∷ done) =
    pending-complete_all max (reduce max state (task_complete x r)).0 done
    ∙ filter-filter x (done_ids done) state.pending_tasks

insert_nonempty :
    (x : String) (r : TaskResult) (m : HashMap TaskResult) → is_empty (insert x r m) ≡ false
unfolding insert
insert_nonempty x r [] = refl
insert_nonempty x r ((y, s) ∷ m) = ground arith

-- Completions leave the result and the flag as they are.
unfinished-complete_all :
    (max : ℕ) (state : ParallelState) (done : List Completion)
    → ((complete_all max state done).completed ≡ state.completed)
      × ((complete_all max state done).result ≡ state.result)
unfolding complete_all reduce
unfinished-complete_all max state [] = (refl, refl)
unfinished-complete_all max state ((x, r) ∷ done) =
    unfinished-complete_all max (reduce max state (task_complete x r)).0 done

-- What the completion of a task returns, by what is still pending afterwards.
completion_effect :
    (max : ℕ) (state : ParallelState) (x : String) (r : TaskResult)
    → (reduce max state (task_complete x r)).1 ≡ (
        if is_empty (reduce max state (task_complete x r)).0.pending_tasks
        then future (some aggregate) ∷ []
        else nothing ∷ [])
unfolding reduce all_tasks_complete
completion_effect max state x r = ground (arith, insert_nonempty x r state.completed_tasks)

-- After tasks have been started and any completions have come in, in any order, exactly the tasks
-- without a completion are pending; and the completion after these asks for the aggregation exactly
-- if it leaves no task pending.
pub completions-pending :
    (max : ℕ) (state : ParallelState) (task : Task) (tasks : List Task) (done : List Completion)
    (x : String) (r : TaskResult)
    → let started = (reduce max state (execute (task ∷ tasks))).0 in
      let before = complete_all max started done in
      let pending = filter (λ id. not (contains id (done_ids done))) (ids (task ∷ tasks)) in
      (before.pending_tasks ≡ pending)
      × ((reduce max before (task_complete x r)).1 ≡ (
          if is_empty (filter (λ id. not (str_eq id x)) pending)
          then future (some aggregate) ∷ []
          else nothing ∷ []))
unfolding reduce
completions-pending max state task tasks done x r =
    let started = (reduce max state (execute (task ∷ tasks))).0 in
    let same = pending-complete_all max started done in
    (
      same,
      completion_effect max (complete_all max started done) x r
          ∙ ap
              (λ l.
                if is_empty (filter (λ id. not (str_eq id x)) l)
                then future (some aggregate) ∷ []
                else nothing ∷ [])
              same,
    )

-- A task beyond the maximum whose identifier is none of those before it.
abbrev pub IsLeftOut : (max : ℕ) → Task → List Task → Type 0
IsLeftOut max late tasks =
    (contains late.id (ids tasks) ≡ true) × (contains late.id (ids (take max tasks)) ≡ false)

-- The execution has not ended, and waits for the task.
abbrev pub IsStalled : Task → ParallelState → Type 0
IsStalled late state =
    (contains late.id state.pending_tasks ≡ true)
    × (state.completed ≡ false)
    × (state.result ≡ none)

filter_keeps :
    (x : String) (p : String → Bool) (xs : List String)
    → contains x xs ≡ true
    → p x ≡ true
    → contains x (filter p xs) ≡ true
filter_keeps x p [] there kept = absurd cc
filter_keeps x p (y ∷ xs) there kept = elim (Bool-cases (str_eq x y)) [
  | inl same ↦
      let equal : x ≡ y = (eq_iff x y).0 same in ground (arith, equal, kept, same, eq_refl x)
  | inr other ↦ ground (arith, there, other, filter_keeps x p xs)
]

contains_nonempty : (x : String) (xs : List String) → contains x xs ≡ true → is_empty xs ≡ false
contains_nonempty x [] h = absurd cc
contains_nonempty x (y ∷ xs) h = refl

not_among :
    (x : String) (launched : List String) (done : List Completion)
    → contains x launched ≡ false
    → All (λ d. contains d.0 launched ≡ true) done
    → contains x (done_ids done) ≡ false
not_among x launched [] out all = refl
not_among x launched ((y, r) ∷ done) out (here, all) = elim (Bool-cases (str_eq x y)) [
  | inl same ↦ let equal : x ≡ y = (eq_iff x y).0 same in absurd (ground (arith, equal, here, out))
  | inr other ↦ ground (arith, other, not_among x launched done out all)
]

take-min : (n : ℕ) (tasks : List Task) → take (min n (length tasks)) tasks ≡ take n tasks
take-min zero tasks =
    let none_left : min 0 (length tasks) ≡ 0 = omega arith in ap (λ k. take k tasks) none_left
take-min (suc n) [] =
    let none_left : min (suc n) 0 ≡ 0 = omega arith in ap (λ k. take {A = Task} k []) none_left
take-min (suc n) (t ∷ tasks) =
    let one_more : min (suc n) (suc (length tasks)) ≡ suc (min n (length tasks)) = omega arith in
    ap (λ k. take k (t ∷ tasks)) one_more ∙ ap (◌∷◌ t) (take-min n tasks)

different :
    (x y : String) (launched : List String)
    → contains x launched ≡ false
    → contains y launched ≡ true
    → not (str_eq x y) ≡ true
different x y launched out there = elim (Bool-cases (str_eq x y)) [
  | inl same ↦ let equal : x ≡ y = (eq_iff x y).0 same in absurd (ground (arith, equal, there, out))
  | inr other ↦ ground (arith, other)
]

-- Only the first `max_concurrent` tasks are started. If a later task has an identifier of its own,
-- then after any completions of started tasks it is still pending and the execution is neither
-- completed nor has a result, and the completion of one more started task leaves that so and neither
-- starts anything nor asks for the aggregation.
pub left_out_stalls :
    (max : ℕ) (state : ParallelState) (task late : Task) (tasks : List Task)
    (done : List Completion) (x : String) (r : TaskResult)
    → IsLeftOut max late (task ∷ tasks)
    → All (λ d. contains d.0 (ids (take max (task ∷ tasks))) ≡ true) done
    → contains x (ids (take max (task ∷ tasks))) ≡ true
    → let (begun, started) = reduce max state (execute (task ∷ tasks)) in
      let before = complete_all max begun done in
      let (after, effects) = reduce max before (task_complete x r) in
      (started ≡ map task_effect (take max (task ∷ tasks)))
      × IsStalled late before
      × IsStalled late after
      × (effects ≡ nothing ∷ [])
unfolding reduce
left_out_stalls max state task late tasks done x r (there, out) all started =
    let launched = ids (take max (task ∷ tasks)) in
    let begun = (reduce max state (execute (task ∷ tasks))).0 in
    let before = complete_all max begun done in
    let unfinished = unfinished-complete_all max begun done in
    let waits : contains late.id before.pending_tasks ≡ true =
      subst (λ l. contains late.id l ≡ true) (sym (pending-complete_all max begun done))
        (filter_keeps late.id (λ id. not (contains id (done_ids done))) begun.pending_tasks there
          (ap not (not_among late.id launched done out all))) in
    let remains : contains late.id (reduce max before (task_complete x r)).0.pending_tasks ≡ true =
      filter_keeps late.id (λ id. not (str_eq id x)) before.pending_tasks waits
        (different late.id x launched out started) in
    (
      ap (map task_effect) (take-min max (task ∷ tasks)),
      (waits, unfinished.0, unfinished.1),
      (remains, unfinished.0, unfinished.1),
      completion_effect max before x r ∙ ground (arith, contains_nonempty late.id _ remains),
    )
