-- ===== src/Runtime/Store/Tasks.antt =====
-- runtime/src/lib.rs, module `store`: the tasks of a store, counted.
use composable_rust.Prelude.{
  ℕ, ◌+◌, Bool, true, false, ◌≡◌, ap, Option, some, List, [], ◌∷◌, ◌++◌, arith, ◌==◌, ◌∙◌, sym,
  append_assoc,
}
use composable_rust.Core.Event.{EventMetadata}
use composable_rust.Core.Effect.{
  Effect, nothing, parallel, sequential, delay, future, stream, event_store, publish_event, Effects,
  nil, cons,
}
use composable_rust.Runtime.Store.{
  Job, future_job, stream_job, delay_job, sequential_next, event_store_job, publish_job, Task,
  Store, bit, tracks, spawn, execute_effect, execute_effects, execute_all,
}

module _ {A : Type 0} where
  -- How many tasks hold a guard of channel `c`, and how many hold a guard of `pending_effects`.
  unfoldable pub live : ℕ → List (Task A) → ℕ
  live c [] = 0
  live c (t ∷ ts) = bit (tracks c t.tracking) + live c ts

  unfoldable pub guarded_tasks : List (Task A) → ℕ
  guarded_tasks [] = 0
  guarded_tasks (t ∷ ts) = bit t.guarded + guarded_tasks ts

  pub live-append : (c : ℕ) (ts us : List (Task A)) → live c (ts ++ us) ≡ live c ts + live c us
  unfolding live
  live-append c [] us = omega arith
  live-append c (t ∷ ts) us = omega (arith, live-append c ts us)

  pub guarded_tasks-append :
      (ts us : List (Task A)) → guarded_tasks (ts ++ us) ≡ guarded_tasks ts + guarded_tasks us
  unfolding guarded_tasks
  guarded_tasks-append [] us = omega arith
  guarded_tasks-append (t ∷ ts) us = omega (arith, guarded_tasks-append ts us)

  abbrev task_of : ℕ → Option EventMetadata → Bool → Job A → Task A
  task_of c m guarded job = record { job = job; tracking = some c; metadata = m; guarded = guarded }

  -- The tasks that an effect becomes, the last one first.
  unfoldable mutual
    pub spawned : Effect A → ℕ → Option EventMetadata → List (Task A)
    spawned nothing c m = []
    spawned (parallel es) c m = spawned_all es c m
    spawned (sequential es) c m = task_of c m true (sequential_next es) ∷ []
    spawned (delay _ a) c m = task_of c m true (delay_job a) ∷ []
    spawned (future r) c m = task_of c m true (future_job r) ∷ []
    spawned (stream items) c m = task_of c m true (stream_job items) ∷ []
    spawned (event_store op) c m = task_of c m true (event_store_job op) ∷ []
    spawned (publish_event op) c m = task_of c m false (publish_job op) ∷ []

    pub spawned_all : Effects A → ℕ → Option EventMetadata → List (Task A)
    spawned_all nil c m = []
    spawned_all (cons e es) c m = spawned_all es c m ++ spawned e c m

  unfoldable pub spawned_list : List (Effect A) → ℕ → Option EventMetadata → List (Task A)
  spawned_list [] c m = []
  spawned_list (e ∷ es) c m = spawned_list es c m ++ spawned e c m

-- A store in which tasks have been started, as their counts show.
module _ {S A : Type 0} where
  unfoldable pub with_tasks : List (Task A) → Store S A → Store S A
  with_tasks ts s = record s {
    pending_effects = s.pending_effects + guarded_tasks ts;
    counters = λ c. s.counters c + live c ts;
    tasks = ts ++ s.tasks;
  }

  with_tasks-nil : (s : Store S A) → s ≡ with_tasks [] s
  unfolding with_tasks live guarded_tasks
  with_tasks-nil s =
      let pending : s.pending_effects ≡ s.pending_effects + 0 = omega arith in
      let counts : (c : ℕ) → s.counters c ≡ s.counters c + 0 = λ c. omega arith in
      λ i. record s { pending_effects = pending i; counters = λ c. counts c i }

  with_tasks-append :
      (us ts : List (Task A)) (s : Store S A)
      → with_tasks us (with_tasks ts s) ≡ with_tasks (us ++ ts) s
  unfolding with_tasks
  with_tasks-append us ts s =
      let pending : s.pending_effects + guarded_tasks ts + guarded_tasks us
          ≡ s.pending_effects + guarded_tasks (us ++ ts) =
        omega (arith, guarded_tasks-append us ts) in
      let counts : (c : ℕ)
          → s.counters c + live c ts + live c us ≡ s.counters c + live c (us ++ ts) =
        λ c. omega (arith, live-append c us ts) in
      λ i. record s {
        pending_effects = pending i;
        counters = λ c. counts c i;
        tasks = sym (append_assoc us ts s.tasks) i;
      }

  spawn-with_tasks :
      (job : Job A) (c : ℕ) (m : Option EventMetadata) (guarded : Bool) (s : Store S A)
      → spawn job (some c) m guarded s ≡ with_tasks (task_of c m guarded job ∷ []) s
  unfolding spawn with_tasks live guarded_tasks
  spawn-with_tasks job c m guarded s =
      let pending : s.pending_effects + bit guarded ≡ s.pending_effects + (bit guarded + 0) =
        omega arith in
      let counts : (d : ℕ) → s.counters d + bit (d == c) ≡ s.counters d + (bit (d == c) + 0) =
        λ d. omega arith in
      λ i. record s {
        pending_effects = pending i;
        counters = λ d. counts d i;
        tasks = task_of c m guarded job ∷ s.tasks;
      }

  mutual
    unfolding execute_effect spawned

    pub execute_effect-tasks :
        (e : Effect A) (c : ℕ) (m : Option EventMetadata) (s : Store S A)
        → execute_effect e c m s ≡ with_tasks (spawned e c m) s
    execute_effect-tasks nothing c m s = with_tasks-nil s
    execute_effect-tasks (parallel es) c m s = execute_effects-tasks es c m s
    execute_effect-tasks (sequential es) c m s = spawn-with_tasks (sequential_next es) c m true s
    execute_effect-tasks (delay d a) c m s = spawn-with_tasks (delay_job a) c m true s
    execute_effect-tasks (future r) c m s = spawn-with_tasks (future_job r) c m true s
    execute_effect-tasks (stream items) c m s = spawn-with_tasks (stream_job items) c m true s
    execute_effect-tasks (event_store op) c m s = spawn-with_tasks (event_store_job op) c m true s
    execute_effect-tasks (publish_event op) c m s = spawn-with_tasks (publish_job op) c m false s

    execute_effects-tasks :
        (es : Effects A) (c : ℕ) (m : Option EventMetadata) (s : Store S A)
        → execute_effects es c m s ≡ with_tasks (spawned_all es c m) s
    execute_effects-tasks nil c m s = with_tasks-nil s
    execute_effects-tasks (cons e es) c m s =
        execute_effects-tasks es c m (execute_effect e c m s)
        ∙ (ap (with_tasks (spawned_all es c m)) (execute_effect-tasks e c m s)
            ∙ with_tasks-append (spawned_all es c m) (spawned e c m) s)

  -- Executing what a reducer returned starts one task for each effect that is not `None` or
  -- `Parallel`, however deep it stands, with the given channel and metadata, and both counts grow by
  -- exactly these tasks; nothing else of the store changes.
  pub execute_all-tasks :
      (es : List (Effect A)) (c : ℕ) (m : Option EventMetadata) (s : Store S A)
      → execute_all es c m s ≡ with_tasks (spawned_list es c m) s
  unfolding execute_all spawned_list
  execute_all-tasks [] c m s = with_tasks-nil s
  execute_all-tasks (e ∷ es) c m s =
      execute_all-tasks es c m (execute_effect e c m s)
      ∙ (ap (with_tasks (spawned_list es c m)) (execute_effect-tasks e c m s)
          ∙ with_tasks-append (spawned_list es c m) (spawned e c m) s)
