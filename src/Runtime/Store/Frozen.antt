-- ===== src/Runtime/Store/Frozen.antt =====
-- runtime/src/lib.rs, module `store`: a store that is shut down does not change.
use composable_rust.Prelude.{
  if_both, pick, ℕ, Bool, true, false, ◌≡◌, refl, Option, none, some, List, [], ◌∷◌, arith, sym,
  if◌then◌else◌, All, subst, Result, err, ltb,
}
use composable_rust.Core.Event.{EventMetadata}
use composable_rust.Core.Effect.{
  Effect, Effects, nil, cons, nothing, parallel, sequential, delay, future, stream, event_store,
  publish_event,
}
use composable_rust.Runtime.Store.{
  shutdown_in_progress, Job, future_job, stream_job, delay_job, sequential_next, sequential_wait,
  event_store_job, publish_job, sending, ending, Task, Store, new_channel, admit, admit_option,
  feed_back, advance, start_next, event_store_callback, publish_callback, Answers, StoreError,
}
use composable_rust.Runtime.Store.Run.{
  finish, run_task, is_ending, send_with_metadata, start_shutdown, Event, step, run, at_position,
  send_event, advance_event, panic_event, shutdown_event,
}
use composable_rust.Runtime.Store.Tasks.{spawned, spawned_all, with_tasks, execute_effect-tasks}
use composable_rust.Runtime.Store.Channels.{All-append}
use composable_rust.Runtime.Store.Reachable.{PickOk, pick-PickOk}

if_true {ℓ κ} :
    {X : Type ℓ} (P : X → Type κ) (b : Bool) (x y : X) → b ≡ true → P x → P (if b then x else y)
if_true P b x y h p = subst (λ c. P (if c then x else y)) (sym h) p

module _ {A : Type 0} where
  -- A job that has no admitted action to reduce.
  unfoldable pub is_quiet : Job A → Bool
  is_quiet (sending a m c rest) = false
  is_quiet (sequential_wait c es) = true
  is_quiet (future_job r) = true
  is_quiet (stream_job items) = true
  is_quiet (delay_job a) = true
  is_quiet (sequential_next es) = true
  is_quiet (event_store_job op) = true
  is_quiet (publish_job op) = true
  is_quiet ending = true

  abbrev pub IsQuiet : Task A → Type 0
  IsQuiet t = is_quiet t.job ≡ true

  mutual
    unfolding spawned is_quiet

    spawned-IsQuiet :
        (e : Effect A) (c : ℕ) (m : Option EventMetadata) → All IsQuiet (spawned e c m)
    spawned-IsQuiet nothing c m = tt
    spawned-IsQuiet (parallel es) c m = spawned_all-IsQuiet es c m
    spawned-IsQuiet (sequential es) c m = (refl, tt)
    spawned-IsQuiet (delay d a) c m = (refl, tt)
    spawned-IsQuiet (future r) c m = (refl, tt)
    spawned-IsQuiet (stream items) c m = (refl, tt)
    spawned-IsQuiet (event_store op) c m = (refl, tt)
    spawned-IsQuiet (publish_event op) c m = (refl, tt)

    spawned_all-IsQuiet :
        (es : Effects A) (c : ℕ) (m : Option EventMetadata) → All IsQuiet (spawned_all es c m)
    spawned_all-IsQuiet nil c m = tt
    spawned_all-IsQuiet (cons e es) c m =
        All-append _ _ _ (spawned_all-IsQuiet es c m) (spawned-IsQuiet e c m)

module _ {S A : Type 0} where
  -- The store is shut down, in the state `x`, and `ts` have nothing left to reduce.
  pub record Frozen (x : S) (ts : List (Task A)) (s : Store S A) : Type 0 where
    pub same_state : s.state ≡ x
    pub shut : s.shutdown ≡ true
    pub quiet : All IsQuiet ts

  abbrev FrozenMove : S → Task A → Job A × Store S A → Type 0
  FrozenMove x t moved = Frozen x (record t { job = moved.0 } ∷ moved.1.tasks) moved.1

  admit-Frozen :
      (x : S) (t : Task A) (a : A) (m : Option EventMetadata) (rest : Job A) (s : Store S A)
      → is_quiet rest ≡ true
      → Frozen x s.tasks s
      → FrozenMove x t (admit a m rest s)
  unfolding admit
  admit-Frozen x t a m rest s q h =
      if_true (FrozenMove x t) s.shutdown (rest, s) (sending a m s.next rest, new_channel s) h.shut
        (record { same_state = h.same_state; shut = h.shut; quiet = (q, h.quiet) })

  feed_back-Frozen :
      (x : S) (t : Task A) (a : A) (m : Option EventMetadata) (rest : Job A) (s : Store S A)
      → is_quiet rest ≡ true
      → Frozen x s.tasks s
      → FrozenMove x t (feed_back a m rest s)
  unfolding feed_back
  feed_back-Frozen x t a m rest s q h =
      admit-Frozen x t a m rest (record s { broadcasts = a ∷ s.broadcasts }) q
        (record { same_state = h.same_state; shut = h.shut; quiet = h.quiet })

  ended-Frozen :
      (x : S) (t : Task A) (j : Job A) (s : Store S A)
      → is_quiet j ≡ true
      → Frozen x s.tasks s
      → FrozenMove x t (j, s)
  ended-Frozen x t j s q h = record {
    same_state = h.same_state;
    shut = h.shut;
    quiet = (q, h.quiet);
  }

  admit_option-Frozen :
      (x : S) (t : Task A) (o : Option A) (m : Option EventMetadata) (s : Store S A)
      → Frozen x s.tasks s
      → FrozenMove x t (admit_option o m s)
  unfolding admit_option is_quiet
  admit_option-Frozen x t none m s h = ended-Frozen x t ending s refl h
  admit_option-Frozen x t (some a) m s h = admit-Frozen x t a m ending s refl h

  finish-Frozen :
      (x : S) (t : Task A) (s : Store S A)
      → Frozen x (t ∷ s.tasks) s
      → Frozen x (finish t s).tasks (finish t s)
  unfolding finish
  finish-Frozen x t s h = record { same_state = h.same_state; shut = h.shut; quiet = h.quiet.1 }

  at_position-Frozen :
      (x : S) (act : Task A → Store S A → Store S A)
      → ((t : Task A) (s : Store S A)
          → Frozen x (t ∷ s.tasks) s
          → Frozen x (act t s).tasks (act t s))
      → (p : Option (Task A × List (Task A))) (s : Store S A) → PickOk p s.tasks
      → Frozen x s.tasks s
      → let s' = at_position act p s in Frozen x s'.tasks s'
  unfolding PickOk
  at_position-Frozen x act keeps none s picked h = h
  at_position-Frozen x act keeps (some (t, others)) s picked h =
      keeps t (record s { tasks = others })
        (record {
          same_state = h.same_state;
          shut = h.shut;
          quiet = picked.picked_All IsQuiet h.quiet;
        })

module _ {S A : Type 0} (reduce : S → A → S × List (Effect A)) where
  start_next-Frozen :
      (x : S) (t : Task A) (e : Effect A) (es : Effects A) (m : Option EventMetadata)
      (s : Store S A)
      → Frozen x s.tasks s
      → FrozenMove x t (start_next reduce e es m s)
  unfolding start_next new_channel with_tasks is_quiet
  start_next-Frozen x t e es m s h =
      let c = s.next in
      let ts = spawned e c m in
      let started = with_tasks ts (new_channel s) in
      let frozen : Frozen x started.tasks started = record {
        same_state = h.same_state;
        shut = h.shut;
        quiet = All-append IsQuiet ts s.tasks (spawned-IsQuiet e c m) h.quiet;
      } in
      let next : Store S A → Job A × Store S A = λ s'.
        if ltb 0 (s'.counters c) then (sequential_wait c es, s') else (sequential_next es, s') in
      subst (λ s'. FrozenMove x t (next s')) (sym (execute_effect-tasks e c m (new_channel s)))
        (if_both (FrozenMove x t) (ltb 0 (started.counters c)) (sequential_wait c es, started)
          (sequential_next es, started)
          (ended-Frozen x t (sequential_wait c es) started refl frozen)
          (ended-Frozen x t (sequential_next es) started refl frozen))

  advance-Frozen :
      (x : S) (t : Task A) (job : Job A) (m : Option EventMetadata) (r : Answers) (s : Store S A)
      → is_quiet job ≡ true
      → Frozen x s.tasks s
      → FrozenMove x t (advance reduce job m r s)
  unfolding advance is_quiet
  advance-Frozen x t (future_job none) m r s q h = ended-Frozen x t ending s refl h
  advance-Frozen x t (future_job (some a)) m r s q h = feed_back-Frozen x t a m ending s refl h
  advance-Frozen x t (stream_job []) m r s q h = ended-Frozen x t ending s refl h
  advance-Frozen x t (stream_job (a ∷ items)) m r s q h =
      feed_back-Frozen x t a m (stream_job items) s refl h
  advance-Frozen x t (delay_job a) m r s q h = feed_back-Frozen x t a none ending s refl h
  advance-Frozen x t (sequential_next nil) m r s q h = ended-Frozen x t ending s refl h
  advance-Frozen x t (sequential_next (cons e es)) m r s q h = start_next-Frozen x t e es m s h
  advance-Frozen x t (sequential_wait c es) m r s q h =
      if_both (FrozenMove x t) (s.notified c) (sequential_next es, s) (sequential_wait c es, s)
        (ended-Frozen x t (sequential_next es) s refl h)
        (ended-Frozen x t (sequential_wait c es) s refl h)
  advance-Frozen x t (event_store_job op) m r s q h =
      admit_option-Frozen x t (event_store_callback op r) m s h
  advance-Frozen x t (publish_job op) m r s q h =
      admit_option-Frozen x t (publish_callback op r) m s h
  advance-Frozen x t (sending a m' c rest) m r s q h = ground arith
  advance-Frozen x t ending m r s q h = ended-Frozen x t ending s refl h

  run_task-Frozen :
      (x : S) (t : Task A) (r : Answers) (s : Store S A)
      → Frozen x (t ∷ s.tasks) s
      → let s' = run_task reduce t r s in Frozen x s'.tasks s'
  unfolding run_task
  run_task-Frozen x t r s h =
      let moved = advance reduce t.job t.metadata r s in
      let frozen =
        advance-Frozen x t t.job t.metadata r s h.quiet.0
          (record { same_state = h.same_state; shut = h.shut; quiet = h.quiet.1 }) in
      if_both (λ (s' : Store S A). Frozen x s'.tasks s') (is_ending t.job) (finish t s)
        (record moved.1 { tasks = record t { job = moved.0 } ∷ moved.1.tasks })
        (finish-Frozen x t s h)
        (record { same_state = frozen.same_state; shut = frozen.shut; quiet = frozen.quiet })

  step-Frozen :
      (x : S) (e : Event A) (s : Store S A)
      → Frozen x s.tasks s
      → let s' = step reduce e s in Frozen x s'.tasks s'
  unfolding step send_with_metadata start_shutdown
  step-Frozen x (send_event a m) s h =
      if_true (λ (p : Result ℕ StoreError × Store S A). Frozen x p.1.tasks p.1) s.shutdown
        (err shutdown_in_progress, s) _ h.shut h
  step-Frozen x (advance_event i r) s h =
      at_position-Frozen x (λ t. run_task reduce t r) (λ t. run_task-Frozen x t r) (pick i s.tasks)
        s (pick-PickOk i s.tasks) h
  step-Frozen x (panic_event i) s h =
      at_position-Frozen x finish (finish-Frozen x) (pick i s.tasks) s (pick-PickOk i s.tasks) h
  step-Frozen x shutdown_event s h = record {
    same_state = h.same_state;
    shut = refl;
    quiet = h.quiet;
  }

  run-Frozen :
      (x : S) (es : List (Event A)) (s : Store S A)
      → Frozen x s.tasks s
      → let s' = run reduce es s in Frozen x s'.tasks s'
  unfolding run
  run-Frozen x [] s h = h
  run-Frozen x (e ∷ es) s h = run-Frozen x es (step reduce e s) (step-Frozen x e s h)

  -- Once a store is shut down and no admitted action waits for its lock, no run of its tasks and no
  -- caller changes the state any more, and the store stays shut down.
  pub shut_down_state :
      (es : List (Event A)) (s : Store S A)
      → s.shutdown ≡ true
      → All IsQuiet s.tasks
      → ((run reduce es s).state ≡ s.state) × ((run reduce es s).shutdown ≡ true)
  shut_down_state es s shut quiet =
      let h = run-Frozen s.state es s (record { same_state = refl; shut = shut; quiet = quiet }) in
      (h.same_state, h.shut)
