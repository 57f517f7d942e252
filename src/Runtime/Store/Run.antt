-- ===== src/Runtime/Store/Run.antt =====
-- runtime/src/lib.rs, module `store`: the runs of a store, with any interleaving of its tasks.
use composable_rust.Prelude.{
  pick, ℕ, ◌-◌, Bool, true, false, ◌||◌, Option, none, some, Result, ok, err, List, [], ◌∷◌, leb,
  ◌==◌, if◌then◌else◌,
}
use composable_rust.Core.Event.{EventMetadata}
use composable_rust.Core.Effect.{Effect}
use composable_rust.Runtime.Store.{
  StoreError, shutdown_in_progress, shutdown_timeout, Job, ending, future_job, stream_job,
  delay_job, sequential_next, sequential_wait, event_store_job, publish_job, sending, Task, Store,
  Answers, bit, tracks, new_channel, advance,
}

module _ {A : Type 0} where
  abbrev pub is_ending : Job A → Bool
  is_ending ending = true
  is_ending (future_job _) = false
  is_ending (stream_job _) = false
  is_ending (delay_job _) = false
  is_ending (sequential_next _) = false
  is_ending (sequential_wait _ _) = false
  is_ending (event_store_job _) = false
  is_ending (publish_job _) = false
  is_ending (sending _ _ _ _) = false

pub data Event (A : Type 0) : Type 0 where
  send_event : A → Option EventMetadata → Event A
  advance_event : (position : ℕ) → Answers → Event A
  panic_event : (position : ℕ) → Event A
  shutdown_event : Event A

module _ {S A : Type 0} where
  -- The guards of a task that has ended are dropped.
  unfoldable pub finish : Task A → Store S A → Store S A
  finish t s = record s {
    pending_effects = s.pending_effects - bit t.guarded;
    counters = λ c. s.counters c - bit (tracks c t.tracking);
    notified = λ c. tracks c t.tracking || s.notified c;
  }

  -- `send_with_metadata` by a caller from outside, whose handle is the number of the channel.
  unfoldable pub send_with_metadata :
      A → Option EventMetadata → Store S A → Result ℕ StoreError × Store S A
  send_with_metadata action metadata s = if s.shutdown then (err shutdown_in_progress, s) else (
    ok s.next,
    record (new_channel s) {
      tasks =
          record {
            job = sending action metadata s.next ending;
            tracking = none;
            metadata = metadata;
            guarded = false;
          }
          ∷ s.tasks;
    },
  )

  unfoldable pub send : A → Store S A → Result ℕ StoreError × Store S A
  send action s = send_with_metadata action none s

  abbrev pub at_position :
      (Task A → Store S A → Store S A) → Option (Task A × List (Task A)) → Store S A → Store S A
  at_position act none s = s
  at_position act (some (t, others)) s = act t (record s { tasks = others })

  -- `shutdown` sets the flag first.
  unfoldable pub start_shutdown : Store S A → Store S A
  start_shutdown s = record s { shutdown = true }

  -- One pass of its loop, `elapsed` after its start: `none` if it sleeps and tries again.
  unfoldable pub poll_shutdown : ℕ → ℕ → Store S A → Option (Result (Unit {0}) StoreError)
  poll_shutdown timeout elapsed s =
      if s.pending_effects == 0
      then some (ok tt)
      else if leb timeout elapsed
      then some (err (shutdown_timeout s.pending_effects))
      else none

module _ {S A : Type 0} (reduce : S → A → S × List (Effect A)) where
  -- The scheduler runs a task, which is out of the list meanwhile.
  unfoldable pub run_task : Task A → Answers → Store S A → Store S A
  run_task t r s =
      if is_ending t.job
      then finish t s
      else let (job, s') = advance reduce t.job t.metadata r s in
        record s' { tasks = record t { job = job } ∷ s'.tasks }

  unfoldable pub step : Event A → Store S A → Store S A
  step (send_event a m) s = (send_with_metadata a m s).1
  step (advance_event i r) s = at_position (λ t. run_task t r) (pick i s.tasks) s
  step (panic_event i) s = at_position finish (pick i s.tasks) s
  step shutdown_event s = start_shutdown s

  unfoldable pub run : List (Event A) → Store S A → Store S A
  run [] s = s
  run (e ∷ es) s = run es (step e s)
