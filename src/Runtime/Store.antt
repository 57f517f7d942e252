-- ===== src/Runtime/Store.antt =====
-- runtime/src/lib.rs, module `store`: the store, its effect tasks and its shutdown.
-- A `tokio::spawn`ed task is the job that it has left, and an event is what one task does up to
-- its next await, or what a caller does. The scheduler may run the tasks in any order, so a run is
-- any list of events. What the services answer is an argument.
-- `EffectTracking` is the number of its channel, whose counter and notifier the store keeps.
-- A counter of live tasks stays below 2 ^ 64, since each of them takes memory.
pub mod Run
pub mod Tasks
pub mod Channels
pub mod Invariant
pub mod Reachable
pub mod Shutdown
pub mod Frozen
mod Tests
use composable_rust.Prelude.{
  String, ℕ, ◌+◌, ◌-◌, Bool, true, false, Option, none, some, Result, ok, err, List, [], ◌∷◌, map,
  leb, ltb, ◌==◌, if◌then◌else◌,
}
use composable_rust.Core.Stream.{Version}
use composable_rust.Core.Event.{EventMetadata, SerializedEvent}
use composable_rust.Core.EventStore.{EventStoreError, SnapshotData}
use composable_rust.Core.Effect.{
  EventBusError, EventStoreOperation, append_events, load_events, save_snapshot, load_snapshot,
  EventBusOperation, publish, Effect, nothing, parallel, sequential, delay, future, stream,
  event_store, publish_event, Effects, nil, cons,
}
use composable_rust.Runtime.Metadata.{inject_metadata_into_effect}

-- The payload of a `TaskJoinError`, which tokio makes and nothing here reads, is left out.
pub data StoreError : Type 0 where
  effect_failed : String → StoreError
  task_join_error : StoreError
  timed_out : StoreError
  channel_closed : StoreError
  shutdown_in_progress : StoreError
  shutdown_timeout : (pending : ℕ) → StoreError

-- What a spawned task has left to do. `sending` is `send_with_metadata` after it was admitted: it
-- waits for the lock on the state. `ending` is the end of the task's body.
pub data Job (A : Type 0) : Type 0 where
  future_job : Option A → Job A
  stream_job : List A → Job A
  delay_job : A → Job A
  sequential_next : Effects A → Job A
  sequential_wait : (channel : ℕ) → Effects A → Job A
  event_store_job : EventStoreOperation A → Job A
  publish_job : EventBusOperation A → Job A
  sending : A → Option EventMetadata → (channel : ℕ) → Job A → Job A
  ending : Job A

-- `tracking` is the channel of the task's `DecrementGuard`, and `guarded` tells whether it has an
-- `AtomicCounterGuard`. A caller of `send` has neither.
pub record Task (A : Type 0) : Type 0 where
  pub job : Job A
  pub tracking : Option ℕ
  pub metadata : Option EventMetadata
  pub guarded : Bool

pub record Store (S A : Type 0) : Type 0 where
  pub state : S
  pub shutdown : Bool
  pub pending_effects : ℕ
  pub counters : ℕ → ℕ
  pub notified : ℕ → Bool
  pub next : ℕ
  pub tasks : List (Task A)
  pub broadcasts : List A

-- What the event store and the event bus answer, after the retries.
pub record Answers : Type 0 where
  pub appended : Result Version EventStoreError
  pub loaded : Result (List SerializedEvent) EventStoreError
  pub saved : Result (Unit {0}) EventStoreError
  pub snapshot : Result (Option SnapshotData) EventStoreError
  pub published : Result (Unit {0}) EventBusError

abbrev pub bit : Bool → ℕ
bit true = 1
bit false = 0

abbrev pub tracks : ℕ → Option ℕ → Bool
tracks c none = false
tracks c (some d) = c == d

module _ {A : Type 0} where
  unfoldable pub effects_with_metadata : Option EventMetadata → List (Effect A) → List (Effect A)
  effects_with_metadata none effects = effects
  effects_with_metadata (some metadata) effects = map (inject_metadata_into_effect metadata) effects

  abbrev pub on_result : {T E : Type 0} → (T → Option A) → (E → Option A) → Result T E → Option A
  on_result on_success on_error (ok x) = on_success x
  on_result on_success on_error (err e) = on_error e

  unfoldable pub event_store_callback : EventStoreOperation A → Answers → Option A
  event_store_callback (append_events _ _ _ _ _ f g) r = on_result f g r.appended
  event_store_callback (load_events _ _ _ f g) r = on_result f g r.loaded
  event_store_callback (save_snapshot _ _ _ _ f g) r = on_result f g r.saved
  event_store_callback (load_snapshot _ _ f g) r = on_result f g r.snapshot

  unfoldable pub publish_callback : EventBusOperation A → Answers → Option A
  publish_callback (publish _ _ _ f g) r = on_result f g r.published

module _ {S A : Type 0} where
  -- `Store::new`, whose retry policy and dead letter queue are modelled apart.
  unfoldable pub new_store : S → Store S A
  new_store initial_state = record {
    state = initial_state;
    shutdown = false;
    pending_effects = 0;
    counters = λ _. 0;
    notified = λ _. false;
    next = 0;
    tasks = [];
    broadcasts = [];
  }

  -- `tracking.increment()`, the increment of `pending_effects` if the task is to be guarded, and
  -- `tokio::spawn`.
  unfoldable pub spawn : Job A → Option ℕ → Option EventMetadata → Bool → Store S A → Store S A
  spawn job tracking metadata guarded s = record s {
    pending_effects = s.pending_effects + bit guarded;
    counters = λ c. s.counters c + bit (tracks c tracking);
    tasks =
        record { job = job; tracking = tracking; metadata = metadata; guarded = guarded } ∷ s.tasks;
  }

  -- `execute_effect_internal`
  unfoldable mutual
    pub execute_effect : Effect A → ℕ → Option EventMetadata → Store S A → Store S A
    execute_effect nothing c m s = s
    execute_effect (parallel es) c m s = execute_effects es c m s
    execute_effect (sequential es) c m s = spawn (sequential_next es) (some c) m true s
    execute_effect (delay _ a) c m s = spawn (delay_job a) (some c) m true s
    execute_effect (future r) c m s = spawn (future_job r) (some c) m true s
    execute_effect (stream items) c m s = spawn (stream_job items) (some c) m true s
    execute_effect (event_store op) c m s = spawn (event_store_job op) (some c) m true s
    execute_effect (publish_event op) c m s = spawn (publish_job op) (some c) m false s

    pub execute_effects : Effects A → ℕ → Option EventMetadata → Store S A → Store S A
    execute_effects nil c m s = s
    execute_effects (cons e es) c m s = execute_effects es c m (execute_effect e c m s)

  -- The loop over the effects that the reducer returned.
  unfoldable pub execute_all : List (Effect A) → ℕ → Option EventMetadata → Store S A → Store S A
  execute_all [] c m s = s
  execute_all (e ∷ es) c m s = execute_all es c m (execute_effect e c m s)

  -- A counter and a notifier that no task has yet: the next number.
  unfoldable pub new_channel : Store S A → Store S A
  new_channel s = record s {
    next = s.next + 1;
    counters = λ c. if c == s.next then 0 else s.counters c;
    notified = λ c. if c == s.next then false else s.notified c;
  }

  -- `send_with_metadata` up to the lock, called by a task that ignores its result and goes on as
  -- `rest`: the check of the flag and `EffectHandle::new`.
  unfoldable pub admit : A → Option EventMetadata → Job A → Store S A → Job A × Store S A
  admit action metadata rest s =
      if s.shutdown then (rest, s) else (sending action metadata s.next rest, new_channel s)

  -- The same after a broadcast of the action.
  unfoldable pub feed_back : A → Option EventMetadata → Job A → Store S A → Job A × Store S A
  unfolding admit
  feed_back action metadata rest s =
      admit action metadata rest (record s { broadcasts = action ∷ s.broadcasts })

  unfoldable pub admit_option : Option A → Option EventMetadata → Store S A → Job A × Store S A
  admit_option none metadata s = (ending, s)
  admit_option (some action) metadata s = admit action metadata ending s

module _ {S A : Type 0} (reduce : S → A → S × List (Effect A)) where
  -- The rest of `send_with_metadata`: the reducer runs with the lock, and its effects are executed.
  unfoldable pub perform : A → Option EventMetadata → ℕ → Store S A → Store S A
  perform action metadata c s =
      let (state, effects) = reduce s.state action in
      execute_all (effects_with_metadata metadata effects) c metadata (record s { state = state })

  -- One pass of the loop of a sequential effect up to its wait, with a channel of its own.
  unfoldable pub start_next :
      Effect A → Effects A → Option EventMetadata → Store S A → Job A × Store S A
  start_next e es metadata s =
      let c = s.next in
      let started = execute_effect e c metadata (new_channel s) in
      if ltb 0 (started.counters c)
      then (sequential_wait c es, started)
      else (sequential_next es, started)

  -- What a task with this job does up to its next await.
  unfoldable pub advance : Job A → Option EventMetadata → Answers → Store S A → Job A × Store S A
  advance (future_job none) m r s = (ending, s)
  advance (future_job (some a)) m r s = feed_back a m ending s
  advance (stream_job []) m r s = (ending, s)
  advance (stream_job (a ∷ items)) m r s = feed_back a m (stream_job items) s
  advance (delay_job a) m r s = feed_back a none ending s
  advance (sequential_next nil) m r s = (ending, s)
  advance (sequential_next (cons e es)) m r s = start_next e es m s
  advance (sequential_wait c es) m r s =
      if s.notified c then (sequential_next es, s) else (sequential_wait c es, s)
  advance (event_store_job op) m r s = admit_option (event_store_callback op r) m s
  advance (publish_job op) m r s = admit_option (publish_callback op r) m s
  advance (sending a m' c rest) m r s = (rest, perform a m' c s)
  advance ending m r s = (ending, s)
