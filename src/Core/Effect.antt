-- ===== src/Core/Effect.antt =====
-- core/src/lib.rs, module `effect`: effects are values that a reducer returns.
-- A boxed future is the action that it resolves to, and a boxed stream the list of its items.
-- The shared objects `Arc<dyn EventStore>` and `Arc<dyn EventBus>` are references: an operation
-- only carries them on.
pub mod Map
use composable_rust.Prelude.{ℕ, String, List, Option, map}
use composable_rust.Core.Stream.{StreamId, Version}
use composable_rust.Core.Event.{SerializedEvent, EventMetadata}
use composable_rust.Core.EventStore.{EventStoreError, SnapshotData}
use mathlib.Core.Option

abbrev pub EventStoreRef : Type 0
EventStoreRef = ℕ

abbrev pub EventBusRef : Type 0
EventBusRef = ℕ

-- core/src/event_bus.rs
pub data EventBusError : Type 0 where
  connection_failed : String → EventBusError
  publish_failed : (topic reason : String) → EventBusError
  subscription_failed : (topics : List String) (reason : String) → EventBusError
  deserialization_failed : String → EventBusError
  invalid_topic : String → EventBusError
  consumer_group_error : String → EventBusError
  transport_error : String → EventBusError
  other : String → EventBusError

-- Each operation has its callbacks `on_success` and `on_error` as its last two fields.
pub data EventStoreOperation {ℓ} (A : Type ℓ) : Type ℓ where
  append_events :
      (event_store : EventStoreRef) (stream_id : StreamId) (expected_version : Option Version)
      (events : List SerializedEvent) (metadata : Option EventMetadata)
      → (Version → Option A)
      → (EventStoreError → Option A)
      → EventStoreOperation A
  load_events :
      (event_store : EventStoreRef) (stream_id : StreamId) (from_version : Option Version)
      → (List SerializedEvent → Option A)
      → (EventStoreError → Option A)
      → EventStoreOperation A
  save_snapshot :
      (event_store : EventStoreRef) (stream_id : StreamId) (version : Version) (state : List ℕ)
      → (Unit {0} → Option A)
      → (EventStoreError → Option A)
      → EventStoreOperation A
  load_snapshot :
      (event_store : EventStoreRef) (stream_id : StreamId)
      → (Option SnapshotData → Option A)
      → (EventStoreError → Option A)
      → EventStoreOperation A

pub data EventBusOperation {ℓ} (A : Type ℓ) : Type ℓ where
  publish :
      (event_bus : EventBusRef) (topic : String) (event : SerializedEvent)
      → (Unit {0} → Option A)
      → (EventBusError → Option A)
      → EventBusOperation A

-- `Vec<Effect>` is the second type of the block.
mutual
  pub data Effect {ℓ} (A : Type ℓ) : Type ℓ where
    nothing : Effect A
    parallel : Effects A → Effect A
    sequential : Effects A → Effect A
    delay : (duration : ℕ) → A → Effect A
    future : Option A → Effect A
    stream : List A → Effect A
    event_store : EventStoreOperation A → Effect A
    publish_event : EventBusOperation A → Effect A

  pub data Effects {ℓ} (A : Type ℓ) : Type ℓ where
    nil : Effects A
    cons : Effect A → Effects A → Effects A

module _ {ℓ} {A : Type ℓ} where
  unfoldable pub merge : Effects A → Effect A
  merge effects = parallel effects

  unfoldable pub chain : Effects A → Effect A
  chain effects = sequential effects

module _ {ℓ κ} {A : Type ℓ} {B : Type κ} where
  unfoldable pub map_event_store_operation : (A → B) → EventStoreOperation A → EventStoreOperation B
  map_event_store_operation f (append_events s i v es m on_success on_error) =
      append_events s i v es m (λ x. Option.map f (on_success x)) (λ e. Option.map f (on_error e))
  map_event_store_operation f (load_events s i v on_success on_error) =
      load_events s i v (λ x. Option.map f (on_success x)) (λ e. Option.map f (on_error e))
  map_event_store_operation f (save_snapshot s i v st on_success on_error) =
      save_snapshot s i v st (λ x. Option.map f (on_success x)) (λ e. Option.map f (on_error e))
  map_event_store_operation f (load_snapshot s i on_success on_error) =
      load_snapshot s i (λ x. Option.map f (on_success x)) (λ e. Option.map f (on_error e))

  unfoldable pub map_event_bus_operation : (A → B) → EventBusOperation A → EventBusOperation B
  map_event_bus_operation f (publish b t e on_success on_error) =
      publish b t e (λ x. Option.map f (on_success x)) (λ x. Option.map f (on_error x))

  unfoldable mutual
    pub map_effect : (A → B) → Effect A → Effect B
    map_effect f nothing = nothing
    map_effect f (parallel es) = parallel (map_effects f es)
    map_effect f (sequential es) = sequential (map_effects f es)
    map_effect f (delay d a) = delay d (f a)
    map_effect f (future r) = future (Option.map f r)
    map_effect f (stream items) = stream (map f items)
    map_effect f (event_store op) = event_store (map_event_store_operation f op)
    map_effect f (publish_event op) = publish_event (map_event_bus_operation f op)

    -- `effects.into_iter().map(|e| map_effect(e, f)).collect()`
    pub map_effects : (A → B) → Effects A → Effects B
    map_effects f nil = nil
    map_effects f (cons e es) = cons (map_effect f e) (map_effects f es)

  -- The method `Effect::map`, which has the same cases and hands children to `map_effect`.
  unfoldable pub effect_map : (A → B) → Effect A → Effect B
  effect_map f nothing = nothing
  effect_map f (parallel es) = parallel (map_effects f es)
  effect_map f (sequential es) = sequential (map_effects f es)
  effect_map f (delay d a) = delay d (f a)
  effect_map f (future r) = future (Option.map f r)
  effect_map f (stream items) = stream (map f items)
  effect_map f (event_store op) = event_store (map_event_store_operation f op)
  effect_map f (publish_event op) = publish_event (map_event_bus_operation f op)
