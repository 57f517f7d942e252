-- ===== src/Runtime/Metadata.antt =====
-- runtime/src/lib.rs: the metadata of a request, put into the events of the effects that it causes.
pub mod Laws
use composable_rust.Prelude.{Option, none, some, List, map}
use composable_rust.Core.Event.{EventMetadata, SerializedEvent}
use composable_rust.Core.Effect.{
  EventStoreOperation, append_events, EventBusOperation, publish, Effect, nothing, parallel,
  sequential, delay, future, stream, event_store, publish_event, Effects, nil, cons,
}

-- `if metadata.f.is_some() { existing.f.clone_from(&metadata.f) }`
abbrev pub override {ℓ} : {A : Type ℓ} → Option A → Option A → Option A
override existing none = existing
override existing (some x) = some x

-- The four assignments, field by field: what `metadata` has takes precedence.
unfoldable pub merge_metadata : EventMetadata → EventMetadata → EventMetadata
merge_metadata existing metadata = record {
  correlation_id = override existing.correlation_id metadata.correlation_id;
  causation_id = override existing.causation_id metadata.causation_id;
  user_id = override existing.user_id metadata.user_id;
  timestamp = override existing.timestamp metadata.timestamp;
}

-- `if let Some(mut existing) = .. { .. Some(existing) } else { Some(metadata.clone()) }`
unfoldable pub merge_into : Option EventMetadata → EventMetadata → Option EventMetadata
merge_into none metadata = some metadata
merge_into (some existing) metadata = some (merge_metadata existing metadata)

unfoldable pub tag_event : EventMetadata → SerializedEvent → SerializedEvent
tag_event metadata event = record event { metadata = merge_into event.metadata metadata }

module _ {ℓ} {A : Type ℓ} where
  unfoldable pub inject_into_operation :
      EventMetadata → EventStoreOperation A → EventStoreOperation A
  inject_into_operation m (append_events s i v es existing on_success on_error) =
      append_events s i v (map (tag_event m) es) (merge_into existing m) on_success on_error
  inject_into_operation m other = other

  unfoldable pub inject_into_publish : EventMetadata → EventBusOperation A → EventBusOperation A
  inject_into_publish m (publish b topic event on_success on_error) =
      publish b topic (tag_event m event) on_success on_error

  unfoldable mutual
    pub inject_metadata_into_effect : EventMetadata → Effect A → Effect A
    inject_metadata_into_effect m nothing = nothing
    inject_metadata_into_effect m (parallel es) = parallel (inject_metadata_into_effects m es)
    inject_metadata_into_effect m (sequential es) = sequential (inject_metadata_into_effects m es)
    inject_metadata_into_effect m (delay d a) = delay d a
    inject_metadata_into_effect m (future r) = future r
    inject_metadata_into_effect m (stream items) = stream items
    inject_metadata_into_effect m (event_store op) = event_store (inject_into_operation m op)
    inject_metadata_into_effect m (publish_event op) = publish_event (inject_into_publish m op)

    pub inject_metadata_into_effects : EventMetadata → Effects A → Effects A
    inject_metadata_into_effects m nil = nil
    inject_metadata_into_effects m (cons e es) =
        cons (inject_metadata_into_effect m e) (inject_metadata_into_effects m es)

-- What `execute_effect_internal` hands to the event store: the events of an `AppendEvents`, with the
-- metadata of the effect merged into each of them.
unfoldable pub events_to_append : Option EventMetadata → List SerializedEvent → List SerializedEvent
events_to_append none es = es
events_to_append (some metadata) es = map (tag_event metadata) es
