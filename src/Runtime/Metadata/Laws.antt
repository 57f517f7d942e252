-- ===== src/Runtime/Metadata/Laws.antt =====
-- runtime/src/lib.rs: which metadata an event ends up with.
use composable_rust.Prelude.{◌≡◌, refl, ap, Option, none, some, List, [], ◌∷◌, map}
use composable_rust.Core.Event.{no_metadata, EventMetadata, SerializedEvent}
use composable_rust.Core.Effect.{
  EventStoreOperation, append_events, load_events, save_snapshot, load_snapshot, EventBusOperation,
  publish, Effect, nothing, parallel, sequential, delay, future, stream, event_store, publish_event,
  Effects, nil, cons,
}
use composable_rust.Runtime.Metadata.{
  override, merge_metadata, merge_into, tag_event, inject_into_operation, inject_into_publish,
  inject_metadata_into_effect, inject_metadata_into_effects, events_to_append,
}

override_assoc {ℓ} :
    {A : Type ℓ} (a b c : Option A) → override (override a b) c ≡ override a (override b c)
override_assoc a b none = refl
override_assoc a b (some x) = refl

merge_metadata_assoc :
    (a b c : EventMetadata)
    → merge_metadata (merge_metadata a b) c ≡ merge_metadata a (merge_metadata b c)
unfolding merge_metadata
merge_metadata_assoc a b c = λ i. record {
  correlation_id = override_assoc a.correlation_id b.correlation_id c.correlation_id i;
  causation_id = override_assoc a.causation_id b.causation_id c.causation_id i;
  user_id = override_assoc a.user_id b.user_id c.user_id i;
  timestamp = override_assoc a.timestamp b.timestamp c.timestamp i;
}

merge_into_twice :
    (o : Option EventMetadata) (m n : EventMetadata)
    → merge_into (merge_into o m) n ≡ merge_into o (merge_metadata m n)
unfolding merge_into
merge_into_twice none m n = refl
merge_into_twice (some a) m n = ap some (merge_metadata_assoc a m n)

tag_event_twice :
    (m n : EventMetadata) (e : SerializedEvent)
    → tag_event n (tag_event m e) ≡ tag_event (merge_metadata m n) e
unfolding tag_event
tag_event_twice m n e = λ i. record e { metadata = merge_into_twice e.metadata m n i }

tag_events_twice :
    (m n : EventMetadata) (es : List SerializedEvent)
    → map (tag_event n) (map (tag_event m) es) ≡ map (tag_event (merge_metadata m n)) es
tag_events_twice m n [] = refl
tag_events_twice m n (e ∷ es) = rw (tag_event_twice m n e, tag_events_twice m n es)

module _ {ℓ} {A : Type ℓ} (m n : EventMetadata) where
  operation_twice :
      (op : EventStoreOperation A)
      → inject_into_operation n (inject_into_operation m op)
        ≡ inject_into_operation (merge_metadata m n) op
  unfolding inject_into_operation
  operation_twice (append_events s i v es existing on_success on_error) =
      rw (tag_events_twice m n es, merge_into_twice existing m n)
  operation_twice (load_events s i v on_success on_error) = refl
  operation_twice (save_snapshot s i v st on_success on_error) = refl
  operation_twice (load_snapshot s i on_success on_error) = refl

  publish_twice :
      (op : EventBusOperation A)
      → inject_into_publish n (inject_into_publish m op)
        ≡ inject_into_publish (merge_metadata m n) op
  unfolding inject_into_publish
  publish_twice (publish b topic event on_success on_error) = rw (tag_event_twice m n event)

  mutual
    unfolding inject_metadata_into_effect

    effect_twice :
        (e : Effect A)
        → inject_metadata_into_effect n (inject_metadata_into_effect m e)
          ≡ inject_metadata_into_effect (merge_metadata m n) e
    effect_twice nothing = refl
    effect_twice (parallel es) = ap parallel (effects_twice es)
    effect_twice (sequential es) = ap sequential (effects_twice es)
    effect_twice (delay d a) = refl
    effect_twice (future r) = refl
    effect_twice (stream items) = refl
    effect_twice (event_store op) = ap event_store (operation_twice op)
    effect_twice (publish_event op) = ap publish_event (publish_twice op)

    effects_twice :
        (es : Effects A)
        → inject_metadata_into_effects n (inject_metadata_into_effects m es)
          ≡ inject_metadata_into_effects (merge_metadata m n) es
    effects_twice nil = refl
    effects_twice (cons e es) = rw (effect_twice e, effects_twice es)

  -- Injecting the metadata of one request and then of another, at any depth of an effect, is
  -- injecting once the metadata in which the later request takes precedence field by field.
  pub inject_metadata-twice :
      (e : Effect A)
      → inject_metadata_into_effect n (inject_metadata_into_effect m e)
        ≡ inject_metadata_into_effect (merge_metadata m n) e
  inject_metadata-twice e = effect_twice e

abbrev or_no_metadata : Option EventMetadata → EventMetadata
or_no_metadata none = no_metadata
or_no_metadata (some m) = m

-- The metadata that an event of an append should end up with.
unfoldable pub resolved : Option EventMetadata → EventMetadata → SerializedEvent → SerializedEvent
unfolding merge_metadata
resolved existing request event = record event {
  metadata = some (
      merge_metadata (merge_metadata (or_no_metadata event.metadata) (or_no_metadata existing))
        request);
}

-- The events that the event store is given for an operation.
abbrev pub events_given {ℓ} : {A : Type ℓ} → EventStoreOperation A → List SerializedEvent
events_given (append_events _ _ _ events metadata _ _) = events_to_append metadata events
events_given _ = []
