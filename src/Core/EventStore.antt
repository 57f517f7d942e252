-- ===== src/Core/EventStore.antt =====
-- core/src/event_store.rs: what an event store takes and returns.
use composable_rust.Prelude.{ℕ, String, List, Option, Result}
use composable_rust.Core.Stream.{StreamId, Version}
use composable_rust.Core.Event.{SerializedEvent}

pub data EventStoreError : Type 0 where
  concurrency_conflict : (stream_id : StreamId) (expected actual : Version) → EventStoreError
  stream_not_found : StreamId → EventStoreError
  database_error : String → EventStoreError
  serialization_error : String → EventStoreError
  io_error : String → EventStoreError

-- A version and the serialized state at that version.
abbrev pub SnapshotData : Type 0
SnapshotData = Version × List ℕ

pub record BatchAppend : Type 0 where
  pub stream_id : StreamId
  pub expected_version : Option Version
  pub events : List SerializedEvent

abbrev pub BatchAppendResults : Type 0
BatchAppendResults = List (Result Version EventStoreError)
