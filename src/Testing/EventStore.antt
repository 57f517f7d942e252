-- ===== src/Testing/EventStore.antt =====
-- testing/src/lib.rs: `InMemoryEventStore`.
-- Every method holds one lock for its whole body, so it is a function from the maps to a result and
-- the maps after it. A poisoned lock (a panic while it was held) is not modelled.
pub mod Append
pub mod Load
pub mod Concurrency
pub mod History
pub mod Batch
pub mod BatchVersions
mod Tests
use composable_rust.Prelude.{
  ℕ, ◌+◌, String, Bool, true, false, not, Option, none, some, List, [], ◌∷◌, ◌++◌, map, Result, ok,
  err, HashMap, get, insert, get_or, contains_key, length, is_empty, drop, ◌==◌, if◌then◌else◌,
}
use composable_rust.Core.Stream.{StreamId, Version, sub}
use composable_rust.Core.Event.{SerializedEvent}
use composable_rust.Core.EventStore.{
  EventStoreError, concurrency_conflict, database_error, SnapshotData, BatchAppend,
  BatchAppendResults,
}

pub record InMemoryEventStore : Type 0 where
  pub events : HashMap (List SerializedEvent)
  pub snapshots : HashMap SnapshotData

unfoldable pub new : InMemoryEventStore
new = record { events = []; snapshots = [] }

unfoldable pub reset : InMemoryEventStore → InMemoryEventStore
reset s = record { events = []; snapshots = [] }

unfoldable pub event_count : InMemoryEventStore → StreamId → ℕ
event_count s id = elim (get id s.events) [ none ↦ 0 | some v ↦ length v ]

unfoldable pub current_version : InMemoryEventStore → StreamId → Version
current_version s id = elim (get id s.events) [ none ↦ 0 | some v ↦ length v ]

unfoldable pub stream_exists : InMemoryEventStore → StreamId → Bool
stream_exists s id = contains_key id s.events

abbrev pub no_events : EventStoreError
no_events = database_error "Cannot append empty event list"

-- `if let Some(expected) = expected_version { if current_version != expected { .. } }`: the version
-- that was expected, where it is not the current one.
abbrev pub mismatch : Option Version → Version → Option Version
mismatch none current = none
mismatch (some expected) current = if current == expected then none else some expected

unfoldable pub append_events :
    InMemoryEventStore
    → StreamId
    → Option Version
    → List SerializedEvent
    → Result Version EventStoreError × InMemoryEventStore
append_events s id expected_version new_events =
    -- `entry(..).or_default()` puts an empty stream into the map
    let stream_events = get_or id [] s.events in
    let entered = record s { events = insert id stream_events s.events } in
    let appended = stream_events ++ new_events in
    if is_empty new_events
    then (err no_events, s)
    else elim (mismatch expected_version (length stream_events)) [
      | some expected ↦ (err (concurrency_conflict id expected (length stream_events)), entered)
      | none ↦ (ok (sub (length appended) 1), record s { events = insert id appended s.events })
    ]

unfoldable pub load_events :
    InMemoryEventStore → StreamId → Option Version → Result (List SerializedEvent) EventStoreError
load_events s id from_version = elim (get id s.events) [
  | some es ↦ elim from_version [ some from ↦ ok (drop from es) | none ↦ ok es ]
  | none ↦ ok []
]

unfoldable pub save_snapshot :
    InMemoryEventStore
    → StreamId
    → Version
    → List ℕ
    → Result (Unit {0}) EventStoreError × InMemoryEventStore
save_snapshot s id version state =
    (ok tt, record s { snapshots = insert id (version, state) s.snapshots })

unfoldable pub load_snapshot :
    InMemoryEventStore → StreamId → Result (Option SnapshotData) EventStoreError
load_snapshot s id = ok (get id s.snapshots)

-- What phase 1 of `append_batch` keeps of an operation: `None`, or the stream with its new events.
abbrev pub Validated : Type 0
Validated = Option (StreamId × List SerializedEvent)

-- The body of phase 1's loop. The store is read and not written.
unfoldable pub validate :
    InMemoryEventStore → BatchAppend → Result Version EventStoreError × Validated
validate s op =
    let current = current_version s op.stream_id in
    if is_empty op.events
    then (err no_events, none)
    else elim (mismatch op.expected_version current) [
      | some expected ↦ (err (concurrency_conflict op.stream_id expected current), none)
      | none ↦ (ok (current + length op.events), some (op.stream_id, op.events))
    ]

-- Phase 2: apply what was validated, in order.
unfoldable pub apply_validated : List Validated → InMemoryEventStore → InMemoryEventStore
apply_validated [] s = s
apply_validated (none ∷ vs) s = apply_validated vs s
apply_validated (some (id, new_events) ∷ vs) s =
    apply_validated vs
      (record s { events = insert id (get_or id [] s.events ++ new_events) s.events })

unfoldable pub append_batch :
    InMemoryEventStore
    → List BatchAppend
    → Result BatchAppendResults EventStoreError × InMemoryEventStore
unfolding validate apply_validated
append_batch s batch =
    let results = map (λ op. (validate s op).0) batch in
    let validated = map (λ op. (validate s op).1) batch in
    if is_empty batch then (ok [], s) else (ok results, apply_validated validated s)
