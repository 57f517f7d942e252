-- ===== src/Testing/EventStore/Tests.antt =====
-- testing/src/lib.rs: the event store at concrete streams.
use composable_rust.Prelude.{
  ◌≡◌, refl, ◌+◌, ℕ, none, some, List, [], ◌∷◌, ◌++◌, ok, err, get, insert, length, arith, true,
  false,
}
use composable_rust.Core.Stream.{StreamId, sub}
use composable_rust.Core.Event.{SerializedEvent, nonnegative}
use composable_rust.Core.EventStore.{
  BatchAppend, BatchAppendResults, concurrency_conflict, database_error,
}
use composable_rust.Testing.EventStore.{
  InMemoryEventStore, append_events, load_events, append_batch, current_version, stream_exists,
}
use composable_rust.Testing.EventStore.Append.{
  contents, extended, append_events_succeeds, append_events_conflicts,
}
use composable_rust.Testing.EventStore.Load.{load-append}
use composable_rust.Testing.EventStore.Concurrency.{
  second_writer_conflicts, returned_version_conflicts,
}
use composable_rust.Testing.EventStore.History.{
  Request, append, snapshot, batch, serve_all, Extends, serve_all-Extends,
}
use composable_rust.Testing.EventStore.Batch.{written, append_batch-contents}
use composable_rust.Testing.EventStore.BatchVersions.{request, append_batch_same_stream}

abbrev event : ℕ → SerializedEvent
event n = record {
  event_type = "OrderPlaced.v1";
  event_version = nonnegative 1;
  bytes = n ∷ [];
  metadata = none;
}

-- Two events on "orders", none elsewhere.
abbrev store : InMemoryEventStore
store = record { events = ("orders", event 1 ∷ event 2 ∷ []) ∷ []; snapshots = [] }

-- A failed append to a stream that does not exist makes it exist.
failed_append_creates :
    let (r, t) = append_events store "users" (some 3) (event 5 ∷ []) in
    (r ≡ err (concurrency_conflict "users" 3 0))
    × (stream_exists store "users" ≡ false)
    × (stream_exists t "users" ≡ true)
unfolding append_events stream_exists get insert
failed_append_creates = (refl, refl, refl)

empty_append_fails :
    append_events store "orders" none []
    ≡ (err (database_error "Cannot append empty event list"), store)
unfolding append_events
empty_append_fails = refl

append_events_succeeds_example :
    let (r, t) = append_events store "orders" (some 2) (event 3 ∷ event 4 ∷ []) in
    (r ≡ ok (2 + 1))
    × ((j : StreamId)
        → contents t j ≡ extended (contents store) "orders" (event 3 ∷ event 4 ∷ []) j)
unfolding get
append_events_succeeds_example =
    append_events_succeeds store "orders" (some 2) (event 3) (event 4 ∷ []) refl (omega arith)

append_events_conflicts_example :
    let (r, t) = append_events store "orders" (some 1) (event 3 ∷ []) in
    (r ≡ err (concurrency_conflict "orders" 1 2))
    × ((j : StreamId) → contents t j ≡ contents store j)
unfolding get
append_events_conflicts_example =
    append_events_conflicts store "orders" 1 (event 3) [] (omega arith)

load-append_example :
    let t = (append_events store "orders" none (event 3 ∷ event 4 ∷ [])).1 in
    (load_events t "orders" none ≡ ok (event 1 ∷ event 2 ∷ event 3 ∷ event 4 ∷ []))
    × (load_events t "orders" (some 2) ≡ ok (event 3 ∷ event 4 ∷ []))
    × (load_events t "users" none ≡ load_events store "users" none)
unfolding get
load-append_example =
    load-append store "orders" "users" none (event 3) (event 4 ∷ []) tt (omega arith) refl

second_writer_conflicts_example :
    let after = (append_events store "orders" (some 2) (event 3 ∷ [])).1 in
    let (r, t) = append_events after "orders" (some 2) (event 4 ∷ []) in
    (r ≡ err (concurrency_conflict "orders" 2 (2 + 1)))
    × ((j : StreamId) → contents t j ≡ contents after j)
unfolding get
second_writer_conflicts_example =
    second_writer_conflicts store "orders" (some 2) (event 3) [] refl (omega arith) (event 4) []

returned_version_conflicts_example :
    let after = (append_events store "orders" (some 2) (event 3 ∷ [])).1 in
    (append_events after "orders" (some 2) (event 4 ∷ [])).0
    ≡ err (concurrency_conflict "orders" 2 (2 + 1))
unfolding get append_events insert sub
returned_version_conflicts_example =
    returned_version_conflicts store "orders" (some 2) (event 3) [] refl (omega arith) 2 (event 4)
      [] refl

abbrev requests : List Request
requests =
    append "orders" (some 2) (event 3 ∷ [])
    ∷ append "orders" (some 0) (event 4 ∷ [])
    ∷ snapshot "orders" 3 []
    ∷ batch (request "users" none (event 5 ∷ []) ∷ request "orders" none [] ∷ [])
    ∷ []

serve_all-Extends_example : Extends store (serve_all requests store)
serve_all-Extends_example = serve_all-Extends requests store

abbrev operations : List BatchAppend
operations =
    request "orders" (some 2) (event 3 ∷ [])
    ∷ request "users" (some 4) (event 4 ∷ [])
    ∷ request "carts" none (event 5 ∷ event 6 ∷ [])
    ∷ []

append_batch-contents_example :
    (rs : BatchAppendResults) × ((append_batch store operations).0 ≡ ok rs)
    × (length rs ≡ length operations)
    × ((j : StreamId)
        → contents (append_batch store operations).1 j
          ≡ contents store j ++ written j operations rs)
append_batch-contents_example = append_batch-contents store operations

abbrev outcomes : BatchAppendResults
outcomes = ok 3 ∷ err (concurrency_conflict "users" 4 0) ∷ ok 2 ∷ []

append_batch_same_stream_example :
    let (r, t) =
      append_batch store (
        request "orders" (some 2) (event 3 ∷ []) ∷ request "orders" (some 2) (event 4 ∷ []) ∷ []) in
    (r ≡ ok (ok (2 + 1) ∷ ok (2 + 1) ∷ [])) × (current_version t "orders" ≡ 2 + 1 + 1)
unfolding get
append_batch_same_stream_example =
    append_batch_same_stream store "orders" (some 2) (event 3) (event 4) [] [] refl
