-- ===== src/Testing/EventStore/Append.antt =====
-- testing/src/lib.rs: `append_events` against the contents of the streams.
use composable_rust.Prelude.{
  ◌+◌, ◌<◌, ◌≡◌, refl, ap, ◌≢◌, Option, none, some, List, [], ◌∷◌, ◌++◌, ok, err, get_or,
  get_or-insert, get_or-insert_self, length, length-append, arith, str_eq, eq_refl, word_size,
  if◌then◌else◌,
}
use composable_rust.Core.Stream.{StreamId, Version, sub}
use composable_rust.Core.Event.{SerializedEvent}
use composable_rust.Core.EventStore.{concurrency_conflict}
use composable_rust.Testing.EventStore.{InMemoryEventStore, mismatch, append_events}

-- The abstract view: the events of every stream, where a stream that does not exist is empty.
abbrev pub contents : InMemoryEventStore → StreamId → List SerializedEvent
contents s id = get_or id [] s.events

-- The streams after events have been added to one of them.
abbrev pub extended :
    (StreamId → List SerializedEvent)
    → StreamId
    → List SerializedEvent
    → StreamId
    → List SerializedEvent
extended streams id new_events j = if str_eq id j then streams id ++ new_events else streams j

-- The caller's expectation holds: none is stated, or it is the current version.
abbrev pub Fits : Option Version → Version → Type 0
Fits none current = Unit
Fits (some expected) current = expected ≡ current

pub mismatch-Fits :
    (o : Option Version) (current : Version) → Fits o current → mismatch o current ≡ none
mismatch-Fits none current h = refl
mismatch-Fits (some v) current h = ground arith

-- An append of some events whose expectation holds succeeds: the stream ends with the new events,
-- every other stream is as before, and the version returned is that of the last event counted from
-- 0, one less than the length of the stream.
pub append_events_succeeds :
    (s : InMemoryEventStore) (id : StreamId) (expected : Option Version) (e : SerializedEvent)
    (es : List SerializedEvent)
    → Fits expected (length (contents s id))
    → length (contents s id) + length (e ∷ es) < word_size
    → let (r, t) = append_events s id expected (e ∷ es) in
      (r ≡ ok (length (contents s id) + length es))
      × ((j : StreamId) → contents t j ≡ extended (contents s) id (e ∷ es) j)
unfolding append_events sub
append_events_succeeds s id expected e es fits bound =
    rw (mismatch-Fits expected (length (contents s id)) fits) (
      ap ok (omega (arith, length-append (contents s id) (e ∷ es))),
      λ j. get_or-insert id j [] (contents s id ++ e ∷ es) s.events,
    )

-- The stream that was appended to, by itself.
pub contents-append_events :
    (s : InMemoryEventStore) (id : StreamId) (expected : Option Version) (e : SerializedEvent)
    (es : List SerializedEvent)
    → Fits expected (length (contents s id))
    → length (contents s id) + length (e ∷ es) < word_size
    → contents (append_events s id expected (e ∷ es)).1 id ≡ contents s id ++ e ∷ es
contents-append_events s id expected e es fits bound =
    rw ((append_events_succeeds s id expected e es fits bound).1 id, eq_refl id)

-- An append whose expectation fails reports the stream, the expected and the current version, and
-- leaves the contents of every stream as they were.
pub append_events_conflicts :
    (s : InMemoryEventStore) (id : StreamId) (expected : Version) (e : SerializedEvent)
    (es : List SerializedEvent)
    → expected ≢ length (contents s id)
    → let (r, t) = append_events s id (some expected) (e ∷ es) in
      (r ≡ err (concurrency_conflict id expected (length (contents s id))))
      × ((j : StreamId) → contents t j ≡ contents s j)
unfolding append_events
append_events_conflicts s id expected e es differ =
    let m : mismatch (some expected) (length (contents s id)) ≡ some expected = ground arith in
    rw m (refl, λ j. get_or-insert_self id j [] s.events)
