-- ===== src/Testing/EventStore/Load.antt =====
-- testing/src/lib.rs: what `load_events` and the snapshots give back.
use composable_rust.Prelude.{
  ℕ, zero, suc, ◌+◌, ◌<◌, ◌≡◌, refl, sym, ap, false, ◌∙◌, Option, none, some, List, [], ◌∷◌, ◌++◌,
  ok, length, drop, drop-length_append, arith, word_size, str_eq, if◌then◌else◌, get-insert,
}
use composable_rust.Core.Stream.{StreamId, Version}
use composable_rust.Core.Event.{SerializedEvent}
use composable_rust.Testing.EventStore.{
  InMemoryEventStore, append_events, load_events, save_snapshot, load_snapshot,
}
use composable_rust.Testing.EventStore.Append.{
  contents, Fits, append_events_succeeds, contents-append_events,
}

drop-nil : (n : ℕ) → drop {A = SerializedEvent} n [] ≡ []
drop-nil zero = refl
drop-nil (suc n) = refl

-- With no version, a load gives the whole stream.
pub load_events_all :
    (s : InMemoryEventStore) (id : StreamId) → load_events s id none ≡ ok (contents s id)
unfolding load_events
load_events_all s id = ground arith

-- With a version, a load gives what comes after that many events.
pub load_events_from :
    (s : InMemoryEventStore) (id : StreamId) (from : Version)
    → load_events s id (some from) ≡ ok (drop from (contents s id))
unfolding load_events
load_events_from s id from = ground (arith, drop-nil from)

-- An append of some events whose expectation holds can be read back: a load of the stream gives its
-- old events and then the new ones, a load from the version before the append gives exactly the new
-- ones, and a load of another stream gives what it gave before.
pub load-append :
    (s : InMemoryEventStore) (id other : StreamId) (expected : Option Version) (e : SerializedEvent)
    (es : List SerializedEvent)
    → Fits expected (length (contents s id))
    → length (contents s id) + length (e ∷ es) < word_size
    → str_eq id other ≡ false
    → let t = (append_events s id expected (e ∷ es)).1 in
      (load_events t id none ≡ ok (contents s id ++ e ∷ es))
      × (load_events t id (some (length (contents s id))) ≡ ok (e ∷ es))
      × (load_events t other none ≡ load_events s other none)
load-append s id other expected e es fits bound differ =
    let t = (append_events s id expected (e ∷ es)).1 in
    let mine = contents-append_events s id expected e es fits bound in
    (
      load_events_all t id ∙ ap ok mine,
      load_events_from t id (length (contents s id))
          ∙ ap ok (rw mine (drop-length_append (contents s id) (e ∷ es))),
      load_events_all t other
          ∙ ap ok (rw differ at ((append_events_succeeds s id expected e es fits bound).1 other))
          ∙ sym (load_events_all s other),
    )

-- A saved snapshot is the one that is loaded, whatever was saved before; the other streams'
-- snapshots and all events stay.
pub load-save_snapshot :
    (s : InMemoryEventStore) (id other : StreamId) (version : Version) (state : List ℕ)
    → let t = (save_snapshot s id version state).1 in
      (load_snapshot t other
        ≡ (if str_eq id other then ok (some (version, state)) else load_snapshot s other))
      × (t.events ≡ s.events)
unfolding load_snapshot save_snapshot
load-save_snapshot s id other version state =
    (ground (arith, get-insert id other (version, state) s.snapshots), refl)
