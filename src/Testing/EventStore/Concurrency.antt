-- ===== src/Testing/EventStore/Concurrency.antt =====
-- testing/src/lib.rs: optimistic concurrency over two appends to one stream.
use composable_rust.Prelude.{
  ◌+◌, ◌<◌, ◌≡◌, sym, ok_injective, Option, some, List, ◌∷◌, ok, err, length, length-append, arith,
  word_size, ap, ◌∙◌,
}
use composable_rust.Core.Stream.{StreamId, Version}
use composable_rust.Core.Event.{SerializedEvent}
use composable_rust.Core.EventStore.{concurrency_conflict}
use composable_rust.Testing.EventStore.{InMemoryEventStore, append_events}
use composable_rust.Testing.EventStore.Append.{
  contents, Fits, append_events_succeeds, contents-append_events, append_events_conflicts,
}

module _ (s : InMemoryEventStore) (id : StreamId) (expected : Option Version) (e : SerializedEvent)
    (es : List SerializedEvent) (fits : Fits expected (length (contents s id)))
    (bound : length (contents s id) + length (e ∷ es) < word_size) where
  abbrev after : InMemoryEventStore
  after = (append_events s id expected (e ∷ es)).1

  length-after : length (contents after id) ≡ length (contents s id) + length (e ∷ es)
  length-after =
      ap length (contents-append_events s id expected e es fits bound)
      ∙ length-append (contents s id) (e ∷ es)

  -- Two writers that have read the same version race to append: the one that comes second, with the
  -- version that both have read, is refused and told the version that the first has made.
  pub second_writer_conflicts :
      (f : SerializedEvent) (fs : List SerializedEvent)
      → let (r, t) = append_events after id (some (length (contents s id))) (f ∷ fs) in
        (r
          ≡ err (
              concurrency_conflict id
                (length (contents s id))
                (length (contents s id) + length (e ∷ es))))
        × ((j : StreamId) → contents t j ≡ contents after j)
  second_writer_conflicts f fs =
      let (r, same) =
        append_events_conflicts after id (length (contents s id)) f fs
          (omega (arith, length-after)) in
      (r ∙ ap (λ n. err (concurrency_conflict id (length (contents s id)) n)) length-after, same)

  -- The version that a successful append returns is refused as the expected version of the next
  -- append to the stream, although nothing was written in between.
  pub returned_version_conflicts :
      (v : Version) (f : SerializedEvent) (fs : List SerializedEvent)
      → (append_events s id expected (e ∷ es)).0 ≡ ok v
      → (append_events after id (some v) (f ∷ fs)).0 ≡ err (concurrency_conflict id v (v + 1))
  returned_version_conflicts v f fs returned =
      let position : v ≡ length (contents s id) + length es =
        ok_injective (sym returned ∙ (append_events_succeeds s id expected e es fits bound).0) in
      (append_events_conflicts after id v f fs (omega (arith, length-after))).0
      ∙ ap (λ n. err (concurrency_conflict id v n)) (omega (arith, length-after))
