-- ===== src/Testing/EventStore/History.antt =====
-- testing/src/lib.rs: streams are append-only under any sequence of the store's methods.
use composable_rust.Prelude.{
  ◌≡◌, sym, map, insert, Bool-cases, inl, inr, ap, ◌∙◌, Option, none, some, List, [], ◌∷◌, ◌++◌,
  append-nil, append_assoc, ℕ, length, str_eq, eq_iff, ◌==◌, get_or-insert, get_or-insert_self,
}
use composable_rust.Core.Stream.{StreamId, Version}
use composable_rust.Core.Event.{SerializedEvent}
use composable_rust.Core.EventStore.{BatchAppend}
use composable_rust.Testing.EventStore.{
  InMemoryEventStore, Validated, append_events, save_snapshot, apply_validated, append_batch,
  validate,
}
use composable_rust.Testing.EventStore.Append.{contents}

-- The methods of the trait `EventStore` that write.
pub data Request : Type 0 where
  append : StreamId → Option Version → List SerializedEvent → Request
  snapshot : StreamId → Version → List ℕ → Request
  batch : List BatchAppend → Request

unfoldable pub serve : Request → InMemoryEventStore → InMemoryEventStore
serve (append id expected es) s = (append_events s id expected es).1
serve (snapshot id version state) s = (save_snapshot s id version state).1
serve (batch ops) s = (append_batch s ops).1

unfoldable pub serve_all : List Request → InMemoryEventStore → InMemoryEventStore
unfolding serve
serve_all [] s = s
serve_all (r ∷ rs) s = serve_all rs (serve r s)

-- Every stream keeps its events in place: what it holds later begins with what it held.
abbrev pub Extends : InMemoryEventStore → InMemoryEventStore → Type 0
Extends s t =
    (j : StreamId) → (added : List SerializedEvent) × (contents t j ≡ contents s j ++ added)

Extends-refl : (s : InMemoryEventStore) → Extends s s
Extends-refl s j = ([], sym (append-nil (contents s j)))

Extends-trans : (s t u : InMemoryEventStore) → Extends s t → Extends t u → Extends s u
Extends-trans s t u p q j =
    let (xs, hx) = p j in
    let (ys, hy) = q j in (xs ++ ys, hy ∙ ap (λ l. l ++ ys) hx ∙ append_assoc (contents s j) xs ys)

insert-Extends :
    (s : InMemoryEventStore) (id : StreamId) (es : List SerializedEvent)
    → Extends s (record s { events = insert id (contents s id ++ es) s.events })
insert-Extends s id es j = elim (Bool-cases (str_eq id j)) [
  | inl same ↦
      (es, rw (get_or-insert id j [] (contents s id ++ es) s.events, same, (eq_iff id j).0 same))
  | inr other ↦ (
    [],
    rw (get_or-insert id j [] (contents s id ++ es) s.events, other)
        (sym (append-nil (contents s j))),
  )
]

append_events-Extends :
    (s : InMemoryEventStore) (id : StreamId) (expected : Option Version) (es : List SerializedEvent)
    → Extends s (append_events s id expected es).1
unfolding append_events
append_events-Extends s id expected [] = Extends-refl s
append_events-Extends s id none (e ∷ es) = insert-Extends s id (e ∷ es)
append_events-Extends s id (some v) (e ∷ es) = elim (Bool-cases (length (contents s id) == v)) [
  | inl fits ↦ rw fits (insert-Extends s id (e ∷ es))
  | inr differs ↦
      rw differs λ j. ([], get_or-insert_self id j [] s.events ∙ sym (append-nil (contents s j)))
]

apply_validated-Extends :
    (vs : List Validated) (s : InMemoryEventStore) → Extends s (apply_validated vs s)
unfolding apply_validated
apply_validated-Extends [] s = Extends-refl s
apply_validated-Extends (none ∷ vs) s = apply_validated-Extends vs s
apply_validated-Extends (some (id, es) ∷ vs) s =
    let t = record s { events = insert id (contents s id ++ es) s.events } in
    Extends-trans s t (apply_validated vs t) (insert-Extends s id es) (apply_validated-Extends vs t)

append_batch-Extends :
    (s : InMemoryEventStore) (ops : List BatchAppend) → Extends s (append_batch s ops).1
unfolding append_batch
append_batch-Extends s [] = Extends-refl s
append_batch-Extends s (op ∷ ops) =
    apply_validated-Extends (map (λ o. (validate s o).1) (op ∷ ops)) s

serve-Extends : (r : Request) (s : InMemoryEventStore) → Extends s (serve r s)
unfolding serve save_snapshot
serve-Extends (append id expected es) s = append_events-Extends s id expected es
serve-Extends (snapshot id version state) s = Extends-refl s
serve-Extends (batch ops) s = append_batch-Extends s ops

-- Whatever appends, snapshots and batches are served, and whether they succeed or fail, every
-- stream still begins with the events that it held before, in the same order.
pub serve_all-Extends : (rs : List Request) (s : InMemoryEventStore) → Extends s (serve_all rs s)
unfolding serve_all
serve_all-Extends [] s = Extends-refl s
serve_all-Extends (r ∷ rs) s =
    Extends-trans s (serve r s) (serve_all rs (serve r s)) (serve-Extends r s)
      (serve_all-Extends rs (serve r s))
