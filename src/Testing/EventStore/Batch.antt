-- ===== src/Testing/EventStore/Batch.antt =====
-- testing/src/lib.rs: `append_batch`, its results against the streams that it leaves.
use composable_rust.Prelude.{
  ◌≡◌, refl, sym, ap, ◌∙◌, Option, none, some, List, [], ◌∷◌, ◌++◌, map, append-nil, append_assoc,
  ◌+◌, length, ok, err, arith, str_eq, eq_iff, get_or-insert, insert, if◌then◌else◌, Bool-cases,
  inl, inr, is_empty, Option-cases, length-map, ◌⊎◌,
}
use composable_rust.Core.Stream.{StreamId, Version}
use composable_rust.Core.Event.{SerializedEvent}
use composable_rust.Core.EventStore.{
  BatchAppend, BatchAppendResults, EventStoreError, concurrency_conflict,
}
use composable_rust.Testing.EventStore.{
  InMemoryEventStore, no_events, Validated, mismatch, validate, apply_validated, append_batch,
  current_version,
}
use composable_rust.Testing.EventStore.Append.{contents, Fits, mismatch-Fits}

-- The events that a batch adds to stream `j`, read off the results that the caller gets: an
-- operation adds its events if its result is `Ok`, and nothing if it is `Err`.
abbrev pub written : StreamId → List BatchAppend → BatchAppendResults → List SerializedEvent
written j [] _ = []
written j (op ∷ ops) [] = []
written j (op ∷ ops) (ok _ ∷ rs) =
    (if str_eq op.stream_id j then op.events else []) ++ written j ops rs
written j (op ∷ ops) (err _ ∷ rs) = written j ops rs

-- The same, read off what phase 1 has validated.
abbrev collected : StreamId → List Validated → List SerializedEvent
collected j [] = []
collected j (none ∷ vs) = collected j vs
collected j (some (id, es) ∷ vs) = (if str_eq id j then es else []) ++ collected j vs

contents-insert :
    (s : InMemoryEventStore) (id j : StreamId) (es : List SerializedEvent)
    → contents (record s { events = insert id (contents s id ++ es) s.events }) j
      ≡ contents s j ++ (if str_eq id j then es else [])
contents-insert s id j es = elim (Bool-cases (str_eq id j)) [
  | inl same ↦ rw (get_or-insert id j [] (contents s id ++ es) s.events, same, (eq_iff id j).0 same)
  | inr other ↦
      rw (get_or-insert id j [] (contents s id ++ es) s.events, other)
        (sym (append-nil (contents s j)))
]

contents-apply_validated :
    (vs : List Validated) (s : InMemoryEventStore) (j : StreamId)
    → contents (apply_validated vs s) j ≡ contents s j ++ collected j vs
unfolding apply_validated
contents-apply_validated [] s j = sym (append-nil (contents s j))
contents-apply_validated (none ∷ vs) s j = contents-apply_validated vs s j
contents-apply_validated (some (id, es) ∷ vs) s j =
    let t = record s { events = insert id (contents s id ++ es) s.events } in
    let new_events = if str_eq id j then es else [] in
    contents-apply_validated vs t j
    ∙ ap (λ l. l ++ collected j vs) (contents-insert s id j es)
    ∙ append_assoc (contents s j) new_events (collected j vs)

pub current_version-eq :
    (s : InMemoryEventStore) (id : StreamId) → current_version s id ≡ length (contents s id)
unfolding current_version
current_version-eq s id = ground arith

-- Phase 1 either refuses an operation and keeps nothing of it, or reports the version after its
-- events and keeps all of it.
abbrev pub Verdict : InMemoryEventStore → BatchAppend → Type 0
Verdict s op =
    ((e : EventStoreError) × (validate s op ≡ (err e, none)))
    ⊎ (validate s op ≡ (
      ok (length (contents s op.stream_id) + length op.events),
      some (op.stream_id, op.events),
    ))

pub validate-cases : (s : InMemoryEventStore) (op : BatchAppend) → Verdict s op
unfolding validate
validate-cases s op = elim (Bool-cases (is_empty op.events)) [
  | inl empty ↦ inl (no_events, rw empty)
  | inr some_events ↦
      elim (Option-cases (mismatch op.expected_version (current_version s op.stream_id))) [
        | inl fits ↦ inr rw (some_events, fits, current_version-eq s op.stream_id)
        | inr (v, differs) ↦ inl (
          concurrency_conflict op.stream_id v (current_version s op.stream_id),
          rw (some_events, differs),
        )
      ]
]

-- An operation of some events whose expectation holds before the batch is accepted.
pub validate-Fits :
    (s : InMemoryEventStore) (id : StreamId) (expected : Option Version) (e : SerializedEvent)
    (es : List SerializedEvent)
    → Fits expected (length (contents s id))
    → validate s (record { stream_id = id; expected_version = expected; events = e ∷ es })
      ≡ (ok (length (contents s id) + length (e ∷ es)), some (id, e ∷ es))
unfolding validate
validate-Fits s id expected e es fits = rw (
  current_version-eq s id,
  mismatch-Fits expected (length (contents s id)) fits,
  current_version-eq s id,
)

abbrev pub results : InMemoryEventStore → List BatchAppend → BatchAppendResults
results s ops = map (λ op. (validate s op).0) ops

collected-eq-written :
    (s : InMemoryEventStore) (j : StreamId) (ops : List BatchAppend)
    → collected j (map (λ op. (validate s op).1) ops) ≡ written j ops (results s ops)
collected-eq-written s j [] = refl
collected-eq-written s j (op ∷ ops) = elim (validate-cases s op) [
  | inl (e, refused) ↦ rw (refused, collected-eq-written s j ops)
  | inr accepted ↦ rw (accepted, collected-eq-written s j ops)
]

pub append_batch-results :
    (s : InMemoryEventStore) (ops : List BatchAppend) → (append_batch s ops).0 ≡ ok (results s ops)
unfolding append_batch
append_batch-results s [] = refl
append_batch-results s (op ∷ ops) = refl

pub append_batch-written :
    (s : InMemoryEventStore) (ops : List BatchAppend) (j : StreamId)
    → contents (append_batch s ops).1 j ≡ contents s j ++ written j ops (results s ops)
unfolding append_batch
append_batch-written s [] j = sym (append-nil (contents s j))
append_batch-written s (op ∷ ops) j =
    contents-apply_validated (map (λ o. (validate s o).1) (op ∷ ops)) s j
    ∙ ap (λ l. contents s j ++ l) (collected-eq-written s j (op ∷ ops))

-- A batch never fails as a whole. It gives one result for each operation, in their order, and
-- every stream holds afterwards what it held before and then the events of the operations on it
-- whose result is `Ok`, in their order.
pub append_batch-contents :
    (s : InMemoryEventStore) (ops : List BatchAppend)
    → (rs : BatchAppendResults) × ((append_batch s ops).0 ≡ ok rs)
      × (length rs ≡ length ops)
      × ((j : StreamId) → contents (append_batch s ops).1 j ≡ contents s j ++ written j ops rs)
append_batch-contents s ops = (
  results s ops,
  append_batch-results s ops,
  length-map ops (λ o. (validate s o).0),
  append_batch-written s ops,
)
