-- ===== src/Testing/EventStore/BatchVersions.antt =====
-- testing/src/lib.rs: the versions that `append_batch` reports.
use composable_rust.Prelude.{
  ◌≡◌, refl, sym, subst, ok_injective, ap, ◌∙◌, false, Option, List, [], ◌∷◌, ◌++◌, append-nil,
  append_assoc, ◌+◌, length, length-append, ok, err, arith, str_eq, eq_iff, eq_refl, All,
  if◌then◌else◌, inl, inr,
}
use composable_rust.Core.Stream.{StreamId, Version}
use composable_rust.Core.Event.{SerializedEvent}
use composable_rust.Core.EventStore.{BatchAppend, BatchAppendResults}
use composable_rust.Testing.EventStore.{InMemoryEventStore, append_batch, current_version}
use composable_rust.Testing.EventStore.Append.{contents, Fits}
use composable_rust.Testing.EventStore.Batch.{
  written, results, validate-cases, current_version-eq, append_batch-results, append_batch-written,
  validate-Fits,
}

-- No two operations of the batch are on one stream.
abbrev pub Distinct : List BatchAppend → Type 0
Distinct [] = Unit
Distinct (op ∷ ops) = All (λ later. str_eq op.stream_id later.stream_id ≡ false) ops × Distinct ops

-- Every operation reported as `Ok` reports the version that its stream has in `t`.
abbrev pub Reported : InMemoryEventStore → List BatchAppend → BatchAppendResults → Type 0
Reported t [] _ = Unit
Reported t (op ∷ ops) [] = Unit
Reported t (op ∷ ops) (ok v ∷ rs) = (v ≡ current_version t op.stream_id) × Reported t ops rs
Reported t (op ∷ ops) (err _ ∷ rs) = Reported t ops rs

str_eq_comm_false : (a b : StreamId) → str_eq a b ≡ false → str_eq b a ≡ false
str_eq_comm_false a b h = ground (arith, eq_iff a b, eq_iff b a)

written-none :
    (j : StreamId) (ops : List BatchAppend) (rs : BatchAppendResults)
    → All (λ later. str_eq j later.stream_id ≡ false) ops
    → written j ops rs ≡ []
written-none j [] rs h = refl
written-none j (op ∷ ops) [] h = refl
written-none j (op ∷ ops) (ok _ ∷ rs) h =
    rw (str_eq_comm_false j op.stream_id h.0) (written-none j ops rs h.1)
written-none j (op ∷ ops) (err _ ∷ rs) h = written-none j ops rs h.1

-- What the operations before some point have added to each stream.
abbrev Before : Type 0
Before = StreamId → List SerializedEvent

abbrev then_writes : Before → BatchAppend → Before
then_writes before op j = before j ++ (if str_eq op.stream_id j then op.events else [])

untouched :
    (before : Before) (op : BatchAppend) (ops : List BatchAppend)
    → All (λ o. before o.stream_id ≡ []) ops
    → All (λ later. str_eq op.stream_id later.stream_id ≡ false) ops
    → All (λ o. then_writes before op o.stream_id ≡ []) ops
untouched before op [] h d = tt
untouched before op (o ∷ ops) h d = (rw (h.0, d.0), untouched before op ops h.1 d.1)

version_after :
    (s t : InMemoryEventStore) (before : Before) (op : BatchAppend) (ops : List BatchAppend)
    → before op.stream_id ≡ []
    → All (λ later. str_eq op.stream_id later.stream_id ≡ false) ops
    → contents t op.stream_id
      ≡ contents s op.stream_id
        ++ (then_writes before op op.stream_id ++ written op.stream_id ops (results s ops))
    → length (contents s op.stream_id) + length op.events ≡ current_version t op.stream_id
version_after s t before op ops fresh d h =
    let later = written op.stream_id ops (results s ops) in
    let only : then_writes before op op.stream_id ++ later ≡ op.events =
      rw (fresh, eq_refl op.stream_id, written-none op.stream_id ops (results s ops) d)
        (append-nil op.events) in
    sym (
      current_version-eq t op.stream_id
      ∙ ap length (h ∙ ap (λ l. contents s op.stream_id ++ l) only)
      ∙ length-append (contents s op.stream_id) op.events)

Reported-results :
    (s t : InMemoryEventStore) (before : Before) (ops : List BatchAppend)
    → Distinct ops
    → All (λ o. before o.stream_id ≡ []) ops
    → ((j : StreamId) → contents t j ≡ contents s j ++ (before j ++ written j ops (results s ops)))
    → Reported t ops (results s ops)
Reported-results s t before [] d fresh h = tt
Reported-results s t before (op ∷ ops) d fresh h = elim (validate-cases s op) [
  | inl (e, refused) ↦
      rw refused (Reported-results s t before ops d.1 fresh.1 (λ j. rw refused at (h j)))
  | inr accepted ↦
      let regroup : (j : StreamId)
          → contents t j
            ≡ contents s j ++ (then_writes before op j ++ written j ops (results s ops)) =
        λ j.
          (rw accepted at (h j))
          ∙ ap (λ l. contents s j ++ l)
              (sym (
                append_assoc (before j) (if str_eq op.stream_id j then op.events else [])
                  (written j ops (results s ops)))) in
      rw accepted (
        version_after s t before op ops fresh.0 d.0 (regroup op.stream_id),
        Reported-results s t (then_writes before op) ops d.1 (untouched before op ops fresh.1 d.0)
            regroup,
      )
]

nothing_before : (ops : List BatchAppend) → All (λ o. ◌≡◌ {A = List SerializedEvent} [] []) ops
nothing_before [] = tt
nothing_before (op ∷ ops) = (refl, nothing_before ops)

-- In a batch whose operations are all on different streams, every version reported as `Ok` is the
-- version that the operation's stream has when the batch is done.
pub append_batch-Reported :
    (s : InMemoryEventStore) (ops : List BatchAppend) (rs : BatchAppendResults)
    → Distinct ops
    → (append_batch s ops).0 ≡ ok rs
    → Reported (append_batch s ops).1 ops rs
append_batch-Reported s ops rs distinct returned =
    let same : results s ops ≡ rs = ok_injective (sym (append_batch-results s ops) ∙ returned) in
    subst (Reported (append_batch s ops).1 ops) same (
      Reported-results s (append_batch s ops).1 (λ _. []) ops distinct (nothing_before ops)
        (append_batch-written s ops))

abbrev pub request : StreamId → Option Version → List SerializedEvent → BatchAppend
request id expected es = record { stream_id = id; expected_version = expected; events = es }

-- Two operations of one batch on one stream, of some events each, are both accepted where their
-- common expectation held before the batch, and then the second one's reported version leaves out
-- the first one's events, which the stream holds.
pub append_batch_same_stream :
    (s : InMemoryEventStore) (id : StreamId) (expected : Option Version) (e f : SerializedEvent)
    (es fs : List SerializedEvent)
    → Fits expected (length (contents s id))
    → let n = length (contents s id) in
      let (r, t) =
        append_batch s (request id expected (e ∷ es) ∷ request id expected (f ∷ fs) ∷ []) in
      (r ≡ ok (ok (n + length (e ∷ es)) ∷ ok (n + length (f ∷ fs)) ∷ []))
      × (current_version t id ≡ n + length (e ∷ es) + length (f ∷ fs))
append_batch_same_stream s id expected e f es fs fits =
    let ops = request id expected (e ∷ es) ∷ request id expected (f ∷ fs) ∷ [] in
    let first = validate-Fits s id expected e es fits in
    let second = validate-Fits s id expected f fs fits in
    (
      append_batch-results s ops ∙ rw (first, second),
      current_version-eq (append_batch s ops).1 id
          ∙ ap length (append_batch-written s ops id)
          ∙ rw (first, second, eq_refl id)
              (omega (
                arith,
                length-append (contents s id) (e ∷ (es ++ (f ∷ (fs ++ [])))),
                length-append es (f ∷ (fs ++ [])),
                length-append fs [],
              )),
    )
