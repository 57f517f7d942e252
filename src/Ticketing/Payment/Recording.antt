-- ===== src/Ticketing/Payment/Recording.antt =====
-- examples/ticketing/src/aggregates/payment.rs: the appends that the aggregate returns, on the event
-- store in memory.
use composable_rust.Prelude.{
  Result_both, ok_injective, none, ap, ok, ◌==◌, some, List, [], ◌∷◌, ◌++◌, Option, All, ◌≡◌, ◌≤◌,
  refl, sym, ◌∙◌, arith, length, length-append, inl, inr, subst, str_eq, if_cases, Bool-cases,
  eq_iff,
}
use composable_rust.Core.Event.{SerializedEvent}
use composable_rust.Core.Stream.{StreamId, Version}
use composable_rust.Core.Effect.{publish_event, publish, Effect, event_store, append_events}
use composable_rust.Testing.EventStore
use composable_rust.Testing.EventStore.{InMemoryEventStore}
use composable_rust.Testing.EventStore.Append.{
  contents-append_events, contents, append_events_succeeds, append_events_conflicts,
}
use composable_rust.Ticketing.Payment.{
  version_updated, validation_failed, store_failed, bus_failed, PaymentId, Money, PaymentMethod,
  process_payment, payment_processed, payment_succeeded, apply_event, PaymentState, new_state,
  PaymentAction, PaymentEnvironment,
}
use composable_rust.Ticketing.Payment.Reduce.{
  create_effects, process, record_event, reduce, PaymentEffects,
}
use composable_rust.Core.EventStore.{EventStoreError}
use composable_rust.Ticketing.Types.{ReservationId}
use composable_rust.Ticketing.Payment.Versions.{
  All-append, Expects, All-middle, reduce-KeepsVersion,
}

-- States that a store which starts with a new one can reach.
pub data Reached : PaymentState → Type 0 where
  at_start : Reached new_state
  by_action :
      (s : PaymentState) (a : PaymentAction) (env : PaymentEnvironment)
      → Reached s
      → Reached (reduce s a env).0

-- Effects that such a store is given.
pub data Returned : Effect PaymentAction → Type 0 where
  returned :
      (s : PaymentState) (a : PaymentAction) (env : PaymentEnvironment) (before : PaymentEffects)
      (e : Effect PaymentAction) (after : PaymentEffects)
      → Reached s
      → (reduce s a env).1 ≡ before ++ e ∷ after
      → Returned e

-- The appends among some effects, one after the other.
abbrev pub perform : PaymentEffects → InMemoryEventStore → InMemoryEventStore
perform [] t = t
perform (event_store (append_events _ id expected events _ _ _) ∷ effects) t =
    perform effects (EventStore.append_events t id expected events).1
perform (_ ∷ effects) t = perform effects t

Reached-version : (s : PaymentState) → Reached s → s.version ≡ 0
unfolding new_state
Reached-version s at_start = refl
Reached-version s (by_action s' a env reached) =
    (reduce-KeepsVersion s' a env).0 ∙ Reached-version s' reached

Returned-Expects : (e : Effect PaymentAction) → Returned e → Expects 0 e
Returned-Expects e (returned s a env before _ after reached eq) =
    let all =
      subst (λ v. All (Expects v) (reduce s a env).1) (Reached-version s reached)
        (reduce-KeepsVersion s a env).1 in
    All-middle 0 before e after (subst (All (Expects 0)) eq all)

-- A stream that holds an event is as before, and no stream gets more than one.
abbrev Once : (before after : InMemoryEventStore) → StreamId → Type 0
Once before after j =
    (1 ≤ length (contents before j) → contents after j ≡ contents before j)
    × (length (contents before j) ≤ 1 → length (contents after j) ≤ 1)

Once-trans : (s t u : InMemoryEventStore) (j : StreamId) → Once s t j → Once t u j → Once s u j
Once-trans s t u j first second = (
  λ h. let same = first.0 h in second.0 (subst (λ l. 1 ≤ length l) (sym same) h) ∙ same,
  λ h. second.1 (first.1 h),
)

append-Once :
    (t : InMemoryEventStore) (id : StreamId) (e : SerializedEvent) (j : StreamId)
    → Once t (EventStore.append_events t id (some 0) (e ∷ [])).1 j
append-Once t id e j = elim (Bool-cases (0 == length (contents t id))) [
  | inl empty ↦
      let none_yet : length (contents t id) ≡ 0 = ground (arith, empty) in
      let written =
        append_events_succeeds t id (some 0) e [] (sym none_yet) (omega (arith, none_yet)) in
      let Grown = λ (l : List SerializedEvent).
        (1 ≤ length (contents t j) → l ≡ contents t j)
        × (length (contents t j) ≤ 1 → length l ≤ 1) in
      subst Grown (sym (written.1 j)) (
        if_cases Grown (str_eq id j) _ _
          (λ same.
            let here : length (contents t j) ≡ 0 =
              subst (λ i. length (contents t i) ≡ 0) (ground (arith, same, eq_iff id j)) none_yet in
            (
              λ h. absurd (omega (arith, h, here)),
              λ _. omega (arith, length-append (contents t id) (e ∷ []), none_yet),
            ))
          (λ _. (λ _. refl, λ h. h)))
  | inr some_there ↦
      let same = (append_events_conflicts t id 0 e [] (ground (arith, some_there))).1 j in
      (λ _. same, λ h. subst (λ l. length l ≤ 1) (sym same) h)
]

append_one-Once :
    (t : InMemoryEventStore) (id : StreamId) (expected : Option Version)
    (events : List SerializedEvent) (j : StreamId)
    → expected ≡ some 0
    → length events ≡ 1
    → Once t (EventStore.append_events t id expected events).1 j
append_one-Once t id expected [] j first one = absurd (omega (arith, one))
append_one-Once t id expected (e ∷ []) j first one =
    subst (λ v. Once t (EventStore.append_events t id v (e ∷ [])).1 j) (sym first)
      (append-Once t id e j)
append_one-Once t id expected (e ∷ f ∷ es) j first one = absurd (omega (arith, one))

perform-Once :
    (effects : PaymentEffects) (t : InMemoryEventStore) (j : StreamId)
    → All (Expects 0) effects
    → Once t (perform effects t) j
perform-Once [] t j h = (λ _. refl, λ h. h)
perform-Once (event_store (append_events _ id expected events _ _ _) ∷ effects) t j h =
    let t' = (EventStore.append_events t id expected events).1 in
    Once-trans t t' (perform effects t') j (append_one-Once t id expected events j h.0.0 h.0.1)
      (perform-Once effects t' j h.1)
perform-Once (_ ∷ effects) t j h = perform-Once effects t j h.1

All-Expects : (effects : PaymentEffects) → All Returned effects → All (Expects 0) effects
All-Expects [] h = tt
All-Expects (e ∷ effects) h = (Returned-Expects e h.0, All-Expects effects h.1)

-- The first effect of a payment that can be serialized appends its event, at the state's version.
abbrev FirstAppend : PaymentEnvironment → SerializedEvent → Version → PaymentEffects → Type 0
FirstAppend env first v effects =
    (f : Version → Option PaymentAction) × (g : EventStoreError → Option PaymentAction)
    × (rest : PaymentEffects) × (effects
        ≡ event_store (append_events env.event_store env.stream_id (some v) (first ∷ []) none f g)
          ∷ rest)

create_effects-FirstAppend :
    (event : PaymentAction) (v : Version) (env : PaymentEnvironment) (first : SerializedEvent)
    → env.serialize event ≡ ok first
    → FirstAppend env first v (create_effects event v env)
unfolding create_effects
create_effects-FirstAppend event v env first serial =
    Result_both (FirstAppend env first v) (env.serialize event) _ _
      (λ z there. (
        λ version. some (version_updated version),
        λ error. some (validation_failed (store_failed error)),
        _,
        ap
            (λ e.
              event_store (
                append_events env.event_store env.stream_id (some v) (e ∷ []) none
                  (λ version. some (version_updated version))
                  (λ error. some (validation_failed (store_failed error))))
              ∷ publish_event (
                  publish env.event_bus "payment" z (λ _. none)
                    (λ error. some (validation_failed (bus_failed error))))
              ∷ [])
            (ok_injective (sym there ∙ serial)),
      ))
      (λ e failed. absurd (ground (arith, serial, failed)))

process-FirstAppend :
    (s : PaymentState) (id : PaymentId) (r : ReservationId) (amount : Money)
    (payment_method : PaymentMethod) (env : PaymentEnvironment) (first : SerializedEvent)
    → env.serialize (payment_processed id r amount payment_method env.now) ≡ ok first
    → FirstAppend env first s.version (reduce s (process_payment id r amount payment_method) env).1
unfolding reduce process record_event
process-FirstAppend s id r amount payment_method env first serial =
    let event = payment_processed id r amount payment_method env.now in
    let (f, g, rest, eq) = create_effects-FirstAppend event s.version env first serial in
    let second =
      create_effects (payment_succeeded id env.transaction_id)
        (apply_event env.new_customer_id s event).version env in
    (f, g, rest ++ second, ap (λ l. l ++ second) eq)

first_recorded :
    (t : InMemoryEventStore) (id : StreamId) (first : SerializedEvent)
    → contents t id ≡ []
    → contents (EventStore.append_events t id (some 0) (first ∷ [])).1 id ≡ first ∷ []
first_recorded t id first empty =
    let none_yet : length (contents t id) ≡ 0 = ap length empty in
    contents-append_events t id (some 0) first [] (sym none_yet) (omega (arith, none_yet))
    ∙ ap (λ l. l ++ first ∷ []) empty

-- A payment is processed in a state that a store reaches, its first event can be serialized, and its
-- stream is empty: when its appends are performed, and after them those among any effects that
-- payments return, of this store or of others that start with a new state, in whichever order, the
-- stream holds the first event and nothing else. And whichever effects payments return: a stream that
-- holds an event keeps its events as they are, and a stream of at most one event still has at most
-- one.
pub recorded_once :
    (s : PaymentState) (id : PaymentId) (r : ReservationId) (amount : Money)
    (payment_method : PaymentMethod) (env : PaymentEnvironment) (first : SerializedEvent)
    (later : PaymentEffects) (t : InMemoryEventStore)
    → Reached s
    → env.serialize (payment_processed id r amount payment_method env.now) ≡ ok first
    → All Returned later
    → contents t env.stream_id ≡ []
    → let effects = (reduce s (process_payment id r amount payment_method) env).1 in
      (contents (perform (effects ++ later) t) env.stream_id ≡ first ∷ [])
      × ((u : InMemoryEventStore) (j : StreamId)
          → (1 ≤ length (contents u j) → contents (perform later u) j ≡ contents u j)
            × (length (contents u j) ≤ 1 → length (contents (perform later u) j) ≤ 1))
recorded_once s id r amount payment_method env first later t reached serial all empty =
    let start = reduce-KeepsVersion s (process_payment id r amount payment_method) env in
    let expecting =
      subst (λ v. All (Expects v) (reduce s (process_payment id r amount payment_method) env).1)
        (Reached-version s reached) start.1 in
    let (f, g, rest, eq) = process-FirstAppend s id r amount payment_method env first serial in
    let at = env.stream_id in
    let t' = (EventStore.append_events t at (some s.version) (first ∷ [])).1 in
    let kept = subst (All (Expects 0)) eq expecting in
    let written : contents t' at ≡ first ∷ [] =
      ap (λ v. contents (EventStore.append_events t at (some v) (first ∷ [])).1 at)
        (Reached-version s reached)
      ∙ first_recorded t at first empty in
    let same =
      perform-Once (rest ++ later) t' at (All-append 0 rest later kept.1 (All-Expects later all)) in
    (
      ap (λ l. contents (perform (l ++ later) t) at) eq
          ∙ same.0 (omega (arith, ap length written))
          ∙ written,
      λ u j. perform-Once later u j (All-Expects later all),
    )
