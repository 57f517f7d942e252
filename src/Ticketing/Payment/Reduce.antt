-- ===== src/Ticketing/Payment/Reduce.antt =====
-- examples/ticketing/src/aggregates/payment.rs: `reduce`, which gives the new state and the effects.
use composable_rust.Prelude.{
  String, none, some, List, [], ◌∷◌, ◌++◌, Result, ok, err, not, str_eq, if◌then◌else◌,
}
use composable_rust.Core.Effect.{Effect, future, event_store, publish_event, append_events, publish}
use composable_rust.Core.Stream.{Version}
use composable_rust.Ticketing.Types.{ReservationId}
use composable_rust.Ticketing.Payment.{
  PaymentId, Money, PaymentMethod, PaymentState, is_captured, get_payment_of, exists, uncaptured,
  payment_not_found, payment_failed_to_load, payments_failed_to_load, invalid_correlation_id,
  not_in_state, store_failed, bus_failed, PaymentError, PaymentAction, process_payment,
  refund_payment, simulate_payment_failure, get_payment, list_customer_payments, payment_processed,
  payment_succeeded, payment_failed, payment_refunded, validation_failed, payment_queried,
  customer_payments_listed, projection_completed, payment_confirmed, payment_projection_failed,
  version_updated, PaymentEnvironment, apply_event,
}

abbrev pub PaymentEffects : Type 0
PaymentEffects = List (Effect PaymentAction)

unfoldable pub create_effects : PaymentAction → Version → PaymentEnvironment → PaymentEffects
create_effects event expected_version env = elim (env.serialize event) [
  | err _ ↦ []
  | ok serialized ↦
      event_store (
        append_events env.event_store env.stream_id (some expected_version) (serialized ∷ []) none
          (λ version. some (version_updated version))
          (λ error. some (validation_failed (store_failed error))))
      ∷ publish_event (
          publish env.event_bus "payment" serialized (λ _. none)
            (λ error. some (validation_failed (bus_failed error))))
      ∷ []
]

-- Apply an event, and persist and publish it.
unfoldable pub record_event :
    PaymentEnvironment → PaymentState → PaymentAction → PaymentState × PaymentEffects
unfolding apply_event create_effects
record_event env state event =
    (apply_event env.new_customer_id state event, create_effects event state.version env)

unfoldable pub process :
    PaymentEnvironment
    → PaymentState
    → PaymentId
    → ReservationId
    → Money
    → PaymentMethod
    → PaymentState × PaymentEffects
unfolding record_event
process env state id r amount payment_method =
    let (state₁, effects₁) =
      record_event env state (payment_processed id r amount payment_method env.now) in
    let (state₂, effects₂) = record_event env state₁ (payment_succeeded id env.transaction_id) in
    (state₂, effects₁ ++ effects₂)

unfoldable pub refund :
    PaymentEnvironment → PaymentState → PaymentId → Money → String → PaymentState × PaymentEffects
unfolding apply_event record_event
refund env state id amount reason = elim (get_payment_of state id) [
  | none ↦ (apply_event env.new_customer_id state (validation_failed (payment_not_found id)), [])
  | some payment ↦
      if not (is_captured payment.status)
      then (apply_event env.new_customer_id state (validation_failed uncaptured), [])
      else record_event env state (payment_refunded id amount reason env.now)
]

unfoldable pub complete_projection :
    PaymentEnvironment → PaymentState → String → String → PaymentState × PaymentEffects
unfolding apply_event record_event
complete_projection env state correlation_id projection_name =
    if str_eq projection_name "payments_projection"
    then elim (env.parse_uuid correlation_id) [
      | none ↦ (
        apply_event env.new_customer_id
            (record state { last_error = some (invalid_correlation_id correlation_id) })
            (projection_completed correlation_id projection_name),
        [],
      )
      | some id ↦
          if exists state id
          then record_event env state (payment_confirmed id)
          else record_event env state (payment_projection_failed id (not_in_state id))
    ]
    else (
      apply_event env.new_customer_id state (projection_completed correlation_id projection_name),
      [],
    )

-- What the future of a query resolves to.
abbrev pub query :
    {T : Type 0} → Result T String → (T → PaymentAction) → (String → PaymentError) → PaymentEffects
query (ok t) queried error = future (some (queried t)) ∷ []
query (err e) queried error = future (some (validation_failed (error e))) ∷ []

unfoldable pub reduce :
    PaymentState → PaymentAction → PaymentEnvironment → PaymentState × PaymentEffects
unfolding process refund complete_projection record_event apply_event
reduce state (process_payment id r amount payment_method) env =
    process env state id r amount payment_method
reduce state (simulate_payment_failure id _ reason) env =
    record_event env state (payment_failed id reason env.now)
reduce state (refund_payment id amount reason) env = refund env state id amount reason
reduce state (get_payment id) env =
    (state, query (env.projection.load_payment id) (payment_queried id) payment_failed_to_load)
reduce state (list_customer_payments c limit offset) env = (
  state,
  query (env.projection.load_customer_payments c limit offset) (customer_payments_listed c)
      payments_failed_to_load,
)
reduce state (projection_completed correlation_id projection_name) env =
    complete_projection env state correlation_id projection_name
reduce state event env = (apply_event env.new_customer_id state event, [])
