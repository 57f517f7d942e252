-- ===== src/Ticketing/Payment.antt =====
-- examples/ticketing/src/aggregates/payment.rs and types.rs: payments, the actions of their
-- aggregate and what its events do to the state. An amount of money is its cents. An error's text is
-- what it is formatted from; `given` is a text that an action brings along.
pub mod Reduce
pub mod Versions
pub mod Refunds
pub mod Lifecycle
pub mod Recording
mod Tests
use composable_rust.Prelude.{
  ℕ, String, Bool, true, false, Option, none, some, List, [], Result, number_key, length,
}
use composable_rust.Prelude.Dict
use composable_rust.Core.Event.{SerializedEvent}
use composable_rust.Core.EventStore.{EventStoreError}
use composable_rust.Core.Effect.{EventStoreRef, EventBusRef, EventBusError}
use composable_rust.Core.Stream.{StreamId, Version}
use composable_rust.Ticketing.Types.{
  ReservationId, CustomerId, DateTime, LoadingState, is_loaded_state, loading, loaded,
}

abbrev pub PaymentId : Type 0
PaymentId = ℕ

abbrev pub Money : Type 0
Money = ℕ

pub data PaymentMethod : Type 0 where
  credit_card : (last_four : String) → PaymentMethod
  pay_pal : (email : String) → PaymentMethod
  apple_pay : PaymentMethod

pub data PaymentStatus : Type 0 where
  pending : PaymentStatus
  authorized : PaymentStatus
  captured : PaymentStatus
  failed : (reason : String) → PaymentStatus
  refunded : (amount : Money) → PaymentStatus

-- `matches!(status, PaymentStatus::Captured)`
abbrev pub is_captured : PaymentStatus → Bool
is_captured captured = true
is_captured _ = false

pub record Payment : Type 0 where
  pub id : PaymentId
  pub reservation_id : ReservationId
  pub customer_id : CustomerId
  pub amount : Money
  pub status : PaymentStatus
  pub payment_method : PaymentMethod
  pub processed_at : Option DateTime

-- `Payment::new`
abbrev pub new_payment : PaymentId → ReservationId → CustomerId → Money → PaymentMethod → Payment
new_payment id r c amount payment_method = record {
  id = id;
  reservation_id = r;
  customer_id = c;
  amount = amount;
  status = pending;
  payment_method = payment_method;
  processed_at = none;
}

pub data PaymentError : Type 0 where
  given : String → PaymentError
  uncaptured : PaymentError
  payment_not_found : PaymentId → PaymentError
  payment_failed_to_load : String → PaymentError
  payments_failed_to_load : String → PaymentError
  invalid_correlation_id : String → PaymentError
  not_in_state : PaymentId → PaymentError
  store_failed : EventStoreError → PaymentError
  bus_failed : EventBusError → PaymentError

pub record PaymentState : Type 0 where
  pub payments : List (PaymentId × Payment)
  pub loading_states : List (PaymentId × LoadingState)
  pub last_error : Option PaymentError
  pub version : Version

-- `PaymentState::new`
unfoldable pub new_state : PaymentState
new_state = record { payments = []; loading_states = []; last_error = none; version = 0 }

unfoldable pub is_loaded : PaymentState → PaymentId → Bool
unfolding Dict.get
is_loaded state id = elim (Dict.get id state.loading_states) [
  | none ↦ false
  | some l ↦ is_loaded_state l
]

unfoldable pub mark_loading : PaymentId → PaymentState → PaymentState
mark_loading id state = record state {
  loading_states = Dict.insert id loading state.loading_states;
}

unfoldable pub mark_loaded : PaymentId → PaymentState → PaymentState
mark_loaded id state = record state { loading_states = Dict.insert id loaded state.loading_states }

abbrev pub get_payment_of : PaymentState → PaymentId → Option Payment
get_payment_of state id = Dict.get id state.payments

abbrev pub exists : PaymentState → PaymentId → Bool
exists state id = elim (Dict.get id state.payments) [ none ↦ false | some _ ↦ true ]

abbrev pub count : PaymentState → ℕ
count state = length state.payments

pub data PaymentAction : Type 0 where
  process_payment :
      (payment_id : PaymentId) (reservation_id : ReservationId) (amount : Money)
      (payment_method : PaymentMethod)
      → PaymentAction
  refund_payment : (payment_id : PaymentId) (amount : Money) (reason : String) → PaymentAction
  simulate_payment_failure :
      (payment_id : PaymentId) (reservation_id : ReservationId) (reason : String) → PaymentAction
  get_payment : PaymentId → PaymentAction
  list_customer_payments : CustomerId → (limit offset : ℕ) → PaymentAction
  payment_processed :
      (payment_id : PaymentId) (reservation_id : ReservationId) (amount : Money)
      (payment_method : PaymentMethod) (processed_at : DateTime)
      → PaymentAction
  payment_succeeded : (payment_id : PaymentId) (transaction_id : String) → PaymentAction
  payment_failed : (payment_id : PaymentId) (reason : String) (failed_at : DateTime) → PaymentAction
  payment_refunded :
      (payment_id : PaymentId) (amount : Money) (reason : String) (refunded_at : DateTime)
      → PaymentAction
  validation_failed : PaymentError → PaymentAction
  payment_queried : PaymentId → Option Payment → PaymentAction
  customer_payments_listed : CustomerId → List Payment → PaymentAction
  projection_completed : (correlation_id projection_name : String) → PaymentAction
  payment_confirmed : PaymentId → PaymentAction
  payment_projection_failed : PaymentId → (reason : PaymentError) → PaymentAction
  version_updated : Version → PaymentAction

pub record PaymentProjectionQuery : Type 0 where
  pub load_payment : PaymentId → Result (Option Payment) String
  pub load_customer_payments : CustomerId → (limit offset : ℕ) → Result (List Payment) String

-- `now` is what the clock reads in one call, `new_customer_id` and `transaction_id` what is made
-- from new UUIDs, and `parse_uuid` is `Uuid::parse_str`.
pub record PaymentEnvironment : Type 0 where
  pub now : DateTime
  pub new_customer_id : CustomerId
  pub transaction_id : String
  pub parse_uuid : String → Option PaymentId
  pub event_store : EventStoreRef
  pub event_bus : EventBusRef
  pub stream_id : StreamId
  pub projection : PaymentProjectionQuery
  pub serialize : PaymentAction → Result SerializedEvent String

abbrev pub with_status : PaymentStatus → Payment → Payment
with_status status payment = record payment { status = status }

-- `customer_id` is the customer that `CustomerId::new` makes up for a payment.
unfoldable pub apply_event : CustomerId → PaymentState → PaymentAction → PaymentState
unfolding Dict.insert Dict.adjust
apply_event customer_id state (payment_processed id r amount payment_method t) = record state {
  payments =
      Dict.insert id
        (record (new_payment id r customer_id amount payment_method) { processed_at = some t })
        state.payments;
  last_error = none;
}
apply_event customer_id state (payment_succeeded id _) = record state {
  payments = Dict.adjust id (with_status captured) state.payments;
  last_error = none;
}
apply_event customer_id state (payment_failed id reason _) = record state {
  payments = Dict.adjust id (with_status (failed reason)) state.payments;
  last_error = some (given reason);
}
apply_event customer_id state (payment_refunded id amount _ _) = record state {
  payments = Dict.adjust id (with_status (refunded amount)) state.payments;
  last_error = none;
}
apply_event customer_id state (validation_failed error) = record state { last_error = some error }
apply_event customer_id state _ = state
