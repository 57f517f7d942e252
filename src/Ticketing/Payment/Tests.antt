-- ===== src/Ticketing/Payment/Tests.antt =====
-- The properties of payments, on a payment of 100 dollars and a refund of 150.
use composable_rust.Prelude.{
  get, ◌++◌, false, none, some, [], ◌∷◌, ◌≡◌, ◌≤◌, ok, refl, length, ◌==◌, String,
}
use composable_rust.Prelude.Dict
use composable_rust.Core.Stream.{StreamId}
use composable_rust.Core.Event.{SerializedEvent, nonnegative}
use composable_rust.Testing.EventStore.{InMemoryEventStore}
use composable_rust.Testing.EventStore.Append.{contents}
use composable_rust.Ticketing.Payment.{
  PaymentEnvironment, PaymentAction, PaymentState, PaymentId, Money, new_state, apple_pay,
  process_payment, refund_payment, payment_refunded, get_payment_of, with_status, refunded,
  uncaptured,
}
use composable_rust.Ticketing.Payment.Reduce.{reduce, PaymentEffects, create_effects}
use composable_rust.Ticketing.Payment.Lifecycle.{paid, refunded_once}
use composable_rust.Ticketing.Payment.Refunds.{History, refunds, captures, refunds-captures}
use composable_rust.Ticketing.Payment.Recording.{at_start, returned, perform, recorded_once}

abbrev an_event : SerializedEvent
an_event = record {
  event_type = "Payment";
  event_version = nonnegative 1;
  bytes = [];
  metadata = none;
}

abbrev env : PaymentEnvironment
env = record {
  now = 5;
  new_customer_id = 9;
  transaction_id = "txn_1";
  parse_uuid = λ _. none;
  event_store = 0;
  event_bus = 0;
  stream_id = "payment";
  projection = record { load_payment = λ _. ok none; load_customer_payments = λ _ _ _. ok [] };
  serialize = λ _. ok an_event;
}

abbrev pay : PaymentAction
pay = process_payment 1 2 10000 apple_pay

abbrev give_back : PaymentAction
give_back = refund_payment 1 15000 "cancelled"

abbrev charged : PaymentState
charged = (reduce new_state pay env).0

abbrev given_back : PaymentState × PaymentEffects
given_back = reduce charged give_back env

refunded_once_example :
    (get_payment_of given_back.0 1
      ≡ some (with_status (refunded 15000) (paid new_state 1 2 10000 apple_pay env)))
    × (given_back.0.last_error ≡ none)
    × (given_back.1 ≡ create_effects (payment_refunded 1 15000 "cancelled" 5) charged.version env)
    × ((j : PaymentId)
        → (1 == j) ≡ false
        → get_payment_of given_back.0 j ≡ get_payment_of new_state j)
    × ((again : Money) (why : String) (env' : PaymentEnvironment)
        → reduce given_back.0 (refund_payment 1 again why) env'
          ≡ (record given_back.0 { last_error = some uncaptured }, []))
refunded_once_example = refunded_once new_state 1 2 10000 15000 apple_pay "cancelled" env env

abbrev history : History
history = (pay, env) ∷ (give_back, env) ∷ (give_back, env) ∷ []

refunds_in_history : refunds 1 new_state history ≡ 1
unfolding reduce new_state Dict.get
refunds_in_history = refl

refunds-captures_example : refunds 1 new_state history ≤ captures 1 history
refunds-captures_example = refunds-captures 1 history

abbrev effects : PaymentEffects
effects = (reduce new_state pay env).1

abbrev empty_store : InMemoryEventStore
empty_store = record { events = []; snapshots = [] }

-- After the two events of a payment, of which the second one is not recorded, a second server
-- performs the same again.
recorded_once_example :
    let done = (reduce new_state (process_payment 1 2 10000 apple_pay) env).1 in
    (contents (perform (done ++ effects) empty_store) "payment" ≡ an_event ∷ [])
    × ((u : InMemoryEventStore) (j : StreamId)
        → (1 ≤ length (contents u j) → contents (perform effects u) j ≡ contents u j)
          × (length (contents u j) ≤ 1 → length (contents (perform effects u) j) ≤ 1))
unfolding reduce new_state get
recorded_once_example =
    recorded_once new_state 1 2 10000 apple_pay env an_event effects empty_store at_start refl
      (
        returned new_state pay env [] _ _ at_start refl,
        (
          returned new_state pay env (_ ∷ []) _ _ at_start refl,
          (
            returned new_state pay env (_ ∷ _ ∷ []) _ _ at_start refl,
            (returned new_state pay env (_ ∷ _ ∷ _ ∷ []) _ _ at_start refl, tt),
          ),
        ),
      )
      refl
