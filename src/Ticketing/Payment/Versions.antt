-- ===== src/Ticketing/Payment/Versions.antt =====
-- examples/ticketing/src/aggregates/payment.rs: the version of the state, and the version that the
-- appends expect.
use composable_rust.Prelude.{
  ℕ, String, not, str_eq, Result_both, Option_both, if_both, some, [], ◌∷◌, ◌++◌, Result, ok, err,
  All, ◌≡◌, refl, length, subst,
}
use composable_rust.Core.Stream.{Version}
use composable_rust.Core.Effect.{Effect, event_store, append_events}
use composable_rust.Ticketing.Types.{ReservationId}
use composable_rust.Ticketing.Payment.{
  PaymentState, PaymentAction, PaymentEnvironment, apply_event, PaymentId, Money, PaymentMethod,
  PaymentError, process_payment, refund_payment, simulate_payment_failure, get_payment,
  list_customer_payments, payment_processed, payment_succeeded, payment_failed, payment_refunded,
  validation_failed, projection_completed, payment_confirmed, payment_projection_failed,
  not_in_state, get_payment_of, is_captured, exists,
}
use composable_rust.Ticketing.Payment.Reduce.{
  reduce, PaymentEffects, create_effects, record_event, process, refund, complete_projection, query,
}

-- An append is of one event, and expects a version.
abbrev pub Expects : Version → Effect PaymentAction → Type 0
Expects v (event_store (append_events _ _ expected events _ _ _)) =
    (expected ≡ some v) × (length events ≡ 1)
Expects v _ = Unit

pub All-append :
    (v : Version) (l k : PaymentEffects)
    → All (Expects v) l
    → All (Expects v) k
    → All (Expects v) (l ++ k)
All-append v [] k here there = there
All-append v (e ∷ l) k here there = (here.0, All-append v l k here.1 there)

pub All-middle :
    (v : Version) (l : PaymentEffects) (e : Effect PaymentAction) (k : PaymentEffects)
    → All (Expects v) (l ++ e ∷ k)
    → Expects v e
All-middle v [] e k h = h.0
All-middle v (x ∷ l) e k h = All-middle v l e k h.1

create_effects-Expects :
    (event : PaymentAction) (v : Version) (env : PaymentEnvironment)
    → All (Expects v) (create_effects event v env)
unfolding create_effects
create_effects-Expects event v env =
    Result_both (All (Expects v)) (env.serialize event) _ _ (λ _ _. ((refl, refl), (tt, tt)))
      (λ _ _. tt)

apply_event-version :
    (c : ℕ) (s : PaymentState) (a : PaymentAction) → (apply_event c s a).version ≡ s.version
unfolding apply_event
apply_event-version c s (payment_processed _ _ _ _ _) = refl
apply_event-version c s (payment_succeeded _ _) = refl
apply_event-version c s (payment_failed _ _ _) = refl
apply_event-version c s (payment_refunded _ _ _ _) = refl
apply_event-version c s (validation_failed _) = refl
apply_event-version c s _ = refl

-- A result keeps the version, and its appends expect it.
abbrev pub KeepsVersion : Version → PaymentState × PaymentEffects → Type 0
KeepsVersion v p = (p.0.version ≡ v) × All (Expects v) p.1

record_event-KeepsVersion :
    (env : PaymentEnvironment) (s : PaymentState) (event : PaymentAction)
    → KeepsVersion s.version (record_event env s event)
unfolding record_event
record_event-KeepsVersion env s event =
    (apply_event-version env.new_customer_id s event, create_effects-Expects event s.version env)

process-KeepsVersion :
    (env : PaymentEnvironment) (s : PaymentState) (id : PaymentId) (r : ReservationId)
    (amount : Money) (payment_method : PaymentMethod)
    → KeepsVersion s.version (process env s id r amount payment_method)
unfolding process
process-KeepsVersion env s id r amount payment_method =
    let event = payment_processed id r amount payment_method env.now in
    let first = record_event-KeepsVersion env s event in
    let second : KeepsVersion s.version
        (record_event env (record_event env s event).0 (payment_succeeded id env.transaction_id)) =
      subst
        (λ v.
          KeepsVersion v (
            record_event env (record_event env s event).0
              (payment_succeeded id env.transaction_id)))
        first.0
        (record_event-KeepsVersion env (record_event env s event).0
          (payment_succeeded id env.transaction_id)) in
    (second.0, All-append s.version _ _ first.1 second.1)

refund-KeepsVersion :
    (env : PaymentEnvironment) (s : PaymentState) (id : PaymentId) (amount : Money)
    (reason : String)
    → KeepsVersion s.version (refund env s id amount reason)
unfolding refund apply_event
refund-KeepsVersion env s id amount reason =
    Option_both (KeepsVersion s.version) (get_payment_of s id) _ _ (λ _. (refl, tt))
      (λ payment _.
        if_both (KeepsVersion s.version) (not (is_captured payment.status)) _ _ (refl, tt)
          (record_event-KeepsVersion env s (payment_refunded id amount reason env.now)))

complete_projection-KeepsVersion :
    (env : PaymentEnvironment) (s : PaymentState) (correlation_id projection_name : String)
    → KeepsVersion s.version (complete_projection env s correlation_id projection_name)
unfolding complete_projection apply_event
complete_projection-KeepsVersion env s correlation_id projection_name =
    if_both (KeepsVersion s.version) (str_eq projection_name "payments_projection") _ _
      (Option_both (KeepsVersion s.version) (env.parse_uuid correlation_id) _ _ (λ _. (refl, tt))
        (λ id _.
          if_both (KeepsVersion s.version) (exists s id) _ _
            (record_event-KeepsVersion env s (payment_confirmed id))
            (record_event-KeepsVersion env s (payment_projection_failed id (not_in_state id)))))
      (refl, tt)

query-Expects :
    {T : Type 0} (v : Version) (r : Result T String) (queried : T → PaymentAction)
    (error : String → PaymentError)
    → All (Expects v) (query r queried error)
query-Expects v (ok t) queried error = (tt, tt)
query-Expects v (err e) queried error = (tt, tt)

pub reduce-KeepsVersion :
    (s : PaymentState) (a : PaymentAction) (env : PaymentEnvironment)
    → KeepsVersion s.version (reduce s a env)
unfolding reduce
reduce-KeepsVersion s (process_payment id r amount payment_method) env =
    process-KeepsVersion env s id r amount payment_method
reduce-KeepsVersion s (simulate_payment_failure id _ reason) env =
    record_event-KeepsVersion env s (payment_failed id reason env.now)
reduce-KeepsVersion s (refund_payment id amount reason) env =
    refund-KeepsVersion env s id amount reason
reduce-KeepsVersion s (get_payment id) env = (refl, query-Expects s.version _ _ _)
reduce-KeepsVersion s (list_customer_payments c limit offset) env =
    (refl, query-Expects s.version _ _ _)
reduce-KeepsVersion s (projection_completed correlation_id projection_name) env =
    complete_projection-KeepsVersion env s correlation_id projection_name
reduce-KeepsVersion s a env = (apply_event-version env.new_customer_id s a, tt)
