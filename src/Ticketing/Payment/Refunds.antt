-- ===== src/Ticketing/Payment/Refunds.antt =====
-- examples/ticketing/src/aggregates/payment.rs: how often a payment is refunded.
use composable_rust.Prelude.{
  ℕ, ◌∙◌, Bool, true, false, not, ◌&&◌, ◌==◌, ◌+◌, ◌≤◌, ◌≡◌, Option, none, some, List, [], ◌∷◌,
  refl, sym, ap, arith, String, if◌then◌else◌, number_key, if_cases, if_both, Option_both,
  Bool-cases, inl, inr, subst, str_eq,
}
use composable_rust.Prelude.Dict
use composable_rust.Prelude.Dict.{get-insert, get-adjust}
use mathlib.Core.Option
use composable_rust.Core.Effect.{Effect}
use composable_rust.Ticketing.Types.{ReservationId, CustomerId}
use composable_rust.Ticketing.Payment.{
  PaymentState, new_state, PaymentId, Money, PaymentMethod, Payment, PaymentStatus, PaymentAction,
  PaymentError, PaymentEnvironment, apply_event, get_payment_of, is_captured, with_status,
  new_payment, captured, failed, refunded, process_payment, refund_payment, payment_processed,
  payment_succeeded, payment_failed, payment_refunded, simulate_payment_failure,
  projection_completed, get_payment, list_customer_payments, exists,
}
use composable_rust.Ticketing.Payment.Reduce.{
  reduce, process, refund, complete_projection, record_event,
}

abbrev pub History : Type 0
History = List (PaymentAction × PaymentEnvironment)

abbrev bit : Bool → ℕ
bit true = 1
bit false = 0

abbrev has_no_error : Option PaymentError → Bool
has_no_error none = true
has_no_error (some _) = false

abbrev is_refund_of : PaymentId → PaymentAction → Bool
is_refund_of id (refund_payment x _ _) = x == id
is_refund_of id _ = false

-- How many refunds of a payment a history accepts, which is when they report no error.
abbrev pub refunds : PaymentId → PaymentState → History → ℕ
refunds id s [] = 0
refunds id s ((a, env) ∷ h) =
    bit (is_refund_of id a && has_no_error (reduce s a env).0.last_error)
    + refunds id (reduce s a env).0 h

-- The actions that capture a payment: to process it, and to be told that it succeeded.
abbrev captures_it : PaymentId → PaymentAction → Bool
captures_it id (process_payment x _ _ _) = x == id
captures_it id (payment_succeeded x _) = x == id
captures_it id _ = false

abbrev pub captures : PaymentId → History → ℕ
captures id [] = 0
captures id ((a, _) ∷ h) = bit (captures_it id a) + captures id h

abbrev captured_in : Option Payment → ℕ
captured_in none = 0
captured_in (some payment) = bit (is_captured payment.status)

abbrev captured_now : PaymentId → PaymentState → ℕ
captured_now id s = captured_in (get_payment_of s id)

mapped_status :
    (b : Bool) (status : PaymentStatus) (o : Option Payment)
    → captured_in (if b then Option.map (with_status status) o else o)
      ≤ (if b then bit (is_captured status) else captured_in o)
mapped_status true status none = omega arith
mapped_status true status (some payment) = omega arith
mapped_status false status o = omega arith

status_written :
    (x id : PaymentId) (status : PaymentStatus) (m : List (PaymentId × Payment))
    → captured_in (Dict.get id (Dict.adjust x (with_status status) m))
      ≤ (if x == id then bit (is_captured status) else captured_in (Dict.get id m))
status_written x id status m =
    subst
      (λ o.
        captured_in o ≤ (if x == id then bit (is_captured status) else captured_in (Dict.get id m)))
      (sym (get-adjust x id (with_status status) m))
      (mapped_status (x == id) status (Dict.get id m))

payment_written :
    (x id : PaymentId) (payment : Payment) (m : List (PaymentId × Payment))
    → is_captured payment.status ≡ false
    → captured_in (Dict.get id (Dict.insert x payment m)) ≤ captured_in (Dict.get id m)
payment_written x id payment m new =
    subst (λ o. captured_in o ≤ captured_in (Dict.get id m)) (sym (get-insert x id payment m))
      (if_both (λ o. captured_in o ≤ captured_in (Dict.get id m)) (x == id) _ _
        (subst (λ b. bit b ≤ captured_in (Dict.get id m)) (sym new) (omega arith)) (omega arith))

abbrev succeeds_it : PaymentId → PaymentAction → Bool
succeeds_it id (payment_succeeded x _) = x == id
succeeds_it id _ = false

-- Only the event that a payment succeeded captures it.
apply_event-captured :
    (id : PaymentId) (c : CustomerId) (s : PaymentState) (event : PaymentAction)
    → captured_now id (apply_event c s event) ≤ captured_now id s + bit (succeeds_it id event)
unfolding apply_event
apply_event-captured id c s (payment_processed x r amount payment_method t) = omega (
  arith,
  payment_written x id (record (new_payment x r c amount payment_method) { processed_at = some t })
      s.payments refl,
)
apply_event-captured id c s (payment_succeeded x _) =
    ground (arith, status_written x id captured s.payments)
apply_event-captured id c s (payment_failed x reason _) =
    ground (arith, status_written x id (failed reason) s.payments)
apply_event-captured id c s (payment_refunded x amount _ _) =
    ground (arith, status_written x id (refunded amount) s.payments)
apply_event-captured id c s _ = omega arith

-- A result of an action whose refund, if it is one, is paid for by a capture.
abbrev Paid : PaymentId → PaymentState → PaymentAction → PaymentState → Type 0
Paid id s a s' =
    bit (is_refund_of id a && has_no_error s'.last_error) + captured_now id s'
    ≤ captured_now id s + bit (captures_it id a)

refund-Paid :
    (id x : PaymentId) (amount : Money) (reason : String) (s : PaymentState)
    (env : PaymentEnvironment)
    → Paid id s (refund_payment x amount reason) (refund env s x amount reason).0
unfolding refund record_event apply_event
refund-Paid id x amount reason s env =
    let P = λ (p : PaymentState × List (Effect PaymentAction)).
      Paid id s (refund_payment x amount reason) p.0 in
    Option_both P (get_payment_of s x) _ _ (λ _. ground arith)
      (λ payment found.
        if_cases P (not (is_captured payment.status)) _ _ (λ _. ground arith)
          (λ taken. elim (Bool-cases (x == id)) [
            | inl same ↦
                let really : is_captured payment.status ≡ true = ground (arith, taken) in
                let here : captured_now id s ≡ 1 =
                  subst (λ i. captured_now i s ≡ 1) (ground (arith, same))
                    (ap captured_in found ∙ ap bit really) in
                ground (arith, same, here, status_written x id (refunded amount) s.payments)
            | inr other ↦ ground (arith, other, status_written x id (refunded amount) s.payments)
          ]))

process-Paid :
    (id x : PaymentId) (r : ReservationId) (amount : Money) (payment_method : PaymentMethod)
    (s : PaymentState) (env : PaymentEnvironment)
    → Paid id s
        (process_payment x r amount payment_method)
        (process env s x r amount payment_method).0
unfolding process record_event apply_event
process-Paid id x r amount payment_method s env =
    let payment = record (new_payment x r env.new_customer_id amount payment_method) {
      processed_at = some env.now;
    } in
    ground (
      arith,
      status_written x id captured (Dict.insert x payment s.payments),
      payment_written x id payment s.payments refl,
    )

complete_projection-Paid :
    (id : PaymentId) (correlation_id projection_name : String) (s : PaymentState)
    (env : PaymentEnvironment)
    → Paid id s
        (projection_completed correlation_id projection_name)
        (complete_projection env s correlation_id projection_name).0
unfolding complete_projection record_event apply_event
complete_projection-Paid id correlation_id projection_name s env =
    let P = λ (p : PaymentState × List (Effect PaymentAction)).
      Paid id s (projection_completed correlation_id projection_name) p.0 in
    if_both P (str_eq projection_name "payments_projection") _ _
      (Option_both P (env.parse_uuid correlation_id) _ _ (λ _. omega arith)
        (λ x _. if_both P (exists s x) _ _ (omega arith) (omega arith)))
      (omega arith)

reduce-Paid :
    (id : PaymentId) (s : PaymentState) (a : PaymentAction) (env : PaymentEnvironment)
    → Paid id s a (reduce s a env).0
unfolding reduce record_event apply_event
reduce-Paid id s (process_payment x r amount payment_method) env =
    process-Paid id x r amount payment_method s env
reduce-Paid id s (refund_payment x amount reason) env = refund-Paid id x amount reason s env
reduce-Paid id s (projection_completed correlation_id projection_name) env =
    complete_projection-Paid id correlation_id projection_name s env
reduce-Paid id s (simulate_payment_failure x _ reason) env =
    ground (arith, status_written x id (failed reason) s.payments)
reduce-Paid id s (get_payment _) env = omega arith
reduce-Paid id s (list_customer_payments _ _ _) env = omega arith
reduce-Paid id s a env = ground (arith, apply_event-captured id env.new_customer_id s a)

refunds-captured :
    (id : PaymentId) (s : PaymentState) (h : History)
    → refunds id s h ≤ captured_now id s + captures id h
refunds-captured id s [] = omega arith
refunds-captured id s ((a, env) ∷ h) =
    omega (arith, reduce-Paid id s a env, refunds-captured id (reduce s a env).0 h)

-- In every history from a new state, the refunds of a payment that are accepted are at most as many
-- as the times that it was processed or reported to have succeeded.
pub refunds-captures : (id : PaymentId) (h : History) → refunds id new_state h ≤ captures id h
unfolding new_state Dict.get
refunds-captures id h = omega (arith, refunds-captured id new_state h)
