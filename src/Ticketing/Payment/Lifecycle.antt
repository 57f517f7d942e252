-- ===== src/Ticketing/Payment/Lifecycle.antt =====
-- examples/ticketing/src/aggregates/payment.rs: a payment from its processing to its refunds.
use composable_rust.Prelude.{
  String, true, false, not, ◌==◌, ◌≡◌, Option, none, some, List, [], refl, sym, ap, ◌∙◌, arith,
  number_key, if_cases, Option_both,
}
use mathlib.Core.Option
use composable_rust.Prelude.Dict
use composable_rust.Prelude.Dict.{get-insert, get-adjust}
use composable_rust.Ticketing.Types.{ReservationId}
use composable_rust.Ticketing.Payment.{
  PaymentState, PaymentStatus, PaymentId, Money, PaymentMethod, Payment, PaymentEnvironment,
  apply_event, get_payment_of, is_captured, with_status, new_payment, captured, refunded,
  uncaptured, process_payment, refund_payment, payment_refunded,
}
use composable_rust.Ticketing.Payment.Reduce.{
  reduce, process, refund, record_event, create_effects, PaymentEffects,
}

module _ (id : PaymentId) (f : Payment → Payment) (m : List (PaymentId × Payment)) where
  adjusted_here : Dict.get id (Dict.adjust id f m) ≡ Option.map f (Dict.get id m)
  adjusted_here = ground (arith, get-adjust id id f m)

  adjusted_elsewhere :
      (j : PaymentId) → (id == j) ≡ false → Dict.get j (Dict.adjust id f m) ≡ Dict.get j m
  adjusted_elsewhere j other = ground (arith, get-adjust id j f m, other)

module _ (id : PaymentId) (payment : Payment) (m : List (PaymentId × Payment)) where
  inserted_here : Dict.get id (Dict.insert id payment m) ≡ some payment
  inserted_here = ground (arith, get-insert id id payment m)

  inserted_elsewhere :
      (j : PaymentId) → (id == j) ≡ false → Dict.get j (Dict.insert id payment m) ≡ Dict.get j m
  inserted_elsewhere j other = ground (arith, get-insert id j payment m, other)

module _ (s : PaymentState) (id : PaymentId) (r : ReservationId) (amount : Money)
    (payment_method : PaymentMethod) (env : PaymentEnvironment) where
  abbrev pub paid : Payment
  paid = record (new_payment id r env.new_customer_id amount payment_method) {
    status = captured;
    processed_at = some env.now;
  }

  processed :
      get_payment_of (reduce s (process_payment id r amount payment_method) env).0 id ≡ some paid
  unfolding reduce process record_event apply_event
  processed =
      let payment = record (new_payment id r env.new_customer_id amount payment_method) {
        processed_at = some env.now;
      } in
      adjusted_here id (with_status captured) (Dict.insert id payment s.payments)
      ∙ ap (Option.map (with_status captured)) (inserted_here id payment s.payments)

  processed_elsewhere :
      (j : PaymentId)
      → (id == j) ≡ false
      → get_payment_of (reduce s (process_payment id r amount payment_method) env).0 j
        ≡ get_payment_of s j
  unfolding reduce process record_event apply_event
  processed_elsewhere j other =
      let payment = record (new_payment id r env.new_customer_id amount payment_method) {
        processed_at = some env.now;
      } in
      adjusted_elsewhere id (with_status captured) (Dict.insert id payment s.payments) j other
      ∙ inserted_elsewhere id payment s.payments j other

abbrev status_of : Option Payment → Option PaymentStatus
status_of none = none
status_of (some payment) = some payment.status

refund_captured :
    (s : PaymentState) (id : PaymentId) (payment : Payment) (refund_amount : Money)
    (reason : String) (env : PaymentEnvironment)
    → get_payment_of s id ≡ some payment
    → is_captured payment.status ≡ true
    → reduce s (refund_payment id refund_amount reason) env
      ≡ record_event env s (payment_refunded id refund_amount reason env.now)
unfolding reduce refund
refund_captured s id payment refund_amount reason env found is_paid =
    let target = record_event env s (payment_refunded id refund_amount reason env.now) in
    Option_both (λ p. p ≡ target) (get_payment_of s id) _ _
      (λ missing. absurd (ground (arith, found, missing)))
      (λ other here.
        if_cases (λ p. p ≡ target) (not (is_captured other.status)) _ _
          (λ refused. absurd (ground (arith, ap status_of (sym here ∙ found), refused, is_paid)))
          (λ _. refl))

refund_uncaptured :
    (s : PaymentState) (id : PaymentId) (payment : Payment) (refund_amount : Money)
    (reason : String) (env : PaymentEnvironment)
    → get_payment_of s id ≡ some payment
    → is_captured payment.status ≡ false
    → reduce s (refund_payment id refund_amount reason) env
      ≡ (record s { last_error = some uncaptured }, [])
unfolding reduce refund apply_event
refund_uncaptured s id payment refund_amount reason env found not_paid =
    let Refused =
      λ (p : PaymentState × PaymentEffects). p ≡ (record s { last_error = some uncaptured }, []) in
    Option_both Refused (get_payment_of s id) _ _
      (λ missing. absurd (ground (arith, found, missing)))
      (λ other here.
        if_cases Refused (not (is_captured other.status)) _ _ (λ _. refl)
          (λ accepted.
            absurd (ground (arith, ap status_of (sym here ∙ found), accepted, not_paid))))

-- A payment that was processed can be refunded once, with an amount of any size: the refund is
-- recorded with the version of the state, leaves every other payment as it is, and is the last one,
-- since a refund after it changes nothing but the error.
pub refunded_once :
    (s : PaymentState) (id : PaymentId) (r : ReservationId) (amount refund_amount : Money)
    (payment_method : PaymentMethod) (reason : String) (env later : PaymentEnvironment)
    → let s₁ = (reduce s (process_payment id r amount payment_method) env).0 in
      let (s₂, effects) = reduce s₁ (refund_payment id refund_amount reason) later in
      (get_payment_of s₂ id
        ≡ some (with_status (refunded refund_amount) (paid s id r amount payment_method env)))
      × (s₂.last_error ≡ none)
      × (effects
          ≡ create_effects (payment_refunded id refund_amount reason later.now) s₁.version later)
      × ((j : PaymentId) → (id == j) ≡ false → get_payment_of s₂ j ≡ get_payment_of s j)
      × ((again : Money) (why : String) (env' : PaymentEnvironment)
          → reduce s₂ (refund_payment id again why) env'
            ≡ (record s₂ { last_error = some uncaptured }, []))
unfolding record_event apply_event
refunded_once s id r amount refund_amount payment_method reason env later =
    let s₁ = (reduce s (process_payment id r amount payment_method) env).0 in
    let payment = paid s id r amount payment_method env in
    let found = processed s id r amount payment_method env in
    let accepted = refund_captured s₁ id payment refund_amount reason later found refl in
    let s₂ = (reduce s₁ (refund_payment id refund_amount reason) later).0 in
    let written : s₂.payments ≡ Dict.adjust id (with_status (refunded refund_amount)) s₁.payments =
      ap (λ p. p.0.payments) accepted in
    let here : get_payment_of s₂ id ≡ some (with_status (refunded refund_amount) payment) =
      ap (Dict.get id) written
      ∙ adjusted_here id (with_status (refunded refund_amount)) s₁.payments
      ∙ ap (Option.map (with_status (refunded refund_amount))) found in
    (
      here,
      ap (λ p. p.0.last_error) accepted,
      ap (λ p. p.1) accepted,
      λ j other.
          ap (Dict.get j) written
          ∙ adjusted_elsewhere id (with_status (refunded refund_amount)) s₁.payments j other
          ∙ processed_elsewhere s id r amount payment_method env j other,
      λ again why env'.
          refund_uncaptured s₂ id (with_status (refunded refund_amount) payment) again why env' here
            refl,
    )
