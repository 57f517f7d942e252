-- ===== src/Runtime/RetryOperation.antt =====
-- runtime/src/lib.rs: `Store::retry_operation`, which retries and then writes a dead letter.
-- The operation is the outcome of each of its calls, counted from 0. `delay_for_attempt` draws a
-- random number, so what it draws is an argument, as are the time and the text of an error.
use composable_rust.Prelude.{
  ℕ, zero, suc, ◌+◌, ◌≤◌, ◌≡◌, Bool, Option, none, some, Result, ok, err, List, [], ◌∷◌, ◌++◌,
  String, ltb, ◌==◌, if◌then◌else◌, length,
}
use composable_rust.Runtime.DeadLetterQueue.{DeadLetterQueue, push}

-- Its durations and its multiplier only make the delays.
pub record RetryPolicy : Type 0 where
  pub max_attempts : ℕ

unfoldable pub should_retry : RetryPolicy → ℕ → Bool
should_retry policy attempt = ltb attempt policy.max_attempts

pub record Operated (T E : Type 0) : Type 0 where
  pub result : Result T E
  pub calls : ℕ
  pub slept : List ℕ
  pub dlq : DeadLetterQueue String

module _ {T E : Type 0} (policy : RetryPolicy) (name : String) (display : E → String)
    (delay_for_attempt : ℕ → ℕ) (now : ℕ) (operation : ℕ → Result T E) where
  -- The loop, with fuel; `none` means that the fuel ran out.
  unfoldable pub operation_loop :
      ℕ → (attempt : ℕ) → List ℕ → DeadLetterQueue String → Option (Operated T E)
  unfolding should_retry
  operation_loop zero attempt slept dlq = none
  operation_loop (suc fuel) attempt slept dlq =
      let again = operation_loop fuel (attempt + 1) (slept ++ delay_for_attempt attempt ∷ []) dlq in
      elim (operation attempt) [
        | ok result ↦
            some (record { result = ok result; calls = attempt + 1; slept = slept; dlq = dlq })
        | err e ↦
            if should_retry policy (attempt + 1)
            then again
            else some (record {
              result = err e;
              calls = attempt + 1;
              slept = slept;
              dlq = push name (display e) (attempt + 1) now dlq;
            })
      ]

  unfoldable pub retry_operation : DeadLetterQueue String → Option (Operated T E)
  retry_operation dlq = operation_loop (suc policy.max_attempts) 0 [] dlq

  -- The number of calls that are made if all of them fail: one at least.
  abbrev pub allowed : ℕ
  allowed = if policy.max_attempts == 0 then 1 else policy.max_attempts

  -- The last call made decides: its value, with no dead letter, or its error after all the calls
  -- allowed, with one.
  pub data Outcome (dlq : DeadLetterQueue String) (r : Operated T E) : Type 0 where
    delivered : (value : T) → r.result ≡ ok value → r.dlq ≡ dlq → Outcome dlq r
    dead :
        (e : E)
        → r.result ≡ err e
        → r.calls ≡ allowed
        → r.dlq ≡ push name (display e) r.calls now dlq
        → Outcome dlq r

  abbrev Finished : DeadLetterQueue String → Operated T E → Type 0
  Finished dlq r =
      Outcome dlq r
      × (r.calls ≤ allowed)
      × (length r.slept + 1 ≡ r.calls)
      × ((last : ℕ) → last + 1 ≡ r.calls → operation last ≡ r.result)
