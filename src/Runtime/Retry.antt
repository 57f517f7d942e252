-- ===== src/Runtime/Retry.antt =====
-- runtime/src/retry.rs: retrying an operation with exponential backoff.
-- A duration is a number of nanoseconds. The operation is the outcome of each of its calls, counted
-- from 0: a closure that keeps a state of its own is such a sequence. A run returns its result, the
-- number of calls made and the delays slept.
-- `f64` is not modelled: its type and the four conversions and operations used are a parameter.
pub mod Loop
pub mod Backoff
pub mod Outcome
use composable_rust.Prelude.{
  ℕ, zero, suc, ◌+◌, ◌*◌, ◌/◌, Bool, true, false, not, Option, none, some, Result, ok, err, List,
  [], ◌∷◌, ◌++◌, ltb, leb, ◌==◌, if◌then◌else◌, is_ok,
}

-- `from_ms` is `u128 as f64`, `powi` takes the attempt as the source casts it, and `to_u64` is the
-- saturating cast `f64 as u64`.
pub record Float : Type 1 where
  pub F64 : Type 0
  pub from_ms : ℕ → F64
  pub mul : F64 → F64 → F64
  pub powi : F64 → ℕ → F64
  pub to_u64 : F64 → ℕ

abbrev pub ms : ℕ
ms = 1000000

module _ (fl : Float) where
  open fl use {F64, from_ms, mul, powi, to_u64}

  pub record RetryPolicy : Type 0 where
    pub max_retries : ℕ
    pub initial_delay : ℕ
    pub max_delay : ℕ
    pub multiplier : F64

  unfoldable pub delay_for_attempt : RetryPolicy → ℕ → ℕ
  delay_for_attempt p attempt =
      let delay_ms = mul (from_ms (p.initial_delay / ms)) (powi p.multiplier attempt) in
      let delay = to_u64 delay_ms * ms in
      if attempt == 0 then p.initial_delay else if ltb p.max_delay delay then p.max_delay else delay

pub record Attempts (T E : Type 0) : Type 0 where
  pub result : Result T E
  pub calls : ℕ
  pub slept : List ℕ

-- `last_error.unwrap_or(err)`
abbrev pub unwrap_or : {E : Type 0} → Option E → E → E
unwrap_or none e = e
unwrap_or (some last) _ = last

module _ {T E : Type 0} (max_retries : ℕ) (delay_for : ℕ → ℕ) where
  -- The loop of both functions, with fuel; `none` means that the fuel ran out. `is_retryable` is
  -- constantly true in `retry_with_backoff`, which has no such test.
  unfoldable pub retry_loop :
      (E → Bool)
      → (ℕ → Result T E)
      → ℕ
      → (attempt : ℕ) → (last_error : Option E) → (slept : List ℕ) → Option (Attempts T E)
  retry_loop is_retryable operation zero attempt last_error slept = none
  retry_loop is_retryable operation (suc fuel) attempt last_error slept = elim (operation attempt) [
    | ok result ↦ some (record { result = ok result; calls = attempt + 1; slept = slept })
    | err e ↦
        let again =
          retry_loop is_retryable operation fuel (attempt + 1) (some e)
            (slept ++ delay_for attempt ∷ []) in
        if not (is_retryable e)
        then some (record { result = err e; calls = attempt + 1; slept = slept })
        else if leb max_retries attempt
        then some
            (record { result = err (unwrap_or last_error e); calls = attempt + 1; slept = slept })
        else again
  ]

module _ (fl : Float) {T E : Type 0} where
  -- `max_retries + 1` rounds of fuel are enough: `Outcome` proves it.
  unfoldable pub retry_with_predicate :
      RetryPolicy fl → (ℕ → Result T E) → (E → Bool) → Option (Attempts T E)
  unfolding retry_loop
  retry_with_predicate policy operation is_retryable =
      retry_loop policy.max_retries (delay_for_attempt fl policy) is_retryable operation
        (suc policy.max_retries) 0 none []

  unfoldable pub retry_with_backoff : RetryPolicy fl → (ℕ → Result T E) → Option (Attempts T E)
  unfolding retry_loop
  retry_with_backoff policy operation =
      retry_loop policy.max_retries (delay_for_attempt fl policy) (λ _. true) operation
        (suc policy.max_retries) 0 none []
