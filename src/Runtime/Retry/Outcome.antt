-- ===== src/Runtime/Retry/Outcome.antt =====
-- runtime/src/retry.rs: what a retried operation returns, how often it is called and how long it
-- sleeps.
use composable_rust.Prelude.{
  ℕ, suc, ◌+◌, ◌-◌, ◌≤◌, ◌≡◌, refl, length, ap, ◌∙◌, Bool, true, false, Option, none, some, Result,
  ok, err, List, [], arith,
}
use native.Mathlib.Nat.{zero-add}
use composable_rust.Runtime.Retry.{
  Float, RetryPolicy, delay_for_attempt, Attempts, unwrap_or, retry_loop, retry_with_predicate,
  retry_with_backoff,
}
use composable_rust.Runtime.Retry.Loop.{
  delays, Fails, remembered, remembered-last, loop-retries, loop-succeeds, loop-gives_up,
  loop-exhausts, loop-total,
}

module _ (fl : Float) {T E : Type 0} (policy : RetryPolicy fl) (op : ℕ → Result T E)
    (retryable : E → Bool) where
  -- The delays before the calls 1 to `n`.
  abbrev pub waits : ℕ → List ℕ
  waits = delays (delay_for_attempt fl policy) 0

  -- The loop after its first `n` calls, with the fuel that is left.
  reaches :
      (n : ℕ) (h : Fails retryable op 0 n)
      → n ≤ policy.max_retries
      → retry_with_predicate fl policy op retryable
        ≡ retry_loop policy.max_retries
            (delay_for_attempt fl policy)
            retryable
            op
            (suc (policy.max_retries - n))
            n
            (remembered retryable op none 0 n h)
            (waits n)
  unfolding retry_with_predicate
  reaches n h room =
      let forth =
        loop-retries policy.max_retries (delay_for_attempt fl policy) retryable op n
          (suc (policy.max_retries - n)) 0 none [] h (omega arith) in
      let fuel : suc policy.max_retries ≡ n + suc (policy.max_retries - n) = omega arith in
      rw fuel (rw zero-add at forth)

  -- If the first `n` calls fail with errors that may be retried, no more than the policy allows, and
  -- the next succeeds, its value is the result: after `n + 1` calls, with the policy's delay of each
  -- attempt between them.
  retry-succeeds :
      (n : ℕ) {r : T}
      → Fails retryable op 0 n
      → n ≤ policy.max_retries
      → op n ≡ ok r
      → retry_with_predicate fl policy op retryable
        ≡ some (record { result = ok r; calls = n + 1; slept = waits n })
  retry-succeeds n h room done =
      reaches n h room
      ∙ loop-succeeds policy.max_retries (delay_for_attempt fl policy) retryable op
          (policy.max_retries - n) n (remembered retryable op none 0 n h) (waits n) done

  -- If instead the next call fails with an error that may not be retried, that error is the result,
  -- at once.
  pub retry-gives_up :
      (n : ℕ) {e : E}
      → Fails retryable op 0 n
      → n ≤ policy.max_retries
      → op n ≡ err e
      → retryable e ≡ false
      → retry_with_predicate fl policy op retryable
        ≡ some (record { result = err e; calls = n + 1; slept = waits n })
  retry-gives_up n h room failed final =
      reaches n h room
      ∙ loop-gives_up policy.max_retries (delay_for_attempt fl policy) retryable op
          (policy.max_retries - n) n (remembered retryable op none 0 n h) (waits n) failed final

  -- If every call that a policy of `m + 1` retries allows fails with an error that may be retried,
  -- there are `m + 2` calls, and the result is the error of the last call but one: the error of the
  -- last call is dropped.
  pub retry-exhausts :
      (m : ℕ) {e last : E}
      → policy.max_retries ≡ suc m
      → Fails retryable op 0 (suc m)
      → op m ≡ err e
      → op (suc m) ≡ err last
      → retryable last ≡ true
      → retry_with_predicate fl policy op retryable
        ≡ some (record { result = err e; calls = suc m + 1; slept = waits (suc m) })
  retry-exhausts m {e} {last} allowed h before failed again =
      let d = delay_for_attempt fl policy in
      reaches (suc m) h (omega arith)
      ∙ loop-exhausts policy.max_retries d retryable op (policy.max_retries - suc m) (suc m)
          (remembered retryable op none 0 (suc m) h) (waits (suc m)) failed again (omega arith)
      ∙ ap
          (λ (o : Option E).
            some (record {
              result = err (unwrap_or o last);
              calls = suc m + 1;
              slept = waits (suc m);
            }))
          (remembered-last retryable op m 0 none h (rw zero-add before))

  -- Whatever its calls give, the retried operation comes to an end: after the first call and as many
  -- more as the policy allows at most, with one delay between any two of them.
  pub retry-total :
      (r : Attempts T E) × (retry_with_predicate fl policy op retryable ≡ some r)
      × (r.calls ≤ policy.max_retries + 1)
      × (length r.slept + 1 ≡ r.calls)
  unfolding retry_with_predicate
  retry-total =
      let (r, same, within) =
        loop-total policy.max_retries (delay_for_attempt fl policy) retryable op
          (suc policy.max_retries) 0 none [] (omega arith) (omega arith) refl in
      (r, same, within.0, within.1)

-- `retry_with_backoff` retries every error.
pub retry_with_backoff-eq :
    (fl : Float) {T E : Type 0} (policy : RetryPolicy fl) (op : ℕ → Result T E)
    → retry_with_backoff fl policy op ≡ retry_with_predicate fl policy op (λ _. true)
unfolding retry_with_backoff retry_with_predicate
retry_with_backoff-eq fl policy op = refl
