-- ===== src/Runtime/Retry/Backoff.antt =====
-- runtime/src/retry.rs: the bounds of the delays.
use composable_rust.Prelude.{ℕ, zero, suc, ◌+◌, ◌≤◌, ◌≡◌, refl, subst, List, ◌∷◌, arith, All}
use composable_rust.Runtime.Retry.{Float, RetryPolicy, delay_for_attempt}
use composable_rust.Runtime.Retry.Loop.{delays}

module _ (fl : Float) (policy : RetryPolicy fl) where
  -- Every attempt but the first waits no longer than the maximal delay, whatever `f64` computes.
  delay-le : (n : ℕ) → delay_for_attempt fl policy (suc n) ≤ policy.max_delay
  unfolding delay_for_attempt
  delay-le n = ground arith

  delays-le :
      (n a : ℕ) → All (λ t. t ≤ policy.max_delay) (delays (delay_for_attempt fl policy) (suc a) n)
  delays-le zero a = tt
  delays-le (suc n) a =
      let place : suc (suc a) ≡ suc a + 1 = omega arith in
      (
        delay-le a,
        subst (λ k. All (λ t. t ≤ policy.max_delay) (delays (delay_for_attempt fl policy) k n))
            place (delays-le n (suc a)),
      )

  -- The first of the delays between calls is the initial delay, which the maximal delay does not
  -- cap; every later one is at most the maximal delay, whatever `f64` computes.
  pub delays_bounded :
      (n : ℕ)
      → (rest : List ℕ) × (delays (delay_for_attempt fl policy) 0 (suc n)
          ≡ policy.initial_delay ∷ rest)
        × All (λ t. t ≤ policy.max_delay) rest
  unfolding delay_for_attempt
  delays_bounded n = (delays (delay_for_attempt fl policy) 1 n, refl, delays-le n 0)
