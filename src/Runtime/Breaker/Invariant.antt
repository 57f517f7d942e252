-- ===== src/Runtime/Breaker/Invariant.antt =====
-- runtime/src/circuit_breaker.rs: what holds of a breaker between two steps.
use composable_rust.Prelude.{◌<◌, ◌≡◌, ◌≢◌, none, arith, word_size}
use composable_rust.Runtime.Breaker.{
  CircuitBreakerConfig, CircuitBreaker, closed, opened, half_opened, new, Event, begin, succeed,
  fail, reset_event, step, begin_call, end_call, reset,
}

-- The counts stay below the thresholds at which the circuit would have changed, an open circuit
-- knows when it failed, and every count fits its word.
pub record IsValid (b : CircuitBreaker) : Type 0 where
  pub closed_below :
      b.state ≡ closed → 0 < b.failure_count → b.failure_count < b.config.failure_threshold
  pub half_opened_below :
      b.state ≡ half_opened → 0 < b.success_count → b.success_count < b.config.success_threshold
  pub opened_timed : b.state ≡ opened → b.last_failure_time ≢ none
  pub failure_word : b.failure_count < word_size
  pub success_word : b.success_count < word_size

-- A new breaker is valid.
pub new-IsValid : (config : CircuitBreakerConfig) → IsValid (new config)
unfolding new
new-IsValid config = ground arith

-- A step of any task keeps a breaker valid.
pub step-IsValid : (e : Event) (b : CircuitBreaker) → IsValid b → IsValid (step e b)
unfolding step begin_call end_call reset
step-IsValid (begin now) b v = ground arith
step-IsValid succeed b v = ground arith
step-IsValid (fail now) b v = ground arith
step-IsValid reset_event b v = ground arith
