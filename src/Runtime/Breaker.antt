-- ===== src/Runtime/Breaker.antt =====
-- runtime/src/circuit_breaker.rs: the circuit breaker behind a lock.
-- Each method holds the lock for its whole body, so it is one step. Between the admission of a call
-- and its end other tasks run, so `call` is split there: `begin_call` and `end_call`.
-- An `Instant` is a number of nanoseconds, and the time that a method reads is its argument `now`.
-- `elapsed` stops at 0, as `-` does.
pub mod Invariant
pub mod Trial
pub mod Lifecycle
pub mod Traces
mod Tests
use composable_rust.Prelude.{
  ℕ, ◌-◌, Bool, true, false, Option, none, some, Result, ok, err, List, [], ◌∷◌, leb, if◌then◌else◌,
  word_add,
}

pub data State : Type 0 where
  closed opened half_opened : State

pub record CircuitBreakerConfig : Type 0 where
  pub failure_threshold : ℕ
  pub timeout : ℕ
  pub success_threshold : ℕ

-- `CircuitBreakerConfig::default`: 5 failures, 60 seconds, 2 successes.
abbrev pub default_config : CircuitBreakerConfig
default_config = record { failure_threshold = 5; timeout = 60000000000; success_threshold = 2 }

-- The builder, whose setters wrap their argument in `Some`.
pub record CircuitBreakerConfigBuilder : Type 0 where
  pub failure_threshold : Option ℕ
  pub timeout : Option ℕ
  pub success_threshold : Option ℕ

abbrev pub unwrap_or : Option ℕ → ℕ → ℕ
unwrap_or none d = d
unwrap_or (some x) _ = x

unfoldable pub build : CircuitBreakerConfigBuilder → CircuitBreakerConfig
build b = record {
  failure_threshold = unwrap_or b.failure_threshold 5;
  timeout = unwrap_or b.timeout 60000000000;
  success_threshold = unwrap_or b.success_threshold 2;
}

pub data CircuitBreakerError (E : Type 0) : Type 0 where
  circuit_open : CircuitBreakerError E
  inner : E → CircuitBreakerError E

-- The guarded state and the four counters of calls, which are atomics of their own.
pub record CircuitBreaker : Type 0 where
  pub config : CircuitBreakerConfig
  pub state : State
  pub failure_count : ℕ
  pub success_count : ℕ
  pub last_failure_time : Option ℕ
  pub total_calls : ℕ
  pub total_successes : ℕ
  pub total_failures : ℕ
  pub total_rejections : ℕ

unfoldable pub new : CircuitBreakerConfig → CircuitBreaker
new config = record {
  config = config;
  state = closed;
  failure_count = 0;
  success_count = 0;
  last_failure_time = none;
  total_calls = 0;
  total_successes = 0;
  total_failures = 0;
  total_rejections = 0;
}

-- The arm of `can_attempt` for an open circuit, at its last failure.
unfoldable pub try_half_open : Option ℕ → ℕ → CircuitBreaker → Bool × CircuitBreaker
try_half_open none now b = (false, b)
try_half_open (some last_failure) now b =
    if leb b.config.timeout (now - last_failure)
    then (true, record b { state = half_opened; success_count = 0 })
    else (false, b)

attempt_in : State → ℕ → CircuitBreaker → Bool × CircuitBreaker
unfolding try_half_open
attempt_in closed now b = (true, b)
attempt_in half_opened now b = (true, b)
attempt_in opened now b = try_half_open b.last_failure_time now b

unfoldable pub can_attempt : ℕ → CircuitBreaker → Bool × CircuitBreaker
unfolding attempt_in
can_attempt now b = attempt_in b.state now b

success_in : State → CircuitBreaker → CircuitBreaker
success_in closed b = record b { failure_count = 0 }
success_in half_opened b =
    let counted = record b { success_count = word_add b.success_count 1 } in
    if leb counted.config.success_threshold counted.success_count
    then record counted {
      state = closed;
      failure_count = 0;
      success_count = 0;
      last_failure_time = none;
    }
    else counted
success_in opened b = record b { failure_count = 0 }

unfoldable pub on_success : CircuitBreaker → CircuitBreaker
unfolding success_in
on_success b = success_in b.state b

failure_in : State → CircuitBreaker → CircuitBreaker
failure_in closed b =
    let counted = record b { failure_count = word_add b.failure_count 1 } in
    if leb counted.config.failure_threshold counted.failure_count
    then record counted { state = opened }
    else counted
failure_in half_opened b = record b { state = opened; failure_count = 1; success_count = 0 }
failure_in opened b = record b { failure_count = word_add b.failure_count 1 }

unfoldable pub on_failure : ℕ → CircuitBreaker → CircuitBreaker
unfolding failure_in
on_failure now b = failure_in b.state (record b { last_failure_time = some now })

unfoldable pub reset : CircuitBreaker → CircuitBreaker
reset b = record b {
  state = closed;
  failure_count = 0;
  success_count = 0;
  last_failure_time = none;
}

-- `call` up to the operation: `true` if the operation is run.
unfoldable pub begin_call : ℕ → CircuitBreaker → Bool × CircuitBreaker
unfolding can_attempt
begin_call now b =
    let (allowed, c) = can_attempt now (record b { total_calls = word_add b.total_calls 1 }) in
    if allowed
    then (true, c)
    else (false, record c { total_rejections = word_add c.total_rejections 1 })

-- `call` after the operation, which ends at `now`.
unfoldable pub end_call :
    {T E : Type 0}
    → Result T E
    → ℕ
    → CircuitBreaker
    → Result T (CircuitBreakerError E) × CircuitBreaker
unfolding on_success on_failure
end_call (ok result) now b =
    let c = on_success b in (ok result, record c { total_successes = word_add c.total_successes 1 })
end_call (err e) now b =
    let c = on_failure now b in
    (err (inner e), record c { total_failures = word_add c.total_failures 1 })

-- `call` with nothing between its two parts: the operation starts at `start` and ends at `finish`.
unfoldable pub call :
    {T E : Type 0}
    → Result T E
    → ℕ
    → ℕ
    → CircuitBreaker
    → Result T (CircuitBreakerError E) × CircuitBreaker
unfolding begin_call end_call
call outcome start finish b =
    let (allowed, c) = begin_call start b in
    if allowed then end_call outcome finish c else (err circuit_open, c)

-- What any number of tasks do with one breaker, in the order of its lock.
pub data Event : Type 0 where
  begin : (now : ℕ) → Event
  succeed : Event
  fail : (now : ℕ) → Event
  reset_event : Event

unfoldable pub step : Event → CircuitBreaker → CircuitBreaker
step (begin now) b = (begin_call now b).1
step succeed b = (end_call {T = Unit {0}} {E = Unit {0}} (ok tt) 0 b).1
step (fail now) b = (end_call {T = Unit {0}} {E = Unit {0}} (err tt) now b).1
step reset_event b = reset b

unfoldable pub run : List Event → CircuitBreaker → CircuitBreaker
run [] b = b
run (e ∷ es) b = run es (step e b)
