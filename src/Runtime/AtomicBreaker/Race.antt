-- ===== src/Runtime/AtomicBreaker/Race.antt =====
-- runtime/src/lib.rs: the atomic circuit breaker, one method at a time and two at once.
use composable_rust.Prelude.{
  ℕ, ◌+◌, ◌-◌, ◌≤◌, ◌<◌, ◌≡◌, arith, word_add, word_size, leb, if◌then◌else◌,
}
use composable_rust.Runtime.AtomicBreaker.{
  CircuitBreaker, CircuitState, closed, opened, half_opened, circuit_state, Program, admitted,
  rejected, failure_load, failure_stamp, micro_step, alone, check, record_success, record_failure,
}

-- What the three methods do as a whole, in each state.
abbrev pub checked : ℕ → CircuitState → CircuitBreaker → Program × CircuitBreaker
checked now closed b = (admitted, b)
checked now half_opened b = (admitted, b)
checked now opened b =
    if leb b.timeout (now - b.opened_at)
    then (admitted, record b { state = 2; success_count = 0 })
    else (rejected, b)

abbrev pub succeeded : CircuitState → CircuitBreaker → CircuitBreaker
succeeded closed b = record b { failure_count = 0 }
succeeded opened b = b
succeeded half_opened b =
    let successes = word_add b.success_count 1 in
    if leb b.success_threshold successes
    then record b { state = 0; failure_count = 0; success_count = 0 }
    else record b { success_count = successes }

abbrev pub failed : ℕ → CircuitState → CircuitBreaker → CircuitBreaker
failed now opened b = b
failed now half_opened b = record b { state = 1; success_count = 0; opened_at = now }
failed now closed b =
    let failures = word_add b.failure_count 1 in
    if leb b.failure_threshold failures
    then record b { state = 1; failure_count = failures; opened_at = now }
    else record b { failure_count = failures }

-- A method whose steps no other thread comes between does what its description by states says: it
-- ends within its steps, and nothing but what is described there changes.
pub methods_alone :
    (now : ℕ) (b : CircuitBreaker)
    → (check now b ≡ checked now (circuit_state b.state) b)
      × (record_success b ≡ succeeded (circuit_state b.state) b)
      × (record_failure now b ≡ failed now (circuit_state b.state) b)
unfolding check record_success record_failure alone micro_step
methods_alone now b = (ground arith, ground arith, ground arith)

-- A failure that reaches the threshold has stored the state, and not yet the time at which the
-- circuit opened, when another thread checks it: if a timeout has passed since the last time that the
-- circuit opened, or since the epoch, the call is admitted at once by the circuit that has just
-- opened. Without the other thread between these two steps it would have been rejected.
pub opening_race :
    (now : ℕ) (b : CircuitBreaker)
    → b.state ≡ 0
    → b.failure_count + 1 ≡ b.failure_threshold
    → b.failure_threshold < word_size
    → 0 < b.timeout
    → b.timeout ≤ now - b.opened_at
    → let (p, half_done) = alone 3 now failure_load b in
      (p ≡ failure_stamp)
      × (circuit_state half_done.state ≡ opened)
      × ((check now half_done).0 ≡ admitted)
      × ((check now (record_failure now b)).0 ≡ rejected)
unfolding check alone micro_step record_failure
opening_race now b is_closed reached fits positive passed = ground arith
