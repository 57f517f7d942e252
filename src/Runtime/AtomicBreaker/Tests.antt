-- ===== src/Runtime/AtomicBreaker/Tests.antt =====
-- runtime/src/lib.rs: the atomic circuit breaker at concrete calls.
use composable_rust.Prelude.{◌≡◌, ◌≢◌, ◌≤◌, refl, List, [], ◌∷◌, arith, false}
use composable_rust.Runtime.AtomicBreaker.{
  CircuitBreaker, opened, circuit_state, admitted, rejected, failure_load, failure_stamp, Event,
  start_call, start_failure, advance, complete, run, idle, alone, check, record_failure,
  record_success,
}
use composable_rust.Runtime.AtomicBreaker.Invariant.{opens_after_failures}
use composable_rust.Runtime.AtomicBreaker.Race.{
  methods_alone, checked, succeeded, failed, opening_race,
}

abbrev breaker : CircuitBreaker
breaker = record {
  state = 0;
  failure_count = 0;
  success_count = 0;
  opened_at = 0;
  failure_threshold = 2;
  timeout = 100;
  success_threshold = 1;
}

abbrev about_to_open : CircuitBreaker
about_to_open = record breaker { failure_count = 1 }

abbrev events : List Event
events =
    start_call
    ∷ advance 0 5
    ∷ complete 0 false
    ∷ start_failure
    ∷ advance 0 6
    ∷ advance 1 6
    ∷ advance 0 7
    ∷ advance 1 7
    ∷ advance 0 8
    ∷ advance 1 8
    ∷ []

opens_after_failures_example :
    let s = run events (idle breaker) in
    (s.breaker.failure_threshold ≡ 2) × (s.breaker.state ≢ 0 → 2 ≤ s.failures)
opens_after_failures_example = opens_after_failures breaker events refl refl

opening_race_example :
    let (p, half_done) = alone 3 1000 failure_load about_to_open in
    (p ≡ failure_stamp)
    × (circuit_state half_done.state ≡ opened)
    × ((check 1000 half_done).0 ≡ admitted)
    × ((check 1000 (record_failure 1000 about_to_open)).0 ≡ rejected)
opening_race_example =
    opening_race 1000 about_to_open refl refl (omega arith) (omega arith) (omega arith)

abbrev is_open : CircuitBreaker
is_open = record breaker { state = 1; opened_at = 40 }

methods_alone_example :
    (check 120 is_open ≡ checked 120 (circuit_state 1) is_open)
    × (record_success is_open ≡ succeeded (circuit_state 1) is_open)
    × (record_failure 120 is_open ≡ failed 120 (circuit_state 1) is_open)
methods_alone_example = methods_alone 120 is_open
