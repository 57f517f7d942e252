-- ===== src/Runtime/Breaker/Tests.antt =====
-- runtime/src/circuit_breaker.rs: a breaker at concrete calls.
use composable_rust.Prelude.{
  ◌++◌, ℕ, ◌≡◌, refl, ◌≤◌, none, some, List, [], ◌∷◌, ok, err, arith, word_add,
}
use composable_rust.Runtime.Breaker.Trial.{Admitted}
use composable_rust.Runtime.Breaker.{
  CircuitBreakerConfig, CircuitBreaker, closed, opened, half_opened, new, call, circuit_open, Event,
  begin, succeed, fail, step, run, begin_call, end_call, can_attempt, on_success, on_failure,
}
use composable_rust.Runtime.Breaker.Invariant.{IsValid}
use composable_rust.Runtime.Breaker.Lifecycle.{open_rejects, recovers}
use composable_rust.Runtime.Breaker.Traces.{run-IsValid, opened_needs_failures, failures}

abbrev config : CircuitBreakerConfig
config = record { failure_threshold = 3; timeout = 100; success_threshold = 2 }

abbrev fresh : CircuitBreaker
unfolding new
fresh = new config

abbrev broken : CircuitBreaker
broken = record {
  config = config;
  state = opened;
  failure_count = 3;
  success_count = 0;
  last_failure_time = some 50;
  total_calls = 3;
  total_successes = 0;
  total_failures = 3;
  total_rejections = 0;
}

abbrev on_trial : CircuitBreaker
on_trial = record broken { state = half_opened; success_count = 1 }

open_rejects_example : call {T = ℕ} {E = ℕ} (ok 7) 120 130 broken ≡ (
  err circuit_open,
  record broken { total_calls = word_add 3 1; total_rejections = word_add 0 1 },
)
open_rejects_example =
    open_rejects {T = ℕ} {E = ℕ} (ok 7) 120 130 broken {t = 50} refl refl (omega arith)

-- Two calls overlap, the first of them ends, and the second one closes the circuit.
abbrev overlapping : List Event
overlapping = begin 210 ∷ succeed ∷ begin 220 ∷ []

recovers_example :
    let c = run (begin 200 ∷ overlapping ++ succeed ∷ []) broken in
    Admitted (begin 200 ∷ overlapping ++ succeed ∷ []) broken
    × ((run (begin 200 ∷ overlapping) broken).state ≡ half_opened)
    × (c.state ≡ closed)
    × (c.failure_count ≡ 0)
    × (c.success_count ≡ 0)
    × (c.last_failure_time ≡ none)
recovers_example =
    recovers 200 overlapping broken {t = 50} refl refl (omega arith) (tt, (tt, (tt, tt))) refl
      (omega arith)

abbrev events : List Event
events =
    begin 1
    ∷ fail 2
    ∷ begin 3
    ∷ begin 3
    ∷ fail 4
    ∷ succeed
    ∷ fail 9
    ∷ fail 10
    ∷ fail 11
    ∷ begin 50
    ∷ begin 111
    ∷ []

run-IsValid_example : IsValid (run events (new config))
run-IsValid_example = run-IsValid config events

opened_needs_failures_example : 3 ≤ failures events
unfolding run new step end_call on_failure begin_call can_attempt on_success
opened_needs_failures_example = opened_needs_failures config events (ground arith)
