-- ===== src/Runtime/AtomicBreaker.antt =====
-- runtime/src/lib.rs: the circuit breaker whose fields are separate atomics.
-- A method is a program, and each access to an atomic is one step of it, so that the steps of several
-- threads can be mixed. The time is nanoseconds since the epoch, which fit a `u64`.
pub mod Invariant
pub mod Race
mod Tests
use composable_rust.Prelude.{
  ℕ, suc, zero, ◌+◌, ◌-◌, Bool, true, false, Option, none, some, List, [], ◌∷◌, leb, ◌==◌,
  if◌then◌else◌, word_add, pick,
}

pub data CircuitState : Type 0 where
  closed opened half_opened : CircuitState

-- `state` is the `AtomicU8`.
pub record CircuitBreaker : Type 0 where
  pub state : ℕ
  pub failure_count : ℕ
  pub success_count : ℕ
  pub opened_at : ℕ
  pub failure_threshold : ℕ
  pub timeout : ℕ
  pub success_threshold : ℕ

unfoldable pub new : CircuitBreaker
new = record {
  state = 0;
  failure_count = 0;
  success_count = 0;
  opened_at = 0;
  failure_threshold = 5;
  timeout = 60000000000;
  success_threshold = 2;
}

unfoldable pub with_failure_threshold : ℕ → CircuitBreaker → CircuitBreaker
with_failure_threshold threshold b = record b { failure_threshold = threshold }

unfoldable pub with_timeout : ℕ → CircuitBreaker → CircuitBreaker
with_timeout timeout b = record b { timeout = timeout }

unfoldable pub with_success_threshold : ℕ → CircuitBreaker → CircuitBreaker
with_success_threshold threshold b = record b { success_threshold = threshold }

-- `CircuitBreaker::state` of the byte loaded.
abbrev pub circuit_state : ℕ → CircuitState
circuit_state byte = if byte == 1 then opened else if byte == 2 then half_opened else closed

-- The next step of a thread. `check_*` belong to `check`, `success_*` to `record_success`, and
-- `failure_*` and `trial_*` to `record_failure`. `admitted` is the end of a `check` that returns
-- `Ok`, after which the operation runs, `rejected` of one that returns `Err`, and `recorded` the end
-- of the other two.
pub data Program : Type 0 where
  check_load check_opened_at check_half_open check_reset admitted rejected : Program
  success_load success_clear success_add success_close : Program
  success_clear_failures success_clear_successes : Program
  failure_load failure_add failure_open failure_stamp : Program
  trial_open trial_reset trial_stamp recorded : Program

-- Where the three methods go after they have loaded the state.
abbrev pub check_in : CircuitState → Program
check_in closed = admitted
check_in opened = check_opened_at
check_in half_opened = admitted

abbrev pub success_in : CircuitState → Program
success_in closed = success_clear
success_in opened = recorded
success_in half_opened = success_add

abbrev pub failure_in : CircuitState → Program
failure_in closed = failure_add
failure_in opened = recorded
failure_in half_opened = trial_open

unfoldable pub micro_step : ℕ → Program → CircuitBreaker → Program × CircuitBreaker
micro_step now check_load b = (check_in (circuit_state b.state), b)
micro_step now check_opened_at b =
    (if leb b.timeout (now - b.opened_at) then check_half_open else rejected, b)
micro_step now check_half_open b = (check_reset, record b { state = 2 })
micro_step now check_reset b = (admitted, record b { success_count = 0 })
micro_step now success_load b = (success_in (circuit_state b.state), b)
micro_step now success_clear b = (recorded, record b { failure_count = 0 })
micro_step now success_add b =
    let successes = word_add b.success_count 1 in
    (
      if leb b.success_threshold successes then success_close else recorded,
      record b { success_count = successes },
    )
micro_step now success_close b = (success_clear_failures, record b { state = 0 })
micro_step now success_clear_failures b = (success_clear_successes, record b { failure_count = 0 })
micro_step now success_clear_successes b = (recorded, record b { success_count = 0 })
micro_step now failure_load b = (failure_in (circuit_state b.state), b)
micro_step now failure_add b =
    let failures = word_add b.failure_count 1 in
    (
      if leb b.failure_threshold failures then failure_open else recorded,
      record b { failure_count = failures },
    )
micro_step now failure_open b = (failure_stamp, record b { state = 1 })
micro_step now failure_stamp b = (recorded, record b { opened_at = now })
micro_step now trial_open b = (trial_reset, record b { state = 1 })
micro_step now trial_reset b = (trial_stamp, record b { success_count = 0 })
micro_step now trial_stamp b = (recorded, record b { opened_at = now })
micro_step now admitted b = (admitted, b)
micro_step now rejected b = (rejected, b)
micro_step now recorded b = (recorded, b)

-- One thread by itself, for at most `n` steps: no method takes more than 4.
unfoldable pub alone : ℕ → ℕ → Program → CircuitBreaker → Program × CircuitBreaker
alone zero now p b = (p, b)
alone (suc n) now p b = let (q, c) = micro_step now p b in alone n now q c

unfoldable pub check : ℕ → CircuitBreaker → Program × CircuitBreaker
check now b = alone 4 now check_load b

unfoldable pub record_success : CircuitBreaker → CircuitBreaker
record_success b = (alone 5 0 success_load b).1

unfoldable pub record_failure : ℕ → CircuitBreaker → CircuitBreaker
record_failure now b = (alone 4 now failure_load b).1

-- The threads that use one breaker. `failures` is the number of calls of `record_failure` so far.
pub record System : Type 0 where
  pub breaker : CircuitBreaker
  pub threads : List Program
  pub failures : ℕ

pub data Event : Type 0 where
  start_call start_success start_failure : Event
  advance : (position now : ℕ) → Event
  complete : (position : ℕ) → (is_ok : Bool) → Event

abbrev pub start : Program → System → System
start p s = record s { threads = p ∷ s.threads }

abbrev pub start_failing : System → System
start_failing s = record s { threads = failure_load ∷ s.threads; failures = s.failures + 1 }

abbrev pub advance_one : ℕ → Program → System → System
advance_one now p s =
    let (q, b) = micro_step now p s.breaker in record s { breaker = b; threads = q ∷ s.threads }

-- The operation of an admitted call has ended: `call` goes on with one of the two records.
abbrev pub is_admitted : Program → Bool
is_admitted admitted = true
is_admitted _ = false

abbrev pub complete_one : Bool → Program → System → System
complete_one is_ok p s =
    if is_admitted p then if is_ok then start success_load s else start_failing s else start p s

abbrev pub at_position :
    (Program → System → System) → Option (Program × List Program) → System → System
at_position act none s = s
at_position act (some (p, others)) s = act p (record s { threads = others })

unfoldable pub step : Event → System → System
step start_call s = start check_load s
step start_success s = start success_load s
step start_failure s = start_failing s
step (advance i now) s = at_position (advance_one now) (pick i s.threads) s
step (complete i is_ok) s = at_position (complete_one is_ok) (pick i s.threads) s

unfoldable pub run : List Event → System → System
run [] s = s
run (e ∷ es) s = run es (step e s)

abbrev pub idle : CircuitBreaker → System
idle b = record { breaker = b; threads = []; failures = 0 }
