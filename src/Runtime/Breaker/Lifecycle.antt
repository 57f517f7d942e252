-- ===== src/Runtime/Breaker/Lifecycle.antt =====
-- runtime/src/circuit_breaker.rs: how a circuit opens, rejects, is tried again and closes.
use composable_rust.Prelude.{
  All, ℕ, suc, ◌+◌, ◌-◌, ◌≤◌, ◌<◌, ◌≡◌, refl, ◌∙◌, ap, none, some, Result, err, List, [], ◌∷◌, ◌++◌,
  map, arith, word_add, word_size, length,
}
use composable_rust.Runtime.Breaker.{
  CircuitBreakerConfig, CircuitBreaker, circuit_open, closed, opened, half_opened, Event, begin,
  succeed, fail, end_call, call, step, run,
}
use composable_rust.Runtime.Breaker.Trial.{
  IsGood, successes, Admitted, begin-half_opens, succeed-closes, Admitted-succeed, trial_goes_on,
}

-- An open circuit rejects every call until its timeout has passed since the last failure: the
-- operation is not run, whatever it would have given, and only the counters of calls and of
-- rejections change.
pub open_rejects :
    {T E : Type 0} (outcome : Result T E) (start finish : ℕ) (b : CircuitBreaker) {t : ℕ}
    → b.state ≡ opened
    → b.last_failure_time ≡ some t
    → start - t < b.config.timeout
    → call outcome start finish b ≡ (
      err circuit_open,
      record b {
        total_calls = word_add b.total_calls 1;
        total_rejections = word_add b.total_rejections 1;
      },
    )
unfolding call
open_rejects outcome start finish b is_open failed early = ground arith

run-append : (es fs : List Event) (b : CircuitBreaker) → run (es ++ fs) b ≡ run fs (run es b)
unfolding run
run-append [] fs b = refl
run-append (e ∷ es) fs b = run-append es fs (step e b)

fail-closed :
    (now : ℕ) (b : CircuitBreaker)
    → b.state ≡ closed
    → b.failure_count + 1 < b.config.failure_threshold
    → b.config.failure_threshold < word_size
    → let c = step (fail now) b in
      (c.state ≡ closed) × (c.failure_count ≡ b.failure_count + 1) × (c.config ≡ b.config)
unfolding step end_call
fail-closed now b is_closed below word = ground arith

fail-opens :
    (now : ℕ) (b : CircuitBreaker)
    → b.state ≡ closed
    → b.failure_count + 1 ≡ b.config.failure_threshold
    → b.config.failure_threshold < word_size
    → let c = step (fail now) b in (c.state ≡ opened) × (c.last_failure_time ≡ some now)
unfolding step end_call
fail-opens now b is_closed reaches word = ground arith

-- Failures in a row, with no success between them, leave a closed circuit closed as long as their
-- number with those counted before stays below the threshold.
pub failures_below_threshold :
    (ts : List ℕ) (b : CircuitBreaker)
    → b.state ≡ closed
    → b.failure_count + length ts < b.config.failure_threshold
    → b.config.failure_threshold < word_size
    → let c = run (map fail ts) b in
      (c.state ≡ closed) × (c.failure_count ≡ b.failure_count + length ts) × (c.config ≡ b.config)
unfolding run
failures_below_threshold [] b is_closed below word = (is_closed, omega arith, refl)
failures_below_threshold (t ∷ ts) b is_closed below word =
    let (still, count, same) = fail-closed t b is_closed (omega arith) word in
    let threshold : (step (fail t) b).config.failure_threshold ≡ b.config.failure_threshold =
      ap (λ (g : CircuitBreakerConfig). g.failure_threshold) same in
    let (closed_still, counted, kept) =
      failures_below_threshold ts (step (fail t) b) still (omega arith) (omega arith) in
    (closed_still, omega arith, kept ∙ same)

-- The failure that reaches the threshold opens the circuit and is its last failure.
pub failures_reach_threshold :
    (ts : List ℕ) (t : ℕ) (b : CircuitBreaker)
    → b.state ≡ closed
    → b.failure_count + length ts + 1 ≡ b.config.failure_threshold
    → b.config.failure_threshold < word_size
    → let c = run (map fail ts ++ fail t ∷ []) b in
      (c.state ≡ opened) × (c.last_failure_time ≡ some t)
failures_reach_threshold ts t b is_closed reaches word =
    let c = run (map fail ts) b in
    let (still, count, same) = failures_below_threshold ts b is_closed (omega arith) word in
    let threshold : c.config.failure_threshold ≡ b.config.failure_threshold =
      ap (λ (g : CircuitBreakerConfig). g.failure_threshold) same in
    rw (run-append (map fail ts) (fail t ∷ []) b)
      (unfold run in fail-opens t c still (omega arith) (omega arith))

-- An open circuit recovers: a call after the timeout is admitted and puts it on trial. If from then on
-- calls begin and succeed in any order and none fails, every one that begins is admitted too, the
-- circuit stays on trial while fewer have succeeded than the success threshold says, and with the
-- success that reaches the threshold it is closed, its counts and its last failure cleared.
pub recovers :
    (now : ℕ) (es : List Event) (b : CircuitBreaker) {t : ℕ}
    → b.state ≡ opened
    → b.last_failure_time ≡ some t
    → b.config.timeout ≤ now - t
    → All IsGood es
    → suc (successes es) ≡ b.config.success_threshold
    → b.config.success_threshold < word_size
    → let c = run (begin now ∷ es ++ succeed ∷ []) b in
      Admitted (begin now ∷ es ++ succeed ∷ []) b
      × ((run (begin now ∷ es) b).state ≡ half_opened)
      × (c.state ≡ closed)
      × (c.failure_count ≡ 0)
      × (c.success_count ≡ 0)
      × (c.last_failure_time ≡ none)
recovers now es b is_open failed late good threshold word =
    let (allowed, trial, none_yet, same) = begin-half_opens now b is_open failed late in
    let c = step (begin now) b in
    let kept : c.config.success_threshold ≡ b.config.success_threshold =
      ap (λ (g : CircuitBreakerConfig). g.success_threshold) same in
    let (later, counted, unchanged, let_through) =
      trial_goes_on es c trial good (omega arith) (omega arith) in
    let still : (run es c).config.success_threshold ≡ c.config.success_threshold =
      ap (λ (g : CircuitBreakerConfig). g.success_threshold) unchanged in
    let (is_closed, failures, counts, cleared) =
      succeed-closes (run es c) later (omega arith) (omega arith) in
    let last : run (begin now ∷ es ++ succeed ∷ []) b ≡ step succeed (run es c) =
      unfold run in run-append es (succeed ∷ []) c in
    (
      (allowed, Admitted-succeed es c let_through),
      unfold run in later,
      ap (λ x. x.state) last ∙ is_closed,
      ap (λ x. x.failure_count) last ∙ failures,
      ap (λ x. x.success_count) last ∙ counts,
      ap (λ x. x.last_failure_time) last ∙ cleared,
    )

-- A failure on trial opens the circuit again and starts the timeout anew.
pub trial_failure_reopens :
    (now : ℕ) (b : CircuitBreaker)
    → b.state ≡ half_opened
    → let c = step (fail now) b in
      (c.state ≡ opened) × (c.last_failure_time ≡ some now) × (c.success_count ≡ 0)
unfolding step end_call
trial_failure_reopens now b trial = ground arith
