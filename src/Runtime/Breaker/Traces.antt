-- ===== src/Runtime/Breaker/Traces.antt =====
-- runtime/src/circuit_breaker.rs: what holds after every sequence of steps of any number of tasks.
use composable_rust.Prelude.{
  ℕ, suc, ◌+◌, ◌%◌, ◌≤◌, ◌≡◌, refl, subst, ◌∙◌, ap, ◌⊎◌, inl, inr, ◌≢◌, Result, ok, err, List, [],
  ◌∷◌, arith, word_size,
}
use native.Mathlib.Nat.{add-zero}
use composable_rust.Runtime.Breaker.{
  CircuitBreakerConfig, CircuitBreaker, State, closed, opened, half_opened, new, Event, begin,
  succeed, fail, reset_event, begin_call, end_call, call, reset, step, run,
}
use composable_rust.Runtime.Breaker.Invariant.{IsValid, new-IsValid, step-IsValid}

run_from-IsValid : (es : List Event) (b : CircuitBreaker) → IsValid b → IsValid (run es b)
unfolding run
run_from-IsValid [] b v = v
run_from-IsValid (e ∷ es) b v = run_from-IsValid es (step e b) (step-IsValid e b v)

-- After any sequence of steps of any tasks a breaker is valid: the counts are below the thresholds
-- at which the circuit would have changed, and an open circuit has a last failure, so that it can
-- always be tried again.
pub run-IsValid : (config : CircuitBreakerConfig) (es : List Event) → IsValid (run es (new config))
run-IsValid config es = run_from-IsValid es (new config) (new-IsValid config)

-- The transitions of the diagram, for the step that takes them.
pub data Edge : Event → State → State → Type 0 where
  stay : {e : Event} {s : State} → Edge e s s
  trip : {now : ℕ} → Edge (fail now) closed opened
  try_again : {now : ℕ} → Edge (begin now) opened half_opened
  close : Edge succeed half_opened closed
  fall_back : {now : ℕ} → Edge (fail now) half_opened opened
  force : {s : State} → Edge reset_event s closed

-- Every step keeps the state or takes a transition of the diagram.
pub step-Edge : (e : Event) (b : CircuitBreaker) → Edge e b.state (step e b).state
unfolding step begin_call end_call reset
step-Edge (begin now) b = grind (arith, stay, trip, try_again, close, fall_back, force)
step-Edge succeed b = grind (arith, stay, trip, try_again, close, fall_back, force)
step-Edge (fail now) b = grind (arith, stay, trip, try_again, close, fall_back, force)
step-Edge reset_event b = force

-- The failures among the steps.
abbrev pub failures : List Event → ℕ
failures [] = 0
failures (begin _ ∷ es) = failures es
failures (succeed ∷ es) = failures es
failures (fail _ ∷ es) = suc (failures es)
failures (reset_event ∷ es) = failures es

abbrev is_failure : Event → ℕ
is_failure (begin _) = 0
is_failure succeed = 0
is_failure (fail _) = 1
is_failure reset_event = 0

-- After `n` failures: a closed circuit counts no more than those, and one that is not closed has
-- seen as many as its threshold.
abbrev Counted : ℕ → CircuitBreaker → Type 0
Counted n b =
    (b.state ≡ closed → b.failure_count ≤ n)
    × ((b.state ≡ closed) ⊎ (b.config.failure_threshold ≤ n))

step-Counted :
    (e : Event) (n : ℕ) (b : CircuitBreaker) → Counted n b → Counted (n + is_failure e) (step e b)
unfolding step begin_call end_call reset
step-Counted (begin now) n b h = ground arith
step-Counted succeed n b h = ground arith
step-Counted (fail now) n b h = ground arith
step-Counted reset_event n b h = ground arith

failures-cons :
    (e : Event) (es : List Event) (n : ℕ) → n + is_failure e + failures es ≡ n + failures (e ∷ es)
failures-cons (begin _) es n = omega arith
failures-cons succeed es n = omega arith
failures-cons (fail _) es n = omega arith
failures-cons reset_event es n = omega arith

run-Counted :
    (es : List Event) (n : ℕ) (b : CircuitBreaker)
    → Counted n b
    → Counted (n + failures es) (run es b)
unfolding run
run-Counted [] n b h = rw add-zero h
run-Counted (e ∷ es) n b h =
    let counted = run-Counted es (n + is_failure e) (step e b) (step-Counted e n b h) in
    subst (λ k. Counted k (run es (step e b))) (failures-cons e es n) counted

step-config : (e : Event) (b : CircuitBreaker) → (step e b).config ≡ b.config
unfolding step begin_call end_call reset
step-config (begin now) b = ground arith
step-config succeed b = ground arith
step-config (fail now) b = ground arith
step-config reset_event b = refl

run-config : (es : List Event) (b : CircuitBreaker) → (run es b).config ≡ b.config
unfolding run
run-config [] b = refl
run-config (e ∷ es) b = run-config es (step e b) ∙ step-config e b

-- A circuit that is not closed, after any sequence of steps from a new breaker, has seen at least
-- as many failed operations as its failure threshold.
pub opened_needs_failures :
    (config : CircuitBreakerConfig) (es : List Event)
    → (run es (new config)).state ≢ closed
    → config.failure_threshold ≤ failures es
unfolding new
opened_needs_failures config es not_closed =
    let b = run es (new config) in
    let kept : b.config.failure_threshold ≡ config.failure_threshold =
      ap (λ (g : CircuitBreakerConfig). g.failure_threshold) (run-config es (new config)) in
    let (_, seen) = run-Counted es 0 (new config) ((λ _. omega arith), inl refl) in
    elim seen [ inl is_closed ↦ absurd (not_closed is_closed) | inr enough ↦ omega arith ]

-- The counters of a breaker that is called by one task at a time.
abbrev pub Accounted : CircuitBreaker → Type 0
Accounted b =
    b.total_calls ≡ (b.total_successes + b.total_failures + b.total_rejections) % word_size

-- Every call that a single task makes is counted, once, as a success, a failure or a rejection: the
-- equation between the counters, modulo 2^64, is kept.
pub call-Accounted :
    {T E : Type 0} (outcome : Result T E) (start finish : ℕ) (b : CircuitBreaker)
    → Accounted b
    → Accounted (call outcome start finish b).1
unfolding call
call-Accounted (ok x) start finish b h = ground arith
call-Accounted (err e) start finish b h = ground arith
