-- ===== src/Runtime/Breaker/Trial.antt =====
-- runtime/src/circuit_breaker.rs: a circuit on trial.
use composable_rust.Prelude.{
  All, ℕ, suc, ◌+◌, ◌-◌, ◌≤◌, ◌<◌, ◌≡◌, refl, ◌∙◌, ap, true, none, some, List, [], ◌∷◌, ◌++◌, arith,
  word_size,
}
use composable_rust.Runtime.Breaker.{
  CircuitBreakerConfig, CircuitBreaker, closed, opened, half_opened, Event, begin, succeed, fail,
  reset_event, begin_call, end_call, step, run,
}

-- The first call after the timeout is admitted, and puts the circuit on trial.
pub begin-half_opens :
    (now : ℕ) (b : CircuitBreaker) {t : ℕ}
    → b.state ≡ opened
    → b.last_failure_time ≡ some t
    → b.config.timeout ≤ now - t
    → let c = step (begin now) b in
      ((begin_call now b).0 ≡ true)
      × (c.state ≡ half_opened)
      × (c.success_count ≡ 0)
      × (c.config ≡ b.config)
unfolding step begin_call
begin-half_opens now b is_open failed late = ground arith

succeed-half_opened :
    (b : CircuitBreaker)
    → b.state ≡ half_opened
    → b.success_count + 1 < b.config.success_threshold
    → b.config.success_threshold < word_size
    → let c = step succeed b in
      (c.state ≡ half_opened) × (c.success_count ≡ b.success_count + 1) × (c.config ≡ b.config)
unfolding step end_call
succeed-half_opened b trial below word = ground arith

pub succeed-closes :
    (b : CircuitBreaker)
    → b.state ≡ half_opened
    → b.success_count + 1 ≡ b.config.success_threshold
    → b.config.success_threshold < word_size
    → let c = step succeed b in
      (c.state ≡ closed)
      × (c.failure_count ≡ 0)
      × (c.success_count ≡ 0)
      × (c.last_failure_time ≡ none)
unfolding step end_call
succeed-closes b trial reaches word = ground arith

begin-half_opened :
    (now : ℕ) (b : CircuitBreaker)
    → b.state ≡ half_opened
    → let c = step (begin now) b in
      ((begin_call now b).0 ≡ true)
      × (c.state ≡ half_opened)
      × (c.success_count ≡ b.success_count)
      × (c.config ≡ b.config)
unfolding step begin_call
begin-half_opened now b trial = ground arith

-- A call begins or succeeds.
abbrev pub IsGood : Event → Type 0
IsGood (begin _) = Unit
IsGood succeed = Unit
IsGood (fail _) = ⊥
IsGood reset_event = ⊥

abbrev pub successes : List Event → ℕ
successes [] = 0
successes (succeed ∷ es) = suc (successes es)
successes (_ ∷ es) = successes es

-- Every call that begins is let through.
abbrev pub Admitted : List Event → CircuitBreaker → Type 0
Admitted [] b = Unit
Admitted (begin now ∷ es) b = ((begin_call now b).0 ≡ true) × Admitted es (step (begin now) b)
Admitted (e ∷ es) b = Admitted es (step e b)

pub Admitted-succeed :
    (es : List Event) (b : CircuitBreaker) → Admitted es b → Admitted (es ++ succeed ∷ []) b
Admitted-succeed [] b h = tt
Admitted-succeed (begin now ∷ es) b h = (h.0, Admitted-succeed es (step (begin now) b) h.1)
Admitted-succeed (succeed ∷ es) b h = Admitted-succeed es (step succeed b) h
Admitted-succeed (fail now ∷ es) b h = Admitted-succeed es (step (fail now) b) h
Admitted-succeed (reset_event ∷ es) b h = Admitted-succeed es (step reset_event b) h

-- Fewer successes than the threshold, with calls that begin among them, leave a circuit on trial.
pub trial_goes_on :
    (es : List Event) (b : CircuitBreaker)
    → b.state ≡ half_opened
    → All IsGood es
    → b.success_count + successes es < b.config.success_threshold
    → b.config.success_threshold < word_size
    → let c = run es b in
      (c.state ≡ half_opened)
      × (c.success_count ≡ b.success_count + successes es)
      × (c.config ≡ b.config)
      × Admitted es b
unfolding run
trial_goes_on [] b trial good below word = (trial, omega arith, refl, tt)
trial_goes_on (begin now ∷ es) b trial good below word =
    let (allowed, still, count, same) = begin-half_opened now b trial in
    let threshold : (step (begin now) b).config.success_threshold ≡ b.config.success_threshold =
      ap (λ (g : CircuitBreakerConfig). g.success_threshold) same in
    let (later, counted, kept, let_through) =
      trial_goes_on es (step (begin now) b) still good.1 (omega arith) (omega arith) in
    (later, omega arith, kept ∙ same, (allowed, let_through))
trial_goes_on (succeed ∷ es) b trial good below word =
    let (still, count, same) = succeed-half_opened b trial (omega arith) word in
    let threshold : (step succeed b).config.success_threshold ≡ b.config.success_threshold =
      ap (λ (g : CircuitBreakerConfig). g.success_threshold) same in
    let (later, counted, kept, let_through) =
      trial_goes_on es (step succeed b) still good.1 (omega arith) (omega arith) in
    (later, omega arith, kept ∙ same, let_through)
trial_goes_on (fail _ ∷ es) b trial good below word = absurd good.0
trial_goes_on (reset_event ∷ es) b trial good below word = absurd good.0
