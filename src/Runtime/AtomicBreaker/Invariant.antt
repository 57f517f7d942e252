-- ===== src/Runtime/AtomicBreaker/Invariant.antt =====
-- runtime/src/lib.rs: what the atomic circuit breaker keeps, however its threads are mixed.
use composable_rust.Prelude.{
  if_both, ℕ, ◌+◌, ◌≤◌, ◌≡◌, ◌≢◌, refl, List, [], ◌∷◌, arith, Bool, true, false, Option, none, some,
  pick, total, All, Pick, taken, pick-Pick,
}
use composable_rust.Runtime.AtomicBreaker.{
  is_admitted, complete_one, CircuitBreaker, Program, check_load, check_opened_at, check_half_open,
  check_reset, admitted, rejected, success_load, success_clear, success_add, success_close,
  success_clear_failures, success_clear_successes, failure_load, failure_add, failure_open,
  failure_stamp, trial_open, trial_reset, trial_stamp, recorded, micro_step, System, Event,
  start_call, start_success, start_failure, advance, complete, step, run, idle, at_position,
  advance_one, complete_one, start, start_failing,
}

-- The programs that have not yet counted their failure.
unfoldable pub adding : Program → ℕ
adding failure_load = 1
adding failure_add = 1
adding _ = 0

-- The programs that will store an open or half-open state, or that have seen one.
unfoldable pub opening : Program → Bool
opening check_opened_at = true
opening check_half_open = true
opening failure_open = true
opening trial_open = true
opening _ = false

-- `k` is the threshold, `rest` the failures that other threads will count, and `fs` all so far.
record Safe (k fs rest : ℕ) (b : CircuitBreaker) (p : Program) : Type 0 where
  pub threshold : b.failure_threshold ≡ k
  pub counted : b.failure_count + adding p + rest ≤ fs
  pub opens : opening p ≡ true → k ≤ fs
  pub open_state : b.state ≢ 0 → k ≤ fs

micro_step-Safe :
    (k fs rest now : ℕ) (b : CircuitBreaker) (p : Program)
    → Safe k fs rest b p
    → let (q, c) = micro_step now p b in Safe k fs rest c q
unfolding micro_step adding opening
micro_step-Safe k fs rest now b check_load h = ground arith
micro_step-Safe k fs rest now b check_opened_at h = ground arith
micro_step-Safe k fs rest now b check_half_open h = ground arith
micro_step-Safe k fs rest now b check_reset h = ground arith
micro_step-Safe k fs rest now b admitted h = ground arith
micro_step-Safe k fs rest now b rejected h = ground arith
micro_step-Safe k fs rest now b success_load h = ground arith
micro_step-Safe k fs rest now b success_clear h = ground arith
micro_step-Safe k fs rest now b success_add h = ground arith
micro_step-Safe k fs rest now b success_close h = ground arith
micro_step-Safe k fs rest now b success_clear_failures h = ground arith
micro_step-Safe k fs rest now b success_clear_successes h = ground arith
micro_step-Safe k fs rest now b failure_load h = ground arith
micro_step-Safe k fs rest now b failure_add h = ground arith
micro_step-Safe k fs rest now b failure_open h = ground arith
micro_step-Safe k fs rest now b failure_stamp h = ground arith
micro_step-Safe k fs rest now b trial_open h = ground arith
micro_step-Safe k fs rest now b trial_reset h = ground arith
micro_step-Safe k fs rest now b trial_stamp h = ground arith
micro_step-Safe k fs rest now b recorded h = ground arith

-- The failures that are counted or will be are no more than those reported, and no thread opens the
-- circuit before there are as many as the threshold `k`.
record Valid (k : ℕ) (s : System) : Type 0 where
  pub threshold : s.breaker.failure_threshold ≡ k
  pub counted : s.breaker.failure_count + total adding s.threads ≤ s.failures
  pub opens : All (λ p. opening p ≡ true → k ≤ s.failures) s.threads
  pub open_state : s.breaker.state ≢ 0 → k ≤ s.failures

-- One more thread, whose program opens nothing yet.
start-Valid :
    (k : ℕ) (p : Program) (s : System)
    → adding p ≡ 0
    → opening p ≡ false
    → Valid k s
    → Valid k (start p s)
start-Valid k p s silent quiet h = record {
  threshold = h.threshold;
  counted = omega (arith, h.counted, silent);
  opens = ((λ loud. ground arith), h.opens);
  open_state = h.open_state;
}

All-map :
    {P Q : Program → Type 0}
    → ((p : Program) → P p → Q p)
    → (ps : List Program) → All P ps
    → All Q ps
All-map f [] h = tt
All-map f (p ∷ ps) h = (f p h.0, All-map f ps h.1)

start_failing-Valid : (k : ℕ) (s : System) → Valid k s → Valid k (start_failing s)
unfolding adding opening
start_failing-Valid k s h = record {
  threshold = h.threshold;
  counted = omega (arith, h.counted);
  opens = (
    (λ loud. ground arith),
    All-map (λ p before loud. omega (arith, before loud)) s.threads h.opens,
  );
  open_state = λ away. omega (arith, h.open_state away);
}

-- The thread that moves is out of the list.
record Moving (k : ℕ) (p : Program) (s : System) : Type 0 where
  pub safe : Safe k s.failures (total adding s.threads) s.breaker p
  pub others : All (λ p. opening p ≡ true → k ≤ s.failures) s.threads

advance_one-Valid :
    (k now : ℕ) (p : Program) (s : System) → Moving k p s → Valid k (advance_one now p s)
advance_one-Valid k now p s h =
    let moved = micro_step-Safe k s.failures (total adding s.threads) now s.breaker p h.safe in
    record {
      threshold = moved.threshold;
      counted = omega (arith, moved.counted);
      opens = (moved.opens, h.others);
      open_state = moved.open_state;
    }

without-Valid : (k : ℕ) (p : Program) (s : System) → Moving k p s → Valid k s
without-Valid k p s h = record {
  threshold = h.safe.threshold;
  counted = omega (arith, h.safe.counted);
  opens = h.others;
  open_state = h.safe.open_state;
}

back-Valid : (k : ℕ) (p : Program) (s : System) → Moving k p s → Valid k (start p s)
back-Valid k p s h = record {
  threshold = h.safe.threshold;
  counted = omega (arith, h.safe.counted);
  opens = (h.safe.opens, h.others);
  open_state = h.safe.open_state;
}

at_position-Valid :
    (k : ℕ) (act : Program → System → System)
    → ((p : Program) (s : System) → Moving k p s → Valid k (act p s))
    → (o : Option (Program × List Program)) (s : System) → Pick s.threads o
    → Valid k s
    → Valid k (at_position act o s)
at_position-Valid k act keeps none s picked h = h
at_position-Valid k act keeps (some (p, others)) s (taken picked) h =
    let both = picked.taken_All (λ q. opening q ≡ true → k ≤ s.failures) h.opens in
    keeps p (record s { threads = others })
      (record {
        safe = record {
          threshold = h.threshold;
          counted = omega (arith, h.counted, picked.taken_total adding);
          opens = both.0;
          open_state = h.open_state;
        };
        others = both.1;
      })

complete_one-Valid :
    (k : ℕ) (is_ok : Bool) (p : Program) (s : System)
    → Moving k p s
    → Valid k (complete_one is_ok p s)
unfolding adding opening
complete_one-Valid k is_ok p s h =
    let rest = without-Valid k p s h in
    if_both (Valid k) (is_admitted p) _ (start p s)
      (if_both (Valid k) is_ok (start success_load s) (start_failing s)
        (start-Valid k success_load s refl refl rest) (start_failing-Valid k s rest))
      (back-Valid k p s h)

step-Valid : (k : ℕ) (e : Event) (s : System) → Valid k s → Valid k (step e s)
unfolding step adding opening
step-Valid k start_call s h = start-Valid k check_load s refl refl h
step-Valid k start_success s h = start-Valid k success_load s refl refl h
step-Valid k start_failure s h = start_failing-Valid k s h
step-Valid k (advance i now) s h =
    at_position-Valid k (advance_one now) (advance_one-Valid k now) (pick i s.threads) s
      (pick-Pick i s.threads) h
step-Valid k (complete i is_ok) s h =
    at_position-Valid k (complete_one is_ok) (complete_one-Valid k is_ok) (pick i s.threads) s
      (pick-Pick i s.threads) h

run-Valid : (k : ℕ) (es : List Event) (s : System) → Valid k s → Valid k (run es s)
unfolding run
run-Valid k [] s h = h
run-Valid k (e ∷ es) s h = run-Valid k es (step e s) (step-Valid k e s h)

-- However the steps of any threads are mixed, from a closed circuit without counted failures: no
-- circuit is open or half-open before as many failures have been reported as its threshold says, and
-- its threshold stays what it was.
pub opens_after_failures :
    (b : CircuitBreaker) (es : List Event)
    → b.state ≡ 0
    → b.failure_count ≡ 0
    → let s = run es (idle b) in
      (s.breaker.failure_threshold ≡ b.failure_threshold)
      × (s.breaker.state ≢ 0 → b.failure_threshold ≤ s.failures)
opens_after_failures b es is_closed none_counted =
    let h = run-Valid b.failure_threshold es (idle b) (record {
      threshold = refl;
      counted = omega (arith, none_counted);
      opens = tt;
      open_state = λ away. absurd (away is_closed);
    }) in
    (h.threshold, h.open_state)
