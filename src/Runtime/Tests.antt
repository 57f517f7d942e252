-- ===== src/Runtime/Tests.antt =====
-- runtime/src: retries, dead letters, metadata, health and the store at concrete values.
use composable_rust.Prelude.{
  String, ℕ, zero, suc, ◌+◌, ◌*◌, ◌≤◌, ◌≡◌, refl, some, none, Option, List, [], ◌∷◌, ◌++◌, ok, err,
  Result, arith, Bool, true, length, if◌then◌else◌, leb,
}
use composable_rust.Core.Event.{EventMetadata, SerializedEvent, nonnegative}
use composable_rust.Core.Effect.{Effect, parallel, sequential, publish_event, publish, nil, cons}
use composable_rust.Runtime.Retry.{Float, RetryPolicy, Attempts, retry_with_predicate}
use composable_rust.Runtime.Retry.Outcome.{waits, retry-exhausts, retry-total}
use composable_rust.Runtime.DeadLetterQueue.{DeadLetterQueue, DeadLetter, push_all}
use composable_rust.Runtime.DeadLetterQueue.Bounds.{newest, push_all-newest}
use composable_rust.Runtime.RetryOperation
use composable_rust.Runtime.RetryOperation.{Outcome}
use composable_rust.Runtime.Health.{HealthCheck, healthy_check, degraded_check}

abbrev power : ℕ → ℕ → ℕ
power b zero = 1
power b (suc n) = b * power b n

-- Whole numbers in the place of floating-point ones.
abbrev whole : Float
whole = record { F64 = ℕ; from_ms = λ n. n; mul = λ a b. a * b; powi = power; to_u64 = λ n. n }

abbrev policy : RetryPolicy whole
policy = record { max_retries = 2; initial_delay = 1000000; max_delay = 3000000; multiplier = 2 }

-- Errors 0 and 1, then the value 7.
abbrev flaky : ℕ → Result ℕ ℕ
flaky n = if leb 2 n then ok 7 else err n

abbrev failing : ℕ → Result ℕ ℕ
failing n = err n

abbrev always : ℕ → Bool
always _ = true

retry-exhausts_example :
    retry_with_predicate whole policy failing always
    ≡ some (record { result = err 1; calls = 2 + 1; slept = waits whole policy failing always 2 })
retry-exhausts_example =
    retry-exhausts whole policy failing always 1 refl ((0, refl, refl), ((1, refl, refl), tt)) refl
      refl refl

retry-total_example :
    (r : Attempts ℕ ℕ) × (retry_with_predicate whole policy failing always ≡ some r)
    × (r.calls ≤ 2 + 1)
    × (length r.slept + 1 ≡ r.calls)
retry-total_example = retry-total whole policy failing always

abbrev letter : ℕ → DeadLetter ℕ
letter n = record {
  payload = n;
  retry_count = 3;
  error_message = "down";
  first_failed_at = n;
  last_failed_at = n;
}

abbrev queue_of_two : DeadLetterQueue ℕ
queue_of_two = record { queue = letter 1 ∷ []; max_size = 2 }

push_all-newest_example :
    let q = push_all (letter 2 ∷ letter 3 ∷ []) queue_of_two in
    (q.queue ≡ newest 2 ((letter 1 ∷ []) ++ letter 2 ∷ letter 3 ∷ [])) × (length q.queue ≤ 2)
push_all-newest_example =
    push_all-newest (letter 2 ∷ letter 3 ∷ []) queue_of_two (omega arith) (omega arith)

abbrev no_room : DeadLetterQueue ℕ
no_room = record { queue = []; max_size = 0 }

abbrev event : Option EventMetadata → SerializedEvent
event m = record { event_type = "Paid.v1"; event_version = nonnegative 1; bytes = []; metadata = m }

abbrev publishing : Effect ℕ
publishing = sequential (
    cons
      (parallel
        (cons (publish_event (publish 0 "payments" (event none) (λ _. none) (λ _. none))) nil))
      nil)

abbrev checks : List HealthCheck
unfolding healthy_check degraded_check
checks = healthy_check "store" ∷ degraded_check "bus" "slow" ∷ []

abbrev twice : RetryOperation.RetryPolicy
twice = record { max_attempts = 2 }

abbrev display : ℕ → String
display _ = "unavailable"

abbrev waiting : ℕ → ℕ
waiting n = n + 1

abbrev letters : DeadLetterQueue String
letters = record { queue = []; max_size = 100 }
