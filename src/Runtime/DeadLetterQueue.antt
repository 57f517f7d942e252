-- ===== src/Runtime/DeadLetterQueue.antt =====
-- runtime/src/lib.rs: the dead letter queue, a bounded queue that drops its oldest entry.
-- Each method holds the queue's mutex for its whole body. A mutex that a panic has poisoned is
-- used all the same. The time is an argument.
pub mod Bounds
use composable_rust.Prelude.{
  ℕ, String, Bool, Option, none, some, List, [], ◌∷◌, ◌++◌, length, tail, leb, ◌==◌, if◌then◌else◌,
}

pub record DeadLetter {ℓ} (T : Type ℓ) : Type ℓ where
  pub payload : T
  pub retry_count : ℕ
  pub error_message : String
  pub first_failed_at : ℕ
  pub last_failed_at : ℕ

pub record DeadLetterQueue {ℓ} (T : Type ℓ) : Type ℓ where
  pub queue : List (DeadLetter T)
  pub max_size : ℕ

module _ {ℓ} {T : Type ℓ} where
  -- `DeadLetter::new`
  unfoldable pub new_letter : T → String → ℕ → ℕ → DeadLetter T
  new_letter payload error_message retry_count now = record {
    payload = payload;
    retry_count = retry_count;
    error_message = error_message;
    first_failed_at = now;
    last_failed_at = now;
  }

  unfoldable pub new : ℕ → DeadLetterQueue T
  new max_size = record { queue = []; max_size = max_size }

  -- `DeadLetterQueue::push` of the entry that it makes: `pop_front`, if at capacity, then `push_back`.
  unfoldable pub push_entry : DeadLetter T → DeadLetterQueue T → DeadLetterQueue T
  push_entry entry q =
      let kept = if leb q.max_size (length q.queue) then tail q.queue else q.queue in
      record q { queue = kept ++ entry ∷ [] }

  unfoldable pub push : T → String → ℕ → ℕ → DeadLetterQueue T → DeadLetterQueue T
  push payload error_message retry_count now =
      push_entry (new_letter payload error_message retry_count now)

  unfoldable pub len : DeadLetterQueue T → ℕ
  len q = length q.queue

  unfoldable pub is_empty : DeadLetterQueue T → Bool
  unfolding len
  is_empty q = len q == 0

  unfoldable pub drain : DeadLetterQueue T → List (DeadLetter T) × DeadLetterQueue T
  drain q = (q.queue, record q { queue = [] })

  -- `queue.front()`
  abbrev front : List (DeadLetter T) → Option (DeadLetter T)
  front [] = none
  front (entry ∷ _) = some entry

  unfoldable pub peek : DeadLetterQueue T → Option (DeadLetter T)
  peek q = front q.queue

  -- Several pushes, in order.
  unfoldable pub push_all : List (DeadLetter T) → DeadLetterQueue T → DeadLetterQueue T
  push_all [] q = q
  push_all (entry ∷ entries) q = push_all entries (push_entry entry q)
