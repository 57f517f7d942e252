-- ===== src/Auth/RateLimiter.antt =====
-- auth/src/mocks/rate_limiter.rs: the sliding window of attempts in memory.
-- Times are milliseconds; the clock's reading is an argument. A poisoned mutex, which is the only
-- other error, is not modelled, and the logs are left out.
pub mod Window
use composable_rust.Prelude.{
  u32_size, ℕ, String, Bool, Option, none, some, List, [], ◌∷◌, ◌++◌, ◌-◌, ◌%◌, Result, ok, err,
  leb, length, filter, if◌then◌else◌, text_key,
}
use composable_rust.Prelude.Dict

pub data LimitError : Type 0 where
  too_many_attempts : (retry_after : ℕ) → LimitError

abbrev pub MockRateLimiter : Type 0
MockRateLimiter = List (String × List ℕ)

-- `MockRateLimiter::new`
abbrev pub new_limiter : MockRateLimiter
new_limiter = []

-- `now_ms.saturating_sub(window_ms)`
abbrev pub window_start : (now window : ℕ) → ℕ
window_start now window = now - window

unfoldable pub cleanup_old_entries : List ℕ → (start : ℕ) → List ℕ
cleanup_old_entries timestamps start = filter (λ ts. leb start ts) timestamps

-- `entry(key).or_insert_with(Vec::new)`
unfoldable pub attempts_of : String → MockRateLimiter → List ℕ
unfolding Dict.get
attempts_of key attempts = elim (Dict.get key attempts) [ none ↦ [] | some timestamps ↦ timestamps ]

unfoldable pub check_rate_limit :
    String → MockRateLimiter → Result (Unit {0}) LimitError × MockRateLimiter
check_rate_limit key attempts = (ok tt, attempts)

unfoldable pub record_attempt : (now : ℕ) → String → MockRateLimiter → MockRateLimiter
unfolding Dict.insert attempts_of
record_attempt now key attempts = Dict.insert key (attempts_of key attempts ++ now ∷ []) attempts

unfoldable pub check_and_record :
    (now : ℕ)
    → String
    → (max_attempts window : ℕ) → MockRateLimiter
    → Result (Unit {0}) LimitError × MockRateLimiter
unfolding Dict.insert attempts_of cleanup_old_entries
check_and_record now key max_attempts window attempts =
    let timestamps = cleanup_old_entries (attempts_of key attempts) (window_start now window) in
    if leb max_attempts (length timestamps)
    then (err (too_many_attempts window), Dict.insert key timestamps attempts)
    else (ok tt, Dict.insert key (timestamps ++ now ∷ []) attempts)

unfoldable pub reset : String → MockRateLimiter → MockRateLimiter
unfolding Dict.remove
reset key attempts = Dict.remove key attempts

unfoldable pub get_attempts : String → MockRateLimiter → ℕ
unfolding Dict.get
get_attempts key attempts = elim (Dict.get key attempts) [
  | none ↦ 0
  | some timestamps ↦ length timestamps % u32_size
]
