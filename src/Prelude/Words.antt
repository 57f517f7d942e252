-- ===== src/Prelude/Words.antt =====
-- 64-bit machine words: `u64`, and `usize` on a 64-bit target. Additions on atomics wrap.
use Prim.Native.Nat.{ℕ, ◌+◌, ◌-◌, ◌%◌, ◌<◌}
use mathlib.Core.Path.{◌≡◌}
use native.Mathlib.Omega.{arith}

abbrev pub word_size : ℕ
word_size = 18446744073709551616

-- 32-bit words: `u32`.
abbrev pub u32_size : ℕ
u32_size = 4294967296

abbrev pub word_add : ℕ → ℕ → ℕ
word_add a b = (a + b) % word_size

-- `fetch_sub` on an atomic: it wraps below 0.
abbrev pub word_sub : ℕ → ℕ → ℕ
word_sub a b = (a + word_size - b) % word_size

pub word_add-eq : (a b : ℕ) → a + b < word_size → word_add a b ≡ a + b
word_add-eq a b h = omega arith
