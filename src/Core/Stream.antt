-- ===== src/Core/Stream.antt =====
-- core/src/stream.rs: stream identifiers and versions.
-- `StreamId` and `Version` are newtypes, here the wrapped type itself. `Version`'s arithmetic is on
-- `u64`, which wraps in a release build.
use composable_rust.Prelude.{
  ℕ, String, Bool, Result, ok, err, str_eq, if◌then◌else◌, ◌==◌, word_add, word_sub,
}

abbrev pub StreamId : Type 0
StreamId = String

pub data ParseStreamIdError : Type 0 where
  invalid : String → ParseStreamIdError

-- `FromStr for StreamId`
unfoldable pub from_str : String → Result StreamId ParseStreamIdError
from_str s = if str_eq s "" then err (invalid "Stream ID cannot be empty") else ok s

abbrev pub Version : Type 0
Version = ℕ

abbrev pub initial : Version
initial = 0

unfoldable pub next : Version → Version
next v = word_add v 1

unfoldable pub is_initial : Version → Bool
is_initial v = v == 0

-- `Add<u64>`
unfoldable pub add : Version → ℕ → Version
add v n = word_add v n

-- `Sub<u64>`
unfoldable pub sub : Version → ℕ → Version
sub v n = word_sub v n
