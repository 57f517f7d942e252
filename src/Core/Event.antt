-- ===== src/Core/Event.antt =====
-- core/src/event.rs: serialized events and their metadata.
-- Bytes are numbers. `event_version` is an `i32`, which nothing here computes with.
use composable_rust.Prelude.{ℕ, String, List, Option, none, some}

pub record EventMetadata : Type 0 where
  pub correlation_id : Option String
  pub causation_id : Option String
  pub user_id : Option String
  pub timestamp : Option String

-- `EventMetadata::new`
abbrev pub no_metadata : EventMetadata
no_metadata = record {
  correlation_id = none;
  causation_id = none;
  user_id = none;
  timestamp = none;
}

abbrev pub with_correlation_id : String → EventMetadata
with_correlation_id c = record {
  correlation_id = some c;
  causation_id = none;
  user_id = none;
  timestamp = none;
}

-- `negative n` is -(n + 1).
pub data I32 : Type 0 where
  nonnegative : ℕ → I32
  negative : ℕ → I32

pub record SerializedEvent : Type 0 where
  pub event_type : String
  pub event_version : I32
  pub bytes : List ℕ
  pub metadata : Option EventMetadata
