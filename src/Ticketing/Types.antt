-- ===== src/Ticketing/Types.antt =====
-- examples/ticketing/src/types.rs: identifiers, inventories, seats and the inventory's state.
-- An identifier wraps a UUID, which is the number that its bytes read as; UUIDs compare like these
-- numbers. A time is a number of nanoseconds, a section one event's section by name.
use composable_rust.Prelude.{
  ℕ, String, Bool, true, false, Option, none, some, List, [], ◌+◌, ◌-◌, ◌%◌, leb, u32_size,
  number_key, pair_key,
}
use composable_rust.Prelude.Dict
use composable_rust.Core.Stream.{Version}

abbrev pub EventId : Type 0
EventId = ℕ

abbrev pub SeatId : Type 0
SeatId = ℕ

abbrev pub ReservationId : Type 0
ReservationId = ℕ

abbrev pub CustomerId : Type 0
CustomerId = ℕ

abbrev pub SeatNumber : Type 0
SeatNumber = String

-- A `u32`.
abbrev pub Capacity : Type 0
Capacity = ℕ

abbrev pub DateTime : Type 0
DateTime = ℕ

-- The key `(EventId, String)`.
abbrev pub Section : Type 0
Section = EventId × String

-- `+=` and `-` on `u32`, as in a release build.
abbrev pub u32_add : ℕ → ℕ → ℕ
u32_add a b = (a + b) % u32_size

abbrev pub u32_sub : ℕ → ℕ → ℕ
u32_sub a b = (a + u32_size - b) % u32_size

pub record Inventory : Type 0 where
  pub event_id : EventId
  pub section : String
  pub total_capacity : Capacity
  pub reserved : ℕ
  pub sold : ℕ

-- `Inventory::new`
abbrev pub new_inventory : EventId → String → Capacity → Inventory
new_inventory e s c = record {
  event_id = e;
  section = s;
  total_capacity = c;
  reserved = 0;
  sold = 0;
}

unfoldable pub available : Inventory → ℕ
available i = u32_sub (u32_sub i.total_capacity i.reserved) i.sold

unfoldable pub has_availability : Inventory → ℕ → Bool
unfolding available
has_availability i quantity = leb quantity (available i)

pub data SeatStatus : Type 0 where
  available_seat : SeatStatus
  reserved_until : (expires_at : DateTime) → SeatStatus
  sold_seat : SeatStatus
  held : SeatStatus

-- `status == SeatStatus::Available`
abbrev pub is_available : SeatStatus → Bool
is_available available_seat = true
is_available (reserved_until _) = false
is_available sold_seat = false
is_available held = false

pub record SeatAssignment : Type 0 where
  pub seat_id : SeatId
  pub event_id : EventId
  pub section : String
  pub seat_number : Option SeatNumber
  pub status : SeatStatus
  pub reserved_by : Option ReservationId
  pub sold_to : Option CustomerId

-- `SeatAssignment::new`
abbrev pub new_seat : SeatId → EventId → String → Option SeatNumber → SeatAssignment
new_seat id e s n = record {
  seat_id = id;
  event_id = e;
  section = s;
  seat_number = n;
  status = available_seat;
  reserved_by = none;
  sold_to = none;
}

pub data LoadingState : Type 0 where
  not_loaded : LoadingState
  loading : LoadingState
  loaded : LoadingState

abbrev pub is_loaded_state : LoadingState → Bool
is_loaded_state not_loaded = false
is_loaded_state loading = false
is_loaded_state loaded = true

abbrev pub Inventories : Type 0
Inventories = List (Section × Inventory)

abbrev pub Seats : Type 0
Seats = List (SeatId × SeatAssignment)

abbrev pub LoadingStates : Type 0
LoadingStates = List (Section × LoadingState)

-- `Error` is the type of the texts of errors.
pub record InventoryState (Error : Type 0) : Type 0 where
  pub inventories : Inventories
  pub seat_assignments : Seats
  pub loading_states : LoadingStates
  pub last_error : Option Error
  pub version : Version

module _ {Error : Type 0} where
  -- `InventoryState::new`
  unfoldable pub new_state : InventoryState Error
  new_state = record {
    inventories = [];
    seat_assignments = [];
    loading_states = [];
    last_error = none;
    version = 0;
  }

  unfoldable pub is_loaded : InventoryState Error → Section → Bool
  unfolding Dict.get
  is_loaded state k = elim (Dict.get k state.loading_states) [
    | none ↦ false
    | some l ↦ is_loaded_state l
  ]

  unfoldable pub mark_loading : Section → InventoryState Error → InventoryState Error
  mark_loading k state = record state {
    loading_states = Dict.insert k loading state.loading_states;
  }

  unfoldable pub mark_loaded : Section → InventoryState Error → InventoryState Error
  mark_loaded k state = record state { loading_states = Dict.insert k loaded state.loading_states }

  unfoldable pub get_inventory : InventoryState Error → Section → Option Inventory
  get_inventory state k = Dict.get k state.inventories

  unfoldable pub get_seat : InventoryState Error → SeatId → Option SeatAssignment
  get_seat state id = Dict.get id state.seat_assignments
