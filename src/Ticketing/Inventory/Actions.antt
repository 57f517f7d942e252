-- ===== src/Ticketing/Inventory/Actions.antt =====
-- examples/ticketing/src/aggregates/inventory.rs: the actions of the inventory and its environment.
-- An error's text is what it is formatted from. Queries of the projection, serialization and the
-- texts of errors are the environment's: a query is what its future resolves to.
use composable_rust.Prelude.{ℕ, String, Bool, Option, List, Result}
use composable_rust.Core.Event.{SerializedEvent}
use composable_rust.Core.EventStore.{EventStoreError}
use composable_rust.Core.Effect.{EventStoreRef, EventBusRef, EventBusError}
use composable_rust.Core.Stream.{StreamId, Version}
use composable_rust.Ticketing.Types.{
  EventId, SeatId, ReservationId, CustomerId, SeatNumber, Capacity, DateTime, Section,
  SeatAssignment,
}

pub data InventoryError : Type 0 where
  already_exists : Section → InventoryError
  zero_capacity : InventoryError
  zero_quantity : InventoryError
  too_many_seats : (quantity : ℕ) → InventoryError
  not_found : Section → InventoryError
  insufficient : (requested available : ℕ) → InventoryError
  no_seats : ReservationId → InventoryError
  no_location : ReservationId → InventoryError
  sections_failed : String → InventoryError
  section_failed : String → InventoryError
  total_failed : String → InventoryError
  serialization_failed : String → InventoryError
  store_failed : EventStoreError → InventoryError
  bus_failed : EventBusError → InventoryError

pub record SectionAvailabilityData : Type 0 where
  pub section : String
  pub total_capacity : ℕ
  pub reserved : ℕ
  pub sold : ℕ
  pub available : ℕ

-- (total_capacity, reserved, sold, available)
abbrev pub Counts : Type 0
Counts = ℕ × ℕ × ℕ × ℕ

-- The fields `event_id` and `section` of a variant, which always come together, are one `Section`.
pub data InventoryAction : Type 0 where
  initialize_inventory :
      (key : Section) (capacity : Capacity) (seat_numbers : Option (List SeatNumber))
      → InventoryAction
  reserve_seats :
      (reservation_id : ReservationId) (key : Section) (quantity : ℕ)
      (specific_seats : Option (List SeatNumber)) (expires_at : DateTime)
      → InventoryAction
  confirm_reservation : ReservationId → CustomerId → InventoryAction
  release_reservation : ReservationId → InventoryAction
  expire_reservation : ReservationId → InventoryAction
  get_all_sections : EventId → InventoryAction
  get_section_availability : Section → InventoryAction
  get_total_available : EventId → InventoryAction
  inventory_initialized :
      (key : Section) (capacity : Capacity) (seats : List SeatId) (initialized_at : DateTime)
      → InventoryAction
  seats_reserved :
      (reservation_id : ReservationId) (key : Section) (seats : List SeatId)
      (expires_at reserved_at : DateTime)
      → InventoryAction
  seats_confirmed :
      (reservation_id : ReservationId) (key : Section) (customer_id : CustomerId)
      (seats : List SeatId) (confirmed_at : DateTime)
      → InventoryAction
  seats_released :
      (reservation_id : ReservationId) (key : Section) (seats : List SeatId)
      (released_at : DateTime)
      → InventoryAction
  insufficient_inventory : (key : Section) (requested available : ℕ) → InventoryAction
  validation_failed : InventoryError → InventoryAction
  inventory_state_loaded :
      (key : Section) (inventory_data : Option Counts) (seat_assignments : List SeatAssignment)
      → InventoryAction
  all_sections_queried : EventId → List SectionAvailabilityData → InventoryAction
  section_availability_queried : Section → Option SectionAvailabilityData → InventoryAction
  total_available_queried : EventId → ℕ → InventoryAction
  version_updated : Version → InventoryAction

pub record InventoryProjectionQuery : Type 0 where
  pub load_inventory : Section → Result (Option (Counts × List SeatAssignment)) String
  pub all_sections : EventId → Result (List SectionAvailabilityData) String
  pub section_availability : Section → Result (Option SectionAvailabilityData) String
  pub total_available : EventId → Result ℕ String

-- `now` and `later` are what the two readings of the clock in one call give, and `new_seat_ids` the
-- identifiers that `SeatId::new` makes. `contains_insufficient` is `error.contains(..)`.
pub record InventoryEnvironment : Type 0 where
  pub now : DateTime
  pub later : DateTime
  pub new_seat_ids : ℕ → List SeatId
  pub event_store : EventStoreRef
  pub event_bus : EventBusRef
  pub stream_id : StreamId
  pub projection : InventoryProjectionQuery
  pub serialize : InventoryAction → Result SerializedEvent String
  pub contains_insufficient : InventoryError → Bool
