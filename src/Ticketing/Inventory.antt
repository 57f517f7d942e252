-- ===== src/Ticketing/Inventory.antt =====
-- examples/ticketing/src/aggregates/inventory.rs: the reducer of the inventory.
pub mod Actions
pub mod Reduce
pub mod SeatCounts
pub mod Marking
pub mod Invariant
pub mod Reserving
pub mod Settling
pub mod Settled
pub mod Loading
pub mod Loaded
pub mod Initialized
pub mod Commands
pub mod Overselling
pub mod Reservations
pub mod Refusals
pub mod Freeing
pub mod Releases
mod Tests
use composable_rust.Prelude.{
  u32_size, ℕ, zero, suc, Bool, true, false, Option, none, some, List, [], ◌∷◌, map, Result, ok,
  err, ◌==◌, ltb, ◌&&◌, ◌-◌, ◌+◌, ◌*◌, ◌/◌, ◌%◌, if◌then◌else◌, length, take, filter, is_empty,
  str_eq, number_key, pair_key,
}
use composable_rust.Prelude.Dict
use composable_rust.Prelude.Sort
use composable_rust.Core.Effect.{
  Effect, Effects, cons, nil, sequential, future, delay, event_store, publish_event, append_events,
  publish,
}
use composable_rust.Core.Stream.{Version}
use composable_rust.Ticketing.Types.{
  SeatId, ReservationId, CustomerId, Capacity, DateTime, Section, Inventory, Inventories,
  new_inventory, available, SeatStatus, available_seat, reserved_until, sold_seat, is_available,
  SeatAssignment, Seats, new_seat, InventoryState, is_loaded, mark_loading, mark_loaded,
  get_inventory, u32_add,
}
use Actions.*

abbrev pub State : Type 0
State = InventoryState InventoryError

-- `a.saturating_sub(b)`
abbrev pub saturating_sub : ℕ → ℕ → ℕ
saturating_sub a b = a - b

-- `seats.len() as u32`
abbrev pub seat_count : List SeatId → ℕ
seat_count seats = length seats % u32_size

unfoldable pub validate_initialize_inventory :
    State → Section → Capacity → Result (Unit {0}) InventoryError
unfolding get_inventory Dict.get
validate_initialize_inventory state key capacity = elim (get_inventory state key) [
  | some _ ↦ err (already_exists key)
  | none ↦ if capacity == 0 then err zero_capacity else ok tt
]

unfoldable pub validate_reserve_seats :
    State → Section → (quantity : ℕ) → Result (Unit {0}) InventoryError
unfolding get_inventory Dict.get available
validate_reserve_seats state key quantity =
    if quantity == 0
    then err zero_quantity
    else if ltb 8 quantity
    then err (too_many_seats quantity)
    else elim (get_inventory state key) [
      | none ↦ err (not_found key)
      | some inventory ↦
          if ltb (available inventory) quantity
          then err (insufficient quantity (available inventory))
          else ok tt
    ]

abbrev pub in_section : Section → SeatAssignment → Bool
in_section key seat = seat.event_id == key.0 && str_eq seat.section key.1

abbrev pub reserved_for : ReservationId → SeatAssignment → Bool
reserved_for r seat = elim seat.reserved_by [ none ↦ false | some q ↦ q == r ]

-- The entries of the map, in the order in which it iterates, give the seats by their values.
unfoldable pub select_available_seats : State → Section → (quantity : ℕ) → List SeatId
select_available_seats state key quantity = take quantity (
    Sort.sort (
      map (λ e. e.1.seat_id)
        (filter (λ e. in_section key e.1 && is_available e.1.status) state.seat_assignments)))

unfoldable pub find_seats_by_reservation : State → ReservationId → List SeatId
find_seats_by_reservation state r =
    map (λ e. e.1.seat_id) (filter (λ e. reserved_for r e.1) state.seat_assignments)

unfoldable pub first_reserved_for : ReservationId → Seats → Option Section
first_reserved_for r [] = none
first_reserved_for r (e ∷ m) =
    if reserved_for r e.1 then some (e.1.event_id, e.1.section) else first_reserved_for r m

unfoldable pub find_reservation_location : State → ReservationId → Option Section
unfolding first_reserved_for
find_reservation_location state r = first_reserved_for r state.seat_assignments

-- `for seat_id in seats { if let Some(seat) = seat_assignments.get_mut(seat_id) { .. } }`
unfoldable pub mark_seats : (SeatAssignment → SeatAssignment) → List SeatId → Seats → Seats
unfolding Dict.adjust
mark_seats f [] m = m
mark_seats f (id ∷ seats) m = mark_seats f seats (Dict.adjust id f m)

abbrev pub reserve_seat : ReservationId → DateTime → SeatAssignment → SeatAssignment
reserve_seat r expires_at seat = record seat {
  status = reserved_until expires_at;
  reserved_by = some r;
}

abbrev pub sell_seat : CustomerId → SeatAssignment → SeatAssignment
sell_seat c seat = record seat { status = sold_seat; sold_to = some c; reserved_by = none }

abbrev pub free_seat : SeatAssignment → SeatAssignment
free_seat seat = record seat { status = available_seat; reserved_by = none }

abbrev pub add_reserved : ℕ → Inventory → Inventory
add_reserved n i = record i { reserved = u32_add i.reserved n }

abbrev pub confirm_reserved : ℕ → Inventory → Inventory
confirm_reserved n i = record i { reserved = saturating_sub i.reserved n; sold = u32_add i.sold n }

abbrev pub release_reserved : ℕ → Inventory → Inventory
release_reserved n i = record i { reserved = saturating_sub i.reserved n }

-- The inventory that the first of the seats belongs to, if there is one.
unfoldable pub adjust_first :
    (Inventory → Inventory) → List SeatId → Seats → Inventories → Inventories
unfolding Dict.get Dict.adjust
adjust_first f [] m inventories = inventories
adjust_first f (first ∷ _) m inventories = elim (Dict.get first m) [
  | none ↦ inventories
  | some seat ↦ Dict.adjust (seat.event_id, seat.section) f inventories
]

unfoldable pub create_seats : Section → List SeatId → Seats → Seats
unfolding Dict.insert
create_seats key [] m = m
create_seats key (id ∷ seats) m =
    create_seats key seats (Dict.insert id (new_seat id key.0 key.1 none) m)

unfoldable pub load_seats : List SeatAssignment → Seats → Seats
unfolding Dict.insert
load_seats [] m = m
load_seats (seat ∷ seats) m = load_seats seats (Dict.insert seat.seat_id seat m)

-- The inventory that is reconstructed from the counts of the projection.
abbrev pub loaded_inventory : Section → Counts → Inventory
loaded_inventory key (total, reserved, sold, _) = record (new_inventory key.0 key.1 total) {
  reserved = reserved;
  sold = sold;
}

unfoldable pub apply_event : State → InventoryAction → State
unfolding Dict.insert Dict.adjust mark_seats adjust_first create_seats load_seats mark_loaded
apply_event state (inventory_initialized key capacity seats _) = record state {
  inventories = Dict.insert key (new_inventory key.0 key.1 capacity) state.inventories;
  seat_assignments = create_seats key seats state.seat_assignments;
  last_error = none;
}
apply_event state (seats_reserved r key seats expires_at _) = record state {
  inventories = Dict.adjust key (add_reserved (seat_count seats)) state.inventories;
  seat_assignments = mark_seats (reserve_seat r expires_at) seats state.seat_assignments;
  last_error = none;
}
apply_event state (seats_confirmed _ _ customer_id seats _) = record state {
  inventories =
      adjust_first (confirm_reserved (seat_count seats)) seats state.seat_assignments
        state.inventories;
  seat_assignments = mark_seats (sell_seat customer_id) seats state.seat_assignments;
  last_error = none;
}
apply_event state (seats_released _ _ seats _) = record state {
  inventories =
      adjust_first (release_reserved (seat_count seats)) seats state.seat_assignments
        state.inventories;
  seat_assignments = mark_seats free_seat seats state.seat_assignments;
  last_error = none;
}
apply_event state (validation_failed error) = record state { last_error = some error }
apply_event state (inventory_state_loaded key inventory_data seats) =
    let marked = mark_loaded key state in
    elim inventory_data [
      | some counts ↦ record marked {
        inventories = Dict.insert key (loaded_inventory key counts) state.inventories;
        seat_assignments = load_seats seats state.seat_assignments;
        last_error = none;
      }
      | none ↦ record marked { last_error = none }
    ]
apply_event state (version_updated version) = record state { version = version }
apply_event state _ = state
