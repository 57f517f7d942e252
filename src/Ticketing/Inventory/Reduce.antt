-- ===== src/Ticketing/Inventory/Reduce.antt =====
-- examples/ticketing/src/aggregates/inventory.rs: `reduce`, which gives the new state and the
-- effects.
use composable_rust.Prelude.{
  ℕ, not, Option, none, some, List, [], ◌∷◌, Result, ok, err, ltb, ◌-◌, ◌*◌, ◌/◌, if◌then◌else◌,
  is_empty, String,
}
use composable_rust.Core.Effect.{
  Effect, cons, nil, sequential, future, delay, event_store, publish_event, append_events, publish,
}
use composable_rust.Core.Event.{SerializedEvent}
use composable_rust.Core.Stream.{Version}
use composable_rust.Ticketing.Types.{
  ReservationId, CustomerId, Capacity, DateTime, Section, available, is_loaded, mark_loading,
  get_inventory, SeatAssignment,
}
use composable_rust.Ticketing.Inventory.Actions.{
  Counts, InventoryError, no_seats, no_location, sections_failed, section_failed, total_failed,
  serialization_failed, store_failed, bus_failed, InventoryAction, initialize_inventory,
  reserve_seats, confirm_reservation, release_reservation, expire_reservation, get_all_sections,
  get_section_availability, get_total_available, inventory_initialized, seats_reserved,
  seats_confirmed, seats_released, insufficient_inventory, validation_failed,
  inventory_state_loaded, all_sections_queried, section_availability_queried,
  total_available_queried, version_updated, InventoryEnvironment,
}
use composable_rust.Ticketing.Inventory.{
  State, validate_initialize_inventory, validate_reserve_seats, select_available_seats,
  find_seats_by_reservation, find_reservation_location, apply_event,
}

abbrev pub InventoryEffects : Type 0
InventoryEffects = List (Effect InventoryAction)

-- A chrono duration's `num_seconds`, and `Duration::from_secs` in milliseconds.
abbrev pub timeout_duration : (expires_at now : DateTime) → ℕ
timeout_duration expires_at now =
    if ltb now expires_at then ((expires_at - now) / 1000000000) * 1000 else 0

-- `append_events!`
unfoldable pub append_effect :
    SerializedEvent → Version → InventoryEnvironment → Effect InventoryAction
append_effect serialized expected_version env = event_store (
    append_events env.event_store env.stream_id (some expected_version) (serialized ∷ []) none
      (λ version. some (version_updated version))
      (λ error. some (validation_failed (store_failed error))))

-- `publish_event!`
unfoldable pub publish_effect : SerializedEvent → InventoryEnvironment → Effect InventoryAction
publish_effect serialized env = publish_event (
    publish env.event_bus "inventory" serialized (λ _. none)
      (λ error. some (validation_failed (bus_failed error))))

unfoldable pub create_effects : InventoryAction → Version → InventoryEnvironment → InventoryEffects
unfolding append_effect publish_effect
create_effects event expected_version env = elim (env.serialize event) [
  | err _ ↦ []
  | ok serialized ↦
      append_effect serialized expected_version env ∷ publish_effect serialized env ∷ []
]

-- What the future that loads the section resolves to.
abbrev pub state_loaded :
    Section → Result (Option (Counts × List SeatAssignment)) String → InventoryAction
state_loaded key (err _) = inventory_state_loaded key none []
state_loaded key (ok none) = inventory_state_loaded key none []
state_loaded key (ok (some (counts, seats))) = inventory_state_loaded key (some counts) seats

-- Load the section, then give the command back.
unfoldable pub load_then_retry :
    Section → InventoryAction → InventoryEnvironment → Effect InventoryAction
load_then_retry key original_command env = sequential (
    cons (future (some (state_loaded key (env.projection.load_inventory key))))
      (cons (future (some original_command)) nil))

unfoldable pub initialize :
    InventoryEnvironment → State → Section → Capacity → State × InventoryEffects
unfolding validate_initialize_inventory apply_event append_effect publish_effect
initialize env state key capacity = elim (validate_initialize_inventory state key capacity) [
  | err error ↦ (apply_event state (validation_failed error), [])
  | ok _ ↦
      let event = inventory_initialized key capacity (env.new_seat_ids capacity) env.now in
      let state' = apply_event state event in
      elim (env.serialize event) [
        | err e ↦ (apply_event state' (validation_failed (serialization_failed e)), [])
        | ok serialized ↦ (
          state',
          append_effect serialized state.version env ∷ publish_effect serialized env ∷ [],
        )
      ]
]

-- What is done with a reservation that was refused.
unfoldable pub refuse :
    InventoryEnvironment → State → Section → (quantity : ℕ) → InventoryError → State
unfolding apply_event get_inventory
refuse env state key quantity error =
    let failed = apply_event state (validation_failed error) in
    if env.contains_insufficient error
    then elim (get_inventory failed key) [
      | none ↦ failed
      | some inventory ↦
          apply_event failed (insufficient_inventory key quantity (available inventory))
    ]
    else failed

unfoldable pub reserve :
    InventoryEnvironment
    → State
    → ReservationId
    → Section
    → (quantity : ℕ) → Option (List String)
    → DateTime
    → State × InventoryEffects
unfolding is_loaded mark_loading load_then_retry validate_reserve_seats refuse apply_event
    select_available_seats append_effect publish_effect
reserve env state r key quantity specific_seats expires_at =
    if not (is_loaded state key)
    then (
      mark_loading key state,
      load_then_retry key (reserve_seats r key quantity specific_seats expires_at) env ∷ [],
    )
    else elim (validate_reserve_seats state key quantity) [
      | err error ↦ (refuse env state key quantity error, [])
      | ok _ ↦
          let seats = select_available_seats state key quantity in
          let event = seats_reserved r key seats expires_at env.now in
          let state' = apply_event state event in
          elim (env.serialize event) [
            | err e ↦ (apply_event state' (validation_failed (serialization_failed e)), [])
            | ok serialized ↦ (
              state',
              append_effect serialized state.version env
                  ∷ publish_effect serialized env
                  ∷ delay (timeout_duration expires_at env.later) (expire_reservation r)
                  ∷ [],
            )
          ]
    ]

unfoldable pub confirm :
    InventoryEnvironment → State → ReservationId → CustomerId → State × InventoryEffects
unfolding find_seats_by_reservation find_reservation_location apply_event create_effects
confirm env state r customer_id =
    let seats = find_seats_by_reservation state r in
    if is_empty seats
    then (apply_event state (validation_failed (no_seats r)), [])
    else elim (find_reservation_location state r) [
      | none ↦ (apply_event state (validation_failed (no_location r)), [])
      | some key ↦
          let event = seats_confirmed r key customer_id seats env.now in
          (apply_event state event, create_effects event state.version env)
    ]

-- `ReleaseReservation` and `ExpireReservation`, which have the same body.
unfoldable pub release : InventoryEnvironment → State → ReservationId → State × InventoryEffects
unfolding find_seats_by_reservation find_reservation_location apply_event create_effects
release env state r =
    let seats = find_seats_by_reservation state r in
    if is_empty seats then (state, []) else elim (find_reservation_location state r) [
      | none ↦ (state, [])
      | some key ↦
          let event = seats_released r key seats env.now in
          (apply_event state event, create_effects event state.version env)
    ]

-- What the future of a query resolves to.
abbrev pub query :
    {T : Type 0}
    → Result T String
    → (T → InventoryAction)
    → (String → InventoryError)
    → InventoryEffects
query (ok t) queried failed = future (some (queried t)) ∷ []
query (err e) queried failed = future (some (validation_failed (failed e))) ∷ []

unfoldable pub reduce : State → InventoryAction → InventoryEnvironment → State × InventoryEffects
unfolding initialize reserve confirm release apply_event
reduce state (initialize_inventory key capacity _) env = initialize env state key capacity
reduce state (reserve_seats r key quantity specific_seats expires_at) env =
    reserve env state r key quantity specific_seats expires_at
reduce state (confirm_reservation r customer_id) env = confirm env state r customer_id
reduce state (release_reservation r) env = release env state r
reduce state (expire_reservation r) env = release env state r
reduce state (get_all_sections e) env =
    (state, query (env.projection.all_sections e) (all_sections_queried e) sections_failed)
reduce state (get_section_availability key) env = (
  state,
  query (env.projection.section_availability key) (section_availability_queried key) section_failed,
)
reduce state (get_total_available e) env =
    (state, query (env.projection.total_available e) (total_available_queried e) total_failed)
reduce state event env = (apply_event state event, [])
