-- ===== src/Ticketing/Inventory/Reservations.antt =====
-- examples/ticketing/src/aggregates/inventory.rs: what a reservation that is accepted does.
use composable_rust.Prelude.{ℕ, [], ◌∷◌, pair_key, number_key}
use composable_rust.Prelude.Dict
use composable_rust.Prelude.Dict.{get-insert}
use composable_rust.Core.Event.{SerializedEvent}
use composable_rust.Core.Effect.{delay}
use composable_rust.Ticketing.Types.{ReservationId, Section, DateTime, Inventory}
use composable_rust.Ticketing.Inventory.{State, select_available_seats, apply_event}
use composable_rust.Ticketing.Inventory.Actions.{
  expire_reservation, seats_reserved, InventoryEnvironment,
}
use composable_rust.Ticketing.Inventory.Reduce.{
  append_effect, publish_effect, timeout_duration, InventoryEffects,
}

-- The state and the effects that an accepted reservation gives.
abbrev pub after_reservation :
    InventoryEnvironment
    → State
    → ReservationId
    → Section
    → ℕ
    → DateTime
    → SerializedEvent
    → State × InventoryEffects
after_reservation env s r key quantity t serialized = (
  apply_event s (seats_reserved r key (select_available_seats s key quantity) t env.now),
  append_effect serialized s.version env
      ∷ publish_effect serialized env
      ∷ delay (timeout_duration t env.later) (expire_reservation r)
      ∷ [],
)
