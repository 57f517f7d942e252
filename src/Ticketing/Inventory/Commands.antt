-- ===== src/Ticketing/Inventory/Commands.antt =====
-- examples/ticketing/src/aggregates/inventory.rs: every command keeps the inventory consistent.
use composable_rust.Prelude.{
  u32_size, ℕ, not, Option, none, some, List, ◌≡◌, ◌+◌, ◌<◌, ok, arith, length, pair_key,
  number_key, inl, inr, Option-cases, is_empty, if_both, if_cases, Option_both, Result_both, subst,
  sym, refl,
}
use composable_rust.Prelude.Dict
use composable_rust.Prelude.Entries.{Unique}
use composable_rust.Ticketing.Types.{
  ReservationId, CustomerId, Section, Capacity, DateTime, SeatNumber, is_loaded, get_inventory,
}
use composable_rust.Ticketing.Inventory.{
  State, validate_initialize_inventory, validate_reserve_seats, select_available_seats,
  find_seats_by_reservation, find_reservation_location, apply_event,
}
use composable_rust.Ticketing.Inventory.Actions.{
  InventoryError, serialization_failed, no_seats, no_location, inventory_initialized,
  seats_reserved, validation_failed, InventoryEnvironment,
}
use composable_rust.Ticketing.Inventory.Reduce.{
  InventoryEffects, initialize, reserve, refuse, confirm, release,
}
use composable_rust.Ticketing.Inventory.SeatCounts.{OwnKeys, free, taken, gone}
use composable_rust.Ticketing.Inventory.Invariant.{Consistent, Exact, InOneSection, Holders}
use composable_rust.Ticketing.Inventory.Reserving.{OnlyIn, seats_reserved-Consistent}
use composable_rust.Ticketing.Inventory.Settled.{
  seats_confirmed-Consistent, seats_released-Consistent,
}
use composable_rust.Ticketing.Inventory.Loading.{Fresh}
use composable_rust.Ticketing.Inventory.Initialized.{inventory_initialized-Consistent}

-- Only the seats and the inventories matter.
pub same_seats-Consistent :
    (s s' : State)
    → s'.seat_assignments ≡ s.seat_assignments
    → s'.inventories ≡ s.inventories
    → Consistent s
    → Consistent s'
same_seats-Consistent s s' h g c = record {
  unique = subst Unique (sym h) c.unique;
  own = subst OwnKeys (sym h) c.own;
  holders = subst Holders (sym h) c.holders;
  one_section = λ r. subst (InOneSection r) (sym h) (c.one_section r);
  exact = λ k i found.
      subst (Exact k i) (sym h) (c.exact k i (subst (λ x. Dict.get k x ≡ some i) g found));
  unlisted = λ k missing.
      subst (λ m. free k m + taken k m + gone k m ≡ 0) (sym h)
        (c.unlisted k (subst (λ x. Dict.get k x ≡ none) g missing));
}

-- After a validation or a serialization has failed.
pub failed-Consistent :
    (s : State) (error : InventoryError)
    → Consistent s
    → Consistent (apply_event s (validation_failed error))
unfolding apply_event
failed-Consistent s error c = same_seats-Consistent s _ refl refl c

valid_unknown :
    (s : State) (key : Section) (capacity : Capacity) (u : Unit {0})
    → validate_initialize_inventory s key capacity ≡ ok u
    → Dict.get key s.inventories ≡ none
unfolding validate_initialize_inventory
valid_unknown s key capacity u valid = elim (Option-cases (Dict.get key s.inventories)) [
  | inl missing ↦ missing
  | inr (i, there) ↦ absurd (ground (arith, there, valid))
]

module _ (env : InventoryEnvironment) (s : State) (c : Consistent s) where
  abbrev pub Fine : State × InventoryEffects → Type 0
  Fine result = Consistent result.0

  pub initialize-Consistent :
      (key : Section) (capacity : Capacity)
      → Fresh (env.new_seat_ids capacity) s.seat_assignments
      → length (env.new_seat_ids capacity) ≡ capacity
      → capacity < u32_size
      → Fine (initialize env s key capacity)
  unfolding initialize
  initialize-Consistent key capacity fresh as_many small =
      Result_both Fine (validate_initialize_inventory s key capacity) _ _
        (λ _ valid.
          let event = inventory_initialized key capacity (env.new_seat_ids capacity) env.now in
          let after : Consistent (apply_event s event) =
            subst
              (λ n.
                Consistent
                  (apply_event s (inventory_initialized key n (env.new_seat_ids capacity) env.now)))
              as_many
              (inventory_initialized-Consistent s key (env.new_seat_ids capacity) env.now c
                (valid_unknown s key capacity _ valid) fresh (omega (arith, as_many, small))) in
          Result_both Fine (env.serialize event) _ _ (λ _ _. after)
            (λ e _. failed-Consistent (apply_event s event) (serialization_failed e) after))
        (λ error _. failed-Consistent s error c)

  refuse-Consistent :
      (key : Section) (quantity : ℕ) (error : InventoryError)
      → Consistent (refuse env s key quantity error)
  unfolding refuse
  refuse-Consistent key quantity error =
      let failed = failed-Consistent s error c in
      if_both Consistent (env.contains_insufficient error) _ _
        (Option_both Consistent (get_inventory (apply_event s (validation_failed error)) key) _ _
          (λ _. failed)
          (λ i _.
            same_seats-Consistent (apply_event s (validation_failed error)) _ refl refl failed))
        failed

  pub reserve-Consistent :
      (r : ReservationId) (key : Section) (quantity : ℕ) (seats : Option (List SeatNumber))
      (t : DateTime)
      → OnlyIn key r s.seat_assignments
      → Fine (reserve env s r key quantity seats t)
  unfolding reserve
  reserve-Consistent r key quantity seats t only_here =
      if_both Fine (not (is_loaded s key)) _ _ (same_seats-Consistent s _ refl refl c) (
        Result_both Fine (validate_reserve_seats s key quantity) _ _
          (λ _ _.
            let event = seats_reserved r key (select_available_seats s key quantity) t env.now in
            let after = seats_reserved-Consistent s r key quantity t env.now c only_here in
            Result_both Fine (env.serialize event) _ _ (λ _ _. after)
              (λ e _. failed-Consistent (apply_event s event) (serialization_failed e) after))
          (λ error _. refuse-Consistent key quantity error))

  pub confirm-Consistent : (r : ReservationId) (x : CustomerId) → Fine (confirm env s r x)
  unfolding confirm
  confirm-Consistent r x =
      if_cases Fine (is_empty (find_seats_by_reservation s r)) _ _
        (λ _. failed-Consistent s (no_seats r) c)
        (λ some_seats.
          Option_both Fine (find_reservation_location s r) _ _
            (λ _. failed-Consistent s (no_location r) c)
            (λ key _. seats_confirmed-Consistent s r key x env.now c some_seats))

  pub release-Consistent : (r : ReservationId) → Fine (release env s r)
  unfolding release
  release-Consistent r =
      if_cases Fine (is_empty (find_seats_by_reservation s r)) _ _ (λ _. c)
        (λ some_seats.
          Option_both Fine (find_reservation_location s r) _ _ (λ _. c)
            (λ key _. seats_released-Consistent s r key env.now c some_seats))
