-- ===== src/Ticketing/Inventory/Refusals.antt =====
-- examples/ticketing/src/aggregates/inventory.rs: which seats are selected, what a refusal does,
-- and what loading a section does.
use composable_rust.Prelude.{
  ℕ, false, none, ◌<◌, true, false, not, Option, some, List, [], ◌∷◌, ◌≡◌, ◌≤◌, err, arith,
  pair_key, number_key, refl, sym, ◌∙◌, ap, ap₂, both_same_iff, take, if_both, if_cases,
  Option_both, Result_both, ◌&&◌, err_injective,
}
use mathlib.Core.List.{Perm}
use composable_rust.Prelude.Dict
use composable_rust.Prelude.Dict.{get-adjust, get-insert}
use composable_rust.Prelude.Sort.{sort-filter-Perm}
use composable_rust.Ticketing.Types.{
  ReservationId, Section, DateTime, is_loaded, get_inventory, is_available, SeatNumber,
  mark_loading, loading, Inventory, available,
}
use composable_rust.Ticketing.Inventory.{
  State, validate_reserve_seats, select_available_seats, apply_event, in_section,
}
use composable_rust.Ticketing.Inventory.Actions.{
  InventoryError, reserve_seats, validation_failed, InventoryEnvironment, zero_quantity,
  too_many_seats, not_found, insufficient,
}
use composable_rust.Ticketing.Inventory.Reduce.{reduce, reserve, refuse, load_then_retry}

-- The seats that are selected do not depend on the order in which the map iterates.
pub select_available_seats-perm :
    (s s' : State) (key : Section) (quantity : ℕ)
    → Perm s.seat_assignments s'.seat_assignments
    → select_available_seats s key quantity ≡ select_available_seats s' key quantity
unfolding select_available_seats
select_available_seats-perm s s' key quantity same =
    ap (take quantity) (
      sort-filter-Perm (λ e. in_section key e.1 && is_available e.1.status) (λ e. e.1.seat_id) same)

-- The event `InsufficientInventory` changes nothing, so a refusal only reports its error.
refuse_lem :
    (env : InventoryEnvironment) (s : State) (key : Section) (quantity : ℕ) (error : InventoryError)
    → refuse env s key quantity error ≡ record s { last_error = some error }
unfolding refuse
refuse_lem env s key quantity error =
    if_both (λ x. x ≡ record s { last_error = some error }) (env.contains_insufficient error) _ _
      (Option_both (λ x. x ≡ record s { last_error = some error })
        (get_inventory (apply_event s (validation_failed error)) key) _ _ (λ _. refl) (λ i _. refl))
      refl

-- A reservation whose validation fails reports the error, and changes and does nothing else.
reserve_invalid :
    (env : InventoryEnvironment) (s : State) (r : ReservationId) (key : Section) (quantity : ℕ)
    (seats : Option (List SeatNumber)) (t : DateTime) (error : InventoryError)
    → is_loaded s key ≡ true
    → validate_reserve_seats s key quantity ≡ err error
    → reduce s (reserve_seats r key quantity seats t) env
      ≡ (record s { last_error = some error }, [])
unfolding reduce reserve refuse apply_event
reserve_invalid env s r key quantity seats t error is_there refused =
    if_cases (λ p. p ≡ (record s { last_error = some error }, [])) (not (is_loaded s key)) _ _
      (λ h. absurd (ground (arith, h, is_there)))
      (λ _.
        Result_both (λ p. p ≡ (record s { last_error = some error }, []))
          (validate_reserve_seats s key quantity) _ _
          (λ u valid. absurd (ground (arith, valid, refused)))
          (λ e invalid.
            ap₂ (λ x y. (x, y))
              (refuse_lem env s key quantity e
                ∙ ap (λ x. record s { last_error = some x })
                    (err_injective (sym invalid ∙ refused)))
              refl))

-- In a section that is loaded, these reservations are refused, with these errors: of no seats, of more
-- than 8, of 1 to 8 in a section that is not known, and of 1 to 8 when fewer are available. Refused
-- means that the error is the last error of the state, and that nothing else changes and no effect
-- is returned, whether or not the error's text is taken for one of too few seats.
pub reserve_refused :
    (env : InventoryEnvironment) (s : State) (r : ReservationId) (key : Section) (quantity : ℕ)
    (seats : Option (List SeatNumber)) (t : DateTime)
    → is_loaded s key ≡ true
    → let result = reduce s (reserve_seats r key quantity seats t) env in
      (quantity ≡ 0 → result ≡ (record s { last_error = some zero_quantity }, []))
      × (8 < quantity → result ≡ (record s { last_error = some (too_many_seats quantity) }, []))
      × (1 ≤ quantity
          → quantity ≤ 8
          → get_inventory s key ≡ none
          → result ≡ (record s { last_error = some (not_found key) }, []))
      × ((i : Inventory)
          → 1 ≤ quantity
          → quantity ≤ 8
          → get_inventory s key ≡ some i
          → available i < quantity
          → result ≡ (record s { last_error = some (insufficient quantity (available i)) }, []))
unfolding validate_reserve_seats
reserve_refused env s r key quantity seats t is_there =
    let refused =
      λ (error : InventoryError) (h : validate_reserve_seats s key quantity ≡ err error).
        reserve_invalid env s r key quantity seats t error is_there h in
    (
      λ zero. refused zero_quantity (ground (arith, zero)),
      λ many. refused (too_many_seats quantity) (ground (arith, many)),
      λ positive small missing. refused (not_found key) (ground (arith, positive, small, missing)),
      λ i positive small found few.
          refused (insufficient quantity (available i))
            (ground (arith, positive, small, found, few)),
    )

-- The first reservation in a section that is not loaded, and every one until it is, asks for the
-- section again.
reserve_unloaded :
    (env : InventoryEnvironment) (s : State) (r : ReservationId) (key : Section) (quantity : ℕ)
    (seats : Option (List SeatNumber)) (t : DateTime)
    → is_loaded s key ≡ false
    → (reduce s (reserve_seats r key quantity seats t) env
        ≡ (mark_loading key s, load_then_retry key (reserve_seats r key quantity seats t) env ∷ []))
      × (is_loaded (mark_loading key s) key ≡ false)
unfolding reduce reserve is_loaded mark_loading
reserve_unloaded env s r key quantity seats t not_loaded = (
  if_cases
      (λ p.
        p
        ≡ (mark_loading key s, load_then_retry key (reserve_seats r key quantity seats t) env ∷ []))
      (not (is_loaded s key)) _ _ (λ _. refl) (λ h. absurd (ground (arith, h, not_loaded))),
  ground (arith, get-insert key key loading s.loading_states, (both_same_iff key key).1 refl),
)
