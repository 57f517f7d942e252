-- ===== src/Ticketing/Inventory/Releases.antt =====
-- examples/ticketing/src/aggregates/inventory.rs: a release undoes a reservation.
use composable_rust.Prelude.{
  ℕ, true, false, none, some, List, [], ◌∷◌, ◌≡◌, ◌≤◌, arith, length, pair_key, number_key,
  is_empty, refl, sym, ◌∙◌, ap, ap₂, map, All, subst, ==_iff, if_cases, Option_both,
}
use composable_rust.Prelude.Dict
use composable_rust.Prelude.Counts.{
  one, count, total-eq, total-map, mapped-All, zipped-All, All-map, All-unmap, map_back,
}
use composable_rust.Prelude.Entries.{rewritten, get-first, All-get, is_one_of, rewritten_undone}
use composable_rust.Ticketing.Types.{
  SeatId, ReservationId, Section, DateTime, Inventory, SeatAssignment, available, get_inventory,
  is_available,
}
use composable_rust.Ticketing.Inventory.{
  State, select_available_seats, find_seats_by_reservation, find_reservation_location, apply_event,
  reserve_seat, free_seat, in_section, reserved_for, mark_seats, add_reserved, release_reserved,
  seat_count, adjust_first,
}
use composable_rust.Ticketing.Inventory.Actions.{
  seats_reserved, release_reservation, expire_reservation, InventoryEnvironment,
}
use composable_rust.Ticketing.Inventory.Reduce.{reduce, release, InventoryEffects}
use composable_rust.Ticketing.Inventory.SeatCounts.{
  in_status, mark_seats-map, is_reserved, found, found-exact, length-found, ids-eq-keys,
}
use composable_rust.Ticketing.Inventory.Invariant.{Consistent, has_holder}
use composable_rust.Ticketing.Inventory.Reserving.{
  selected_available, selected_there, selected_all, seats_reserved-Consistent,
}
use composable_rust.Ticketing.Inventory.Settling.{adjust_first_found, section_of}
use composable_rust.Ticketing.Inventory.Overselling.{Consistent-counts}
use composable_rust.Ticketing.Inventory.Freeing.{
  same_place, free-reserve, adjust-adjust, length-is_empty, not_none, located,
}

-- A reservation `r` that nothing was reserved for is made, for at least one seat.
module _ (s : State) (c : Consistent s) (r : ReservationId) (key : Section) (quantity : ℕ)
    (t now : DateTime) (i : Inventory) (found_i : get_inventory s key ≡ some i)
    (positive : 1 ≤ quantity) (enough : quantity ≤ available i)
    (new : All (λ e. reserved_for r e.1 ≡ false) s.seat_assignments) where
  seats : List SeatId
  seats = select_available_seats s key quantity

  s' : State
  s' = apply_event s (seats_reserved r key (select_available_seats s key quantity) t now)

  c' : Consistent s'
  unfolding s'
  c' =
      seats_reserved-Consistent s r key quantity t now c
        (mapped-All _ _ s.seat_assignments (λ e h k. absurd (ground (arith, h, k))) new)

  marked : s'.seat_assignments ≡ map (rewritten (reserve_seat r t) seats) s.seat_assignments
  unfolding s' seats apply_event
  marked = mark_seats-map (reserve_seat r t) _ s.seat_assignments (λ v. refl) c.unique

  -- Just the seats of the reservation are now reserved for it.
  mine :
      All
        (λ e. reserved_for r (rewritten (reserve_seat r t) seats e).1 ≡ is_one_of seats e)
        s.seat_assignments
  mine = mapped-All _ _ s.seat_assignments (λ e h. ground (arith, h, ==_iff r r)) new

  back : List SeatId
  back = find_seats_by_reservation s' r

  back_exact :
      All
        (λ e. is_one_of back (rewritten (reserve_seat r t) seats e) ≡ is_one_of seats e)
        s.seat_assignments
  unfolding back find_seats_by_reservation
  back_exact =
      zipped-All _ _ _ s.seat_assignments (λ e a b. a ∙ b)
        (All-unmap (λ e. is_one_of back e ≡ reserved_for r e.1) (rewritten (reserve_seat r t) seats)
          s.seat_assignments
          (subst (All (λ e. is_one_of back e ≡ reserved_for r e.1)) marked
            (found-exact (λ e. reserved_for r e.1) s'.seat_assignments c'.unique c'.own)))
        mine

  length-back : length back ≡ quantity
  unfolding back find_seats_by_reservation seats get_inventory
  length-back =
      length-found (λ e. reserved_for r e.1) s'.seat_assignments c'.unique c'.own
      ∙ ap (count (λ e. reserved_for r e.1)) marked
      ∙ total-map (λ e. one (reserved_for r e.1)) (rewritten (reserve_seat r t) seats)
          s.seat_assignments
      ∙ total-eq _ (λ e. one (is_one_of seats e)) s.seat_assignments
          (mapped-All _ _ s.seat_assignments (λ e h. ap one h) mine)
      ∙ selected_there s c key quantity
      ∙ selected_all s c key quantity (omega (arith, (Consistent-counts key i c found_i).3, enough))

  seats_restored : mark_seats free_seat back s'.seat_assignments ≡ s.seat_assignments
  unfolding seats
  seats_restored =
      mark_seats-map free_seat back s'.seat_assignments (λ v. refl) c'.unique
      ∙ ap (map (rewritten free_seat back)) marked
      ∙ map_back (rewritten free_seat back) (rewritten (reserve_seat r t) seats) s.seat_assignments
          (zipped-All _ _ _ s.seat_assignments
            (λ e a b.
              rewritten_undone free_seat (reserve_seat r t) seats back e a
                (λ k. free-reserve r t e.1 (ground (arith, b.0 k)) b.1))
            back_exact
            (zipped-All _ _
              (λ e.
                (is_one_of seats e ≡ true → in_status is_available key e ≡ true)
                × (is_reserved e.1.status ≡ has_holder e.1))
              s.seat_assignments (λ e a b. (a, b)) (selected_available s c key quantity) c.holders))

  some_back : is_empty back ≡ false
  some_back = length-is_empty back (omega (arith, length-back, positive))

  in_key : All (λ e. reserved_for r e.1 ≡ true → in_section key e.1 ≡ true) s'.seat_assignments
  unfolding seats
  in_key = subst (All (λ e. reserved_for r e.1 ≡ true → in_section key e.1 ≡ true)) (sym marked) (
      All-map _ (rewritten (reserve_seat r t) seats) s.seat_assignments (
        zipped-All _ _ _ s.seat_assignments
          (λ e a b k. same_place r t key seats e ∙ ground (arith, b (sym a ∙ k))) mine
          (selected_available s c key quantity)))

  -- The release finds the inventory of the section again, and takes from it what was added.
  first_back :
      (first : SeatId) (rest : List SeatId) (f : Inventory → Inventory)
      → back ≡ first ∷ rest
      → adjust_first f (first ∷ rest) s'.seat_assignments s'.inventories
        ≡ Dict.adjust key f s'.inventories
  unfolding back find_seats_by_reservation
  first_back first rest f e =
      let p = λ (e : SeatId × SeatAssignment). reserved_for r e.1 in
      let seat =
        get-first p first rest s'.seat_assignments c'.unique
          (sym (ids-eq-keys p s'.seat_assignments c'.own) ∙ e) in
      let here =
        All-get (λ e. reserved_for r e.1 ≡ true → in_section key e.1 ≡ true) first seat.0
          s'.seat_assignments in_key seat.1 seat.2 in
      adjust_first_found f first rest s'.seat_assignments s'.inventories seat.0 seat.1
      ∙ ap (λ k. Dict.adjust k f s'.inventories) (section_of key seat.0 here)

  inventory_restored :
      (j : Inventory)
      → Dict.get key s.inventories ≡ some j
      → release_reserved (seat_count back) (add_reserved (seat_count seats) j) ≡ j
  unfolding seats
  inventory_restored j there =
      let e = c.exact key j there in
      let n : length seats ≡ quantity =
        selected_all s c key quantity
          (omega (arith, (Consistent-counts key i c found_i).3, enough)) in
      ap (λ n. record j { reserved = n })
        (omega (
          arith,
          length-back,
          n,
          (Consistent-counts key i c found_i).3,
          enough,
          e.reserved_exact,
          e.sold_exact,
          e.capacity_exact,
          e.fits,
        ))

  inventories_restored :
      (l : List SeatId)
      → back ≡ l
      → is_empty l ≡ false
      → adjust_first (release_reserved (seat_count back)) l s'.seat_assignments s'.inventories
        ≡ s.inventories
  unfolding s' seats apply_event
  inventories_restored [] e some_seats = absurd cc
  inventories_restored (first ∷ rest) e some_seats =
      first_back first rest (release_reserved (seat_count back)) e
      ∙ adjust-adjust key (release_reserved (seat_count back)) (add_reserved (seat_count seats))
          s.inventories inventory_restored

  still_held : 1 ≤ count (λ e. reserved_for r e.1) s'.seat_assignments
  unfolding back find_seats_by_reservation
  still_held = omega (
    arith,
    length-back,
    positive,
    length-found (λ e. reserved_for r e.1) s'.seat_assignments c'.unique c'.own,
  )

  released : (env : InventoryEnvironment) → (release env s' r).0 ≡ record s { last_error = none }
  unfolding release s' back apply_event find_reservation_location
  released env =
      let location = located r s'.seat_assignments still_held in
      let P = λ (p : State × InventoryEffects). p.0 ≡ record s { last_error = none } in
      if_cases P (is_empty (find_seats_by_reservation s' r)) _ _
        (λ h. absurd (ground (arith, h, some_back)))
        (λ _.
          Option_both P (find_reservation_location s' r) _ _ (λ h. absurd (not_none (h) location.1))
            (λ k _.
              ap₂ (λ x y. record s { inventories = x; seat_assignments = y; last_error = none })
                (inventories_restored back refl some_back) seats_restored))

-- In a consistent state (each seat is once in the map and under its identifier, has a holder exactly
-- while it is reserved, no reservation is in two sections, the counts of every section and its
-- capacity, below 2 ^ 32, are the numbers of its seats, and a section that is not known has none)
-- releasing or letting expire a new reservation of at least one seat, for which there were enough,
-- restores the inventory as it was before the reservation: all seats, all counts, the loading states
-- and the version. Only the last error is cleared.
pub release_undoes :
    (s : State) (r : ReservationId) (key : Section) (quantity : ℕ) (t now : DateTime)
    (i : Inventory) (env : InventoryEnvironment)
    → Consistent s
    → get_inventory s key ≡ some i
    → 1 ≤ quantity
    → quantity ≤ available i
    → All (λ e. reserved_for r e.1 ≡ false) s.seat_assignments
    → let reserved =
        apply_event s (seats_reserved r key (select_available_seats s key quantity) t now) in
      ((reduce reserved (release_reservation r) env).0 ≡ record s { last_error = none })
      × ((reduce reserved (expire_reservation r) env).0 ≡ record s { last_error = none })
unfolding reduce s'
release_undoes s r key quantity t now i env c found positive enough new =
    let result = released s c r key quantity t now i found positive enough new env in
    (result, result)
