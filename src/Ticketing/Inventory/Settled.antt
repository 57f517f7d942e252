-- ===== src/Ticketing/Inventory/Settled.antt =====
-- examples/ticketing/src/aggregates/inventory.rs: the state after a reservation is confirmed or
-- released is consistent.
use composable_rust.Prelude.{
  u32_size, ℕ, false, none, some, ◌≡◌, refl, sym, ◌+◌, ◌≢◌, arith, ◌%◌, pair_key, number_key, subst,
  is_empty, ap,
}
use composable_rust.Prelude.Dict
use composable_rust.Prelude.Counts.{count}
use composable_rust.Ticketing.Types.{
  ReservationId, CustomerId, Section, DateTime, Inventory, Seats, is_available,
}
use composable_rust.Ticketing.Inventory.{
  State, mark_seats, sell_seat, free_seat, seat_count, apply_event, confirm_reserved,
  release_reserved, find_seats_by_reservation, adjust_first,
}
use composable_rust.Ticketing.Inventory.Actions.{seats_confirmed, seats_released}
use composable_rust.Ticketing.Inventory.SeatCounts.{free, taken, gone, is_sold}
use composable_rust.Ticketing.Inventory.Marking.{marked_in, mark_seats-Unique, mark_seats-OwnKeys}
use composable_rust.Ticketing.Inventory.Invariant.{Exact, Consistent, adjust-Exact, adjust-unlisted}
use composable_rust.Ticketing.Inventory.Settling.{
  sell_seat-Marks, free_seat-Marks, place, seats_of, first_section, after, here_all, here_none,
  leaves_taken, enters, stays, after-Holders, after-InOneSection, not_free, not_gone,
}

-- What the two events do to the numbers of a section: `n` seats leave the reserved ones.
module _ (m m' : Seats) (k : Section) (n : ℕ) (leave : taken k m ≡ taken k m' + n) where
  sold-Exact :
      (i : Inventory) (count : ℕ)
      → gone k m' ≡ gone k m + n
      → free k m' ≡ free k m
      → count ≡ n % u32_size
      → Exact k i m
      → Exact k (confirm_reserved count i) m'
  sold-Exact i count enter stay counted e = record {
    reserved_exact = omega (arith, leave, counted, e.reserved_exact, e.capacity_exact, e.fits);
    sold_exact = omega (arith, leave, enter, counted, e.sold_exact, e.capacity_exact, e.fits);
    capacity_exact = omega (arith, leave, enter, stay, e.capacity_exact);
    fits = e.fits;
  }

  freed-Exact :
      (i : Inventory) (count : ℕ)
      → free k m' ≡ free k m + n
      → gone k m' ≡ gone k m
      → count ≡ n % u32_size
      → Exact k i m
      → Exact k (release_reserved count i) m'
  freed-Exact i count enter stay counted e = record {
    reserved_exact = omega (arith, leave, counted, e.reserved_exact, e.capacity_exact, e.fits);
    sold_exact = omega (arith, stay, e.sold_exact);
    capacity_exact = omega (arith, leave, enter, stay, e.capacity_exact);
    fits = e.fits;
  }

module _ (s : State) (r : ReservationId) (c : Consistent s)
    (some_seats : is_empty (find_seats_by_reservation s r) ≡ false) where
  module _ (x : CustomerId) where
    sold : Seats
    sold = mark_seats (sell_seat x) (find_seats_by_reservation s r) s.seat_assignments

    sold_numbers :
        (k : Section)
        → (taken k s.seat_assignments
            ≡ taken k sold + marked_in k (find_seats_by_reservation s r) s.seat_assignments)
          × (gone k sold
              ≡ gone k s.seat_assignments
                + marked_in k (find_seats_by_reservation s r) s.seat_assignments)
          × (free k sold ≡ free k s.seat_assignments)
    unfolding sold after seats_of find_seats_by_reservation
    sold_numbers k = (
      leaves_taken r s c (sell_seat x) (sell_seat-Marks x) (λ v. refl) k,
      enters r s c (sell_seat x) (sell_seat-Marks x) is_sold not_gone (λ v. refl) k,
      stays r s c (sell_seat x) (sell_seat-Marks x) is_available not_free (λ v. refl) k,
    )

  freed : Seats
  freed = mark_seats free_seat (find_seats_by_reservation s r) s.seat_assignments

  freed_numbers :
      (k : Section)
      → (taken k s.seat_assignments
          ≡ taken k freed + marked_in k (find_seats_by_reservation s r) s.seat_assignments)
        × (free k freed
            ≡ free k s.seat_assignments
              + marked_in k (find_seats_by_reservation s r) s.seat_assignments)
        × (gone k freed ≡ gone k s.seat_assignments)
  unfolding freed after seats_of find_seats_by_reservation
  freed_numbers k = (
    leaves_taken r s c free_seat free_seat-Marks (λ v. refl) k,
    enters r s c free_seat free_seat-Marks is_available not_free (λ v. refl) k,
    stays r s c free_seat free_seat-Marks is_sold not_gone (λ v. refl) k,
  )

  counted :
      seat_count (find_seats_by_reservation s r)
      ≡ marked_in (place r s c) (find_seats_by_reservation s r) s.seat_assignments % u32_size
  unfolding after seats_of find_seats_by_reservation
  counted = ap (λ n. n % u32_size) (sym (here_all r s c free_seat free_seat-Marks))

  nowhere :
      (k : Section)
      → k ≢ place r s c
      → marked_in k (find_seats_by_reservation s r) s.seat_assignments ≡ 0
  unfolding seats_of find_seats_by_reservation
  nowhere k other = here_none r s c free_seat free_seat-Marks k other

  updated :
      (g : Inventory → Inventory)
      → adjust_first g (find_seats_by_reservation s r) s.seat_assignments s.inventories
        ≡ Dict.adjust (place r s c) g s.inventories
  unfolding seats_of find_seats_by_reservation
  updated g = first_section r s c g s.inventories some_seats

pub seats_confirmed-Consistent :
    (s : State) (r : ReservationId) (key : Section) (x : CustomerId) (now : DateTime)
    → Consistent s
    → is_empty (find_seats_by_reservation s r) ≡ false
    → Consistent (apply_event s (seats_confirmed r key x (find_seats_by_reservation s r) now))
unfolding apply_event sold after seats_of find_seats_by_reservation
seats_confirmed-Consistent s r key x now c some_seats =
    let seats = find_seats_by_reservation s r in
    let g = confirm_reserved (seat_count seats) in
    let numbers = sold_numbers s r c some_seats x in
    record {
      unique =
          mark_seats-Unique (sell_seat x) (sell_seat-Marks x) seats s.seat_assignments c.unique;
      own =
          mark_seats-OwnKeys (sell_seat x) (sell_seat-Marks x) seats s.seat_assignments c.unique
            c.own;
      holders = after-Holders r s c (sell_seat x) (sell_seat-Marks x) (λ v. (refl, refl));
      one_section = after-InOneSection r s c (sell_seat x) (sell_seat-Marks x) (λ v q. refl);
      exact = λ k j there.
          adjust-Exact (place r s c) g s.inventories s.seat_assignments (sold s r c some_seats x)
            (λ i _ e.
              sold-Exact s.seat_assignments (sold s r c some_seats x) (place r s c) _
                (numbers (place r s c)).0 i (seat_count seats) (numbers (place r s c)).1
                (numbers (place r s c)).2 (counted s r c some_seats) e)
            (λ k other.
              let n = nowhere s r c some_seats k other in
              let changes = numbers k in
              (changes.2, omega (arith, changes.0, n), omega (arith, changes.1, n)))
            c.exact k j (subst (λ l. Dict.get k l ≡ some j) (updated s r c some_seats g) there);
      unlisted = λ k missing.
          adjust-unlisted (place r s c) g s.inventories s.seat_assignments (sold s r c some_seats x)
            (λ k. let changes = numbers k in omega (arith, changes.0, changes.1, changes.2))
            c.unlisted k (subst (λ l. Dict.get k l ≡ none) (updated s r c some_seats g) missing);
    }

pub seats_released-Consistent :
    (s : State) (r : ReservationId) (key : Section) (now : DateTime)
    → Consistent s
    → is_empty (find_seats_by_reservation s r) ≡ false
    → Consistent (apply_event s (seats_released r key (find_seats_by_reservation s r) now))
unfolding apply_event freed after seats_of find_seats_by_reservation
seats_released-Consistent s r key now c some_seats =
    let seats = find_seats_by_reservation s r in
    let g = release_reserved (seat_count seats) in
    let numbers = freed_numbers s r c some_seats in
    record {
      unique = mark_seats-Unique free_seat free_seat-Marks seats s.seat_assignments c.unique;
      own = mark_seats-OwnKeys free_seat free_seat-Marks seats s.seat_assignments c.unique c.own;
      holders = after-Holders r s c free_seat free_seat-Marks (λ v. (refl, refl));
      one_section = after-InOneSection r s c free_seat free_seat-Marks (λ v q. refl);
      exact = λ k j there.
          adjust-Exact (place r s c) g s.inventories s.seat_assignments (freed s r c some_seats)
            (λ i _ e.
              freed-Exact s.seat_assignments (freed s r c some_seats) (place r s c) _
                (numbers (place r s c)).0 i (seat_count seats) (numbers (place r s c)).1
                (numbers (place r s c)).2 (counted s r c some_seats) e)
            (λ k other.
              let n = nowhere s r c some_seats k other in
              let changes = numbers k in
              (omega (arith, changes.1, n), omega (arith, changes.0, n), changes.2))
            c.exact k j (subst (λ l. Dict.get k l ≡ some j) (updated s r c some_seats g) there);
      unlisted = λ k missing.
          adjust-unlisted (place r s c) g s.inventories s.seat_assignments (freed s r c some_seats)
            (λ k. let changes = numbers k in omega (arith, changes.0, changes.1, changes.2))
            c.unlisted k (subst (λ l. Dict.get k l ≡ none) (updated s r c some_seats g) missing);
    }
