-- ===== src/Ticketing/Inventory/Reserving.antt =====
-- examples/ticketing/src/aggregates/inventory.rs: a reservation keeps the inventory consistent.
use composable_rust.Prelude.{
  ℕ, true, List, ◌≡◌, refl, ◌+◌, ◌≤◌, ◌≢◌, All, arith, length, pair_key, number_key, inl, inr,
  Bool-cases, ==_iff, ◌==◌,
}
use composable_rust.Prelude.Counts.{mapped-All, zipped-All, count}
use composable_rust.Prelude.Entries.{Unique, is_one_of}
use composable_rust.Ticketing.Types.{
  SeatId, ReservationId, Section, DateTime, Inventory, Seats, is_available,
}
use composable_rust.Ticketing.Inventory.{
  State, in_section, reserved_for, mark_seats, reserve_seat, add_reserved, seat_count, apply_event,
  select_available_seats,
}
use composable_rust.Ticketing.Inventory.Actions.{seats_reserved}
use composable_rust.Ticketing.Inventory.SeatCounts.{
  free, taken, gone, is_reserved, is_sold, in_status, selected-passes, count-selected,
  length-selected,
}
use composable_rust.Ticketing.Inventory.Marking.{
  Marks, gains, loses, keeps, marked_in, marked_in_same, marked_in_other, mark_seats-All,
  mark_seats-Unique, mark_seats-OwnKeys,
}
use composable_rust.Ticketing.Inventory.Invariant.{
  has_holder, Exact, InOneSection, Holders, Consistent, SameNumbers, adjust-Exact, adjust-unlisted,
}

pub reserve_seat-Marks : (r : ReservationId) (t : DateTime) → Marks (reserve_seat r t)
reserve_seat-Marks r t = record {
  again = λ v. refl;
  same_section = λ k v. refl;
  same_id = λ v. refl;
}

module _ (r : ReservationId) (t : DateTime) (key : Section) (seats : List SeatId) (m : Seats)
    (u : Unique m)
    (picked : All (λ e. is_one_of seats e ≡ true → in_status is_available key e ≡ true) m)
    (there : count (is_one_of seats) m ≡ length seats) where
  after : Seats
  after = mark_seats (reserve_seat r t) seats m

  picked_in : All (λ e. is_one_of seats e ≡ true → in_section key e.1 ≡ true) m
  picked_in = mapped-All _ _ m (λ e h k. ground (arith, h)) picked

  -- Seats move from available to reserved.
  moved :
      (k : Section)
      → (free k m ≡ free k after + marked_in k seats m)
        × (taken k after ≡ taken k m + marked_in k seats m)
        × (gone k after ≡ gone k m)
  unfolding after
  moved k = (
    loses (reserve_seat r t) (reserve_seat-Marks r t) seats m u k is_available
        (mapped-All _ _ m (λ e h g. ground (arith, h)) picked),
    gains (reserve_seat r t) (reserve_seat-Marks r t) seats m u k is_reserved
        (mapped-All _ _ m (λ e h g. ground (arith, h)) picked),
    keeps (reserve_seat r t) (reserve_seat-Marks r t) seats m u k is_sold
        (mapped-All _ _ m (λ e h g. ground (arith, h)) picked),
  )

  within : count (is_one_of seats) m ≤ free key m
  within =
      let here = moved key in
      omega (arith, here.0, marked_in_same key key seats m picked_in there, there)

  added-Exact :
      (i : Inventory) → Exact key i m → Exact key (add_reserved (seat_count seats) i) after
  added-Exact i e =
      let here = moved key in
      let n = marked_in_same key key seats m picked_in there in
      record {
        reserved_exact =
            omega (arith, here.0, here.1, n, e.reserved_exact, e.capacity_exact, e.fits);
        sold_exact = omega (arith, here.2, e.sold_exact);
        capacity_exact = omega (arith, here.0, here.1, here.2, e.capacity_exact);
        fits = e.fits;
      }

  elsewhere : (k : Section) → k ≢ key → SameNumbers k m after
  elsewhere k other =
      let there = moved k in
      let none_here = marked_in_other k key seats m picked_in other in
      (
        omega (arith, there.0, none_here),
        omega (arith, there.1, none_here),
        omega (arith, there.2, none_here),
      )

  kept :
      (k : Section) → free k after + taken k after + gone k after ≡ free k m + taken k m + gone k m
  kept k = let there = moved k in omega (arith, there.0, there.1, there.2)

  after-Holders : Holders m → Holders after
  unfolding after
  after-Holders h =
      mark_seats-All (reserve_seat r t) (reserve_seat-Marks r t) seats m u
        (λ e. is_reserved e.1.status ≡ has_holder e.1)
        (mapped-All _ _ m (λ e own. ground (arith, own)) h)

  -- The reservation holds nothing outside the section before.
  after-InOneSection :
      All (λ e. reserved_for r e.1 ≡ true → in_section key e.1 ≡ true) m
      → ((q : ReservationId) → InOneSection q m)
      → (q : ReservationId) → InOneSection q after
  unfolding after
  after-InOneSection only_here h q = elim (Bool-cases (r == q)) [
    | inl same ↦ (
      key,
      mark_seats-All (reserve_seat r t) (reserve_seat-Marks r t) seats m u
          (λ e. reserved_for q e.1 ≡ true → in_section key e.1 ≡ true)
          (zipped-All _ _ _ m (λ e a b c. ground (arith, a, b, c, ==_iff r q, same)) only_here
            picked_in),
    )
    | inr different ↦ (
      (h q).0,
      mark_seats-All (reserve_seat r t) (reserve_seat-Marks r t) seats m u
          (λ e. reserved_for q e.1 ≡ true → in_section (h q).0 e.1 ≡ true)
          (mapped-All _ _ m (λ e a c. ground (arith, a, c, different)) (h q).1),
    )
  ]

-- The seats that a reservation would get are available and as many as it says.
module _ (s : State) (c : Consistent s) (key : Section) (quantity : ℕ) where
  pub selected_available :
      All
        (λ e.
          is_one_of (select_available_seats s key quantity) e ≡ true
          → in_status is_available key e ≡ true)
        s.seat_assignments
  unfolding select_available_seats
  selected_available =
      selected-passes (in_status is_available key) s.seat_assignments c.unique c.own quantity

  pub selected_there :
      count (is_one_of (select_available_seats s key quantity)) s.seat_assignments
      ≡ length (select_available_seats s key quantity)
  unfolding select_available_seats
  selected_there =
      count-selected (in_status is_available key) s.seat_assignments c.unique c.own quantity

  pub selected_all :
      quantity ≤ free key s.seat_assignments
      → length (select_available_seats s key quantity) ≡ quantity
  unfolding select_available_seats
  selected_all =
      length-selected (in_status is_available key) s.seat_assignments c.unique c.own quantity

-- Nothing outside the section is reserved for `r`.
abbrev pub OnlyIn : Section → ReservationId → Seats → Type 0
OnlyIn key r m = All (λ e. reserved_for r e.1 ≡ true → in_section key e.1 ≡ true) m

pub seats_reserved-Consistent :
    (s : State) (r : ReservationId) (key : Section) (quantity : ℕ)
    (expires_at reserved_at : DateTime)
    → Consistent s
    → OnlyIn key r s.seat_assignments
    → Consistent (
        apply_event s
          (seats_reserved r key (select_available_seats s key quantity) expires_at reserved_at))
unfolding apply_event after
seats_reserved-Consistent s r key quantity t now c only_here =
    let seats = select_available_seats s key quantity in
    let m = s.seat_assignments in
    let picked = selected_available s c key quantity in
    let there = selected_there s c key quantity in
    record {
      unique = mark_seats-Unique (reserve_seat r t) (reserve_seat-Marks r t) seats m c.unique;
      own = mark_seats-OwnKeys (reserve_seat r t) (reserve_seat-Marks r t) seats m c.unique c.own;
      holders = after-Holders r t key seats m c.unique picked there c.holders;
      one_section =
          after-InOneSection r t key seats m c.unique picked there only_here c.one_section;
      exact =
          adjust-Exact key (add_reserved (seat_count seats)) s.inventories m _
            (λ i found e. added-Exact r t key seats m c.unique picked there i e)
            (elsewhere r t key seats m c.unique picked there) c.exact;
      unlisted =
          adjust-unlisted key (add_reserved (seat_count seats)) s.inventories m _
            (kept r t key seats m c.unique picked there) c.unlisted;
    }
