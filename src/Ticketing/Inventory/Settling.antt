-- ===== src/Ticketing/Inventory/Settling.antt =====
-- examples/ticketing/src/aggregates/inventory.rs: confirming and releasing a reservation keep the
-- inventory consistent.
use composable_rust.Prelude.{
  Bool, true, false, some, List, [], ◌∷◌, ◌≡◌, refl, sym, ◌∙◌, ◌+◌, ◌≢◌, All, arith, length,
  pair_key, number_key, ==_iff, is_empty, ap, eq_iff,
}
use composable_rust.Prelude.Dict
use composable_rust.Prelude.Counts.{mapped-All, zipped-All, count}
use composable_rust.Prelude.Entries.{is_one_of, count-is_one_of, get-first, All-get}
use composable_rust.Ticketing.Types.{
  SeatId, ReservationId, CustomerId, Section, Inventory, Inventories, SeatAssignment, Seats,
  SeatStatus, is_available,
}
use composable_rust.Ticketing.Inventory.{
  State, in_section, reserved_for, mark_seats, sell_seat, free_seat, adjust_first,
}
use composable_rust.Ticketing.Inventory.SeatCounts.{
  taken, is_reserved, is_sold, in_status, found, found-exact, occurrences-found, ids-eq-keys,
}
use composable_rust.Ticketing.Inventory.Marking.{
  Marks, gains, loses, keeps, marked_in, marked_in_same, marked_in_other, mark_seats-All,
}
use composable_rust.Ticketing.Inventory.Invariant.{has_holder, InOneSection, Holders, Consistent}

pub sell_seat-Marks : (c : CustomerId) → Marks (sell_seat c)
sell_seat-Marks c = record { again = λ v. refl; same_section = λ k v. refl; same_id = λ v. refl }

pub free_seat-Marks : Marks free_seat
free_seat-Marks = record { again = λ v. refl; same_section = λ k v. refl; same_id = λ v. refl }

pub section_of :
    (key : Section) (v : SeatAssignment) → in_section key v ≡ true → (v.event_id, v.section) ≡ key
section_of (a, b) v h = grind (arith, ==_iff v.event_id a, eq_iff v.section b)

held_by_one :
    (r : ReservationId) (v : SeatAssignment) → reserved_for r v ≡ true → has_holder v ≡ true
held_by_one r v h = ground (arith, h)

pub adjust_first_found :
    (g : Inventory → Inventory) (first : SeatId) (rest : List SeatId) (m : Seats)
    (inventories : Inventories) (v : SeatAssignment)
    → Dict.get first m ≡ some v
    → adjust_first g (first ∷ rest) m inventories
      ≡ Dict.adjust (v.event_id, v.section) g inventories
unfolding adjust_first
adjust_first_found g first rest m inventories v h = ground (arith, h)

module _ (r : ReservationId) (s : State) (c : Consistent s) where
  abbrev pub place : Section
  place = (c.one_section r).0

  unfoldable pub seats_of : List SeatId
  seats_of = found (λ e. reserved_for r e.1) s.seat_assignments c.unique c.own

  -- The seats that are found are those of the reservation: reserved, and in its section.
  pub held :
      All
        (λ e.
          is_one_of seats_of e ≡ true
          → (in_section place e.1 ≡ true) × (is_reserved e.1.status ≡ true))
        s.seat_assignments
  unfolding seats_of
  held =
      zipped-All _ _ _ s.seat_assignments
        (λ e a b k.
          let mine : reserved_for r e.1 ≡ true = sym a ∙ k in
          (b.0 mine, b.1 ∙ held_by_one r e.1 mine))
        (found-exact (λ e. reserved_for r e.1) s.seat_assignments c.unique c.own)
        (zipped-All _ _
          (λ e.
            (reserved_for r e.1 ≡ true → in_section place e.1 ≡ true)
            × (is_reserved e.1.status ≡ has_holder e.1))
          s.seat_assignments (λ e a b. (a, b)) (c.one_section r).1 c.holders)

  held_in : All (λ e. is_one_of seats_of e ≡ true → in_section place e.1 ≡ true) s.seat_assignments
  held_in = mapped-All _ _ s.seat_assignments (λ e h k. (h k).0) held

  there : count (is_one_of seats_of) s.seat_assignments ≡ length seats_of
  unfolding seats_of
  there =
      count-is_one_of seats_of s.seat_assignments c.unique
        (occurrences-found (λ e. reserved_for r e.1) s.seat_assignments c.unique c.own)

  first_of :
      (g : Inventory → Inventory) (inventories : Inventories) (seats : List SeatId)
      → seats_of ≡ seats
      → is_empty seats ≡ false
      → adjust_first g seats s.seat_assignments inventories ≡ Dict.adjust place g inventories
  unfolding adjust_first seats_of
  first_of g inventories [] e some_seats = absurd cc
  first_of g inventories (first ∷ rest) e some_seats =
      let p = λ (e : SeatId × SeatAssignment). reserved_for r e.1 in
      let seat =
        get-first p first rest s.seat_assignments c.unique
          (sym (ids-eq-keys p s.seat_assignments c.own) ∙ e) in
      let here =
        All-get (λ e. reserved_for r e.1 ≡ true → in_section place e.1 ≡ true) first seat.0
          s.seat_assignments (c.one_section r).1 seat.1 seat.2 in
      adjust_first_found g first rest s.seat_assignments inventories seat.0 seat.1
      ∙ ap (λ k. Dict.adjust k g inventories) (section_of place seat.0 here)

  -- The inventory that the first seat leads to is that of the section.
  pub first_section :
      (g : Inventory → Inventory) (inventories : Inventories)
      → is_empty seats_of ≡ false
      → adjust_first g seats_of s.seat_assignments inventories ≡ Dict.adjust place g inventories
  first_section g inventories some_seats = first_of g inventories seats_of refl some_seats

  -- How the numbers of a section change when the seats are sold, and when they are freed.
  module _ (f : SeatAssignment → SeatAssignment) (h : Marks f) where
    unfoldable pub after : Seats
    after = mark_seats f seats_of s.seat_assignments

    pub here_all : marked_in place seats_of s.seat_assignments ≡ length seats_of
    here_all = marked_in_same place place seats_of s.seat_assignments held_in there

    pub here_none : (k : Section) → k ≢ place → marked_in k seats_of s.seat_assignments ≡ 0
    here_none k other = marked_in_other k place seats_of s.seat_assignments held_in other

    pub leaves_taken :
        ((v : SeatAssignment) → is_reserved (f v).status ≡ false)
        → (k : Section)
        → taken k s.seat_assignments ≡ taken k after + marked_in k seats_of s.seat_assignments
    unfolding after
    leaves_taken not_reserved k =
        loses f h seats_of s.seat_assignments c.unique k is_reserved
          (mapped-All _ _ s.seat_assignments (λ e g q. ((g q).1, not_reserved e.1)) held)

    -- No seat of the reservation satisfies a test that reserved seats fail.
    pub enters :
        (a : SeatStatus → Bool)
        → ((v : SeatStatus) → is_reserved v ≡ true → a v ≡ false)
        → ((v : SeatAssignment) → a (f v).status ≡ true)
        → (k : Section)
        → count (in_status a k) after
          ≡ count (in_status a k) s.seat_assignments + marked_in k seats_of s.seat_assignments
    unfolding after
    enters a before since k =
        gains f h seats_of s.seat_assignments c.unique k a
          (mapped-All _ _ s.seat_assignments (λ e g q. (before e.1.status (g q).1, since e.1)) held)

    pub stays :
        (a : SeatStatus → Bool)
        → ((v : SeatStatus) → is_reserved v ≡ true → a v ≡ false)
        → ((v : SeatAssignment) → a (f v).status ≡ false)
        → (k : Section) → count (in_status a k) after ≡ count (in_status a k) s.seat_assignments
    unfolding after
    stays a before since k =
        keeps f h seats_of s.seat_assignments c.unique k a
          (mapped-All _ _ s.seat_assignments (λ e g q. (before e.1.status (g q).1, since e.1)) held)

    pub after-Holders :
        ((v : SeatAssignment) → (is_reserved (f v).status ≡ false) × (has_holder (f v) ≡ false))
        → Holders after
    unfolding after
    after-Holders without =
        mark_seats-All f h seats_of s.seat_assignments c.unique
          (λ e. is_reserved e.1.status ≡ has_holder e.1)
          (mapped-All _ _ s.seat_assignments (λ e own. ground (arith, own, without e.1)) c.holders)

    pub after-InOneSection :
        ((v : SeatAssignment) (q : ReservationId) → reserved_for q (f v) ≡ false)
        → (q : ReservationId) → InOneSection q after
    unfolding after
    after-InOneSection without q = (
      (c.one_section q).0,
      mark_seats-All f h seats_of s.seat_assignments c.unique
          (λ e. reserved_for q e.1 ≡ true → in_section (c.one_section q).0 e.1 ≡ true)
          (mapped-All _ _ s.seat_assignments (λ e a b. ground (arith, a, b, without e.1 q))
            (c.one_section q).1),
    )

pub not_free : (v : SeatStatus) → is_reserved v ≡ true → is_available v ≡ false
not_free v h = ground (arith, h)

pub not_gone : (v : SeatStatus) → is_reserved v ≡ true → is_sold v ≡ false
not_gone v h = ground (arith, h)
