-- ===== src/Ticketing/Inventory/Loading.antt =====
-- examples/ticketing/src/aggregates/inventory.rs: a section whose seats are created or loaded.
use composable_rust.Prelude.{
  u32_size, ℕ, Bool, true, false, none, List, [], ◌∷◌, ◌≡◌, refl, ◌+◌, ◌≤◌, ◌<◌, ◌⊎◌, All, arith,
  pair_key, number_key, map, total,
}
use composable_rust.Prelude.Dict
use composable_rust.Prelude.Dict.{get-insert}
use composable_rust.Prelude.Sort.{occurrences}
use composable_rust.Prelude.Counts.{count}
use composable_rust.Prelude.Entries.{
  keys, Unique, total-insert_new, occurrences-insert_new, All-insert,
}
use composable_rust.Ticketing.Types.{
  SeatId, ReservationId, Section, Inventory, SeatAssignment, Seats, SeatStatus, is_available,
  new_seat,
}
use composable_rust.Ticketing.Inventory.{State, in_section, reserved_for, load_seats, create_seats}
use composable_rust.Ticketing.Inventory.SeatCounts.{is_reserved, is_sold}
use composable_rust.Ticketing.Inventory.Invariant.{has_holder}

abbrev pub ids : List SeatAssignment → List SeatId
ids seats = map (λ v. v.seat_id) seats

-- The identifiers are new and distinct.
abbrev pub Fresh : List SeatId → Seats → Type 0
Fresh l m = (i : SeatId) → occurrences i l + occurrences i (keys m) ≤ 1

pub create_seats-load_seats :
    (key : Section) (l : List SeatId) (m : Seats)
    → create_seats key l m ≡ load_seats (map (λ id. new_seat id key.0 key.1 none) l) m
unfolding create_seats load_seats
create_seats-load_seats key [] m = refl
create_seats-load_seats key (id ∷ l) m =
    create_seats-load_seats key l (Dict.insert id (new_seat id key.0 key.1 none) m)

Fresh-insert :
    (v : SeatAssignment) (seats : List SeatAssignment) (m : Seats)
    → Fresh (ids (v ∷ seats)) m
    → (occurrences v.seat_id (keys m) ≡ 0) × Fresh (ids seats) (Dict.insert v.seat_id v m)
Fresh-insert v seats m h =
    let new : occurrences v.seat_id (keys m) ≡ 0 = ground (arith, h v.seat_id) in
    (new, λ i. ground (arith, h i, occurrences-insert_new v.seat_id i v m new))

pub total-load_seats :
    (g : SeatId × SeatAssignment → ℕ) (seats : List SeatAssignment) (m : Seats)
    → Fresh (ids seats) m
    → total g (load_seats seats m) ≡ total g m + total (λ v. g (v.seat_id, v)) seats
unfolding load_seats
total-load_seats g [] m h = omega arith
total-load_seats g (v ∷ seats) m h =
    let next = Fresh-insert v seats m h in
    omega (
      arith,
      total-load_seats g seats (Dict.insert v.seat_id v m) next.1,
      total-insert_new g v.seat_id v m next.0,
    )

pub load_seats-Unique :
    (seats : List SeatAssignment) (m : Seats) → Fresh (ids seats) m → Unique (load_seats seats m)
unfolding load_seats
load_seats-Unique [] m h = λ i. omega (arith, h i)
load_seats-Unique (v ∷ seats) m h =
    load_seats-Unique seats (Dict.insert v.seat_id v m) (Fresh-insert v seats m h).1

pub load_seats-All :
    (P : SeatId × SeatAssignment → Type 0) (seats : List SeatAssignment) (m : Seats)
    → All P m
    → All (λ v. P (v.seat_id, v)) seats
    → All P (load_seats seats m)
unfolding load_seats
load_seats-All P [] m all new = all
load_seats-All P (v ∷ seats) m all new =
    load_seats-All P seats (Dict.insert v.seat_id v m) (All-insert P v.seat_id v m all new.0) new.1

-- How many seats of a list have a status.
abbrev pub with_status : (SeatStatus → Bool) → List SeatAssignment → ℕ
with_status a seats = count (λ v. a v.status) seats

-- The section is not known yet, and the seats are new, its own, and as many as the counts say.
pub record Loadable (s : State) (key : Section) (i : Inventory) (seats : List SeatAssignment)
    : Type 0 where
  pub unknown : Dict.get key s.inventories ≡ none
  pub fresh : Fresh (ids seats) s.seat_assignments
  pub all_here : All (λ v. in_section key v ≡ true) seats
  pub all_held : All (λ v. is_reserved v.status ≡ has_holder v) seats
  pub apart :
      (q : ReservationId)
      → All (λ v. reserved_for q v ≡ false) seats
        ⊎ All (λ e. reserved_for q e.1 ≡ false) s.seat_assignments
  pub all_counted :
      (i.reserved ≡ with_status is_reserved seats)
      × (i.sold ≡ with_status is_sold seats)
      × (i.total_capacity
          ≡ with_status is_available seats
            + with_status is_reserved seats
            + with_status is_sold seats)
      × (i.total_capacity < u32_size)
