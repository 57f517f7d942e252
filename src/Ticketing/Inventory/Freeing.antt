-- ===== src/Ticketing/Inventory/Freeing.antt =====
-- examples/ticketing/src/aggregates/inventory.rs: seats, counts and sections that a release finds.
use composable_rust.Prelude.{
  true, false, Option, none, some, List, [], ◌∷◌, ◌≡◌, ◌≤◌, arith, length, pair_key, number_key,
  inl, inr, Bool-cases, is_empty, refl, sym, ap₂, if_both,
}
use composable_rust.Prelude.Dict
use composable_rust.Prelude.Counts.{count}
use composable_rust.Prelude.Entries.{rewritten, is_one_of}
use composable_rust.Ticketing.Types.{
  SeatId, ReservationId, Section, DateTime, Inventory, Inventories, SeatAssignment, Seats,
  is_available, available_seat, SeatStatus,
}
use composable_rust.Ticketing.Inventory.{
  reserve_seat, free_seat, in_section, reserved_for, first_reserved_for,
}
use composable_rust.Ticketing.Inventory.SeatCounts.{is_reserved}
use composable_rust.Ticketing.Inventory.Invariant.{has_holder}

pub is_available_eq : (x : SeatStatus) → is_available x ≡ true → x ≡ available_seat
is_available_eq x h = ground (arith, h)

pub has_holder_eq : (v : SeatAssignment) → has_holder v ≡ false → v.reserved_by ≡ none
has_holder_eq v h = ground (arith, h)

pub same_place :
    (r : ReservationId) (t : DateTime) (key : Section) (l : List SeatId)
    (e : SeatId × SeatAssignment)
    → in_section key (rewritten (reserve_seat r t) l e).1 ≡ in_section key e.1
same_place r t key l e =
    if_both (λ x. in_section key x.1 ≡ in_section key e.1) (is_one_of l e)
      (e.0, reserve_seat r t e.1) e refl refl

pub free-reserve :
    (r : ReservationId) (t : DateTime) (v : SeatAssignment)
    → is_available v.status ≡ true
    → is_reserved v.status ≡ has_holder v
    → free_seat (reserve_seat r t v) ≡ v
free-reserve r t v here held =
    let free_before = is_available_eq v.status here in
    ap₂ (λ x y. record v { status = x; reserved_by = y }) (sym free_before)
      (sym (has_holder_eq v (ground (arith, held, free_before))))

pub adjust-adjust :
    (key : Section) (f g : Inventory → Inventory) (l : Inventories)
    → ((i : Inventory) → Dict.get key l ≡ some i → f (g i) ≡ i)
    → Dict.adjust key f (Dict.adjust key g l) ≡ l
unfolding Dict.adjust Dict.get
adjust-adjust key f g [] h = refl
adjust-adjust key f g (e ∷ l) h = elim (Bool-cases (pair_key.same e.0 key)) [
  | inl same ↦ ground (arith, same, h e.1)
  | inr other ↦
      ground (arith, other, adjust-adjust key f g l (λ i there. h i (ground (arith, other, there))))
]

pub length-is_empty : (l : List SeatId) → 1 ≤ length l → is_empty l ≡ false
length-is_empty [] h = absurd (omega (arith, h))
length-is_empty (x ∷ l) h = refl

pub not_none : {o : Option Section} {k : Section} → o ≡ none → o ≡ some k → ⊥
not_none h g = cc

-- A location is found when a seat is.
pub located :
    (r : ReservationId) (m : Seats)
    → 1 ≤ count (λ e. reserved_for r e.1) m
    → (key : Section) × (first_reserved_for r m ≡ some key)
unfolding first_reserved_for
located r [] h = absurd (omega (arith, h))
located r (e ∷ m) h = elim (Bool-cases (reserved_for r e.1)) [
  | inl mine ↦ ((e.1.event_id, e.1.section), ground (arith, mine))
  | inr other ↦
      let later = located r m (ground (arith, h, other)) in
      (later.0, ground (arith, other, later.1))
]
