-- ===== src/Ticketing/Inventory/Invariant.antt =====
-- examples/ticketing/src/aggregates/inventory.rs: what holds of the inventory between commands.
use composable_rust.Prelude.{
  u32_size, Bool, true, false, none, some, ◌≡◌, sym, ◌∙◌, ◌+◌, ◌<◌, ◌≢◌, All, arith, pair_key,
  number_key, both_same, both_same_iff, Bool-cases, inl, inr, subst, Option-cases,
}
use mathlib.Core.Option
use composable_rust.Prelude.Dict
use composable_rust.Prelude.Dict.{get-adjust}
use composable_rust.Prelude.Entries.{Unique}
use composable_rust.Ticketing.Types.{
  ReservationId, Section, Inventory, Inventories, SeatAssignment, Seats,
}
use composable_rust.Ticketing.Inventory.{State, in_section, reserved_for}
use composable_rust.Ticketing.Inventory.SeatCounts.{OwnKeys, free, taken, gone, is_reserved}

abbrev pub has_holder : SeatAssignment → Bool
has_holder seat = elim seat.reserved_by [ none ↦ false | some _ ↦ true ]

-- The counts of an inventory are the numbers of its seats, and its capacity is all of them.
pub record Exact (key : Section) (i : Inventory) (m : Seats) : Type 0 where
  pub reserved_exact : i.reserved ≡ taken key m
  pub sold_exact : i.sold ≡ gone key m
  pub capacity_exact : i.total_capacity ≡ free key m + taken key m + gone key m
  pub fits : i.total_capacity < u32_size

-- The seats of a reservation are in one section.
abbrev pub InOneSection : ReservationId → Seats → Type 0
InOneSection r m =
    (key : Section) × All (λ e. reserved_for r e.1 ≡ true → in_section key e.1 ≡ true) m

-- A seat has a holder exactly while it is reserved.
abbrev pub Holders : Seats → Type 0
Holders m = All (λ e. is_reserved e.1.status ≡ has_holder e.1) m

pub record Consistent (s : State) : Type 0 where
  pub unique : Unique s.seat_assignments
  pub own : OwnKeys s.seat_assignments
  pub holders : Holders s.seat_assignments
  pub one_section : (r : ReservationId) → InOneSection r s.seat_assignments
  pub exact :
      (key : Section) (i : Inventory)
      → Dict.get key s.inventories ≡ some i
      → Exact key i s.seat_assignments
  pub unlisted :
      (key : Section)
      → Dict.get key s.inventories ≡ none
      → free key s.seat_assignments + taken key s.seat_assignments + gone key s.seat_assignments ≡ 0

-- No seat of a section changes its status.
abbrev pub SameNumbers : Section → Seats → Seats → Type 0
SameNumbers k m m' = (free k m' ≡ free k m) × (taken k m' ≡ taken k m) × (gone k m' ≡ gone k m)

pub Exact-same :
    (k : Section) (i : Inventory) (m m' : Seats) → SameNumbers k m m' → Exact k i m → Exact k i m'
Exact-same k i m m' h e = record {
  reserved_exact = ground (arith, h, e.reserved_exact);
  sold_exact = ground (arith, h, e.sold_exact);
  capacity_exact = omega (arith, h.0, h.1, h.2, e.capacity_exact);
  fits = e.fits;
}

-- An update of one section's inventory fits an update of the seats of that section.
module _ (key : Section) (g : Inventory → Inventory) (inventories : Inventories)
    (m m' : Seats) where
  adjusted_here :
      ((i : Inventory) → Dict.get key inventories ≡ some i → Exact key i m → Exact key (g i) m')
      → ((i : Inventory) → Dict.get key inventories ≡ some i → Exact key i m)
      → (i : Inventory) → Option.map g (Dict.get key inventories) ≡ some i
      → Exact key i m'
  adjusted_here here exact i found = elim (Option-cases (Dict.get key inventories)) [
    | inl missing ↦ absurd (ground (arith, missing, found))
    | inr (j, there) ↦
        let made : g j ≡ i = ground (arith, there, found) in
        subst (λ x. Exact key x m') made (here j there (exact j there))
  ]

  pub adjust-Exact :
      ((i : Inventory) → Dict.get key inventories ≡ some i → Exact key i m → Exact key (g i) m')
      → ((k : Section) → k ≢ key → SameNumbers k m m')
      → ((k : Section) (i : Inventory) → Dict.get k inventories ≡ some i → Exact k i m)
      → (k : Section) (i : Inventory) → Dict.get k (Dict.adjust key g inventories) ≡ some i
      → Exact k i m'
  adjust-Exact here elsewhere exact k i found = elim (Bool-cases (both_same key k)) [
    | inl same ↦
        let e : key ≡ k = (both_same_iff key k).0 same in
        let found' : Option.map g (Dict.get k inventories) ≡ some i =
          ground (arith, same, found, get-adjust key k g inventories) in
        subst (λ x. Exact x i m') e
          (adjusted_here here (exact key) i
            (subst (λ x. Option.map g (Dict.get x inventories) ≡ some i) (sym e) found'))
    | inr different ↦
        Exact-same k i m m'
          (elsewhere k (λ e. ground (arith, different, both_same_iff key k, sym e)))
          (exact k i (ground (arith, different, found, get-adjust key k g inventories)))
  ]

  pub adjust-unlisted :
      ((k : Section) → free k m' + taken k m' + gone k m' ≡ free k m + taken k m + gone k m)
      → ((k : Section) → Dict.get k inventories ≡ none → free k m + taken k m + gone k m ≡ 0)
      → (k : Section) → Dict.get k (Dict.adjust key g inventories) ≡ none
      → free k m' + taken k m' + gone k m' ≡ 0
  adjust-unlisted kept unlisted k missing =
      kept k ∙ unlisted k (ground (arith, missing, get-adjust key k g inventories))
