-- ===== src/Ticketing/Inventory/Overselling.antt =====
-- examples/ticketing/src/aggregates/inventory.rs: the histories of the inventory.
use composable_rust.Prelude.{
  ap, ◌∙◌, All, List, [], ◌∷◌, ◌⊎◌, inl, inr, u32_size, none, some, ◌≡◌, ◌+◌, ◌≤◌, ◌<◌, arith,
  length, pair_key, number_key, refl,
}
use composable_rust.Prelude.Dict
use composable_rust.Prelude.Dict.{insert-get}
use composable_rust.Ticketing.Types.{
  Section, Inventory, SeatAssignment, Seats, available, new_state, get_inventory,
}
use composable_rust.Ticketing.Inventory.{State, apply_event, loaded_inventory, load_seats}
use composable_rust.Ticketing.Inventory.Actions.{
  Counts, InventoryAction, initialize_inventory, reserve_seats, confirm_reservation,
  release_reservation, expire_reservation, get_all_sections, get_section_availability,
  get_total_available, inventory_initialized, seats_reserved, seats_confirmed, seats_released,
  insufficient_inventory, validation_failed, inventory_state_loaded, all_sections_queried,
  section_availability_queried, total_available_queried, version_updated, InventoryEnvironment,
}
use composable_rust.Ticketing.Inventory.Reduce.{reduce}
use composable_rust.Ticketing.Inventory.SeatCounts.{free, taken, gone}
use composable_rust.Ticketing.Inventory.Invariant.{Consistent}
use composable_rust.Ticketing.Inventory.Reserving.{OnlyIn}
use composable_rust.Ticketing.Inventory.Loading.{Fresh, Loadable}
use composable_rust.Ticketing.Inventory.Loaded.{inventory_state_loaded-Consistent}
use composable_rust.Ticketing.Inventory.Commands.{
  same_seats-Consistent, failed-Consistent, initialize-Consistent, reserve-Consistent,
  confirm-Consistent, release-Consistent,
}

-- A snapshot that the projection has brought up to date: it says what the state says.
abbrev pub Agrees : State → Section → Counts → List SeatAssignment → Type 0
Agrees s key counts seats =
    (Dict.get key s.inventories ≡ some (loaded_inventory key counts))
    × All (λ v. Dict.get v.seat_id s.seat_assignments ≡ some v) seats

load_seats-Agrees :
    (seats : List SeatAssignment) (m : Seats)
    → All (λ v. Dict.get v.seat_id m ≡ some v) seats
    → load_seats seats m ≡ m
unfolding load_seats
load_seats-Agrees [] m h = refl
load_seats-Agrees (v ∷ seats) m h =
    ap (load_seats seats) (insert-get v.seat_id v m h.0) ∙ load_seats-Agrees seats m h.1

agreed-Consistent :
    (s : State) (key : Section) (counts : Counts) (seats : List SeatAssignment)
    → Consistent s
    → Agrees s key counts seats
    → Consistent (apply_event s (inventory_state_loaded key (some counts) seats))
unfolding apply_event
agreed-Consistent s key counts seats c (same_counts, same_seats) =
    same_seats-Consistent s _ (load_seats-Agrees seats s.seat_assignments same_seats)
      (insert-get key (loaded_inventory key counts) s.inventories same_counts) c

-- What a caller and the surroundings of the inventory guarantee of an action: new seats get new
-- identifiers, a reservation stays in one section, a snapshot that is loaded either is of a section
-- that is not known, with counts that are those of its seats, or agrees with the state, and of the
-- events only those that the reducer's own effects feed back are sent to it.
abbrev pub Admissible : InventoryEnvironment → State → InventoryAction → Type 0
Admissible env s (initialize_inventory key capacity _) =
    Fresh (env.new_seat_ids capacity) s.seat_assignments
    × (length (env.new_seat_ids capacity) ≡ capacity)
    × (capacity < u32_size)
Admissible env s (reserve_seats r key _ _ _) = OnlyIn key r s.seat_assignments
Admissible env s (inventory_state_loaded key none _) = Unit
Admissible env s (inventory_state_loaded key (some counts) seats) =
    Loadable s key (loaded_inventory key counts) seats ⊎ Agrees s key counts seats
Admissible env s (inventory_initialized _ _ _ _) = ⊥
Admissible env s (seats_reserved _ _ _ _ _) = ⊥
Admissible env s (seats_confirmed _ _ _ _ _) = ⊥
Admissible env s (seats_released _ _ _ _) = ⊥
Admissible env s _ = Unit

pub reduce-Consistent :
    (env : InventoryEnvironment) (s : State) (action : InventoryAction)
    → Consistent s
    → Admissible env s action
    → Consistent (reduce s action env).0
unfolding reduce apply_event
reduce-Consistent env s (initialize_inventory key capacity _) c h =
    initialize-Consistent env s c key capacity h.0 h.1 h.2
reduce-Consistent env s (reserve_seats r key quantity seats t) c h =
    reserve-Consistent env s c r key quantity seats t h
reduce-Consistent env s (confirm_reservation r x) c h = confirm-Consistent env s c r x
reduce-Consistent env s (release_reservation r) c h = release-Consistent env s c r
reduce-Consistent env s (expire_reservation r) c h = release-Consistent env s c r
reduce-Consistent env s (inventory_state_loaded key none seats) c h =
    same_seats-Consistent s _ refl refl c
reduce-Consistent env s (inventory_state_loaded key (some counts) seats) c h = elim h [
  | inl new ↦ inventory_state_loaded-Consistent s key counts seats c new
  | inr current ↦ agreed-Consistent s key counts seats c current
]
reduce-Consistent env s (inventory_initialized _ _ _ _) c h = absurd h
reduce-Consistent env s (seats_reserved _ _ _ _ _) c h = absurd h
reduce-Consistent env s (seats_confirmed _ _ _ _ _) c h = absurd h
reduce-Consistent env s (seats_released _ _ _ _) c h = absurd h
reduce-Consistent env s (validation_failed error) c h = failed-Consistent s error c
reduce-Consistent env s (version_updated _) c h = same_seats-Consistent s _ refl refl c
reduce-Consistent env s (get_all_sections _) c h = c
reduce-Consistent env s (get_section_availability _) c h = c
reduce-Consistent env s (get_total_available _) c h = c
reduce-Consistent env s (insufficient_inventory _ _ _) c h = c
reduce-Consistent env s (all_sections_queried _ _) c h = c
reduce-Consistent env s (section_availability_queried _ _) c h = c
reduce-Consistent env s (total_available_queried _ _) c h = c

abbrev pub History : Type 0
History = List (InventoryEnvironment × InventoryAction)

abbrev pub run : State → History → State
run s [] = s
run s ((env, action) ∷ h) = run (reduce s action env).0 h

-- Every action of a history is admissible in the state in which it is reduced.
abbrev pub Allowed : State → History → Type 0
Allowed s [] = Unit
Allowed s ((env, action) ∷ h) = Admissible env s action × Allowed (reduce s action env).0 h

pub new_state-Consistent : Consistent new_state
unfolding new_state Dict.get
new_state-Consistent = record {
  unique = λ i. omega arith;
  own = tt;
  holders = tt;
  one_section = λ r. ((0, ""), tt);
  exact = λ k i found. absurd (ground (arith, found));
  unlisted = λ k missing. refl;
}

pub run-Consistent : (s : State) (h : History) → Consistent s → Allowed s h → Consistent (run s h)
run-Consistent s [] c allowed = c
run-Consistent s ((env, action) ∷ h) c (here, rest) =
    run-Consistent (reduce s action env).0 h (reduce-Consistent env s action c here) rest

-- In a consistent state the counts of a section are exact and within its capacity.
pub Consistent-counts :
    {s : State} (key : Section) (i : Inventory)
    → Consistent s
    → get_inventory s key ≡ some i
    → (i.reserved + i.sold ≤ i.total_capacity)
      × (i.reserved ≡ taken key s.seat_assignments)
      × (i.sold ≡ gone key s.seat_assignments)
      × (available i ≡ free key s.seat_assignments)
unfolding get_inventory available
Consistent-counts key i c found =
    let e = c.exact key i found in
    (
      omega (arith, e.reserved_exact, e.sold_exact, e.capacity_exact),
      e.reserved_exact,
      e.sold_exact,
      omega (arith, e.reserved_exact, e.sold_exact, e.capacity_exact, e.fits),
    )

-- After any history of actions, from the start, that are admissible when they are reduced, the
-- reserved and sold seats of each section are counted exactly, together they never exceed its
-- capacity, and `available` is the number of its seats that are available. Admissible are:
-- an initialization whose new seats, as many as the capacity, which is below 2 ^ 32, get new
-- identifiers; a reservation that has no seats in another section; every other command, query and
-- answer; and a load that found nothing, whose snapshot agrees with the state, or whose snapshot is of
-- a section that is not known, with new seats of this section, each with a holder exactly while it
-- is reserved and reserved for none that has seats elsewhere, and with their numbers as counts. Not
-- admissible are a load that the projection answers with an older snapshot of a known section and the
-- event of a command that is sent from outside.
pub never_oversold :
    (h : History) (key : Section) (i : Inventory)
    → Allowed new_state h
    → get_inventory (run new_state h) key ≡ some i
    → (i.reserved + i.sold ≤ i.total_capacity)
      × (i.reserved ≡ taken key (run new_state h).seat_assignments)
      × (i.sold ≡ gone key (run new_state h).seat_assignments)
      × (available i ≡ free key (run new_state h).seat_assignments)
never_oversold h key i allowed found =
    Consistent-counts key i (run-Consistent new_state h new_state-Consistent allowed) found
