-- ===== src/Ticketing/Inventory/Initialized.antt =====
-- examples/ticketing/src/aggregates/inventory.rs: a section that is initialized is consistent.
use composable_rust.Prelude.{
  u32_size, if◌then◌else◌, Bool, none, List, [], ◌∷◌, ◌≡◌, refl, sym, ◌<◌, inl, arith, length,
  pair_key, number_key, map, ap, eq_refl,
}
use composable_rust.Prelude.Dict
use composable_rust.Prelude.Dict.{get-insert}
use composable_rust.Prelude.Counts.{everywhere, All-map}
use composable_rust.Ticketing.Types.{
  SeatId, Section, SeatAssignment, SeatStatus, available_seat, is_available, new_seat, DateTime,
  new_inventory,
}
use composable_rust.Ticketing.Inventory.{State, apply_event}
use composable_rust.Ticketing.Inventory.Actions.{inventory_initialized}
use composable_rust.Ticketing.Inventory.SeatCounts.{is_reserved, is_sold}
use composable_rust.Ticketing.Inventory.Invariant.{Consistent}
use composable_rust.Ticketing.Inventory.Loading.{
  ids, Fresh, create_seats-load_seats, with_status, Loadable,
}
use composable_rust.Ticketing.Inventory.Loaded.{with_section-Consistent}

abbrev new_seats : Section → List SeatId → List SeatAssignment
new_seats key l = map (λ id. new_seat id key.0 key.1 none) l

ids-new_seats : (key : Section) (l : List SeatId) → ids (new_seats key l) ≡ l
ids-new_seats key [] = refl
ids-new_seats key (id ∷ l) = ap (◌∷◌ id) (ids-new_seats key l)

with_status-new_seats :
    (a : SeatStatus → Bool) (key : Section) (l : List SeatId)
    → with_status a (new_seats key l) ≡ (if a available_seat then length l else 0)
with_status-new_seats a key [] = ground arith
with_status-new_seats a key (id ∷ l) = ground (arith, with_status-new_seats a key l)

new_seats-Loadable :
    (s : State) (key : Section) (l : List SeatId)
    → Dict.get key s.inventories ≡ none
    → Fresh l s.seat_assignments
    → length l < u32_size
    → Loadable s key (new_inventory key.0 key.1 (length l)) (new_seats key l)
new_seats-Loadable s key l unknown fresh small = record {
  unknown = unknown;
  fresh = rw (ids-new_seats key l) fresh;
  all_here = All-map _ _ l (everywhere _ l (λ id. ground (arith, eq_refl key.1)));
  all_held = All-map _ _ l (everywhere _ l (λ id. refl));
  apart = λ q. inl (All-map _ _ l (everywhere _ l (λ id. refl)));
  all_counted = (
    sym (with_status-new_seats is_reserved key l),
    sym (with_status-new_seats is_sold key l),
    omega (
      arith,
      with_status-new_seats is_available key l,
      with_status-new_seats is_reserved key l,
      with_status-new_seats is_sold key l,
    ),
    small,
  );
}

pub inventory_initialized-Consistent :
    (s : State) (key : Section) (l : List SeatId) (now : DateTime)
    → Consistent s
    → Dict.get key s.inventories ≡ none
    → Fresh l s.seat_assignments
    → length l < u32_size
    → Consistent (apply_event s (inventory_initialized key (length l) l now))
unfolding apply_event
inventory_initialized-Consistent s key l now c unknown fresh small =
    with_section-Consistent s key (new_inventory key.0 key.1 (length l)) (new_seats key l) c
      (new_seats-Loadable s key l unknown fresh small) _
      (create_seats-load_seats key l s.seat_assignments) refl
