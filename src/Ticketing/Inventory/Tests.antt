-- ===== src/Ticketing/Inventory/Tests.antt =====
-- The properties of the inventory on an event with three seats.
use composable_rust.Prelude.{
  ℕ, false, ◌<◌, List, ap, ◌∙◌, subst, true, false, none, some, [], ◌∷◌, ◌≡◌, ◌+◌, ◌≤◌, ok, arith,
  refl, number_key, pair_key,
}
use mathlib.Core.List.Perm
use composable_rust.Prelude.Dict
use composable_rust.Core.Event.{SerializedEvent, nonnegative}
use composable_rust.Ticketing.Types.{
  Section, Inventory, SeatAssignment, available, get_inventory, new_state, new_seat, new_inventory,
}
use composable_rust.Ticketing.Inventory.{State, select_available_seats, apply_event}
use composable_rust.Ticketing.Inventory.Actions.{
  InventoryEnvironment, initialize_inventory, reserve_seats, seats_reserved, release_reservation,
  expire_reservation, inventory_state_loaded, insufficient, zero_quantity, too_many_seats,
  not_found,
}
use composable_rust.Ticketing.Inventory.Reduce.{reduce}
use composable_rust.Ticketing.Inventory.SeatCounts.{free, taken, gone}
use composable_rust.Ticketing.Inventory.Overselling.{
  History, run, Allowed, run-Consistent, new_state-Consistent, never_oversold,
}
use composable_rust.Ticketing.Inventory.Invariant.{Consistent}
use composable_rust.Ticketing.Inventory.Releases.{release_undoes}
use composable_rust.Ticketing.Inventory.Refusals.{select_available_seats-perm, reserve_refused}

abbrev an_event : SerializedEvent
an_event = record {
  event_type = "Inventory";
  event_version = nonnegative 1;
  bytes = [];
  metadata = none;
}

abbrev env : InventoryEnvironment
env = record {
  now = 0;
  later = 0;
  new_seat_ids = λ n. 13 ∷ 11 ∷ 12 ∷ [];
  event_store = 0;
  event_bus = 0;
  stream_id = "inventory";
  projection = record {
    load_inventory = λ _. ok none;
    all_sections = λ _. ok [];
    section_availability = λ _. ok none;
    total_available = λ _. ok 0;
  };
  serialize = λ _. ok an_event;
  contains_insufficient = λ _. false;
}

abbrev stalls : Section
stalls = (7, "stalls")

unfoldable opened_shop : State
unfolding reduce new_state Dict.insert Dict.get
opened_shop = (reduce new_state (initialize_inventory stalls 3 none) env).0

unfoldable shop : State
unfolding reduce opened_shop
shop = (reduce opened_shop (inventory_state_loaded stalls none []) env).0

-- The section is initialized, and marked as loaded by a load that found nothing.
abbrev opening : History
opening =
    (env, initialize_inventory stalls 3 none) ∷ (env, inventory_state_loaded stalls none []) ∷ []

opening-Allowed : Allowed new_state opening
unfolding new_state
opening-Allowed = (((λ i. ground arith), refl, omega arith), (tt, tt))

shop-run : run new_state opening ≡ shop
unfolding shop opened_shop
shop-run = refl

shop-Consistent : Consistent shop
shop-Consistent =
    subst Consistent shop-run
      (run-Consistent new_state opening new_state-Consistent opening-Allowed)

three_seats : get_inventory shop stalls ≡ some (new_inventory 7 "stalls" 3)
unfolding get_inventory shop Dict.get
three_seats = refl

lowest_first : select_available_seats shop stalls 2 ≡ 11 ∷ 12 ∷ []
unfolding select_available_seats shop Dict.get
lowest_first = refl

never_oversold_example :
    (0 + 0 ≤ 3)
    × (0 ≡ taken stalls (run new_state opening).seat_assignments)
    × (0 ≡ gone stalls (run new_state opening).seat_assignments)
    × (available (new_inventory 7 "stalls" 3)
        ≡ free stalls (run new_state opening).seat_assignments)
never_oversold_example =
    never_oversold opening stalls (new_inventory 7 "stalls" 3) opening-Allowed
      (ap (λ s. get_inventory s stalls) shop-run ∙ three_seats)

release_undoes_example :
    let reserved =
      apply_event shop (seats_reserved 5 stalls (select_available_seats shop stalls 2) 9 0) in
    ((reduce reserved (release_reservation 5) env).0 ≡ record shop { last_error = none })
    × ((reduce reserved (expire_reservation 5) env).0 ≡ record shop { last_error = none })
unfolding shop available
release_undoes_example =
    release_undoes shop 5 stalls 2 9 0 (new_inventory 7 "stalls" 3) env shop-Consistent three_seats
      (omega arith) (omega arith) (refl, (refl, (refl, tt)))

-- The text of every error is taken for one of too few seats.
abbrev reporting : InventoryEnvironment
reporting = record env { contains_insufficient = λ _. true }

reserve_refused_example :
    let result = reduce shop (reserve_seats 5 stalls 4 none 9) reporting in
    (◌≡◌ {A = ℕ} 4 0 → result ≡ (record shop { last_error = some zero_quantity }, []))
    × (8 < 4 → result ≡ (record shop { last_error = some (too_many_seats 4) }, []))
    × (1 ≤ 4
        → 4 ≤ 8
        → get_inventory shop stalls ≡ none
        → result ≡ (record shop { last_error = some (not_found stalls) }, []))
    × ((i : Inventory)
        → 1 ≤ 4
        → 4 ≤ 8
        → get_inventory shop stalls ≡ some i
        → available i < 4
        → result ≡ (record shop { last_error = some (insufficient 4 (available i)) }, []))
unfolding shop
reserve_refused_example = reserve_refused reporting shop 5 stalls 4 none 9 refl

-- The same seats in another order.
abbrev swapped : State
swapped = record shop {
  seat_assignments =
      (11, new_seat 11 7 "stalls" none)
      ∷ (13, new_seat 13 7 "stalls" none)
      ∷ (12, new_seat 12 7 "stalls" none)
      ∷ [];
}

select_available_seats-perm_example :
    select_available_seats shop stalls 2 ≡ select_available_seats swapped stalls 2
unfolding shop
select_available_seats-perm_example =
    select_available_seats-perm shop swapped stalls 2 (Perm.swap _ _ _)

abbrev snapshot : List SeatAssignment
snapshot = new_seat 11 7 "stalls" none ∷ new_seat 14 7 "stalls" none ∷ []
