-- ===== src/Ticketing/Inventory/Loaded.antt =====
-- examples/ticketing/src/aggregates/inventory.rs: the state after a section is created or loaded is
-- consistent.
use composable_rust.Prelude.{
  Bool, true, none, some, List, ◌≡◌, refl, sym, ◌∙◌, ◌+◌, ◌≢◌, inl, inr, arith, pair_key,
  number_key, Bool-cases, subst, total, ap, both_same, both_same_iff,
}
use composable_rust.Prelude.Dict
use composable_rust.Prelude.Dict.{get-insert}
use composable_rust.Prelude.Counts.{one, count, total-eq, total-zero, everywhere, mapped-All}
use composable_rust.Prelude.Entries.{Unique}
use composable_rust.Ticketing.Types.{
  ReservationId, Section, Inventory, SeatAssignment, Seats, SeatStatus, is_available,
}
use composable_rust.Ticketing.Inventory.{State, load_seats, loaded_inventory, apply_event}
use composable_rust.Ticketing.Inventory.Actions.{Counts, inventory_state_loaded}
use composable_rust.Ticketing.Inventory.SeatCounts.{
  OwnKeys, free, taken, gone, is_reserved, is_sold, in_status,
}
use composable_rust.Ticketing.Inventory.Marking.{elsewhere}
use composable_rust.Ticketing.Inventory.Invariant.{
  Exact, InOneSection, Holders, Consistent, SameNumbers, Exact-same,
}
use composable_rust.Ticketing.Inventory.Loading.{
  total-load_seats, load_seats-Unique, load_seats-All, with_status, Loadable,
}

module _ (s : State) (key : Section) (i : Inventory) (seats : List SeatAssignment)
    (c : Consistent s) (l : Loadable s key i seats) where
  loaded_seats : Seats
  loaded_seats = load_seats seats s.seat_assignments

  new_here :
      (a : SeatStatus → Bool)
      → count (in_status a key) loaded_seats
        ≡ count (in_status a key) s.seat_assignments + with_status a seats
  unfolding loaded_seats
  new_here a =
      total-load_seats (λ e. one (in_status a key e)) seats s.seat_assignments l.fresh
      ∙ ap (λ n. count (in_status a key) s.seat_assignments + n)
          (total-eq (λ v. one (in_status a key (v.seat_id, v))) (λ v. one (a v.status)) seats
            (mapped-All _ _ seats (λ v h. rw h refl) l.all_here))

  new_elsewhere :
      (a : SeatStatus → Bool) (k : Section)
      → k ≢ key
      → count (in_status a k) loaded_seats ≡ count (in_status a k) s.seat_assignments
  unfolding loaded_seats
  new_elsewhere a k other =
      let zero_new : total (λ v. one (in_status a k (v.seat_id, v))) seats ≡ 0 =
        total-eq (λ v. one (in_status a k (v.seat_id, v))) (λ v. 0) seats
          (mapped-All _ _ seats (λ v h. ground (arith, elsewhere k key true v (λ _. h) other))
            l.all_here)
        ∙ total-zero (λ v. 0) seats (λ v. refl) in
      omega (
        arith,
        zero_new,
        total-load_seats (λ e. one (in_status a k e)) seats s.seat_assignments l.fresh,
      )

  loaded_one_section : (q : ReservationId) → InOneSection q loaded_seats
  unfolding loaded_seats
  loaded_one_section q = elim (l.apart q) [
    | inl not_new ↦ (
      (c.one_section q).0,
      load_seats-All _ seats s.seat_assignments (c.one_section q).1
          (mapped-All _ _ seats (λ v h. λ k. absurd (ground (arith, h, k))) not_new),
    )
    | inr not_old ↦ (
      key,
      load_seats-All _ seats s.seat_assignments
          (mapped-All _ _ s.seat_assignments (λ e h. λ k. absurd (ground (arith, h, k))) not_old)
          (mapped-All _ _ seats (λ v h. λ k. h) l.all_here),
    )
  ]

  empty_before :
      (free key s.seat_assignments ≡ 0)
      × (taken key s.seat_assignments ≡ 0)
      × (gone key s.seat_assignments ≡ 0)
  empty_before =
      let none_there = c.unlisted key l.unknown in
      (omega (arith, none_there), omega (arith, none_there), omega (arith, none_there))

  loaded_here-Exact : Exact key i loaded_seats
  loaded_here-Exact =
      let counts = l.all_counted in
      record {
        reserved_exact = omega (arith, counts.0, new_here is_reserved, empty_before.1);
        sold_exact = omega (arith, counts.1, new_here is_sold, empty_before.2);
        capacity_exact = omega (
          arith,
          counts.2,
          empty_before.0,
          empty_before.1,
          empty_before.2,
          new_here is_available,
          new_here is_reserved,
          new_here is_sold,
        );
        fits = counts.3;
      }

  loaded_same : (k : Section) → k ≢ key → SameNumbers k s.seat_assignments loaded_seats
  loaded_same k other = (
    new_elsewhere is_available k other,
    new_elsewhere is_reserved k other,
    new_elsewhere is_sold k other,
  )

  loaded-Exact :
      (k : Section) (j : Inventory)
      → Dict.get k (Dict.insert key i s.inventories) ≡ some j
      → Exact k j loaded_seats
  loaded-Exact k j found = elim (Bool-cases (both_same key k)) [
    | inl same ↦
        let e : key ≡ k = (both_same_iff key k).0 same in
        let j_eq : i ≡ j = ground (arith, same, found, get-insert key k i s.inventories) in
        subst (λ x. Exact x j loaded_seats) e
          (subst (λ x. Exact key x loaded_seats) j_eq loaded_here-Exact)
    | inr different ↦
        Exact-same k j s.seat_assignments loaded_seats
          (loaded_same k (λ e. ground (arith, different, both_same_iff key k, sym e)))
          (c.exact k j (ground (arith, different, found, get-insert key k i s.inventories)))
  ]

  loaded_unlisted :
      (k : Section)
      → Dict.get k (Dict.insert key i s.inventories) ≡ none
      → free k loaded_seats + taken k loaded_seats + gone k loaded_seats ≡ 0
  loaded_unlisted k missing = elim (Bool-cases (both_same key k)) [
    | inl same ↦ absurd (ground (arith, same, missing, get-insert key k i s.inventories))
    | inr different ↦
        let same = loaded_same k (λ e. ground (arith, different, both_same_iff key k, sym e)) in
        let before =
          c.unlisted k (ground (arith, different, missing, get-insert key k i s.inventories)) in
        omega (arith, same.0, same.1, same.2, before)
  ]

  pub with_section-Consistent :
      (s' : State)
      → s'.seat_assignments ≡ load_seats seats s.seat_assignments
      → s'.inventories ≡ Dict.insert key i s.inventories
      → Consistent s'
  unfolding loaded_seats
  with_section-Consistent s' same_seats same_inventories = record {
    unique = subst Unique (sym same_seats) (load_seats-Unique seats s.seat_assignments l.fresh);
    own =
        subst OwnKeys (sym same_seats)
          (load_seats-All _ seats s.seat_assignments c.own (everywhere _ seats (λ v. refl)));
    holders =
        subst Holders (sym same_seats)
          (load_seats-All _ seats s.seat_assignments c.holders l.all_held);
    one_section = λ q. subst (InOneSection q) (sym same_seats) (loaded_one_section q);
    exact = λ k j found.
        subst (Exact k j) (sym same_seats)
          (loaded-Exact k j (subst (λ x. Dict.get k x ≡ some j) same_inventories found));
    unlisted = λ k missing.
        subst (λ m. free k m + taken k m + gone k m ≡ 0) (sym same_seats)
          (loaded_unlisted k (subst (λ x. Dict.get k x ≡ none) same_inventories missing));
  }

pub inventory_state_loaded-Consistent :
    (s : State) (key : Section) (counts : Counts) (seats : List SeatAssignment)
    → Consistent s
    → Loadable s key (loaded_inventory key counts) seats
    → Consistent (apply_event s (inventory_state_loaded key (some counts) seats))
unfolding apply_event
inventory_state_loaded-Consistent s key counts seats c l =
    with_section-Consistent s key (loaded_inventory key counts) seats c l _ refl refl
