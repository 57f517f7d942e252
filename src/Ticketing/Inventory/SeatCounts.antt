-- ===== src/Ticketing/Inventory/SeatCounts.antt =====
-- examples/ticketing/src/aggregates/inventory.rs: the seats of a section by their status, and what
-- marking seats does to their numbers.
use composable_rust.Prelude.{
  ℕ, Bool, true, false, List, [], ◌∷◌, map, ◌≡◌, refl, sym, ap, ◌∙◌, ◌≤◌, ◌&&◌, length, filter,
  take, All, total, arith, number_key, length-map, eq_iff, ==_iff,
}
use composable_rust.Prelude.Dict
use composable_rust.Prelude.Sort.{
  sort, occurrences, occurrences-sort, occurrences-take, length-sort, length-take,
}
use composable_rust.Prelude.Counts.{one, count, total-map, mapped-All, length-filter}
use composable_rust.Prelude.Entries.{
  keys, Unique, is_one_of, count-is_one_of, rewritten, adjust-map, rewritten-rewritten,
  rewritten_none, rewritten-Unique, own-occurrences, filter-occurrences,
}
use composable_rust.Ticketing.Types.{
  SeatId, Section, SeatStatus, available_seat, reserved_until, sold_seat, held, is_available,
  SeatAssignment, Seats,
}
use composable_rust.Ticketing.Inventory.{in_section, mark_seats}

abbrev pub is_reserved : SeatStatus → Bool
is_reserved available_seat = false
is_reserved (reserved_until _) = true
is_reserved sold_seat = false
is_reserved held = false

abbrev pub is_sold : SeatStatus → Bool
is_sold available_seat = false
is_sold (reserved_until _) = false
is_sold sold_seat = true
is_sold held = false

abbrev pub in_status : (SeatStatus → Bool) → Section → SeatId × SeatAssignment → Bool
in_status a key e = in_section key e.1 && a e.1.status

-- The number of seats of a section that are available, reserved and sold.
abbrev pub free : Section → Seats → ℕ
free key m = count (in_status is_available key) m

abbrev pub taken : Section → Seats → ℕ
taken key m = count (in_status is_reserved key) m

abbrev pub gone : Section → Seats → ℕ
gone key m = count (in_status is_sold key) m

-- Every seat is stored under its own identifier.
abbrev pub OwnKeys : Seats → Type 0
OwnKeys m = All (λ e. e.1.seat_id ≡ e.0) m

pub ids-eq-keys :
    (p : SeatId × SeatAssignment → Bool) (m : Seats)
    → OwnKeys m
    → map (λ e. e.1.seat_id) (filter p m) ≡ keys (filter p m)
ids-eq-keys p [] own = refl
ids-eq-keys p (e ∷ m) (here, own) = ground (arith, here, ids-eq-keys p m own)

pub mark_seats-map :
    (f : SeatAssignment → SeatAssignment) (seats : List SeatId) (m : Seats)
    → ((v : SeatAssignment) → f (f v) ≡ f v)
    → Unique m
    → mark_seats f seats m ≡ map (rewritten f seats) m
unfolding mark_seats
mark_seats-map f [] m h u = sym (rewritten_none f m)
mark_seats-map f (x ∷ seats) m h u =
    let now = adjust-map f x m u in
    let unique : Unique (Dict.adjust x f m) = rw now (rewritten-Unique f (x ∷ []) m u) in
    mark_seats-map f seats (Dict.adjust x f m) h unique
    ∙ ap (map (rewritten f seats)) now
    ∙ rewritten-rewritten f x seats m h

-- What marking does to a sum over the seats: each marked seat counts as what it has become.
pub total-mark_seats :
    (g : SeatId × SeatAssignment → ℕ) (f : SeatAssignment → SeatAssignment) (seats : List SeatId)
    (m : Seats)
    → ((v : SeatAssignment) → f (f v) ≡ f v)
    → Unique m
    → total g (mark_seats f seats m) ≡ total (λ e. g (rewritten f seats e)) m
total-mark_seats g f seats m h u =
    ap (total g) (mark_seats-map f seats m h u) ∙ total-map g (rewritten f seats) m

module _ (p : SeatId × SeatAssignment → Bool) (m : Seats) (u : Unique m) (own : OwnKeys m) where
  -- The seats that pass a test, found by their identifiers.
  abbrev pub found : List SeatId
  found = map (λ e. e.1.seat_id) (filter p m)

  pub occurrences-found : (i : SeatId) → occurrences i found ≤ occurrences i (keys m)
  occurrences-found i = rw (ids-eq-keys p m own) (filter-occurrences p i m)

  -- A seat is found exactly if it passes.
  pub found-exact : All (λ e. is_one_of found e ≡ p e) m
  found-exact =
      mapped-All (λ e. occurrences e.0 (keys (filter p m)) ≡ one (p e))
        (λ e. is_one_of found e ≡ p e) m (λ e h. rw (ids-eq-keys p m own) (ground (arith, h)))
        (own-occurrences p m u)

  pub length-found : length found ≡ count p m
  length-found = length-map (filter p m) (λ e. e.1.seat_id) ∙ length-filter p m

  -- The first seats in the order of the identifiers.
  module _ (quantity : ℕ) where
    abbrev pub selected : List SeatId
    selected = take quantity (sort found)

    pub occurrences-selected : (i : SeatId) → occurrences i selected ≤ occurrences i (keys m)
    occurrences-selected i = omega (
      arith,
      occurrences-take i quantity (sort found),
      occurrences-sort i found,
      occurrences-found i,
    )

    -- A seat that is selected passes.
    pub selected-passes : All (λ e. is_one_of selected e ≡ true → p e ≡ true) m
    selected-passes =
        mapped-All (λ e. is_one_of found e ≡ p e) (λ e. is_one_of selected e ≡ true → p e ≡ true) m
          (λ e h k.
            ground (arith, occurrences-take e.0 quantity (sort found), occurrences-sort e.0 found))
          found-exact

    pub count-selected : count (is_one_of selected) m ≡ length selected
    count-selected = count-is_one_of selected m u occurrences-selected

    pub length-selected : quantity ≤ count p m → length selected ≡ quantity
    length-selected enough =
        length-take quantity (sort found) (omega (arith, length-sort found, length-found))

-- Seats of which each is in the section.
pub in_section_eq :
    (k key : Section) (v : SeatAssignment)
    → in_section k v ≡ true
    → in_section key v ≡ true
    → k ≡ key
in_section_eq (a, s) (b, t) v h g =
    grind (arith, ==_iff v.event_id a, ==_iff v.event_id b, eq_iff v.section s, eq_iff v.section t)
