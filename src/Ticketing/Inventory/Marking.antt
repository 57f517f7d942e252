-- ===== src/Ticketing/Inventory/Marking.antt =====
-- examples/ticketing/src/aggregates/inventory.rs: how marking seats moves them between the numbers of
-- a section's available, reserved and sold seats.
use composable_rust.Prelude.{
  ℕ, Bool, true, false, List, ◌≡◌, refl, sym, ◌≢◌, ◌∙◌, ◌+◌, ◌&&◌, length, All, arith, inl, inr,
  Bool-cases, subst,
}
use composable_rust.Prelude.Counts.{
  one, count, total-eq, total-split, total-zero, mapped-All, All-map,
}
use composable_rust.Prelude.Entries.{Unique, is_one_of, rewritten, rewritten-Unique}
use composable_rust.Ticketing.Types.{SeatId, Section, SeatStatus, SeatAssignment, Seats}
use composable_rust.Ticketing.Inventory.{in_section, mark_seats}
use composable_rust.Ticketing.Inventory.SeatCounts.{
  in_status, total-mark_seats, in_section_eq, mark_seats-map, OwnKeys,
}

-- What marking may do to a seat: it stays in its section, and marking again changes nothing.
pub record Marks (f : SeatAssignment → SeatAssignment) : Type 0 where
  pub again : (v : SeatAssignment) → f (f v) ≡ f v
  pub same_section : (k : Section) (v : SeatAssignment) → in_section k (f v) ≡ in_section k v
  pub same_id : (v : SeatAssignment) → (f v).seat_id ≡ v.seat_id

-- How many of the seats of the list are in the section.
abbrev pub marked_in : Section → List SeatId → Seats → ℕ
marked_in k seats m = count (λ e. is_one_of seats e && in_section k e.1) m

module _ (f : SeatAssignment → SeatAssignment) (h : Marks f) (seats : List SeatId) (m : Seats)
    (u : Unique m) (k : Section) (a : SeatStatus → Bool) where
  abbrev pub Goes : (SeatId × SeatAssignment → Type 0) → Type 0
  Goes P = All (λ e. is_one_of seats e ≡ true → P e) m

  pub gains :
      Goes (λ e. (a e.1.status ≡ false) × (a (f e.1).status ≡ true))
      → count (in_status a k) (mark_seats f seats m) ≡ count (in_status a k) m + marked_in k seats m
  gains all =
      total-mark_seats (λ e. one (in_status a k e)) f seats m h.again u
      ∙ total-split (λ e. one (in_status a k (rewritten f seats e))) (λ e. one (in_status a k e))
          (λ e. one (is_one_of seats e && in_section k e.1)) m
          (mapped-All _ _ m (λ e g. ground (arith, h.same_section k e.1, g)) all)

  pub loses :
      Goes (λ e. (a e.1.status ≡ true) × (a (f e.1).status ≡ false))
      → count (in_status a k) m ≡ count (in_status a k) (mark_seats f seats m) + marked_in k seats m
  loses all = rw (total-mark_seats (λ e. one (in_status a k e)) f seats m h.again u) (
      total-split (λ e. one (in_status a k e)) (λ e. one (in_status a k (rewritten f seats e)))
        (λ e. one (is_one_of seats e && in_section k e.1)) m
        (mapped-All _ _ m (λ e g. ground (arith, h.same_section k e.1, g)) all))

  pub keeps :
      Goes (λ e. (a e.1.status ≡ false) × (a (f e.1).status ≡ false))
      → count (in_status a k) (mark_seats f seats m) ≡ count (in_status a k) m
  keeps all =
      total-mark_seats (λ e. one (in_status a k e)) f seats m h.again u
      ∙ total-eq (λ e. one (in_status a k (rewritten f seats e))) (λ e. one (in_status a k e)) m
          (mapped-All _ _ m (λ e g. ground (arith, h.same_section k e.1, g)) all)

module _ (k key : Section) where
  pub elsewhere :
      (b : Bool) (v : SeatAssignment)
      → (b ≡ true → in_section key v ≡ true)
      → k ≢ key
      → one (b && in_section k v) ≡ 0
  elsewhere false v g other = refl
  elsewhere true v g other = elim (Bool-cases (in_section k v)) [
    | inl here ↦ absurd (other (in_section_eq k key v here (g refl)))
    | inr away ↦ rw away refl
  ]

module _ (k key : Section) (seats : List SeatId) (m : Seats) where
  -- All marked seats are in the section `key`.
  pub marked_in_same :
      All (λ e. is_one_of seats e ≡ true → in_section key e.1 ≡ true) m
      → count (is_one_of seats) m ≡ length seats
      → marked_in key seats m ≡ length seats
  marked_in_same all all_there =
      total-eq (λ e. one (is_one_of seats e && in_section key e.1)) (λ e. one (is_one_of seats e)) m
        (mapped-All _ _ m (λ e g. ground (arith, g)) all)
      ∙ all_there

  pub marked_in_other :
      All (λ e. is_one_of seats e ≡ true → in_section key e.1 ≡ true) m
      → k ≢ key
      → marked_in k seats m ≡ 0
  marked_in_other all other =
      total-eq (λ e. one (is_one_of seats e && in_section k e.1)) (λ e. 0) m
        (mapped-All _ _ m (λ e g. elsewhere k key (is_one_of seats e) e.1 g other) all)
      ∙ total-zero (λ e. 0) m (λ e. refl)

module _ (f : SeatAssignment → SeatAssignment) (h : Marks f) (seats : List SeatId) (m : Seats)
    (u : Unique m) where
  -- A property of every seat after the marking.
  pub mark_seats-All :
      (P : SeatId × SeatAssignment → Type 0)
      → All (λ e. P (rewritten f seats e)) m
      → All P (mark_seats f seats m)
  mark_seats-All P all =
      subst (All P) (sym (mark_seats-map f seats m h.again u)) (All-map P (rewritten f seats) m all)

  pub mark_seats-Unique : Unique (mark_seats f seats m)
  mark_seats-Unique = rw (mark_seats-map f seats m h.again u) (rewritten-Unique f seats m u)

  pub mark_seats-OwnKeys : OwnKeys m → OwnKeys (mark_seats f seats m)
  mark_seats-OwnKeys own =
      mark_seats-All (λ e. e.1.seat_id ≡ e.0)
        (mapped-All _ _ m (λ e own. ground (arith, own, h.same_id e.1)) own)
