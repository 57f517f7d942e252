-- ===== src/Auth/RateLimiter/Window.antt =====
-- auth/src/mocks/rate_limiter.rs: the limiter against one that forgets nothing.
use composable_rust.Prelude.{
  ℕ, String, Bool, true, false, List, [], ◌∷◌, ◌++◌, ◌+◌, ◌≤◌, ok, err, is_ok, leb, length, filter,
  if◌then◌else◌, text_key, ◌≡◌, refl, sym, subst, ◌∙◌, ap, ap₂, arith, Bool-cases, inl, inr,
  eq_refl,
}
use composable_rust.Prelude.Dict
use composable_rust.Prelude.Dict.{get-insert, get-remove}
use composable_rust.Auth.RateLimiter.{
  too_many_attempts, MockRateLimiter, window_start, cleanup_old_entries, attempts_of,
  check_and_record, reset,
}

-- How many times of a list are not before a start.
abbrev pub since : ℕ → List ℕ → ℕ
since start times = length (filter (λ ts. leb start ts) times)

-- The reference: every attempt that was allowed is remembered, and one more is allowed if fewer
-- than `max` of them are in the window.
unfoldable pub allowed : (now max window : ℕ) → List ℕ → Bool × List ℕ
allowed now max window log =
    if leb max (since (window_start now window) log) then (false, log) else (true, log ++ now ∷ [])

-- The calls at some times, one after the other, by the limiter and by the reference.
unfoldable pub decisions : String → (max window : ℕ) → List ℕ → MockRateLimiter → List Bool
unfolding check_and_record
decisions key max window [] attempts = []
decisions key max window (now ∷ times) attempts =
    let (result, attempts') = check_and_record now key max window attempts in
    is_ok result ∷ decisions key max window times attempts'

unfoldable pub reference_decisions : (max window : ℕ) → List ℕ → List ℕ → List Bool
unfolding allowed
reference_decisions max window [] log = []
reference_decisions max window (now ∷ times) log =
    let (yes_or_no, log') = allowed now max window log in
    yes_or_no ∷ reference_decisions max window times log'

-- Times that do not go back, from a first one on.
abbrev pub Ascending : ℕ → List ℕ → Type 0
Ascending first [] = Unit
Ascending first (t ∷ ts) = (first ≤ t) × Ascending t ts

-- From a start on, the limiter has as many attempts as the reference.
abbrev Agrees : String → ℕ → MockRateLimiter → List ℕ → Type 0
Agrees key start attempts log =
    (from : ℕ) → start ≤ from → since from (attempts_of key attempts) ≡ since from log

since-append :
    (from : ℕ) (a : List ℕ) (t : ℕ) → since from (a ++ t ∷ []) ≡ since from a + since from (t ∷ [])
since-append from [] t = omega arith
since-append from (x ∷ a) t = ground (arith, since-append from a t)

since-cleanup :
    (from start : ℕ) (a : List ℕ)
    → start ≤ from
    → since from (cleanup_old_entries a start) ≡ since from a
unfolding cleanup_old_entries
since-cleanup from start [] h = refl
since-cleanup from start (x ∷ a) h = ground (arith, since-cleanup from start a h)

attempts_of-insert :
    (key : String) (l : List ℕ) (attempts : MockRateLimiter)
    → attempts_of key (Dict.insert key l attempts) ≡ l
unfolding attempts_of
attempts_of-insert key l attempts = ground (arith, get-insert key key l attempts, eq_refl key)

-- What one call does, by whether the window is full.
module _ (key : String) (max window now : ℕ) (attempts : MockRateLimiter) where
  abbrev kept : List ℕ
  kept = cleanup_old_entries (attempts_of key attempts) (window_start now window)

  refused_call :
      leb max (length kept) ≡ true
      → check_and_record now key max window attempts
        ≡ (err (too_many_attempts window), Dict.insert key kept attempts)
  unfolding check_and_record
  refused_call full = ground (arith, full)

  allowed_call :
      leb max (length kept) ≡ false
      → check_and_record now key max window attempts
        ≡ (ok tt, Dict.insert key (kept ++ now ∷ []) attempts)
  unfolding check_and_record
  allowed_call room = ground (arith, room)

  module _ (start : ℕ) (log : List ℕ) (later : start ≤ window_start now window)
      (agrees : Agrees key start attempts log) where
    kept-Agrees : Agrees key (window_start now window) (Dict.insert key kept attempts) log
    kept-Agrees from h =
        ap (since from) (attempts_of-insert key kept attempts)
        ∙ since-cleanup from (window_start now window) (attempts_of key attempts) h
        ∙ agrees from (omega (arith, later, h))

    pushed-Agrees :
        Agrees key
          (window_start now window)
          (Dict.insert key (kept ++ now ∷ []) attempts)
          (log ++ now ∷ [])
    pushed-Agrees from h =
        ap (since from) (attempts_of-insert key (kept ++ now ∷ []) attempts)
        ∙ since-append from kept now
        ∙ ap (λ n. n + since from (now ∷ []))
            (since-cleanup from (window_start now window) (attempts_of key attempts) h
              ∙ agrees from (omega (arith, later, h)))
        ∙ sym (since-append from log now)

  full-Agrees :
      (start : ℕ) (log : List ℕ)
      → start ≤ window_start now window
      → Agrees key start attempts log
      → length kept ≡ since (window_start now window) log
  unfolding cleanup_old_entries
  full-Agrees start log later agrees = agrees (window_start now window) later

decisions_agree :
    (key : String) (max window first : ℕ) (times : List ℕ) (attempts : MockRateLimiter)
    (log : List ℕ)
    → Ascending first times
    → Agrees key (window_start first window) attempts log
    → decisions key max window times attempts ≡ reference_decisions max window times log
unfolding decisions reference_decisions
decisions_agree key max window first [] attempts log up agrees = refl
decisions_agree key max window first (now ∷ times) attempts log up agrees =
    let start = window_start now window in
    let earlier : window_start first window ≤ start = omega (arith, up.0) in
    let same =
      full-Agrees key max window now attempts (window_start first window) log earlier agrees in
    elim (Bool-cases (leb max (since start log))) [
      | inl full ↦
          rw
            (refused_call key max window now attempts
              (subst (λ n. leb max n ≡ true) (sym same) full))
            (ap₂ ◌∷◌ (ground (arith, full)) (
              decisions_agree key max window now times _ log up.1 (
                kept-Agrees key max window now attempts (window_start first window) log earlier
                  agrees)
              ∙ ap (reference_decisions max window times) (ground (arith, full))))
      | inr room ↦
          rw
            (allowed_call key max window now attempts
              (subst (λ n. leb max n ≡ false) (sym same) room))
            (ap₂ ◌∷◌ (ground (arith, room)) (
              decisions_agree key max window now times _ (log ++ now ∷ []) up.1 (
                pushed-Agrees key max window now attempts (window_start first window) log earlier
                  agrees)
              ∙ ap (reference_decisions max window times) (ground (arith, room))))
    ]

-- After a reset of a key, and so also for a new limiter, calls for that key at times that do not go
-- back are allowed exactly as by a limiter that remembers all allowed attempts and allows one more
-- if fewer than the maximum are in the window.
pub decisions-reference :
    (key : String) (max window : ℕ) (times : List ℕ) (attempts : MockRateLimiter)
    → Ascending 0 times
    → decisions key max window times (reset key attempts) ≡ reference_decisions max window times []
unfolding reset attempts_of
decisions-reference key max window times attempts up =
    decisions_agree key max window 0 times (reset key attempts) [] up
      (λ from h. ground (arith, get-remove key key attempts, eq_refl key))
