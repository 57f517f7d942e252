-- ===== src/Runtime/Store/Shutdown.antt =====
-- runtime/src/lib.rs, module `store`: what a handle and a shutdown may rely on.
use composable_rust.Prelude.{
  ap, true, ◌==◌, ◌||◌, arith, if◌then◌else◌, subst, sym, ◌∷◌, some, ℕ, Option, ◌-◌, ◌+◌, Bool, ◌≡◌,
  none, some, List, if◌then◌else◌, ok, err, leb, ◌==◌,
}
use composable_rust.Core.Effect.{Effects, Effect}
use composable_rust.Runtime.Store.{
  Task, sequential_wait, sequential_next, advance, Answers, Store, tracks, bit, shutdown_timeout,
  new_store,
}
use composable_rust.Runtime.Store.Run.{finish, Event, run, poll_shutdown}
use composable_rust.Runtime.Store.Tasks.{live, guarded_tasks}
use composable_rust.Runtime.Store.Reachable.{IsValid, run_store-IsValid, new_store-IsValid}
use composable_rust.Core.Event.{EventMetadata}
use composable_rust.Runtime.Store.Invariant.{Counted}

tracks_self : (c : ℕ) (o : Option ℕ) → o ≡ some c → tracks c o ≡ true
tracks_self c o h =
    let same : (c == c) ≡ true = ground arith in subst (λ p. tracks c p ≡ true) (sym h) same

count_after : (b : Bool) (k l : ℕ) → k ≡ bit b + l → k - bit b ≡ l
count_after b k l eq = omega (arith, eq)

module _ {S A : Type 0} (reduce : S → A → S × List (Effect A)) where
  -- After any run of a new store, the counter behind each handle is the number of the tasks alive
  -- that were started for it, and `pending_effects` is the number of the tasks alive that a shutdown
  -- waits for.
  pub counts_are_exact :
      (es : List (Event A)) (x : S) (c : ℕ)
      → let s = run reduce es (new_store x) in
        (s.counters c ≡ live c s.tasks) × (s.pending_effects ≡ guarded_tasks s.tasks)
  unfolding IsValid
  counts_are_exact es x c =
      let h = run_store-IsValid reduce es (new_store x) (new_store-IsValid A x) in
      (h.counted c, h.pending_counted)

  -- After any run of a new store, a shutdown that looks at it reports success exactly if no task that
  -- it waits for is alive, and a timeout exactly if one is and the time is over, with their number.
  pub poll_shutdown-reports :
      (es : List (Event A)) (x : S) (timeout elapsed : ℕ)
      → let s = run reduce es (new_store x) in
        poll_shutdown timeout elapsed s ≡ (
          if guarded_tasks s.tasks == 0
          then some (ok tt)
          else if leb timeout elapsed
          then some (err (shutdown_timeout (guarded_tasks s.tasks)))
          else none)
  unfolding IsValid poll_shutdown
  poll_shutdown-reports es x timeout elapsed =
      let h = run_store-IsValid reduce es (new_store x) (new_store-IsValid A x) in
      rw (h.pending_counted)

  -- A sequential effect that waits for one of its effects goes on as soon as one task of that effect
  -- has ended, however many other tasks of it are still alive: its counter is their number.
  pub sequential_wait-first_completion :
      (t : Task A) (c : ℕ) (waiting : Effects A) (m : Option EventMetadata) (r : Answers)
      (s : Store S A)
      → t.tracking ≡ some c
      → Counted s (t ∷ s.tasks)
      → let s' = finish t s in
        (advance reduce (sequential_wait c waiting) m r s' ≡ (sequential_next waiting, s'))
        × (s'.counters c ≡ live c s.tasks)
  unfolding finish advance live
  sequential_wait-first_completion t c waiting m r s tracked h =
      let own = tracks_self c t.tracking tracked in
      (
        ap
            (λ b.
              if b || s.notified c
              then (sequential_next waiting, finish t s)
              else (sequential_wait c waiting, finish t s))
            own,
        count_after (tracks c t.tracking) (s.counters c) (live c s.tasks) (h.counted c),
      )
