-- ===== src/Runtime/Store/Reachable.antt =====
-- runtime/src/lib.rs, module `store`: what holds after any run of a store.
use composable_rust.Prelude.{
  if_both, pick, ℕ, zero, suc, ◌+◌, ◌≡◌, refl, Option, none, some, List, [], ◌∷◌, arith, All,
  Result,
}
use composable_rust.Core.Event.{EventMetadata}
use composable_rust.Core.Effect.{Effect}
use composable_rust.Runtime.Store.{
  Task, Store, new_channel, bit, tracks, new_store, advance, Answers, StoreError,
}
use composable_rust.Runtime.Store.Run.{
  finish, run_task, is_ending, send_with_metadata, start_shutdown, Event, step, run, at_position,
  send_event, advance_event, panic_event, shutdown_event,
}
use composable_rust.Runtime.Store.Tasks.{live, guarded_tasks}
use composable_rust.Runtime.Store.Channels.{TaskBelow, TrackingBelow, JobBelow}
use composable_rust.Runtime.Store.Invariant.{
  Counted, Held, Moved, Counted-new_channel, advance-Moved,
}
use mathlib.Core.Option

-- What a pick says of the list that it is from.
module _ {A : Type 0} where
  pub record Picked (t : Task A) (others ts : List (Task A)) : Type 1 where
    pub picked_live : (c : ℕ) → live c ts ≡ bit (tracks c t.tracking) + live c others
    pub picked_guarded : guarded_tasks ts ≡ bit t.guarded + guarded_tasks others
    pub picked_All : (P : Task A → Type 0) → All P ts → All P (t ∷ others)

  unfoldable pub PickOk : Option (Task A × List (Task A)) → List (Task A) → Type 1
  PickOk none ts = Unit
  PickOk (some (t, others)) ts = Picked t others ts

  PickOk-later :
      (u : Task A) (p : Option (Task A × List (Task A))) (ts : List (Task A))
      → PickOk p ts
      → PickOk (Option.map (λ q. (q.0, u ∷ q.1)) p) (u ∷ ts)
  unfolding PickOk live guarded_tasks
  PickOk-later u none ts h = tt
  PickOk-later u (some (t, others)) ts h = record {
    picked_live = λ c. omega (arith, h.picked_live c);
    picked_guarded = omega (arith, h.picked_guarded);
    picked_All = λ P all. let rest = h.picked_All P all.1 in (rest.0, (all.0, rest.1));
  }

  pub pick-PickOk : (i : ℕ) (ts : List (Task A)) → PickOk (pick i ts) ts
  unfolding PickOk live guarded_tasks
  pick-PickOk i [] = tt
  pick-PickOk zero (t ∷ ts) = record {
    picked_live = λ c. refl;
    picked_guarded = refl;
    picked_All = λ P all. all;
  }
  pick-PickOk (suc i) (t ∷ ts) = PickOk-later t (pick i ts) ts (pick-PickOk i ts)

module _ {S A : Type 0} where
  -- The counters of a store count its tasks.
  unfoldable pub IsValid : Store S A → Type 0
  IsValid s = Counted s s.tasks

  finish-IsValid : (t : Task A) (s : Store S A) → Held t s → IsValid (finish t s)
  unfolding IsValid Held finish live guarded_tasks
  finish-IsValid t s h = record {
    counted = λ c. omega (arith, h.counted c);
    pending_counted = omega (arith, h.pending_counted);
    below = h.below.1;
  }

  at_position-IsValid :
      (act : Task A → Store S A → Store S A)
      → ((t : Task A) (s : Store S A) → Held t s → IsValid (act t s))
      → (p : Option (Task A × List (Task A))) (s : Store S A) → PickOk p s.tasks
      → IsValid s
      → IsValid (at_position act p s)
  unfolding IsValid PickOk Held live guarded_tasks
  at_position-IsValid act keeps none s picked h = h
  at_position-IsValid act keeps (some (t, others)) s picked h =
      keeps t (record s { tasks = others })
        (record {
          counted = λ c. omega (arith, h.counted c, picked.picked_live c);
          pending_counted = omega (arith, h.pending_counted, picked.picked_guarded);
          below = picked.picked_All _ h.below;
        })

  send-IsValid :
      (a : A) (m : Option EventMetadata) (s : Store S A)
      → IsValid s
      → IsValid (send_with_metadata a m s).1
  unfolding IsValid send_with_metadata live guarded_tasks new_channel TaskBelow JobBelow
      TrackingBelow
  send-IsValid a m s h =
      let counts = Counted-new_channel s s.tasks h in
      if_both (λ (p : Result ℕ StoreError × Store S A). IsValid p.1) s.shutdown _ _ h
        (record {
          counted = λ c. omega (arith, counts.counted c);
          pending_counted = omega (arith, counts.pending_counted);
          below = ((tt, (omega arith, tt)), counts.below);
        })

  shutdown-IsValid : (s : Store S A) → IsValid s → IsValid (start_shutdown s)
  unfolding IsValid start_shutdown
  shutdown-IsValid s h = record {
    counted = h.counted;
    pending_counted = h.pending_counted;
    below = h.below;
  }

module _ {S : Type 0} (A : Type 0) where
  -- A new store is valid.
  pub new_store-IsValid : (x : S) → IsValid {S = S} {A = A} (new_store x)
  unfolding IsValid new_store live guarded_tasks
  new_store-IsValid x = record { counted = λ c. refl; pending_counted = refl; below = tt }

module _ {S A : Type 0} (reduce : S → A → S × List (Effect A)) where
  run_task-IsValid :
      (t : Task A) (r : Answers) (s : Store S A) → Held t s → IsValid (run_task reduce t r s)
  unfolding IsValid run_task Moved Held
  run_task-IsValid t r s h =
      let moved = advance reduce t.job t.metadata r s in
      let held = advance-Moved reduce t t.job t.metadata r s h in
      if_both IsValid (is_ending t.job) (finish t s)
        (record moved.1 { tasks = record t { job = moved.0 } ∷ moved.1.tasks })
        (finish-IsValid t s h)
        (record {
          counted = held.counted;
          pending_counted = held.pending_counted;
          below = held.below;
        })

  -- Every step of a task, of a caller or of a shutdown keeps a store valid.
  pub step_store-IsValid : (e : Event A) (s : Store S A) → IsValid s → IsValid (step reduce e s)
  unfolding step
  step_store-IsValid (send_event a m) s h = send-IsValid a m s h
  step_store-IsValid (advance_event i r) s h =
      at_position-IsValid (λ t. run_task reduce t r) (λ t. run_task-IsValid t r) (pick i s.tasks) s
        (pick-PickOk i s.tasks) h
  step_store-IsValid (panic_event i) s h =
      at_position-IsValid finish finish-IsValid (pick i s.tasks) s (pick-PickOk i s.tasks) h
  step_store-IsValid shutdown_event s h = shutdown-IsValid s h

  -- In every run from a valid store, the counter behind a handle is the number of the tasks alive that
  -- were started for it, and `pending_effects` is the number of the tasks alive that have its guard:
  -- neither is ever decremented below what it counts, and no number of a channel is used twice.
  pub run_store-IsValid :
      (es : List (Event A)) (s : Store S A) → IsValid s → IsValid (run reduce es s)
  unfolding run
  run_store-IsValid [] s h = h
  run_store-IsValid (e ∷ es) s h = run_store-IsValid es (step reduce e s) (step_store-IsValid e s h)
