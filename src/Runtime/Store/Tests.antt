-- ===== src/Runtime/Store/Tests.antt =====
-- runtime/src/lib.rs, module `store`: a store with a small reducer.
use composable_rust.Prelude.{
  ℕ, ◌+◌, ◌≡◌, refl, some, none, List, [], ◌∷◌, ok, arith, true, false, if◌then◌else◌, ◌==◌,
}
use composable_rust.Core.Event.{SerializedEvent, nonnegative}
use composable_rust.Core.Effect.{
  Effect, parallel, sequential, delay, future, publish_event, publish, nil, cons,
}
use composable_rust.Runtime.Store.{
  Store, Task, future_job, ending, sequential_wait, sequential_next, advance, Answers, new_store,
  execute_all, spawn, execute_effect, new_channel, perform, effects_with_metadata,
}
use composable_rust.Runtime.Store.Run.{
  Event, send_event, advance_event, run, step, finish, send_with_metadata, run_task,
}
use composable_rust.Runtime.Store.Tasks.{live, guarded_tasks}
use composable_rust.Runtime.Store.Invariant.{Counted}
use composable_rust.Runtime.Store.Channels.{TaskBelow, TrackingBelow, JobBelow}
use composable_rust.Runtime.Store.Shutdown.{counts_are_exact, sequential_wait-first_completion}
use composable_rust.Runtime.Store.Frozen.{is_quiet, shut_down_state}

abbrev event : SerializedEvent
event = record {
  event_type = "Paid.v1";
  event_version = nonnegative 1;
  bytes = [];
  metadata = none;
}

abbrev publishing : Effect ℕ
publishing = publish_event (publish 0 "payments" event (λ _. none) (λ _. none))

-- Action 1 starts two tasks and a sequence, and every action is added to the state.
abbrev effects : List (Effect ℕ)
effects =
    parallel (cons (future (some 2)) (cons (delay 9 4) nil))
    ∷ sequential (cons (parallel (cons (future none) (cons (future none) nil))) nil)
    ∷ publishing
    ∷ []

abbrev reduce : ℕ → ℕ → ℕ × List (Effect ℕ)
reduce s a = (s + a, if a == 1 then effects else [])

abbrev answers : Answers
answers = record {
  appended = ok 0;
  loaded = ok [];
  saved = ok tt;
  snapshot = ok none;
  published = ok tt;
}

abbrev started : List (Event ℕ)
started = send_event 1 none ∷ advance_event 0 answers ∷ []

-- The caller's send starts four tasks, of which a shutdown waits for three.
started-counts :
    let s = run reduce started (new_store 10) in
    (s.state ≡ 11) × (s.counters 0 ≡ 4) × (s.pending_effects ≡ 3)
unfolding run step send_with_metadata run_task advance perform effects_with_metadata execute_all
    execute_effect spawn new_channel new_store
started-counts = (refl, refl, refl)

counts_are_exact_example :
    let s = run reduce started (new_store 10) in
    (s.counters 0 ≡ live 0 s.tasks) × (s.pending_effects ≡ guarded_tasks s.tasks)
counts_are_exact_example = counts_are_exact reduce started 10 0

abbrev part : Task ℕ
part = record { job = ending; tracking = some 0; metadata = none; guarded = true }

-- Two tasks of channel 0 are alive, one of them out of the list.
abbrev two_alive : Store ℕ ℕ
two_alive = record {
  state = 0;
  shutdown = false;
  pending_effects = 2;
  counters = λ c. if c == 0 then 2 else 0;
  notified = λ _. false;
  next = 1;
  tasks = part ∷ [];
  broadcasts = [];
}

two_alive-Counted : Counted two_alive (part ∷ part ∷ [])
unfolding live guarded_tasks TaskBelow TrackingBelow JobBelow
two_alive-Counted = record {
  counted = λ c. ground arith;
  pending_counted = refl;
  below = ((omega arith, tt), ((omega arith, tt), tt));
}

sequential_wait-first_completion_example :
    let s' = finish part two_alive in
    (advance reduce (sequential_wait 0 nil) none answers s' ≡ (sequential_next nil, s'))
    × (s'.counters 0 ≡ live 0 (part ∷ []))
sequential_wait-first_completion_example =
    sequential_wait-first_completion reduce part 0 nil none answers two_alive refl two_alive-Counted

abbrev shut : Store ℕ ℕ
shut = record two_alive {
  shutdown = true;
  tasks =
      record { job = future_job (some 5); tracking = some 0; metadata = none; guarded = true }
      ∷ part
      ∷ [];
}

shut_down_state_example :
    let s =
      run reduce
        (send_event 1 none ∷ advance_event 0 answers ∷ advance_event 0 answers ∷ [])
        shut in
    (s.state ≡ 0) × (s.shutdown ≡ true)
unfolding is_quiet
shut_down_state_example =
    shut_down_state reduce
      (send_event 1 none ∷ advance_event 0 answers ∷ advance_event 0 answers ∷ []) shut refl
      (refl, (refl, tt))
