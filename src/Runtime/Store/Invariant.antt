-- ===== src/Runtime/Store/Invariant.antt =====
-- runtime/src/lib.rs, module `store`: the counters of a store count its tasks, in every run.
use composable_rust.Prelude.{
  if_both, ℕ, ◌+◌, ◌<◌, ◌≡◌, Option, none, some, List, [], ◌∷◌, arith, ◌==◌, sym, if◌then◌else◌,
  All, subst, ltb,
}
use composable_rust.Core.Event.{EventMetadata}
use composable_rust.Core.Effect.{Effect, Effects, nil, cons}
use composable_rust.Runtime.Store.{
  Job, future_job, stream_job, delay_job, sequential_next, sequential_wait, event_store_job,
  publish_job, sending, ending, Task, Store, new_channel, admit, feed_back, admit_option, perform,
  start_next, advance, Answers, effects_with_metadata, event_store_callback, publish_callback,
}
use composable_rust.Runtime.Store.Tasks.{
  live, guarded_tasks, live-append, guarded_tasks-append, spawned, spawned_list, with_tasks,
  execute_all-tasks, execute_effect-tasks,
}
use composable_rust.Runtime.Store.Channels.{
  All-append, JobBelow-mono, TaskBelow, JobBelow, TasksBelow-mono, live_fresh, spawned_list_below,
  spawned_below,
}

new_count : (c : ℕ) (n k l : ℕ) → (n ≡ c → l ≡ 0) → k ≡ l → (if c == n then 0 else k) ≡ l
new_count c n k l fresh h = ground arith

module _ {S A : Type 0} where
  -- The counters of `s` count the tasks `ts`, which hold no channel that is yet to come.
  pub record Counted (s : Store S A) (ts : List (Task A)) : Type 0 where
    pub counted : (c : ℕ) → s.counters c ≡ live c ts
    pub pending_counted : s.pending_effects ≡ guarded_tasks ts
    pub below : All (TaskBelow s.next) ts

  -- The same with the task `t` running, out of the list of the others.
  unfoldable pub Held : Task A → Store S A → Type 0
  Held t s = Counted s (t ∷ s.tasks)

  Held-with_tasks :
      (t : Task A) (ts : List (Task A)) (s : Store S A)
      → All (TaskBelow s.next) ts
      → Held t s
      → Held t (with_tasks ts s)
  unfolding Held with_tasks live guarded_tasks
  Held-with_tasks t ts s fresh h = record {
    counted = λ c. omega (arith, h.counted c, live-append c ts s.tasks);
    pending_counted = omega (arith, h.pending_counted, guarded_tasks-append ts s.tasks);
    below = (h.below.0, All-append _ ts s.tasks fresh h.below.1);
  }

  Held-job :
      (t : Task A) (j : Job A) (s : Store S A)
      → JobBelow s.next j
      → Held t s
      → Held (record t { job = j }) s
  unfolding Held live guarded_tasks TaskBelow
  Held-job t j s b h = record {
    counted = λ c. h.counted c;
    pending_counted = h.pending_counted;
    below = ((h.below.0.0, b), h.below.1);
  }

  Held-state : (t : Task A) (x : S) (s : Store S A) → Held t s → Held t (record s { state = x })
  unfolding Held
  Held-state t x s h = record {
    counted = h.counted;
    pending_counted = h.pending_counted;
    below = h.below;
  }

  Held-broadcasts :
      (t : Task A) (sent : List A) (s : Store S A)
      → Held t s
      → Held t (record s { broadcasts = sent })
  unfolding Held
  Held-broadcasts t sent s h = record {
    counted = h.counted;
    pending_counted = h.pending_counted;
    below = h.below;
  }

  pub Counted-new_channel :
      (s : Store S A) (ts : List (Task A)) → Counted s ts → Counted (new_channel s) ts
  unfolding new_channel
  Counted-new_channel s ts h = record {
    counted = λ c.
        new_count c s.next (s.counters c) (live c ts)
          (λ same. subst (λ d. live d ts ≡ 0) same (live_fresh s.next ts h.below)) (h.counted c);
    pending_counted = h.pending_counted;
    below = TasksBelow-mono s.next ts h.below;
  }

  -- A task that goes on with another job, in another store.
  unfoldable pub Moved : Task A → Job A × Store S A → Type 0
  Moved t moved = Held (record t { job = moved.0 }) moved.1

  pub admit-Moved :
      (t : Task A) (a : A) (m : Option EventMetadata) (rest : Job A) (s : Store S A)
      → JobBelow s.next rest
      → Held t s
      → Moved t (admit a m rest s)
  unfolding Moved Held admit new_channel JobBelow
  admit-Moved t a m rest s b h =
      if_both (Moved t) s.shutdown (rest, s) (sending a m s.next rest, new_channel s)
        (Held-job t rest s b h)
        (Held-job t (sending a m s.next rest) (new_channel s)
          (omega arith, JobBelow-mono s.next rest b) (Counted-new_channel s (t ∷ s.tasks) h))

  feed_back-Moved :
      (t : Task A) (a : A) (m : Option EventMetadata) (rest : Job A) (s : Store S A)
      → JobBelow s.next rest
      → Held t s
      → Moved t (feed_back a m rest s)
  unfolding feed_back
  feed_back-Moved t a m rest s b h =
      admit-Moved t a m rest (record s { broadcasts = a ∷ s.broadcasts }) b
        (Held-broadcasts t (a ∷ s.broadcasts) s h)

  ended-Moved : (t : Task A) (s : Store S A) → Held t s → Moved t (ending, s)
  unfolding Moved JobBelow
  ended-Moved t s h = Held-job t ending s tt h

  admit_option-Moved :
      (t : Task A) (o : Option A) (m : Option EventMetadata) (s : Store S A)
      → Held t s
      → Moved t (admit_option o m s)
  unfolding admit_option JobBelow
  admit_option-Moved t none m s h = ended-Moved t s h
  admit_option-Moved t (some a) m s h = admit-Moved t a m ending s tt h

module _ {S A : Type 0} (reduce : S → A → S × List (Effect A)) where
  perform-Held :
      (t : Task A) (a : A) (m : Option EventMetadata) (c : ℕ) (s : Store S A)
      → c < s.next
      → Held t s
      → Held t (perform reduce a m c s)
  unfolding perform
  perform-Held t a m c s b h =
      let reduced = reduce s.state a in
      let effects = effects_with_metadata m reduced.1 in
      let s' = record s { state = reduced.0 } in
      subst (Held t) (sym (execute_all-tasks effects c m s')) (
        Held-with_tasks t (spawned_list effects c m) s' (spawned_list_below s.next effects c m b)
          (Held-state t reduced.0 s h))

  start_next-Moved :
      (t : Task A) (e : Effect A) (es : Effects A) (m : Option EventMetadata) (s : Store S A)
      → Held t s
      → Moved t (start_next reduce e es m s)
  unfolding start_next Moved Held new_channel JobBelow with_tasks
  start_next-Moved t e es m s h =
      let c = s.next in
      let ts = spawned e c m in
      let started = with_tasks ts (new_channel s) in
      let held : Held t started =
        Held-with_tasks t ts (new_channel s) (spawned_below (c + 1) e c m (omega arith))
          (Counted-new_channel s (t ∷ s.tasks) h) in
      let next : Store S A → Job A × Store S A = λ s'.
        if ltb 0 (s'.counters c) then (sequential_wait c es, s') else (sequential_next es, s') in
      subst (λ s'. Moved t (next s')) (sym (execute_effect-tasks e c m (new_channel s)))
        (if_both (Moved t) (ltb 0 (started.counters c)) (sequential_wait c es, started)
          (sequential_next es, started)
          (Held-job t (sequential_wait c es) started (omega arith) held)
          (Held-job t (sequential_next es) started tt held))

  pub advance-Moved :
      (t : Task A) (job : Job A) (m : Option EventMetadata) (r : Answers) (s : Store S A)
      → Held (record t { job = job }) s
      → Moved t (advance reduce job m r s)
  unfolding advance Moved Held JobBelow TaskBelow
  advance-Moved t (future_job none) m r s h = ended-Moved _ s h
  advance-Moved t (future_job (some a)) m r s h = feed_back-Moved _ a m ending s tt h
  advance-Moved t (stream_job []) m r s h = ended-Moved _ s h
  advance-Moved t (stream_job (a ∷ items)) m r s h = feed_back-Moved _ a m (stream_job items) s tt h
  advance-Moved t (delay_job a) m r s h = feed_back-Moved _ a none ending s tt h
  advance-Moved t (sequential_next nil) m r s h = ended-Moved _ s h
  advance-Moved t (sequential_next (cons e es)) m r s h = start_next-Moved _ e es m s h
  advance-Moved t (sequential_wait c es) m r s h =
      if_both (Moved t) (s.notified c) (sequential_next es, s) (sequential_wait c es, s)
        (Held-job _ (sequential_next es) s tt h) h
  advance-Moved t (event_store_job op) m r s h =
      admit_option-Moved _ (event_store_callback op r) m s h
  advance-Moved t (publish_job op) m r s h = admit_option-Moved _ (publish_callback op r) m s h
  advance-Moved t (sending a m' c rest) m r s h =
      perform-Held _ a m' c s h.below.0.1.0 (Held-job _ rest s h.below.0.1.1 h)
  advance-Moved t ending m r s h = ended-Moved _ s h
