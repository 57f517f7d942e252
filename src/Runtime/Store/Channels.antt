-- ===== src/Runtime/Store/Channels.antt =====
-- runtime/src/lib.rs, module `store`: which channels the tasks of a store hold.
use composable_rust.Prelude.{
  ℕ, ◌+◌, ◌<◌, ◌≡◌, refl, Option, none, some, List, [], ◌∷◌, ◌++◌, arith, All,
}
use composable_rust.Core.Event.{EventMetadata}
use composable_rust.Core.Effect.{
  Effect, nothing, parallel, sequential, delay, future, stream, event_store, publish_event, Effects,
  nil, cons,
}
use composable_rust.Runtime.Store.{
  Job, future_job, stream_job, delay_job, sequential_next, sequential_wait, event_store_job,
  publish_job, sending, ending, Task, bit, tracks,
}
use composable_rust.Runtime.Store.Tasks.{live, spawned, spawned_all, spawned_list}

unfoldable pub TrackingBelow : ℕ → Option ℕ → Type 0
TrackingBelow n none = Unit
TrackingBelow n (some c) = c < n

TrackingBelow-mono : (n : ℕ) (o : Option ℕ) → TrackingBelow n o → TrackingBelow (n + 1) o
unfolding TrackingBelow
TrackingBelow-mono n none h = tt
TrackingBelow-mono n (some c) h = omega (arith, h)

tracks_fresh : (n : ℕ) (o : Option ℕ) → TrackingBelow n o → bit (tracks n o) ≡ 0
unfolding TrackingBelow
tracks_fresh n none h = refl
tracks_fresh n (some c) h = ground arith

module _ {A : Type 0} where
  -- The channels that a job will use are below `n`.
  unfoldable pub JobBelow : ℕ → Job A → Type 0
  JobBelow n (sequential_wait c es) = c < n
  JobBelow n (sending a m c rest) = c < n × JobBelow n rest
  JobBelow n (future_job r) = Unit
  JobBelow n (stream_job items) = Unit
  JobBelow n (delay_job a) = Unit
  JobBelow n (sequential_next es) = Unit
  JobBelow n (event_store_job op) = Unit
  JobBelow n (publish_job op) = Unit
  JobBelow n ending = Unit

  unfoldable pub TaskBelow : ℕ → Task A → Type 0
  TaskBelow n t = TrackingBelow n t.tracking × JobBelow n t.job

  pub JobBelow-mono : (n : ℕ) (j : Job A) → JobBelow n j → JobBelow (n + 1) j
  unfolding JobBelow
  JobBelow-mono n (sequential_wait c es) h = omega (arith, h)
  JobBelow-mono n (sending a m c rest) h = (omega (arith, h.0), JobBelow-mono n rest h.1)
  JobBelow-mono n (future_job r) h = tt
  JobBelow-mono n (stream_job items) h = tt
  JobBelow-mono n (delay_job a) h = tt
  JobBelow-mono n (sequential_next es) h = tt
  JobBelow-mono n (event_store_job op) h = tt
  JobBelow-mono n (publish_job op) h = tt
  JobBelow-mono n ending h = tt

  pub TasksBelow-mono :
      (n : ℕ) (ts : List (Task A)) → All (TaskBelow n) ts → All (TaskBelow (n + 1)) ts
  unfolding TaskBelow
  TasksBelow-mono n [] h = tt
  TasksBelow-mono n (t ∷ ts) h = (
    (TrackingBelow-mono n t.tracking h.0.0, JobBelow-mono n t.job h.0.1),
    TasksBelow-mono n ts h.1,
  )

  pub live_fresh : (n : ℕ) (ts : List (Task A)) → All (TaskBelow n) ts → live n ts ≡ 0
  unfolding TaskBelow live
  live_fresh n [] h = refl
  live_fresh n (t ∷ ts) h = omega (arith, tracks_fresh n t.tracking h.0.0, live_fresh n ts h.1)

  pub All-append {ℓ} :
      (P : Task A → Type ℓ) (ts us : List (Task A)) → All P ts → All P us → All P (ts ++ us)
  All-append P [] us h k = k
  All-append P (t ∷ ts) us h k = (h.0, All-append P ts us h.1 k)

  mutual
    unfolding spawned JobBelow TrackingBelow TaskBelow

    pub spawned_below :
        (n : ℕ) (e : Effect A) (c : ℕ) (m : Option EventMetadata)
        → c < n
        → All (TaskBelow n) (spawned e c m)
    spawned_below n nothing c m h = tt
    spawned_below n (parallel es) c m h = spawned_all_below n es c m h
    spawned_below n (sequential es) c m h = ((h, tt), tt)
    spawned_below n (delay d a) c m h = ((h, tt), tt)
    spawned_below n (future r) c m h = ((h, tt), tt)
    spawned_below n (stream items) c m h = ((h, tt), tt)
    spawned_below n (event_store op) c m h = ((h, tt), tt)
    spawned_below n (publish_event op) c m h = ((h, tt), tt)

    spawned_all_below :
        (n : ℕ) (es : Effects A) (c : ℕ) (m : Option EventMetadata)
        → c < n
        → All (TaskBelow n) (spawned_all es c m)
    spawned_all_below n nil c m h = tt
    spawned_all_below n (cons e es) c m h =
        All-append _ _ _ (spawned_all_below n es c m h) (spawned_below n e c m h)

  pub spawned_list_below :
      (n : ℕ) (es : List (Effect A)) (c : ℕ) (m : Option EventMetadata)
      → c < n
      → All (TaskBelow n) (spawned_list es c m)
  unfolding spawned_list
  spawned_list_below n [] c m h = tt
  spawned_list_below n (e ∷ es) c m h =
      All-append _ _ _ (spawned_list_below n es c m h) (spawned_below n e c m h)
