-- ===== src/Lib.antt =====
-- Verification of composable-rust, a framework in which reducers are pure functions that return
-- effects as values, a store executes the effects and feeds their actions back, and events are kept
-- in event stores.
--
-- The parts and their files (paths from the root of the repository):
--   Core.Stream, Core.Event, Core.EventStore: core/src/stream.rs, event.rs, event_store.rs. Versions
--     are u64 and wrap around at 2 ^ 64.
--   Core.Effect: core/src/lib.rs, module `effect`, and core/src/event_bus.rs. `Vec<Effect>` is the
--     type `Effects` of the same mutual block. A future is the action that it resolves to.
--   Core.Composition: core/src/composition.rs. A reducer returns its state beside its effects.
--   Testing.EventStore: testing/src/lib.rs, `InMemoryEventStore`. Each method holds one lock, so it is
--     a function from the maps to a result and the maps.
--   Testing.EventBus: testing/src/lib.rs, `InMemoryEventBus`. A channel is a number with its queue.
--   Runtime.Breaker: runtime/src/circuit_breaker.rs. A step holds the lock; `call` is split in two
--     where other tasks can run.
--   Runtime.AtomicBreaker: runtime/src/lib.rs, `CircuitBreaker`. Each access to an atomic is a step, and
--     the steps of any number of threads are mixed; memory is sequentially consistent.
--   Runtime.Retry: runtime/src/retry.rs. The loop runs on fuel, one more than the retries allowed,
--     which is enough. `f64` is a parameter.
--   Runtime.DeadLetterQueue, Runtime.Health, Runtime.Metadata: parts of runtime/src/lib.rs.
--   Runtime.Store: runtime/src/lib.rs, module `store`. A spawned task is the job that it has left, a
--     run is any list of events of tasks and callers, and the number of a channel stands for the
--     counter and the notifier behind an `EffectHandle`. What event stores and buses answer is an
--     argument.
--   Runtime.RetryOperation: runtime/src/lib.rs, `Store::retry_operation`, on fuel, one more than the
--     attempts allowed, which is enough.
--   Ticketing: examples/ticketing/src/types.rs, aggregates/inventory.rs (Ticketing.Inventory) and
--     aggregates/payment.rs (Ticketing.Payment). A reducer gives the new
--     state and the effects. An identifier is the number that its UUID reads as, the fields
--     `event_id` and `section` are one key, an error is what its text is formatted from, and the
--     entries of a hash map are in the order in which it iterates. The projection, serialization,
--     new identifiers and the readings of the clock are the environment's. u32 wraps at 2 ^ 32.
--   Auth.TokenStore, Auth.RateLimiter: auth/src/mocks/token_store.rs and rate_limiter.rs. Each method
--     holds one lock, and the reading of the clock is an argument.
--   Agents.Parallel, Agents.Orchestrator: agent-patterns/src/parallelization.rs and orchestrator.rs. A
--     worker is a function from its input to its result.
--   Prelude: names, tests, lists, sorting, maps and machine words that the others share.
-- The store executes effects of Core.Effect with the metadata of Runtime.Metadata; the event store
-- that it calls is an argument, of which Testing.EventStore is one implementation. The reducers of
-- Ticketing and Agents return effects of Core.Effect; Ticketing.Payment.Recording performs those of
-- payments on Testing.EventStore.
--
-- Not modelled: logs and metrics, poisoned locks, serialization, cascading handles and
-- `send_and_wait_for`, the other aggregates of the ticketing application and the other examples, the
-- rest of the crates for agents and authentication, and the crates for databases, brokers,
-- projections and the web, which are mostly input and output.
pub mod Agents
pub mod Auth
pub mod Core
pub mod Prelude
pub mod Runtime
pub mod Testing
pub mod Ticketing
