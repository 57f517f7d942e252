-- ===== src/Testing/EventBus.antt =====
-- testing/src/lib.rs: `InMemoryEventBus`.
-- A sender of a tokio channel is the channel's number. `received` is what has been sent to it, which
-- its stream yields in that order, and `dropped` tells that the stream is gone, after which a send
-- is an error, which `publish` ignores. A poisoned lock is not modelled.
pub mod Sending
pub mod Channels
pub mod Delivery
mod Tests
use composable_rust.Prelude.{
  ℕ, suc, zero, ◌+◌, ◌*◌, ◌≤◌, ◌<◌, ◌≡◌, refl, Bool, true, false, String, Option, none, some, List,
  [], ◌∷◌, ◌++◌, HashMap, get, insert, get_or, get_or-insert, Result, ok, err, length, replicate,
  str_eq, ltb, leb, ◌==◌, if◌then◌else◌, arith, append-nil, append_assoc, ap, ◌∙◌, sym, Bool-cases,
  inl, inr,
}
use composable_rust.Core.Event.{SerializedEvent}
use composable_rust.Core.Effect.{EventBusError}

pub record InMemoryEventBus : Type 0 where
  pub subscribers : HashMap (List ℕ)
  pub next : ℕ
  pub received : ℕ → List SerializedEvent
  pub dropped : ℕ → Bool

unfoldable pub new : InMemoryEventBus
new = record { subscribers = []; next = 0; received = λ _. []; dropped = λ _. false }

unfoldable pub topic_count : InMemoryEventBus → ℕ
topic_count b = length b.subscribers

unfoldable pub subscriber_count : InMemoryEventBus → String → ℕ
subscriber_count b topic = elim (get topic b.subscribers) [
  | none ↦ 0
  | some senders ↦ length senders
]

unfoldable pub reset : InMemoryEventBus → InMemoryEventBus
reset b = record b { subscribers = [] }

-- `sender.send(event)`
unfoldable pub send : ℕ → SerializedEvent → InMemoryEventBus → InMemoryEventBus
send c event b =
    if b.dropped c
    then b
    else record b { received = λ d. if c == d then b.received d ++ event ∷ [] else b.received d }

unfoldable pub send_all : List ℕ → SerializedEvent → InMemoryEventBus → InMemoryEventBus
send_all [] event b = b
send_all (c ∷ cs) event b = send_all cs event (send c event b)

unfoldable pub publish :
    String → SerializedEvent → InMemoryEventBus → Result (Unit {0}) EventBusError × InMemoryEventBus
publish topic event b = (ok tt, send_all (get_or topic [] b.subscribers) event b)

-- The loop over the topics: `entry(topic).or_default().push(tx.clone())`.
unfoldable pub register : List String → ℕ → HashMap (List ℕ) → HashMap (List ℕ)
register [] c subscribers = subscribers
register (topic ∷ topics) c subscribers =
    register topics c (insert topic (get_or topic [] subscribers ++ c ∷ []) subscribers)

-- The stream returned is the number of its channel.
unfoldable pub subscribe :
    List String → InMemoryEventBus → Result ℕ EventBusError × InMemoryEventBus
subscribe topics b =
    (ok b.next, record b { next = b.next + 1; subscribers = register topics b.next b.subscribers })

-- What clients do with a bus.
pub data Request : Type 0 where
  publish_request : String → SerializedEvent → Request
  subscribe_request : List String → Request
  drop_stream : ℕ → Request
  reset_request : Request

unfoldable pub serve : Request → InMemoryEventBus → InMemoryEventBus
serve (publish_request topic event) b = (publish topic event b).1
serve (subscribe_request topics) b = (subscribe topics b).1
serve (drop_stream c) b =
    if ltb c b.next then record b { dropped = λ d. if d == c then true else b.dropped d } else b
serve reset_request b = reset b

unfoldable pub serve_all : List Request → InMemoryEventBus → InMemoryEventBus
serve_all [] b = b
serve_all (r ∷ rs) b = serve_all rs (serve r b)
