-- ===== src/Testing/EventBus/Tests.antt =====
-- testing/src/lib.rs: the in-memory event bus with two subscribers.
use composable_rust.Prelude.{get, insert, All, arith, ◌≢◌, ℕ, ◌≡◌, refl, List, [], ◌∷◌, ok, none}
use composable_rust.Core.Event.{SerializedEvent, nonnegative}
use composable_rust.Testing.EventBus.{
  serve, publish, send_all, send, register, new, subscribe, Request, publish_request,
  subscribe_request, drop_stream, serve_all,
}
use composable_rust.Testing.EventBus.Sending
use composable_rust.Testing.EventBus.Delivery.{Keeps, expected, subscriber_receives}

abbrev event : ℕ → SerializedEvent
event n = record {
  event_type = "Paid.v1";
  event_version = nonnegative 1;
  bytes = n ∷ [];
  metadata = none;
}

abbrev before : List Request
before = subscribe_request ("orders" ∷ []) ∷ publish_request "orders" (event 0) ∷ drop_stream 0 ∷ []

-- Another client joins and leaves in between.
abbrev after : List Request
after =
    publish_request "orders" (event 1)
    ∷ subscribe_request ("carts" ∷ [])
    ∷ publish_request "users" (event 2)
    ∷ drop_stream 2
    ∷ publish_request "carts" (event 3)
    ∷ publish_request "orders" (event 4)
    ∷ []

second_channel : (serve_all before new).next ≡ 1
unfolding serve_all serve subscribe publish new send_all get register insert send
second_channel = refl

after-Keeps : All (Keeps (serve_all before new).next) after
after-Keeps =
    let other : 2 ≢ (serve_all before new).next = ground (arith, second_channel) in
    (tt, (tt, (tt, (other, (tt, (tt, tt))))))

subscriber_receives_example :
    let b = serve_all before new in
    let (r, subscribed) = subscribe ("orders" ∷ "carts" ∷ []) b in
    (r ≡ ok b.next)
    × ((serve_all after subscribed).received b.next ≡ expected ("orders" ∷ "carts" ∷ []) after)
subscriber_receives_example = subscriber_receives before ("orders" ∷ "carts" ∷ []) after after-Keeps

after-expected : expected ("orders" ∷ "carts" ∷ []) after ≡ event 1 ∷ event 3 ∷ event 4 ∷ []
unfolding expected Sending.mentions
after-expected = refl
