-- ===== src/Testing/EventBus/Delivery.antt =====
-- testing/src/lib.rs: which events a subscriber of the in-memory event bus receives.
use composable_rust.Prelude.{
  All, ◌≢◌, if_both, ℕ, ◌<◌, ◌≡◌, refl, Bool, true, false, String, List, [], ◌∷◌, ◌++◌, HashMap,
  get_or, replicate, ltb, ◌==◌, if◌then◌else◌, arith, append-nil, append_assoc, ap, ◌∙◌, sym, ok,
}
use composable_rust.Core.Event.{SerializedEvent}
use composable_rust.Testing.EventBus.{
  InMemoryEventBus, new, publish, subscribe, Request, publish_request, subscribe_request,
  drop_stream, reset_request, serve, serve_all,
}
use composable_rust.Testing.EventBus.Sending.{occurs, mentions, register-occurs}
use composable_rust.Testing.EventBus.Channels.{
  publish-frame, publish-received, serve_all-IsValid, new-IsValid,
}

-- What the clients do with a bus leaves a channel's stream and registrations alone.
abbrev pub Keeps : ℕ → Request → Type 0
Keeps c (publish_request _ _) = Unit
Keeps c (subscribe_request _) = Unit
Keeps c (drop_stream d) = d ≢ c
Keeps c reset_request = ⊥

-- The events for a subscriber of these topics: each that is published, as often as its topic is among
-- them.
unfoldable pub expected : List String → List Request → List SerializedEvent
expected topics [] = []
expected topics (publish_request t event ∷ rs) =
    replicate (mentions t topics) event ++ expected topics rs
expected topics (_ ∷ rs) = expected topics rs

-- A channel whose stream is there, with its registrations.
record IsSubscribed (c : ℕ) (topics : List String) (b : InMemoryEventBus) : Type 0 where
  known : c < b.next
  alive : b.dropped c ≡ false
  registered : (t : String) → occurs c (get_or t [] b.subscribers) ≡ mentions t topics

subscribe-IsSubscribed :
    (c : ℕ) (topics others : List String) (b : InMemoryEventBus)
    → IsSubscribed c topics b
    → IsSubscribed c topics (subscribe others b).1
unfolding subscribe
subscribe-IsSubscribed c topics others b h = record {
  known = omega (arith, h.known);
  alive = h.alive;
  registered = λ t.
      let new = register-occurs t c others b.next b.subscribers in
      let old = h.registered t in let known = h.known in ground (arith, new, old, known);
}

not_dropped :
    (c d : ℕ) (gone : Bool) → d ≢ c → gone ≡ false → (if c == d then true else gone) ≡ false
not_dropped c d gone other there = ground (arith, other, there)

drop-IsSubscribed :
    (c d : ℕ) (topics : List String) (b : InMemoryEventBus)
    → d ≢ c
    → IsSubscribed c topics b
    → IsSubscribed c topics (serve (drop_stream d) b)
unfolding serve
drop-IsSubscribed c d topics b other h =
    if_both (IsSubscribed c topics) (ltb d b.next) _ _
      (record {
        known = h.known;
        alive = not_dropped c d (b.dropped c) other h.alive;
        registered = h.registered;
      })
      h

drop-received :
    (c d : ℕ) (b : InMemoryEventBus) → (serve (drop_stream d) b).received c ≡ b.received c
unfolding serve
drop-received c d b =
    if_both (λ (x : InMemoryEventBus). x.received c ≡ b.received c) (ltb d b.next) _ _ refl refl

publish-IsSubscribed :
    (c : ℕ) (topics : List String) (topic : String) (event : SerializedEvent) (b : InMemoryEventBus)
    → IsSubscribed c topics b
    → IsSubscribed c topics (publish topic event b).1
publish-IsSubscribed c topics topic event b h =
    let frame = publish-frame topic event b in
    record {
      known = omega (arith, frame.1, h.known);
      alive = ap (λ (f : ℕ → Bool). f c) frame.2 ∙ h.alive;
      registered =
          λ u. ap (λ (m : HashMap (List ℕ)). occurs c (get_or u [] m)) frame.0 ∙ h.registered u;
    }

published :
    (c : ℕ) (topics : List String) (t : String) (event : SerializedEvent) (b : InMemoryEventBus)
    → IsSubscribed c topics b
    → IsSubscribed c topics (serve (publish_request t event) b)
      × ((serve (publish_request t event) b).received c
          ≡ b.received c ++ replicate (mentions t topics) event)
unfolding serve
published c topics t event b h = (
  publish-IsSubscribed c topics t event b h,
  publish-received c t event b h.alive
      ∙ ap (λ n. b.received c ++ replicate n event) (h.registered t),
)

joined :
    (c : ℕ) (topics others : List String) (b : InMemoryEventBus)
    → IsSubscribed c topics b
    → IsSubscribed c topics (serve (subscribe_request others) b)
      × ((serve (subscribe_request others) b).received c ≡ b.received c)
unfolding serve subscribe
joined c topics others b h = (subscribe-IsSubscribed c topics others b h, refl)

serve_all-received :
    (c : ℕ) (topics : List String) (rs : List Request) (b : InMemoryEventBus)
    → IsSubscribed c topics b
    → All (Keeps c) rs
    → (serve_all rs b).received c ≡ b.received c ++ expected topics rs
unfolding serve_all expected
serve_all-received c topics [] b h keeps = sym (append-nil (b.received c))
serve_all-received c topics (publish_request t event ∷ rs) b h (_, keeps) =
    let (still, sent) = published c topics t event b h in
    serve_all-received c topics rs (serve (publish_request t event) b) still keeps
    ∙ ap (λ l. l ++ expected topics rs) sent
    ∙ append_assoc (b.received c) (replicate (mentions t topics) event) (expected topics rs)
serve_all-received c topics (subscribe_request others ∷ rs) b h (_, keeps) =
    let (still, same) = joined c topics others b h in
    serve_all-received c topics rs (serve (subscribe_request others) b) still keeps
    ∙ ap (λ l. l ++ expected topics rs) same
serve_all-received c topics (drop_stream d ∷ rs) b h (other, keeps) =
    serve_all-received c topics rs (serve (drop_stream d) b)
      (drop-IsSubscribed c d topics b other h) keeps
    ∙ ap (λ l. l ++ expected topics rs) (drop-received c d b)
serve_all-received c topics (reset_request ∷ rs) b h (gone, keeps) = absurd gone

-- Whatever clients have done with a bus before, and whatever they do with it afterwards, as long as
-- the new subscriber keeps its stream and the bus is not reset: the subscriber receives exactly the
-- events published after its subscription to its topics, in the order in which they were published,
-- each once for every mention of its topic in the subscription.
pub subscriber_receives :
    (before : List Request) (topics : List String) (after : List Request)
    → All (Keeps (serve_all before new).next) after
    → let b = serve_all before new in
      let (r, subscribed) = subscribe topics b in
      (r ≡ ok b.next) × ((serve_all after subscribed).received b.next ≡ expected topics after)
unfolding subscribe
subscriber_receives before topics after keeps =
    let b = serve_all before new in
    let h = serve_all-IsValid before new new-IsValid in
    let c = b.next in
    let subscribed = (subscribe topics b).1 in
    let starts : IsSubscribed c topics subscribed = record {
      known = omega arith;
      alive = h.undropped c (omega arith);
      registered = λ t.
          let own = register-occurs t c topics c b.subscribers in
          let old = h.unregistered c t (omega arith) in ground (arith, own, old);
    } in
    (
      refl,
      serve_all-received c topics after subscribed starts keeps
          ∙ ap (λ l. l ++ expected topics after) (h.empty c (omega arith)),
    )
