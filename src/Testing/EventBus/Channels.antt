-- ===== src/Testing/EventBus/Channels.antt =====
-- testing/src/lib.rs: the channels of the in-memory event bus, those yet to come among them.
use composable_rust.Prelude.{
  ltb→lt, subst, ℕ, ◌≤◌, ◌<◌, ◌≡◌, refl, Bool, true, false, String, List, [], ◌∷◌, ◌++◌, HashMap,
  get, get_or, replicate, ltb, ◌==◌, if◌then◌else◌, arith, ap, ◌∙◌, sym, Bool-cases, inl, inr,
}
use composable_rust.Core.Event.{SerializedEvent}
use composable_rust.Testing.EventBus.{
  InMemoryEventBus, new, publish, subscribe, Request, publish_request, subscribe_request,
  drop_stream, reset_request, serve, serve_all, reset,
}
use composable_rust.Testing.EventBus.Sending.{
  occurs, send_all-frame, send_all-received, register-occurs,
}

-- The channels yet to come: no sender of one is registered, and no stream of one is dropped.
pub record IsValid (b : InMemoryEventBus) : Type 0 where
  pub unregistered : (c : ℕ) (t : String) → b.next ≤ c → occurs c (get_or t [] b.subscribers) ≡ 0
  pub undropped : (c : ℕ) → b.next ≤ c → b.dropped c ≡ false
  pub empty : (c : ℕ) → b.next ≤ c → b.received c ≡ []

pub publish-frame :
    (topic : String) (event : SerializedEvent) (b : InMemoryEventBus)
    → let b' = (publish topic event b).1 in
      (b'.subscribers ≡ b.subscribers) × (b'.next ≡ b.next) × (b'.dropped ≡ b.dropped)
unfolding publish
publish-frame topic event b = send_all-frame (get_or topic [] b.subscribers) event b

-- An event goes to every channel of its topic, as often as it is registered there.
pub publish-received :
    (c : ℕ) (topic : String) (event : SerializedEvent) (b : InMemoryEventBus)
    → b.dropped c ≡ false
    → (publish topic event b).1.received c
      ≡ b.received c ++ replicate (occurs c (get_or topic [] b.subscribers)) event
unfolding publish
publish-received c topic event b alive =
    send_all-received c (get_or topic [] b.subscribers) event b alive

publish-IsValid :
    (topic : String) (event : SerializedEvent) (b : InMemoryEventBus)
    → IsValid b
    → IsValid (publish topic event b).1
publish-IsValid topic event b h =
    let frame = publish-frame topic event b in
    let old : (c : ℕ) → (publish topic event b).1.next ≤ c → b.next ≤ c =
      λ c after. omega (arith, frame.1, after) in
    record {
      unregistered = λ c t after.
          ap (λ (m : HashMap (List ℕ)). occurs c (get_or t [] m)) frame.0
          ∙ h.unregistered c t (old c after);
      undropped = λ c after. ap (λ (f : ℕ → Bool). f c) frame.2 ∙ h.undropped c (old c after);
      empty = λ c after.
          publish-received c topic event b (h.undropped c (old c after))
          ∙ ap (λ l. l ++ replicate (occurs c (get_or topic [] b.subscribers)) event)
              (h.empty c (old c after))
          ∙ ap (λ n. replicate n event) (h.unregistered c topic (old c after));
    }

subscribe-IsValid :
    (topics : List String) (b : InMemoryEventBus) → IsValid b → IsValid (subscribe topics b).1
unfolding subscribe
subscribe-IsValid topics b h = record {
  unregistered = λ c t after.
      let new = register-occurs t c topics b.next b.subscribers in
      let old = h.unregistered c t (omega (arith, after)) in ground (arith, new, old);
  undropped = λ c after. h.undropped c (omega (arith, after));
  empty = λ c after. h.empty c (omega (arith, after));
}

other_dropped :
    (c d : ℕ) (gone : Bool) → c < d → gone ≡ false → (if d == c then true else gone) ≡ false
other_dropped c d gone before there = ground arith

drop-IsValid : (c : ℕ) (b : InMemoryEventBus) → IsValid b → IsValid (serve (drop_stream c) b)
unfolding serve
drop-IsValid c b h =
    let dropping = record b { dropped = λ d. if d == c then true else b.dropped d } in
    elim (Bool-cases (ltb c b.next)) [
      | inl known ↦
          subst (λ t. IsValid (if t then dropping else b)) (sym known)
            (record {
              unregistered = h.unregistered;
              undropped = λ d after.
                  other_dropped c d (b.dropped d) (omega (arith, ltb→lt c b.next known, after))
                    (h.undropped d after);
              empty = h.empty;
            })
      | inr unknown ↦ subst (λ t. IsValid (if t then dropping else b)) (sym unknown) h
    ]

serve-IsValid : (r : Request) (b : InMemoryEventBus) → IsValid b → IsValid (serve r b)
unfolding serve reset occurs get
serve-IsValid (publish_request topic event) b h = publish-IsValid topic event b h
serve-IsValid (subscribe_request topics) b h = subscribe-IsValid topics b h
serve-IsValid (drop_stream c) b h = drop-IsValid c b h
serve-IsValid reset_request b h = record {
  unregistered = λ c t after. refl;
  undropped = h.undropped;
  empty = h.empty;
}

pub serve_all-IsValid :
    (rs : List Request) (b : InMemoryEventBus) → IsValid b → IsValid (serve_all rs b)
unfolding serve_all
serve_all-IsValid [] b h = h
serve_all-IsValid (r ∷ rs) b h = serve_all-IsValid rs (serve r b) (serve-IsValid r b h)

pub new-IsValid : IsValid new
unfolding new occurs get
new-IsValid = record {
  unregistered = λ c t after. refl;
  undropped = λ c after. refl;
  empty = λ c after. refl;
}
