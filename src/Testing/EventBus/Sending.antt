-- ===== src/Testing/EventBus/Sending.antt =====
-- testing/src/lib.rs: the loops of the in-memory event bus.
use composable_rust.Prelude.{
  ==_iff, if_both, eq_iff, ℕ, suc, zero, ◌+◌, ◌≡◌, refl, Bool, true, false, String, List, [], ◌∷◌,
  ◌++◌, HashMap, insert, get_or, get_or-insert, replicate, str_eq, ◌==◌, if◌then◌else◌, arith,
  append-nil, append_assoc, ap, ◌∙◌, sym, Bool-cases, inl, inr,
}
use composable_rust.Core.Event.{SerializedEvent}
use composable_rust.Testing.EventBus.{InMemoryEventBus, send, send_all, register}

-- How often a channel stands in a list of senders, and a topic in a list of topics.
unfoldable pub occurs : ℕ → List ℕ → ℕ
occurs c [] = 0
occurs c (d ∷ ds) = (if d == c then 1 else 0) + occurs c ds

unfoldable pub mentions : String → List String → ℕ
mentions t [] = 0
mentions t (s ∷ ss) = (if str_eq s t then 1 else 0) + mentions t ss

occurs-append : (c : ℕ) (ds es : List ℕ) → occurs c (ds ++ es) ≡ occurs c ds + occurs c es
unfolding occurs
occurs-append c [] es = omega arith
occurs-append c (d ∷ ds) es = omega (arith, occurs-append c ds es)

replicate-append :
    (m n : ℕ) (event : SerializedEvent)
    → replicate m event ++ replicate n event ≡ replicate (m + n) event
replicate-append zero n event = ap (λ k. replicate k event) (omega arith)
replicate-append (suc m) n event =
    let same : suc (m + n) ≡ suc m + n = omega arith in
    ap (λ l. event ∷ l) (replicate-append m n event) ∙ ap (λ k. replicate k event) same

-- `send` and `publish` only add to the queues.
send-frame :
    (c : ℕ) (event : SerializedEvent) (b : InMemoryEventBus)
    → let b' = send c event b in
      (b'.subscribers ≡ b.subscribers) × (b'.next ≡ b.next) × (b'.dropped ≡ b.dropped)
unfolding send
send-frame c event b =
    if_both
      (λ (b' : InMemoryEventBus).
        (b'.subscribers ≡ b.subscribers) × (b'.next ≡ b.next) × (b'.dropped ≡ b.dropped))
      (b.dropped c) b _ (refl, refl, refl) (refl, refl, refl)

pub send_all-frame :
    (cs : List ℕ) (event : SerializedEvent) (b : InMemoryEventBus)
    → let b' = send_all cs event b in
      (b'.subscribers ≡ b.subscribers) × (b'.next ≡ b.next) × (b'.dropped ≡ b.dropped)
unfolding send_all
send_all-frame [] event b = (refl, refl, refl)
send_all-frame (c ∷ cs) event b =
    let rest = send_all-frame cs event (send c event b) in
    let own = send-frame c event b in (rest.0 ∙ own.0, rest.1 ∙ own.1, rest.2 ∙ own.2)

send-received :
    (c d : ℕ) (event : SerializedEvent) (b : InMemoryEventBus)
    → b.dropped c ≡ false
    → (send d event b).received c ≡ b.received c ++ replicate (if d == c then 1 else 0) event
unfolding send
send-received c d event b alive = elim (Bool-cases (d == c)) [
  | inl same ↦
      let here : b.dropped d ≡ false = ap b.dropped ((==_iff d c).0 same) ∙ alive in
      rw (here, same) refl
  | inr other ↦ elim (Bool-cases (b.dropped d)) [
    | inl gone ↦ rw (gone, other) (sym (append-nil (b.received c)))
    | inr there ↦ rw (there, other) (sym (append-nil (b.received c)))
  ]
]

-- Each occurrence of a channel whose stream is there gets the event once.
pub send_all-received :
    (c : ℕ) (cs : List ℕ) (event : SerializedEvent) (b : InMemoryEventBus)
    → b.dropped c ≡ false
    → (send_all cs event b).received c ≡ b.received c ++ replicate (occurs c cs) event
unfolding send_all occurs
send_all-received c [] event b alive = sym (append-nil (b.received c))
send_all-received c (d ∷ cs) event b alive =
    let own = send-received c d event b alive in
    let rest =
      send_all-received c cs event (send d event b)
        (ap (λ (f : ℕ → Bool). f c) (send-frame d event b).2 ∙ alive) in
    rest
    ∙ ap (λ l. l ++ replicate (occurs c cs) event) own
    ∙ append_assoc (b.received c) (replicate (if d == c then 1 else 0) event)
        (replicate (occurs c cs) event)
    ∙ ap (λ l. b.received c ++ l) (replicate-append (if d == c then 1 else 0) (occurs c cs) event)

pushed :
    (c d : ℕ) (here : Bool) (x y : List ℕ)
    → (here ≡ true → x ≡ y)
    → occurs c (if here then x ++ d ∷ [] else y)
      ≡ occurs c y + (if here then (if d == c then 1 else 0) else 0)
unfolding occurs
pushed c d true x y same =
    occurs-append c x (d ∷ [])
    ∙ ap (λ l. occurs c l + ((if d == c then 1 else 0) + 0)) (same refl)
    ∙ omega arith
pushed c d false x y same = omega arith

one_more :
    (t topic : String) (c d : ℕ) (m : HashMap (List ℕ))
    → occurs c (get_or t [] (insert topic (get_or topic [] m ++ d ∷ []) m))
      ≡ occurs c (get_or t [] m) + (if str_eq topic t then (if d == c then 1 else 0) else 0)
one_more t topic c d m =
    ap (occurs c) (get_or-insert topic t [] (get_or topic [] m ++ d ∷ []) m)
    ∙ pushed c d (str_eq topic t) (get_or topic [] m) (get_or t [] m)
        (λ same. ap (λ k. get_or k [] m) ((eq_iff topic t).0 same))

pub register-occurs :
    (t : String) (c : ℕ) (topics : List String) (d : ℕ) (subscribers : HashMap (List ℕ))
    → occurs c (get_or t [] (register topics d subscribers))
      ≡ occurs c (get_or t [] subscribers) + (if d == c then mentions t topics else 0)
unfolding register mentions
register-occurs t c [] d subscribers = ground arith
register-occurs t c (topic ∷ topics) d subscribers =
    let own = one_more t topic c d subscribers in
    let rest =
      register-occurs t c topics d
        (insert topic (get_or topic [] subscribers ++ d ∷ []) subscribers) in
    ground (arith, own, rest)
