-- ===== src/Runtime/DeadLetterQueue/Bounds.antt =====
-- runtime/src/lib.rs: the queue keeps the newest entries, as many as fit.
use composable_rust.Prelude.{
  ℕ, ◌+◌, ◌-◌, ◌≤◌, ◌<◌, ◌≡◌, refl, sym, ap, ap₂, ◌∙◌, List, [], ◌∷◌, ◌++◌, length, length-append,
  length-drop, length-tail, drop-append, drop-drop, drop, tail, append-nil, append_assoc, arith,
  leb, Bool-cases, inl, inr,
}
use composable_rust.Runtime.DeadLetterQueue.{DeadLetter, DeadLetterQueue, push_entry, push_all}

module _ {ℓ} {A : Type ℓ} where
  -- The last `n` of a list.
  abbrev pub newest : ℕ → List A → List A
  newest n l = drop (length l - n) l

  newest-append : (n : ℕ) (l r : List A) → newest n (newest n l ++ r) ≡ newest n (l ++ r)
  newest-append n l r =
      let k = length l - n in
      let j = length (newest n l ++ r) - n in
      let position : j + k ≡ length (l ++ r) - n =
        omega (arith, length-append (newest n l) r, length-append l r, length-drop k l) in
      ap (drop j) (sym (drop-append k l r (omega arith)))
      ∙ drop-drop j k (l ++ r)
      ∙ ap (λ i. drop i (l ++ r)) position

  newest_all : (n : ℕ) (l : List A) → length l ≤ n → newest n l ≡ l
  newest_all n l h = let none_over : length l - n ≡ 0 = omega arith in ap (λ k. drop k l) none_over

  length-newest : (n : ℕ) (l : List A) → length (newest n l) ≤ n
  length-newest n l = omega (arith, length-drop (length l - n) l)

  tail-append : (l r : List A) → 0 < length l → tail l ++ r ≡ drop 1 (l ++ r)
  tail-append [] r h = absurd (omega arith)
  tail-append (x ∷ l) r h = refl

module _ {ℓ} {T : Type ℓ} where
  push_entry-newest :
      (entry : DeadLetter T) (q : DeadLetterQueue T)
      → 0 < q.max_size
      → length q.queue ≤ q.max_size
      → (push_entry entry q).queue ≡ newest q.max_size (q.queue ++ entry ∷ [])
  unfolding push_entry
  push_entry-newest entry q room fits = elim (Bool-cases (leb q.max_size (length q.queue))) [
    | inl full ↦
        let one : 1 ≡ length (q.queue ++ entry ∷ []) - q.max_size =
          ground (arith, length-append q.queue (entry ∷ [])) in
        rw full (
          tail-append q.queue (entry ∷ []) (ground arith)
          ∙ ap (λ k. drop k (q.queue ++ entry ∷ [])) one)
    | inr fitting ↦ rw fitting (
        sym (
          newest_all q.max_size (q.queue ++ entry ∷ [])
            (ground (arith, length-append q.queue (entry ∷ [])))))
  ]

  push_entry-max_size :
      (entry : DeadLetter T) (q : DeadLetterQueue T) → (push_entry entry q).max_size ≡ q.max_size
  unfolding push_entry
  push_entry-max_size entry q = refl

  -- A queue with room for an entry at least, within its bound, holds after any pushes the newest
  -- entries in the order in which they came, as many as fit, and stays within its bound.
  pub push_all-newest :
      (entries : List (DeadLetter T)) (q : DeadLetterQueue T)
      → 0 < q.max_size
      → length q.queue ≤ q.max_size
      → ((push_all entries q).queue ≡ newest q.max_size (q.queue ++ entries))
        × (length (push_all entries q).queue ≤ q.max_size)
  unfolding push_all
  push_all-newest [] q room fits = (rw append-nil (sym (newest_all q.max_size q.queue fits)), fits)
  push_all-newest (entry ∷ entries) q room fits =
      let q' = push_entry entry q in
      let m = q.max_size in
      let here = push_entry-newest entry q room fits in
      let same = push_entry-max_size entry q in
      let bounded : length q'.queue ≤ m = rw here (length-newest m (q.queue ++ entry ∷ [])) in
      let (there, within) = push_all-newest entries q' (omega arith) (omega arith) in
      (
        there
            ∙ ap₂ (λ n l. newest n (l ++ entries)) same here
            ∙ newest-append m (q.queue ++ entry ∷ []) entries
            ∙ ap (newest m) (append_assoc q.queue (entry ∷ []) entries),
        omega arith,
      )

  push_entry-max_size_zero :
      (entry : DeadLetter T) (q : DeadLetterQueue T)
      → q.max_size ≡ 0
      → length q.queue ≤ 1
      → length (push_entry entry q).queue ≡ 1
  unfolding push_entry
  push_entry-max_size_zero entry q zero_size small =
      ground (arith, length-append (tail q.queue) (entry ∷ []), length-tail q.queue)

  -- A queue created with no room holds one entry, the newest, after any pushes at all.
  pub push_all-max_size_zero :
      (entry : DeadLetter T) (entries : List (DeadLetter T)) (q : DeadLetterQueue T)
      → q.max_size ≡ 0
      → length q.queue ≤ 1
      → length (push_all (entry ∷ entries) q).queue ≡ 1
  unfolding push_all
  push_all-max_size_zero entry [] q zero_size small =
      push_entry-max_size_zero entry q zero_size small
  push_all-max_size_zero entry (next ∷ entries) q zero_size small =
      push_all-max_size_zero next entries (push_entry entry q)
        (push_entry-max_size entry q ∙ zero_size)
        (omega (arith, push_entry-max_size_zero entry q zero_size small))
