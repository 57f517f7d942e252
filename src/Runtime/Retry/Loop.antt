-- ===== src/Runtime/Retry/Loop.antt =====
-- runtime/src/retry.rs: the steps of the retry loop.
use composable_rust.Prelude.{
  ℕ, zero, suc, ◌+◌, ◌≤◌, ◌<◌, ◌≡◌, err_injective, length, length-append, Result-cases, Bool-cases,
  dec_lt, sym, ap, ap₂, append-nil, ◌∙◌, Bool, true, false, Option, some, Result, ok, err, List, [],
  ◌∷◌, ◌++◌, append_assoc, arith, inl, inr,
}
use native.Mathlib.Nat.{zero-add, add-zero, suc-add}
use composable_rust.Runtime.Retry.{Attempts, unwrap_or, retry_loop}

-- `d a, d (a + 1), ..`, `n` of them.
abbrev pub delays : (ℕ → ℕ) → ℕ → ℕ → List ℕ
delays d a zero = []
delays d a (suc n) = d a ∷ delays d (a + 1) n

module _ {T E : Type 0} (retryable : E → Bool) (op : ℕ → Result T E) where
  -- The calls from `a` on, `n` of them, fail with an error that may be retried.
  abbrev pub Fails : ℕ → ℕ → Type 0
  Fails a zero = Unit
  Fails a (suc n) = ((e : E) × (op a ≡ err e) × (retryable e ≡ true)) × Fails (a + 1) n

  -- The error remembered after those calls.
  abbrev pub remembered : Option E → (a n : ℕ) → Fails a n → Option E
  remembered last a zero h = last
  remembered last a (suc n) h = remembered (some h.0.0) (a + 1) n h.1

  pub remembered-last :
      (m a : ℕ) (last : Option E) (h : Fails a (suc m)) {e : E}
      → op (a + m) ≡ err e
      → remembered last a (suc m) h ≡ some e
  remembered-last zero a last h failed =
      ap some (err_injective (sym h.0.1 ∙ ap op (omega arith) ∙ failed))
  remembered-last (suc m) a last h failed =
      remembered-last m (a + 1) (some h.0.0) h.1 (ap op (omega arith) ∙ failed)

module _ {T E : Type 0} (max_retries : ℕ) (d : ℕ → ℕ) (retryable : E → Bool)
    (op : ℕ → Result T E) where
  pub loop-step :
      (fuel a : ℕ) (last : Option E) (slept : List ℕ) (e : E)
      → op a ≡ err e
      → retryable e ≡ true
      → a < max_retries
      → retry_loop max_retries d retryable op (suc fuel) a last slept
        ≡ retry_loop max_retries d retryable op fuel (a + 1) (some e) (slept ++ d a ∷ [])
  unfolding retry_loop
  loop-step fuel a last slept e failed again room = ground arith

  pub loop-retries :
      (n fuel a : ℕ) (last : Option E) (slept : List ℕ) (h : Fails retryable op a n)
      → a + n ≤ max_retries
      → retry_loop max_retries d retryable op (n + fuel) a last slept
        ≡ retry_loop max_retries d retryable op fuel
            (a + n)
            (remembered retryable op last a n h)
            (slept ++ delays d a n)
  loop-retries zero fuel a last slept h room = rw (zero-add, add-zero, append-nil)
  loop-retries (suc n) fuel a last slept h room =
      let (e, failed, again) = h.0 in
      let forth = loop-retries n fuel (a + 1) (some e) (slept ++ d a ∷ []) h.1 (omega arith) in
      let place : a + 1 + n ≡ a + suc n = omega arith in
      rw suc-add (
        loop-step (n + fuel) a last slept e failed again (omega arith)
        ∙ forth
        ∙ ap₂
            (λ k l.
              retry_loop max_retries d retryable op fuel k
                (remembered retryable op (some e) (a + 1) n h.1) l)
            place (append_assoc slept (d a ∷ []) (delays d (a + 1) n)))

  pub loop-succeeds :
      (fuel a : ℕ) (last : Option E) (slept : List ℕ) {r : T}
      → op a ≡ ok r
      → retry_loop max_retries d retryable op (suc fuel) a last slept
        ≡ some (record { result = ok r; calls = a + 1; slept = slept })
  unfolding retry_loop
  loop-succeeds fuel a last slept done = ground arith

  pub loop-gives_up :
      (fuel a : ℕ) (last : Option E) (slept : List ℕ) {e : E}
      → op a ≡ err e
      → retryable e ≡ false
      → retry_loop max_retries d retryable op (suc fuel) a last slept
        ≡ some (record { result = err e; calls = a + 1; slept = slept })
  unfolding retry_loop
  loop-gives_up fuel a last slept failed final = ground arith

  pub loop-exhausts :
      (fuel a : ℕ) (last : Option E) (slept : List ℕ) {e : E}
      → op a ≡ err e
      → retryable e ≡ true
      → max_retries ≤ a
      → retry_loop max_retries d retryable op (suc fuel) a last slept
        ≡ some (record { result = err (unwrap_or last e); calls = a + 1; slept = slept })
  unfolding retry_loop
  loop-exhausts fuel a last slept failed again spent = ground arith

  -- With more fuel than retries are left the loop returns.
  abbrev pub Within : Attempts T E → Type 0
  Within r = (r.calls ≤ max_retries + 1) × (length r.slept + 1 ≡ r.calls)

  pub loop-total :
      (fuel a : ℕ) (last : Option E) (slept : List ℕ)
      → a ≤ max_retries
      → max_retries < a + fuel
      → length slept ≡ a
      → (r : Attempts T E) × (retry_loop max_retries d retryable op fuel a last slept ≡ some r)
        × Within r
  loop-total zero a last slept low enough count = absurd (omega arith)
  loop-total (suc fuel) a last slept low enough count = elim (Result-cases (op a)) [
    | inl (x, done) ↦ (
      record { result = ok x; calls = a + 1; slept = slept },
      loop-succeeds fuel a last slept done,
      (omega arith, omega arith),
    )
    | inr (e, failed) ↦ elim (Bool-cases (retryable e)) [
      | inr final ↦ (
        record { result = err e; calls = a + 1; slept = slept },
        loop-gives_up fuel a last slept failed final,
        (omega arith, omega arith),
      )
      | inl again ↦ elim (dec_lt a max_retries) [
        | yes room ↦
            let (r, same, within) =
              loop-total fuel (a + 1) (some e) (slept ++ d a ∷ []) (omega arith) (omega arith)
                (omega (arith, length-append slept (d a ∷ []))) in
            (r, loop-step fuel a last slept e failed again room ∙ same, within)
        | no spent ↦ (
          record { result = err (unwrap_or last e); calls = a + 1; slept = slept },
          loop-exhausts fuel a last slept failed again (omega arith),
          (omega arith, omega arith),
        )
      ]
    ]
  ]
