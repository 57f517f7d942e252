-- ===== src/Auth/TokenStore/SingleUse.antt =====
-- auth/src/mocks/token_store.rs: a token is used at most once, in time, and by who knows it.
use composable_rust.Prelude.{
  ℕ, String, true, false, not, ◌&&◌, none, some, List, [], ◌∷◌, ok, ltb, str_eq, if◌then◌else◌,
  text_key, ◌≡◌, ap, subst, ◌∙◌, ◌≤◌, refl, arith, eq_iff, Option-cases, Bool-cases, inl, inr,
  eq_refl, All,
}
use composable_rust.Prelude.Dict
use composable_rust.Prelude.Dict.{get-insert, get-remove}
use composable_rust.Auth.TokenStore.{
  TokenData, MockTokenStore, store_token, consume_token, delete_token, clear,
}

module _ {Json : Type 0} where
  -- Consuming never fails, and gives the stored token exactly if it is there, matches and has not
  -- expired. It is then gone; an expired token is gone in any case; all other tokens stay.
  pub consume_token-result :
      (now : ℕ) (token_id token : String) (tokens : MockTokenStore Json) (d : TokenData Json)
      → Dict.get token_id tokens ≡ some d
      → ((consume_token now token_id token tokens).0
          ≡ ok (if str_eq token d.token && not (ltb d.expires_at now) then some d else none))
        × (Dict.get token_id (consume_token now token_id token tokens).1 ≡ (
            if str_eq token d.token && not (ltb d.expires_at now)
            then none
            else if ltb d.expires_at now
            then none
            else some d))
        × ((other : String)
            → str_eq token_id other ≡ false
            → Dict.get other (consume_token now token_id token tokens).1 ≡ Dict.get other tokens)
  unfolding consume_token
  consume_token-result now token_id token tokens d found = (
    ground (arith, found, get-remove token_id token_id tokens),
    ground (arith, found, get-remove token_id token_id tokens, eq_refl token_id),
    λ other apart. ground (arith, found, apart, get-remove token_id other tokens),
  )

  consume_missing :
      (now : ℕ) (token_id token : String) (tokens : MockTokenStore Json)
      → Dict.get token_id tokens ≡ none
      → consume_token now token_id token tokens ≡ (ok none, tokens)
  unfolding consume_token
  consume_missing now token_id token tokens missing = ground (arith, missing)

module _ (Json : Type 0) where
  -- Requests to the store, of anyone and at any time.
  pub data Request : Type 0 where
    store_request : String → TokenData Json → Request
    consume_request : (now : ℕ) (token_id token : String) → Request
    delete_request : String → Request
    clear_request : Request

module _ {Json : Type 0} where
  unfoldable pub serve : MockTokenStore Json → Request Json → MockTokenStore Json
  unfolding store_token consume_token delete_token clear
  serve tokens (store_request token_id d) = store_token token_id d tokens
  serve tokens (consume_request now token_id token) = (consume_token now token_id token tokens).1
  serve tokens (delete_request token_id) = delete_token token_id tokens
  serve tokens clear_request = clear tokens

  unfoldable pub serve_all : MockTokenStore Json → List (Request Json) → MockTokenStore Json
  unfolding serve
  serve_all tokens [] = tokens
  serve_all tokens (request ∷ requests) = serve_all (serve tokens request) requests

  -- The request does not store a token under the identifier.
  abbrev pub DoesNotStore : String → Request Json → Type 0
  DoesNotStore token_id (store_request other _) = str_eq other token_id ≡ false
  DoesNotStore token_id _ = Unit

  consume-missing :
      (token_id : String) (now : ℕ) (other token : String) (tokens : MockTokenStore Json)
      → Dict.get token_id tokens ≡ none
      → Dict.get token_id (consume_token now other token tokens).1 ≡ none
  consume-missing token_id now other token tokens missing =
      elim (Option-cases (Dict.get other tokens)) [
        | inl absent ↦
            ap (λ p. Dict.get token_id p.1) (consume_missing now other token tokens absent)
            ∙ missing
        | inr (e, there) ↦ elim (Bool-cases (str_eq other token_id)) [
          | inl same ↦
              let equal : other ≡ token_id = (eq_iff other token_id).0 same in
              absurd (ground (arith, there, missing, equal))
          | inr different ↦
              (consume_token-result now other token tokens e there).2 token_id different ∙ missing
        ]
      ]

  serve-missing :
      (token_id : String) (tokens : MockTokenStore Json) (request : Request Json)
      → DoesNotStore token_id request
      → Dict.get token_id tokens ≡ none
      → Dict.get token_id (serve tokens request) ≡ none
  unfolding serve
  serve-missing token_id tokens (store_request other d) apart missing =
      ground (arith, apart, missing, get-insert other token_id d tokens)
  serve-missing token_id tokens (consume_request now other token) apart missing =
      consume-missing token_id now other token tokens missing
  serve-missing token_id tokens (delete_request other) apart missing =
      ground (arith, missing, get-remove other token_id tokens)
  serve-missing token_id tokens clear_request apart missing = refl

  serve_all-missing :
      (token_id : String) (tokens : MockTokenStore Json) (requests : List (Request Json))
      → All (DoesNotStore token_id) requests
      → Dict.get token_id tokens ≡ none
      → Dict.get token_id (serve_all tokens requests) ≡ none
  unfolding serve_all
  serve_all-missing token_id tokens [] apart missing = missing
  serve_all-missing token_id tokens (request ∷ requests) apart missing =
      serve_all-missing token_id (serve tokens request) requests apart.1
        (serve-missing token_id tokens request apart.0 missing)

  valid_token :
      (now : ℕ) (token : String) (e : TokenData Json)
      → (str_eq token e.token && not (ltb e.expires_at now)) ≡ true
      → (token ≡ e.token) × (now ≤ e.expires_at)
  valid_token now token e valid =
      (grind (arith, valid, eq_iff token e.token), ground (arith, valid))

  consumed :
      (now : ℕ) (token_id token : String) (tokens : MockTokenStore Json) (d : TokenData Json)
      → (consume_token now token_id token tokens).0 ≡ ok (some d)
      → (Dict.get token_id tokens ≡ some d)
        × (token ≡ d.token)
        × (now ≤ d.expires_at)
        × (Dict.get token_id (consume_token now token_id token tokens).1 ≡ none)
  consumed now token_id token tokens d h = elim (Option-cases (Dict.get token_id tokens)) [
    | inl missing ↦ absurd (ground (arith, h, consume_missing now token_id token tokens missing))
    | inr (e, there) ↦
        let result = consume_token-result now token_id token tokens e there in
        elim (Bool-cases (str_eq token e.token && not (ltb e.expires_at now))) [
          | inl valid ↦
              let same : e ≡ d = ground (arith, h, result.0, valid) in
              let facts = valid_token now token e valid in
              subst
                (λ x.
                  (Dict.get token_id tokens ≡ some x)
                  × (token ≡ x.token)
                  × (now ≤ x.expires_at)
                  × (Dict.get token_id (consume_token now token_id token tokens).1 ≡ none))
                same (there, facts.0, facts.1, ground (arith, result.1, valid))
          | inr invalid ↦ absurd (ground (arith, h, result.0, invalid))
        ]
  ]

  -- A token that is given out was stored, is known to who consumes it, and has not expired; and
  -- whatever requests come after, as long as no token is stored under its identifier again, no
  -- attempt to consume it gives it out a second time.
  pub single_use :
      (now : ℕ) (token_id token : String) (tokens : MockTokenStore Json) (d : TokenData Json)
      (requests : List (Request Json)) (later : ℕ) (another : String)
      → (consume_token now token_id token tokens).0 ≡ ok (some d)
      → All (DoesNotStore token_id) requests
      → (Dict.get token_id tokens ≡ some d)
        × (token ≡ d.token)
        × (now ≤ d.expires_at)
        × ((consume_token later token_id another
              (serve_all (consume_token now token_id token tokens).1 requests)).0
            ≡ ok none)
  single_use now token_id token tokens d requests later another h apart =
      let facts = consumed now token_id token tokens d h in
      let after = serve_all (consume_token now token_id token tokens).1 requests in
      (
        facts.0,
        facts.1,
        facts.2,
        ap (λ p. p.0)
            (consume_missing later token_id another after
              (serve_all-missing token_id _ requests apart facts.3)),
      )
