-- ===== src/Auth/Tests.antt =====
-- The properties of the stores on a few tokens and attempts.
use composable_rust.Prelude.{
  ℕ, true, false, none, some, [], ◌∷◌, ok, ◌≡◌, refl, ◌≤◌, arith, text_key,
}
use composable_rust.Prelude.Dict
use composable_rust.Auth.TokenStore.{TokenData, MockTokenStore, magic_link, consume_token}
use composable_rust.Auth.TokenStore.SingleUse.{single_use, consume_request, serve_all}
use composable_rust.Auth.RateLimiter.{reset}
use composable_rust.Auth.RateLimiter.Window.{decisions, reference_decisions, decisions-reference}

abbrev secret : TokenData ℕ
secret = record {
  token_type = magic_link;
  token = "secret";
  data_value = 5;
  expires_at = 100;
  created_at = 0;
}

abbrev tokens : MockTokenStore ℕ
tokens = ("id", secret) ∷ []

single_use_example :
    (Dict.get "id" tokens ≡ some secret)
    × ("secret" ≡ secret.token)
    × (50 ≤ secret.expires_at)
    × ((consume_token 60 "id" "secret" (
          serve_all
            (consume_token 50 "id" "secret" tokens).1
            (consume_request 55 "id" "guess" ∷ []))).0
        ≡ ok none)
unfolding consume_token Dict.get Dict.remove
single_use_example =
    single_use 50 "id" "secret" tokens secret (consume_request 55 "id" "guess" ∷ []) 60 "secret"
      refl (tt, tt)

-- Four attempts, of which two may be in a window of 10.
decisions-reference_example :
    decisions "key" 2 10 (1 ∷ 2 ∷ 3 ∷ 12 ∷ []) (reset "key" (("key", 0 ∷ []) ∷ []))
    ≡ reference_decisions 2 10 (1 ∷ 2 ∷ 3 ∷ 12 ∷ []) []
decisions-reference_example =
    decisions-reference "key" 2 10 (1 ∷ 2 ∷ 3 ∷ 12 ∷ []) (("key", 0 ∷ []) ∷ [])
      (omega arith, (omega arith, (omega arith, (omega arith, tt))))

third_is_refused :
    reference_decisions 2 10 (1 ∷ 2 ∷ 3 ∷ 12 ∷ []) [] ≡ true ∷ true ∷ false ∷ true ∷ []
unfolding reference_decisions
third_is_refused = refl
