-- ===== src/Auth/TokenStore.antt =====
-- auth/src/mocks/token_store.rs and auth/src/providers/token_store.rs: single-use tokens in memory.
-- The clock's reading is an argument. `serde_json::Value` is a type that is not looked into; two
-- texts are equal exactly if their bytes are. A poisoned mutex is not modelled.
pub mod SingleUse
use composable_rust.Prelude.{
  ℕ, String, Bool, true, false, not, ◌&&◌, Option, none, some, List, [], Result, ok, err, ltb,
  str_eq, if◌then◌else◌, text_key,
}
use composable_rust.Prelude.Dict

pub data TokenType : Type 0 where
  magic_link : TokenType
  oauth_state : TokenType
  passkey_registration_challenge : TokenType
  passkey_authentication_challenge : TokenType

pub data AuthError : Type 0 where
  token_consumed : String → AuthError

module _ (Json : Type 0) where
  pub record TokenData : Type 0 where
    pub token_type : TokenType
    pub token : String
    pub data_value : Json
    pub expires_at : ℕ
    pub created_at : ℕ

  abbrev pub MockTokenStore : Type 0
  MockTokenStore = List (String × TokenData)

module _ {Json : Type 0} where
  -- `TokenData::new`
  unfoldable pub new_token : TokenType → String → Json → (expires_at now : ℕ) → TokenData Json
  new_token t token value expires_at now = record {
    token_type = t;
    token = token;
    data_value = value;
    expires_at = expires_at;
    created_at = now;
  }

  -- `MockTokenStore::new`
  abbrev pub new_store : MockTokenStore Json
  new_store = []

  unfoldable pub clear : MockTokenStore Json → MockTokenStore Json
  clear tokens = []

  unfoldable pub get_all : MockTokenStore Json → MockTokenStore Json
  get_all tokens = tokens

  unfoldable pub store_token : String → TokenData Json → MockTokenStore Json → MockTokenStore Json
  unfolding Dict.insert
  store_token token_id token_data tokens = Dict.insert token_id token_data tokens

  unfoldable pub consume_token :
      (now : ℕ) (token_id token : String)
      → MockTokenStore Json
      → Result (Option (TokenData Json)) AuthError × MockTokenStore Json
  unfolding Dict.get Dict.remove
  consume_token now token_id token tokens = elim (Dict.get token_id tokens) [
    | none ↦ (ok none, tokens)
    | some stored_data ↦
        let token_matches = str_eq token stored_data.token in
        let is_expired = ltb stored_data.expires_at now in
        let is_valid = token_matches && not is_expired in
        let tokens' = if is_expired then Dict.remove token_id tokens else tokens in
        if is_valid
        then elim (Dict.get token_id tokens') [
          | none ↦ (err (token_consumed "Token was consumed by another request"), tokens')
          | some token_data ↦ (ok (some token_data), Dict.remove token_id tokens')
        ]
        else (ok none, tokens')
  ]

  unfoldable pub delete_token : String → MockTokenStore Json → MockTokenStore Json
  unfolding Dict.remove
  delete_token token_id tokens = Dict.remove token_id tokens

  unfoldable pub exists : (now : ℕ) → String → MockTokenStore Json → Bool
  unfolding Dict.get
  exists now token_id tokens = elim (Dict.get token_id tokens) [
    | none ↦ false
    | some token_data ↦ if ltb token_data.expires_at now then false else true
  ]
