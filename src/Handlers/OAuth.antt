-- ===== src/Handlers/OAuth.antt =====
-- pkg/handlers/oauth.go: access tokens for client credentials.
pub mod Credentials
pub mod Issued
mod Tests
use Prim.Native.String.{◌++◌}
use inspiring_vacations_agen.Common.{
  ℕ, Bool, true, false, not, ◌&&◌, ◌||◌, Option, none, some, List, [], ◌∷◌, String, ◌==◌,
  if◌then◌else◌, string_eq, is_nil,
}
use inspiring_vacations_agen.Common.Dict
use inspiring_vacations_agen.Common.Dict.{Dict}
use inspiring_vacations_agen.Http
use inspiring_vacations_agen.Middleware.Auth.{Result, ok, err, Jwt}
use inspiring_vacations_agen.JwtAuth.{
  Signer, build_api_access_token, build_admin_access_token, validate_client_secret,
}

-- A client of the configuration.
pub record ClientConf : Type 0 where
  pub id : String
  pub secret_hash : String
  pub sdk_keys : List String

-- `ClientCredentialsError` with its status.
pub record Refusal : Type 0 where
  pub status : ℕ
  pub error_code : String
  pub error_description : String

pub data Verified (A : Type 0) : Type 0 where
  verified : A → Verified A
  refused : Refusal → Verified A

-- What a request of a token is answered: the token with its lifetime in seconds, a refusal of
-- the credentials, or an error.
pub data Answer : Type 0 where
  issued : String → ℕ → Answer
  denied : Refusal → Answer
  error : String → Answer

-- What the handler reads of a request: whether the content type is a form, the error of
-- `ParseForm`, if there is one, and the values of the form.
pub record TokenRequest : Type 0 where
  pub is_form : Bool
  pub form_error : Option String
  pub post_form : Dict String (List String)

abbrev deny : ℕ → String → String → Refusal
deny status code description = record {
  status = status;
  error_code = code;
  error_description = description;
}

module _ (J : Jwt) where
  open J use {Key, decode_secret}

  pub record ClientCredentials : Type 0 where
    pub id : String
    pub ttl : ℕ
    pub secret_hash : Key
    pub sdk_keys : List String

  -- The secret is `none` while it is the empty slice that it starts as.
  pub record OAuthHandler : Type 0 where
    pub client_credentials : Dict String ClientCredentials
    pub hmac_secret : Option Key

  -- The loop over the clients: one whose secret does not decode or that has no keys is skipped.
  unfoldable pub build_credentials :
      ℕ → List ClientConf → Dict String ClientCredentials → Dict String ClientCredentials
  build_credentials ttl [] m = m
  build_credentials ttl (c ∷ cs) m = elim (decode_secret c.secret_hash) [
    | err e ↦ build_credentials ttl cs m
    | ok hash ↦ elim (is_nil c.sdk_keys) [
      | true ↦ build_credentials ttl cs m
      | false ↦ build_credentials ttl cs (
          Dict.insert c.id
            (record { id = c.id; ttl = ttl; secret_hash = hash; sdk_keys = c.sdk_keys }) m)
    ]
  ]

  -- The loop over the secrets: all are decoded, the first signs.
  unfoldable pub signing_secret : List String → Option (Option Key)
  signing_secret [] = some none
  signing_secret (s ∷ ss) = elim (decode_secret s) [
    | err e ↦ none
    | ok key ↦ elim (signing_secret ss) [ none ↦ none | some _ ↦ some (some key) ]
  ]

  -- `len(h.hmacSecret) == 0`
  abbrev pub is_missing : (Key → Bool) → Option Key → Bool
  is_missing is_empty none = true
  is_missing is_empty (some key) = is_empty key

  -- `NewOAuthHandler`: `none` is the nil result. The function tells an empty slice.
  unfoldable pub new_oauth_handler :
      (Key → Bool) → ℕ → List ClientConf → List String → Option OAuthHandler
  new_oauth_handler is_empty ttl clients hmac_secrets =
      let credentials = build_credentials ttl clients [] in
      elim (signing_secret hmac_secrets) [
        | none ↦ none
        | some secret ↦
            if not (is_nil credentials) && is_missing is_empty secret
            then none
            else some (record { client_credentials = credentials; hmac_secret = secret })
      ]

  abbrev pub signing_key : Key → Option Key → Key
  signing_key empty none = empty
  signing_key empty (some key) = key

  module _ (S : Signer J) where
    -- `verifyClientCredentials`
    unfoldable pub verify_client_credentials :
        OAuthHandler → TokenRequest → Verified ClientCredentials
    verify_client_credentials h r =
        let grant_type = Http.get r.post_form "grant_type" in
        let client_id = Http.get r.post_form "client_id" in
        let client_secret = Http.get r.post_form "client_secret" in
        let unknown = deny 401 "invalid_client" "invalid client_id or client_secret" in
        if not r.is_form
        then refused (
            deny 415 "invalid_request"
              "Content-Type header value must be application/x-www-form-urlencoded")
        else elim r.form_error [
          | some e ↦ refused (deny 400 "invalid_request" ("error parsing request body: " ++ e))
          | none ↦
              if grant_type == ""
              then refused (deny 400 "invalid_request" "grant_type missing from request body")
              else if not (grant_type == "client_credentials")
              then refused (deny 400 "unsupported_grant_type" "")
              else if client_id == ""
              then refused (deny 401 "invalid_client" "client_id missing from request body")
              else if client_secret == ""
              then refused (deny 401 "invalid_client" "client_secret missing from request body")
              else elim (Dict.lookup client_id h.client_credentials) [
                | none ↦ refused unknown
                | some creds ↦
                    if validate_client_secret J S client_secret creds.secret_hash
                    then verified creds
                    else refused unknown
              ]
        ]

    abbrev answer_with : ℕ → Result String → Answer
    answer_with ttl (ok token) = issued token ttl
    answer_with ttl (err e) = error e

    -- `CreateAPIAccessToken`; the key of a handler without a secret is the empty one.
    unfoldable pub create_api_access_token : Key → ℕ → OAuthHandler → TokenRequest → Answer
    create_api_access_token empty now h r = elim (verify_client_credentials h r) [
      | refused x ↦ denied x
      | verified creds ↦
          let key = signing_key empty h.hmac_secret in
          answer_with creds.ttl (build_api_access_token J S now creds.sdk_keys creds.ttl key)
    ]

    -- `CreateAdminAccessToken`
    unfoldable pub create_admin_access_token : Key → ℕ → OAuthHandler → TokenRequest → Answer
    create_admin_access_token empty now h r = elim (verify_client_credentials h r) [
      | refused x ↦ denied x
      | verified creds ↦
          let key = signing_key empty h.hmac_secret in
          answer_with creds.ttl (build_admin_access_token J S now creds.ttl key)
    ]
