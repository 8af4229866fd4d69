-- ===== src/Handlers/OAuth/Credentials.antt =====
-- Which credentials are accepted, and which clients a handler knows.
use inspiring_vacations_agen.Common.{
  ℕ, ◌≡◌, ◌≢◌, refl, ap, sym, ◌∙◌, ◌↔◌, inl, inr, Bool, true, false, Option, none, some, List, [],
  ◌∷◌, String, ◌==◌, eq_iff, if◌then◌else◌, string_eq, arith, Option-cases, is_nil,
}
use inspiring_vacations_agen.Common.Dict
use inspiring_vacations_agen.Common.Dict.{Dict}
use inspiring_vacations_agen.Http
use inspiring_vacations_agen.Middleware.Auth.{Result, ok, err, Jwt}
use inspiring_vacations_agen.JwtAuth.{Signer, validate_client_secret}
use inspiring_vacations_agen.Handlers.OAuth.{
  ClientConf, verified, TokenRequest, ClientCredentials, OAuthHandler, build_credentials,
  signing_secret, is_missing, new_oauth_handler, verify_client_credentials,
}

module _ (J : Jwt) where
  open J use {Key, decode_secret}

  -- A form whose fields grant the credentials of the client that it names.
  pub record Presented (S : Signer J) (h : OAuthHandler J) (r : TokenRequest)
      (creds : ClientCredentials J) : Type 0 where
    pub is_form : r.is_form ≡ true
    pub read : r.form_error ≡ none
    pub grant_type : Http.get r.post_form "grant_type" ≡ "client_credentials"
    pub named : Http.get r.post_form "client_id" ≢ ""
    pub has_secret : Http.get r.post_form "client_secret" ≢ ""
    pub known : Dict.lookup (Http.get r.post_form "client_id") h.client_credentials ≡ some creds
    pub secret :
        validate_client_secret J S (Http.get r.post_form "client_secret") creds.secret_hash ≡ true

  verified-Presented :
      (S : Signer J) (h : OAuthHandler J) (r : TokenRequest) (creds : ClientCredentials J)
      → verify_client_credentials J S h r ≡ verified creds
      → Presented S h r creds
  unfolding verify_client_credentials
  verified-Presented S h r creds e =
      elim (Option-cases (Dict.lookup (Http.get r.post_form "client_id") h.client_credentials)) [
        | inl missing ↦ absurd (ground (arith, missing))
        | inr (found, known) ↦ record {
          is_form = ground (arith, known);
          read = ground (arith, known);
          grant_type =
              ground
                (arith, known, eq_iff (Http.get r.post_form "grant_type") "client_credentials");
          named = ground (arith, known, eq_iff (Http.get r.post_form "client_id") "");
          has_secret = ground (arith, known, eq_iff (Http.get r.post_form "client_secret") "");
          known = ground (arith, known);
          secret = ground (arith, known);
        }
      ]

  Presented-verified :
      (S : Signer J) (h : OAuthHandler J) (r : TokenRequest) (creds : ClientCredentials J)
      → Presented S h r creds
      → verify_client_credentials J S h r ≡ verified creds
  unfolding verify_client_credentials
  Presented-verified S h r creds p =
      let other : ("client_credentials" == "") ≡ false = refl in
      let granted : (Http.get r.post_form "grant_type" == "") ≡ false =
        ap (λ t. t == "") p.grant_type ∙ other in
      ground (
        arith,
        p.is_form,
        p.read,
        granted,
        p.grant_type,
        p.known,
        p.secret,
        p.named,
        p.has_secret,
        eq_iff (Http.get r.post_form "grant_type") "client_credentials",
        eq_iff (Http.get r.post_form "grant_type") "",
        eq_iff (Http.get r.post_form "client_id") "",
        eq_iff (Http.get r.post_form "client_secret") "",
      )

  -- Credentials are accepted exactly when the request is a form that could be read, its grant type
  -- is "client_credentials", its client id and secret are not empty, the id is known, and the
  -- secret decodes to one that bcrypt finds to match the client's hash.
  pub verify_client_credentials_iff :
      (S : Signer J) (h : OAuthHandler J) (r : TokenRequest) (creds : ClientCredentials J)
      → (verify_client_credentials J S h r ≡ verified creds) ↔ Presented S h r creds
  verify_client_credentials_iff S h r creds =
      (verified-Presented S h r creds, Presented-verified S h r creds)

  -- What a client of the configuration is known as: nothing where its secret does not decode or it
  -- has no SDK keys.
  unfoldable pub usable : ℕ → ClientConf → Option (ClientCredentials J)
  usable ttl c = elim (decode_secret c.secret_hash) [
    | err e ↦ none
    | ok hash ↦
        if is_nil c.sdk_keys
        then none
        else some (record { id = c.id; ttl = ttl; secret_hash = hash; sdk_keys = c.sdk_keys })
  ]

  -- The last client with the id that is usable.
  unfoldable pub last_usable : ℕ → List ClientConf → String → Option (ClientCredentials J)
  last_usable ttl [] id = none
  last_usable ttl (c ∷ cs) id = elim (last_usable ttl cs id) [
    | some creds ↦ some creds
    | none ↦ if c.id == id then usable ttl c else none
  ]

  abbrev or_else :
      Option (ClientCredentials J) → Option (ClientCredentials J) → Option (ClientCredentials J)
  or_else (some c) o = some c
  or_else none o = o

  lookup-build :
      (ttl : ℕ) (clients : List ClientConf) (m : Dict String (ClientCredentials J)) (id : String)
      → Dict.lookup id (build_credentials J ttl clients m)
        ≡ or_else (last_usable ttl clients id) (Dict.lookup id m)
  unfolding build_credentials last_usable usable
  lookup-build ttl [] m id = refl
  lookup-build ttl (c ∷ cs) m id =
      step (λ m'. lookup-build ttl cs m' id) (decode_secret c.secret_hash) refl (is_nil c.sdk_keys)
        refl
    where
      step :
          ((m' : Dict String (ClientCredentials J))
            → Dict.lookup id (build_credentials J ttl cs m')
              ≡ or_else (last_usable ttl cs id) (Dict.lookup id m'))
          → (x : Result Key) → decode_secret c.secret_hash ≡ x
          → (b : Bool) → is_nil c.sdk_keys ≡ b
          → Dict.lookup id (build_credentials J ttl (c ∷ cs) m)
            ≡ or_else (last_usable ttl (c ∷ cs) id) (Dict.lookup id m)
      step rest (err e) f b g = ground (arith, rest m)
      step rest (ok hash) f true g = ground (arith, rest m)
      step rest (ok hash) f false g =
          let creds : ClientCredentials J = record {
            id = c.id;
            ttl = ttl;
            secret_hash = hash;
            sdk_keys = c.sdk_keys;
          } in
          ground (arith, rest (Dict.insert c.id creds m), Dict.lookup-insert c.id id creds m)

  -- A handler that `NewOAuthHandler` gives knows, for each id, the last client of the
  -- configuration with that id whose secret decodes and that has SDK keys; and where it knows any
  -- client, its signing secret is not empty.
  pub new_oauth_handler-clients :
      (is_empty : Key → Bool) (ttl : ℕ) (clients : List ClientConf) (hmac_secrets : List String)
      (h : OAuthHandler J) (id : String)
      → new_oauth_handler J is_empty ttl clients hmac_secrets ≡ some h
      → (Dict.lookup id h.client_credentials ≡ last_usable ttl clients id)
        × ((creds : ClientCredentials J)
            → Dict.lookup id h.client_credentials ≡ some creds
            → is_missing J is_empty h.hmac_secret ≡ false)
  unfolding new_oauth_handler
  new_oauth_handler-clients is_empty ttl clients hmac_secrets h id e =
      let built = lookup-build ttl clients [] id in
      elim (Option-cases (signing_secret J hmac_secrets)) [
        | inl f ↦ absurd (ground (arith, f))
        | inr (secret, f) ↦
            let kept : h.client_credentials ≡ build_credentials J ttl clients [] =
              ground (arith, f) in
            let key : h.hmac_secret ≡ secret = ground (arith, f) in
            (
              ap (Dict.lookup id) kept ∙ built ∙ nothing_before (last_usable ttl clients id),
              λ creds g. rw key (
                  signs secret (build_credentials J ttl clients []) creds f
                    (ap (Dict.lookup id) (sym kept) ∙ g) refl),
            )
      ]
    where
      nothing_before : (o : Option (ClientCredentials J)) → or_else o (Dict.lookup id []) ≡ o
      nothing_before none = Dict.lookup-nil id
      nothing_before (some c) = refl

      signs :
          (secret : Option Key) (m : Dict String (ClientCredentials J))
          (creds : ClientCredentials J)
          → signing_secret J hmac_secrets ≡ some secret
          → Dict.lookup id m ≡ some creds
          → build_credentials J ttl clients [] ≡ m
          → is_missing J is_empty secret ≡ false
      signs secret [] creds f g b =
          absurd (ground (arith, Dict.lookup-nil {V = ClientCredentials J} id))
      signs secret (x ∷ m) creds f g b = ground arith
