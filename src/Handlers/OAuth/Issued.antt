-- ===== src/Handlers/OAuth/Issued.antt =====
-- A token that the agent issues, brought back to the API that the same configuration guards.
use inspiring_vacations_agen.Common.{
  ℕ, ◌+◌, ◌<◌, ◌≡◌, ◌≢◌, refl, ap, sym, ◌∙◌, inl, inr, Bool, true, false, Option, none, some, List,
  [], ◌∷◌, ◌++◌, String, Char, string_eq, arith, chars, of_chars, Option-cases, Elem,
}
use inspiring_vacations_agen.Common.Dict
use inspiring_vacations_agen.Common.Dict.{Dict}
use inspiring_vacations_agen.Http
use inspiring_vacations_agen.Http.{Request, forward}
use inspiring_vacations_agen.Middleware.Auth.{
  Result, ok, err, Jwt, Verifier, no_auth, secrets, hmac_key, check_token, is_expired,
  request_token, authorize_api, number, new_auth, decode_all, Claim, list, string, int64,
}
use inspiring_vacations_agen.Middleware.Auth.Header.{HasNoSpace, request_token-bearer}
use inspiring_vacations_agen.Middleware.Auth.Tokens.{FirstKey, check_token-secrets}
use inspiring_vacations_agen.Middleware.Auth.Access.{Names, is_expired_lem, authorize_api_iff}
use inspiring_vacations_agen.JwtAuth.{Signer, items, api_claims, build_api_access_token}
use inspiring_vacations_agen.Handlers.OAuth.{
  ClientConf, verified, TokenRequest, ClientCredentials, OAuthHandler, issued, signing_key,
  signing_secret, new_oauth_handler, verify_client_credentials, create_api_access_token,
}

-- The largest range of whole numbers that JSON numbers keep exactly.
abbrev pub exact_limit : ℕ
exact_limit = 0x20000000000000

module _ (J : Jwt) (S : Signer J) where
  open J use {Token, Key, KeySet, F, is_hmac, valid, claims, parse, decode_secret}
  open S use {sign}

  -- What golang-jwt promises of a token that it signed and that has not expired at the time
  -- `clock` of parsing it: under the same key it parses as a valid HMAC token; a list of texts is
  -- among the claims as it was signed, a number with the same value; and it has no space in it.
  pub record SignsFaithfully (clock : ℕ) : Type 0 where
    pub parses :
        (cs : Dict String (Claim F)) (key : Key) (s : String) (n : ℕ)
        → sign cs key ≡ ok s
        → Dict.lookup "exp" cs ≡ some (int64 n)
        → clock < n
        → n < exact_limit
        → (tk : Token) × (parse (hmac_key J key) s ≡ ok tk)
          × (is_hmac tk ≡ true)
          × (valid tk ≡ true)
          × (number J (Dict.lookup "exp" (claims tk)) ≡ n)
          × ((name : String) (ss : List String)
              → Dict.lookup name cs ≡ some (list (items J ss))
              → Dict.lookup name (claims tk) ≡ some (list (items J ss)))
    pub text :
        (cs : Dict String (Claim F)) (key : Key) (s : String)
        → sign cs key ≡ ok s
        → (s ≢ "") × ((ds : List Char) × (s ≡ of_chars ds) × HasNoSpace ds)

  Names-items : (key : String) (ss : List String) → Elem key ss → Names J key (items J ss)
  Names-items key [] h = absurd h
  Names-items key (s ∷ ss) (inl e) = inl (ap string (sym e))
  Names-items key (s ∷ ss) (inr h) = inr (Names-items key ss h)

  open_to_all :
      (v : Verifier J) (interval_set : Bool) (fetched : Option KeySet) (token : String)
      → new_auth J "" interval_set fetched [] ≡ some v
      → check_token J v token ≡ ok none
  unfolding new_auth check_token
  open_to_all v interval_set fetched token e =
      let none_set : no_auth ≡ v = ground arith in rw (← none_set) refl

  -- The first secret signs, and is the first one that is tried.
  first_secret :
      (s : String) (ss : List String) (secret : Option Key) (v : Verifier J) (interval_set : Bool)
      (fetched : Option KeySet)
      → new_auth J "" interval_set fetched (s ∷ ss) ≡ some v
      → signing_secret J (s ∷ ss) ≡ some secret
      → (key : Key) × (keys : List Key) × (v ≡ secrets (key ∷ keys)) × (secret ≡ some key)
  unfolding new_auth signing_secret decode_all
  first_secret s ss secret v interval_set fetched e f =
      step (decode_secret s) refl (decode_all J ss) refl (signing_secret J ss) refl
    where
      step :
          (x : Result Key)
          → decode_secret s ≡ x
          → (y : Option (List Key)) → decode_all J ss ≡ y
          → (z : Option (Option Key)) → signing_secret J ss ≡ z
          → (key : Key) × (keys : List Key) × (v ≡ secrets (key ∷ keys)) × (secret ≡ some key)
      step (err m) p y q z r = absurd (ground arith)
      step (ok key) p none q z r = absurd (ground arith)
      step (ok key) p (some keys) q none r = absurd (ground arith)
      step (ok key) p (some keys) q (some t) r = (key, keys, ground arith, ground arith)

  module _ (is_empty : Key → Bool) (empty : Key) (ttl : ℕ) (clients : List ClientConf)
      (hmac_secrets : List String) (interval_set : Bool) (fetched : Option KeySet) (v : Verifier J)
      (h : OAuthHandler J) (guards : new_auth J "" interval_set fetched hmac_secrets ≡ some v)
      (issues : new_oauth_handler J is_empty ttl clients hmac_secrets ≡ some h) where
    handler_secret : signing_secret J hmac_secrets ≡ some h.hmac_secret
    unfolding new_oauth_handler
    handler_secret = elim (Option-cases (signing_secret J hmac_secrets)) [
      | inl e ↦ absurd (ground (arith, e))
      | inr (secret, e) ↦ ground (arith, e)
    ]

    issued-signed :
        (now : ℕ) (t : TokenRequest) (creds : ClientCredentials J) (token : String) (lifetime : ℕ)
        → verify_client_credentials J S h t ≡ verified creds
        → create_api_access_token J S empty now h t ≡ issued token lifetime
        → (sign (api_claims J creds.sdk_keys (now + lifetime)) (signing_key J empty h.hmac_secret)
            ≡ ok token)
    unfolding create_api_access_token build_api_access_token
    issued-signed now t creds token lifetime e f =
        step
          (sign (api_claims J creds.sdk_keys (now + creds.ttl)) (signing_key J empty h.hmac_secret))
          refl
      where
        step :
            (x : Result String)
            → sign
                (api_claims J creds.sdk_keys (now + creds.ttl))
                (signing_key J empty h.hmac_secret)
              ≡ x
            → sign
                (api_claims J creds.sdk_keys (now + lifetime))
                (signing_key J empty h.hmac_secret)
              ≡ ok token
        step (err m) g = absurd (ground arith)
        step (ok s) g =
            let same : creds.ttl ≡ lifetime = ground arith in
            ap
              (λ n.
                sign (api_claims J creds.sdk_keys (now + n)) (signing_key J empty h.hmac_secret))
              (sym same)
            ∙ g
            ∙ ground arith

    -- For one configuration of clients and HMAC secrets, without a JWKS URL, that both `NewAuth`
    -- and `NewOAuthHandler` accept: a token that `CreateAPIAccessToken` issues for credentials,
    -- sent as "Bearer" before it expires with an SDK key of these credentials, is let through by
    -- `AuthorizeAPI`. The expiry is below 2 ^ 53, and the JWT library parses the tokens it signed.
    pub issued-authorized :
        (now later : ℕ) (t : TokenRequest) (creds : ClientCredentials J) (token : String)
        (lifetime : ℕ) (r : Request) (rest : List String)
        → SignsFaithfully later
        → verify_client_credentials J S h t ≡ verified creds
        → create_api_access_token J S empty now h t ≡ issued token lifetime
        → later < now + lifetime
        → now + lifetime < exact_limit
        → ((cs : List Char)
            → token ≡ of_chars cs
            → Dict.lookup "Authorization" r.header ≡ some (of_chars (chars "Bearer " ++ cs) ∷ rest))
        → Elem (Http.get r.header Http.sdk_header) creds.sdk_keys
        → authorize_api J v later r ≡ forward r
    unfolding Dict.lookup
    issued-authorized now later t creds token lifetime r rest faithful e f early small sent member =
        by_secrets hmac_secrets guards handler_secret
      where
        by_secrets :
            (hs : List String)
            → new_auth J "" interval_set fetched hs ≡ some v
            → signing_secret J hs ≡ some h.hmac_secret
            → authorize_api J v later r ≡ forward r
        by_secrets [] g k =
            (authorize_api_iff J v later r).1
              (inl (open_to_all v interval_set fetched (request_token r) g))
        by_secrets (s ∷ ss) g k =
            let (key, keys, is_secrets, is_key) =
              first_secret s ss h.hmac_secret v interval_set fetched g k in
            let signed : sign (api_claims J creds.sdk_keys (now + lifetime)) key ≡ ok token =
              ap (λ o. sign (api_claims J creds.sdk_keys (now + lifetime)) (signing_key J empty o))
                (sym is_key)
              ∙ issued-signed now t creds token lifetime e f in
            let (given, (cs, spelled, no_space)) = faithful.text _ key token signed in
            let (tk, parsed, hmac, is_valid, expiry, lists) =
              faithful.parses _ key token (now + lifetime) signed refl early small in
            let first : FirstKey J (key ∷ keys) token tk = record {
              before = [];
              key = key;
              after = keys;
              split = refl;
              refused = tt;
              accepted = record { parsed = parsed; is_valid = is_valid };
            } in
            let sent_token : request_token r ≡ token =
              request_token-bearer r rest cs (sent cs spelled) no_space ∙ sym spelled in
            let checked : check_token J v (request_token r) ≡ ok (some tk) =
              rw (is_secrets, sent_token)
                ((check_token-secrets J (key ∷ keys) token tk).0.1 (given, first)) in
            let current : is_expired J tk later ≡ false =
              is_expired_lem J tk later (omega (arith, expiry)) (omega arith)
              ∙ ground (arith, expiry) in
            (authorize_api_iff J v later r).1 (
              inr (
                tk,
                record { checked = checked; unexpired = current },
                (
                  items J creds.sdk_keys,
                  lists "sdk_keys" creds.sdk_keys refl,
                  Names-items (Http.get r.header Http.sdk_header) creds.sdk_keys member,
                ),
              ))
