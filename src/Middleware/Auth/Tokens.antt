-- ===== src/Middleware/Auth/Tokens.antt =====
-- Which tokens the verifiers accept.
use inspiring_vacations_agen.Common.{
  ◌≡◌, refl, ◌≢◌, ◌↔◌, ◌⊎◌, inl, inr, ap, ◌∙◌, true, some, List, [], ◌∷◌, ◌++◌, String, ◌==◌,
  eq_iff, arith, All, Bool-cases,
}
use inspiring_vacations_agen.Middleware.Auth.{
  Result, ok, err, Jwt, secrets, hmac_key, try_keys, check_token,
}

module _ (J : Jwt) where
  open J use {Token, Key, KeySet, is_hmac, valid, parse, parse_key}

  -- The token parses, its signature included, under the key, and is valid.
  pub record Accepts (token : String) (tk : Token) (key : Key) : Type 0 where
    pub parsed : parse (hmac_key J key) token ≡ ok tk
    pub is_valid : valid tk ≡ true

  abbrev pub Refuses : String → Key → Type 0
  Refuses token key = (tk : Token) → ¬ Accepts token tk key

  -- The first key under which a token is accepted.
  pub record FirstKey (keys : List Key) (token : String) (tk : Token) : Type 0 where
    pub before : List Key
    pub key : Key
    pub after : List Key
    pub split : keys ≡ before ++ key ∷ after
    pub refused : All (Refuses token) before
    pub accepted : Accepts token tk key

  Result-cases : (x : Result Token) → ((tk : Token) × (x ≡ ok tk)) ⊎ ((e : String) × (x ≡ err e))
  Result-cases (ok tk) = inl (tk, refl)
  Result-cases (err e) = inr (e, refl)

  FirstKey-cons :
      (key : Key) (keys : List Key) (token : String) (tk : Token)
      → Refuses token key
      → FirstKey keys token tk
      → FirstKey (key ∷ keys) token tk
  FirstKey-cons key keys token tk no_good f = record {
    before = key ∷ f.before;
    key = f.key;
    after = f.after;
    split = ap (◌∷◌ key) f.split;
    refused = (no_good, f.refused);
    accepted = f.accepted;
  }

  try_keys_sound :
      (keys : List Key) (token last : String) (tk : Token)
      → try_keys J keys token last ≡ ok tk
      → FirstKey keys token tk
  unfolding try_keys
  try_keys_sound [] token last tk h = absurd (cc)
  try_keys_sound (key ∷ keys) token last tk h = elim (Result-cases (parse (hmac_key J key) token)) [
    | inr (e, failed) ↦
        FirstKey-cons key keys token tk (λ t a. cc (a.parsed))
          (try_keys_sound keys token e tk (rw (failed, try_keys) at h))
    | inl (t, parsed) ↦ elim (Bool-cases (valid t)) [
      | inl good ↦
          let same : t ≡ tk = ground arith in
          record {
            before = [];
            key = key;
            after = keys;
            split = refl;
            refused = tt;
            accepted = record { parsed = rw (← same) parsed; is_valid = rw (← same) good };
          }
      | inr bad ↦
          FirstKey-cons key keys token tk (λ t' a. ground (arith, a.parsed, a.is_valid))
            (try_keys_sound keys token "invalid token" tk (ground arith))
    ]
  ]

  try_keys_skip :
      (key : Key) (keys : List Key) (token last : String)
      → Refuses token key
      → (last' : String) × (try_keys J (key ∷ keys) token last ≡ try_keys J keys token last')
  unfolding try_keys
  try_keys_skip key keys token last no_good = elim (Result-cases (parse (hmac_key J key) token)) [
    | inr (e, failed) ↦ (e, ground arith)
    | inl (t, parsed) ↦ elim (Bool-cases (valid t)) [
      | inl good ↦ absurd (no_good t (record { parsed = parsed; is_valid = good }))
      | inr bad ↦ ("invalid token", ground arith)
    ]
  ]

  try_keys_complete :
      (before after : List Key) (key : Key) (token last : String) (tk : Token)
      → All (Refuses token) before
      → Accepts token tk key
      → try_keys J (before ++ key ∷ after) token last ≡ ok tk
  unfolding try_keys
  try_keys_complete [] after key token last tk _ a = rw (a.parsed, a.is_valid)
  try_keys_complete (k ∷ before) after key token last tk (no_good, refused) a =
      let (last', same) = try_keys_skip k (before ++ key ∷ after) token last no_good in
      same ∙ try_keys_complete before after key token last' tk refused a

  hmac_of_Accepts :
      (token : String) (tk : Token) (key : Key) → Accepts token tk key → is_hmac tk ≡ true
  unfolding hmac_key
  hmac_of_Accepts token tk key a =
      let (k, picked) = parse_key (hmac_key J key) token tk a.parsed in ground arith

  secrets_sound :
      (keys : List Key) (token : String) (tk : Token)
      → check_token J (secrets keys) token ≡ ok (some tk)
      → (token ≢ "") × FirstKey keys token tk
  unfolding check_token
  secrets_sound keys token tk h = elim (Bool-cases (token == "")) [
    | inl empty ↦ absurd (ground arith)
    | inr given ↦ elim (Result-cases (try_keys J keys token "invalid token")) [
      | inr (e, failed) ↦ absurd (ground arith)
      | inl (t, found) ↦
          let same : t ≡ tk = ground arith in
          (
            ground (arith, eq_iff token ""),
            try_keys_sound keys token "invalid token" tk (rw same at found),
          )
    ]
  ]

  secrets_complete :
      (keys : List Key) (token : String) (tk : Token)
      → token ≢ ""
      → FirstKey keys token tk
      → check_token J (secrets keys) token ≡ ok (some tk)
  unfolding check_token
  secrets_complete keys token tk given f =
      let found : try_keys J keys token "invalid token" ≡ ok tk =
        rw f.split (
          try_keys_complete f.before f.after f.key token "invalid token" tk f.refused f.accepted) in
      ground (arith, eq_iff token "", found)

  -- `JWTVerifier.CheckToken` returns a token exactly when the text is not empty and some secret
  -- accepts it, every secret before that one refusing the text; and a token that it returns is
  -- signed by an HMAC method.
  pub check_token-secrets :
      (keys : List Key) (token : String) (tk : Token)
      → ((check_token J (secrets keys) token ≡ ok (some tk))
          ↔ ((token ≢ "") × FirstKey keys token tk))
        × (check_token J (secrets keys) token ≡ ok (some tk) → is_hmac tk ≡ true)
  check_token-secrets keys token tk = (
    (secrets_sound keys token tk, λ (given, f). secrets_complete keys token tk given f),
    λ h. let f = (secrets_sound keys token tk h).1 in hmac_of_Accepts token tk f.key f.accepted,
  )
