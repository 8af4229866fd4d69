-- ===== src/Middleware/Auth/Access.antt =====
-- Which requests the authorization middlewares hand on.
use inspiring_vacations_agen.Common.{
  ℕ, ◌≤◌, ◌≡◌, refl, ◌↔◌, ◌⊎◌, inl, inr, ap, Bool, true, false, Option, none, some, List, [], ◌∷◌,
  String, ◌==◌, eq_iff, arith, Bool-cases, Option-cases, leb, string_eq,
}
use inspiring_vacations_agen.Common.Dict
use inspiring_vacations_agen.Http
use inspiring_vacations_agen.Http.{Request, Reply, forward, fail, plain}
use inspiring_vacations_agen.Middleware.Auth.{
  Result, ok, err, Jwt, Verifier, no_auth, check_token, request_token, number, i64_max, is_expired,
  authorize_admin, authorize_api, check_keys, names_key, Claim, Claims, bool, string, list, end,
  item, int64, new_auth, decode_all,
}

module _ (J : Jwt) where
  open J use {Token, Key, KeySet, F, claims}

  -- For times that are not negative the check is `exp <= now`: the subtraction does not overflow.
  pub is_expired_lem :
      (tk : Token) (now : ℕ)
      → number J (Dict.lookup "exp" (claims tk)) ≤ i64_max
      → now ≤ i64_max
      → is_expired J tk now ≡ leb (number J (Dict.lookup "exp" (claims tk))) now
  unfolding is_expired
  is_expired_lem tk now h k = ground arith

  -- The SDK key is one of the texts in the list.
  abbrev pub Names : String → Claims F → Type 0
  Names key end = ⊥
  Names key (item c cs) = (c ≡ string key) ⊎ Names key cs

  names_key_iff : (cs : Claims F) (key : String) → (names_key J cs key ≡ true) ↔ Names key cs
  unfolding names_key
  names_key_iff end key = (λ h. cc, λ h. absurd h)
  names_key_iff (item (string s) cs) key =
      let (to, from) = names_key_iff cs key in
      elim (Bool-cases (s == key)) [
        | inl same ↦ (λ _. inl (ap string ((eq_iff s key).0 same)), λ _. rw same)
        | inr differs ↦ rw differs (
          λ h. inr (to h),
          elim [ inl e ↦ absurd (ground (arith, eq_iff s key)) | inr h ↦ from h ],
        )
      ]
  names_key_iff (item (int64 n) cs) key =
      let (to, from) = names_key_iff cs key in
      (λ h. inr (to h), elim [ inl e ↦ absurd (cc) | inr h ↦ from h ])
  names_key_iff (item c cs) key =
      let (to, from) = names_key_iff cs key in
      (λ h. inr (to h), elim [ inl e ↦ absurd (cc) | inr h ↦ from h ])

  -- The token was accepted and has not expired.
  pub record Current (v : Verifier J) (now : ℕ) (r : Request) (tk : Token) : Type 0 where
    pub checked : check_token J v (request_token r) ≡ ok (some tk)
    pub unexpired : is_expired J tk now ≡ false

  check-cases :
      (v : Verifier J) (r : Request)
      → (check_token J v (request_token r) ≡ ok none)
        ⊎ ((tk : Token) × (check_token J v (request_token r) ≡ ok (some tk)))
        ⊎ ((e : String) × (check_token J v (request_token r) ≡ err e))
  check-cases v r = go (check_token J v (request_token r)) refl
    where
      go :
          (x : Result (Option Token))
          → check_token J v (request_token r) ≡ x
          → (check_token J v (request_token r) ≡ ok none)
            ⊎ ((tk : Token) × (check_token J v (request_token r) ≡ ok (some tk)))
            ⊎ ((e : String) × (check_token J v (request_token r) ≡ err e))
      go (ok none) e = inl e
      go (ok (some tk)) e = inr (inl (tk, e))
      go (err m) e = inr (inr (m, e))

  admin_sound :
      (v : Verifier J) (now : ℕ) (r : Request)
      → authorize_admin J v now r ≡ forward r
      → (check_token J v (request_token r) ≡ ok none)
        ⊎ ((tk : Token) × Current v now r tk × (Dict.lookup "admin" (claims tk) ≡ some (bool true)))
  unfolding authorize_admin
  admin_sound v now r h = elim (check-cases v r) [
    | inl none_set ↦ inl none_set
    | inr (inl (tk, good)) ↦ elim (Bool-cases (is_expired J tk now)) [
      | inl late ↦ absurd (ground arith)
      | inr fresh ↦ inr (tk, record { checked = good; unexpired = fresh }, ground arith)
    ]
    | inr (inr (e, bad)) ↦ absurd (ground arith)
  ]

  admin_complete :
      (v : Verifier J) (now : ℕ) (r : Request)
      → (check_token J v (request_token r) ≡ ok none)
        ⊎ ((tk : Token) × Current v now r tk × (Dict.lookup "admin" (claims tk) ≡ some (bool true)))
      → authorize_admin J v now r ≡ forward r
  unfolding authorize_admin
  admin_complete v now r (inl none_set) = ground arith
  admin_complete v now r (inr (tk, c, admin)) = ground (arith, c.checked, c.unexpired, admin)

  -- `AuthorizeAdmin` hands a request on, unchanged, exactly when the verifier is `NoAuth`'s answer
  -- (no token and no error) or the request's token is accepted, has not expired and claims the
  -- Boolean true for "admin".
  pub authorize_admin_iff :
      (v : Verifier J) (now : ℕ) (r : Request)
      → (authorize_admin J v now r ≡ forward r) ↔ (
          (check_token J v (request_token r) ≡ ok none)
          ⊎ ((tk : Token) × Current v now r tk
              × (Dict.lookup "admin" (claims tk) ≡ some (bool true))))
  authorize_admin_iff v now r = (admin_sound v now r, admin_complete v now r)

  -- The claim "sdk_keys" is a list in which the SDK key of the request's header stands.
  abbrev pub GrantsKey : Token → Request → Type 0
  GrantsKey tk r =
      (cs : Claims F) × (Dict.lookup "sdk_keys" (claims tk) ≡ some (list cs))
      × Names (Http.get r.header Http.sdk_header) cs

  check_keys_sound :
      (c : Option (Claim F)) (r : Request)
      → check_keys J c r ≡ forward r
      → (cs : Claims F) × (c ≡ some (list cs)) × Names (Http.get r.header Http.sdk_header) cs
  unfolding check_keys
  check_keys_sound (some (list cs)) r h =
      (cs, refl, (names_key_iff cs (Http.get r.header Http.sdk_header)).0 (ground arith))
  check_keys_sound _ r h = absurd (cc)

  api_sound :
      (v : Verifier J) (now : ℕ) (r : Request)
      → authorize_api J v now r ≡ forward r
      → (check_token J v (request_token r) ≡ ok none)
        ⊎ ((tk : Token) × Current v now r tk × GrantsKey tk r)
  unfolding authorize_api
  api_sound v now r h = elim (check-cases v r) [
    | inl none_set ↦ inl none_set
    | inr (inl (tk, good)) ↦ elim (Bool-cases (is_expired J tk now)) [
      | inl late ↦ absurd (ground arith)
      | inr fresh ↦ inr (
        tk,
        record { checked = good; unexpired = fresh },
        check_keys_sound (Dict.lookup "sdk_keys" (claims tk)) r (ground arith),
      )
    ]
    | inr (inr (e, bad)) ↦ absurd (ground arith)
  ]

  api_complete :
      (v : Verifier J) (now : ℕ) (r : Request)
      → (check_token J v (request_token r) ≡ ok none)
        ⊎ ((tk : Token) × Current v now r tk × GrantsKey tk r)
      → authorize_api J v now r ≡ forward r
  unfolding authorize_api check_keys
  api_complete v now r (inl none_set) = ground arith
  api_complete v now r (inr (tk, c, (cs, listed, named))) =
      let found = (names_key_iff cs (Http.get r.header Http.sdk_header)).1 named in
      ground (arith, c.checked, c.unexpired, listed, found)

  -- `AuthorizeAPI` hands a request on, unchanged, exactly when the verifier answers with no token
  -- and no error, or the request's token is accepted, has not expired and claims a list
  -- "sdk_keys" in which the SDK key of the request's header stands as a text.
  pub authorize_api_iff :
      (v : Verifier J) (now : ℕ) (r : Request)
      → (authorize_api J v now r ≡ forward r) ↔ (
          (check_token J v (request_token r) ≡ ok none)
          ⊎ ((tk : Token) × Current v now r tk × GrantsKey tk r))
  authorize_api_iff v now r = (api_sound v now r, api_complete v now r)

  -- `NewAuth` gives the verifier that accepts every request exactly when neither a JWKS URL nor a
  -- secret is configured, whatever the update interval and the first fetch of the keys.
  pub new_auth-no_auth_iff :
      (url : String) (interval_set : Bool) (fetched : Option KeySet) (hmac : List String)
      → (new_auth J url interval_set fetched hmac ≡ some no_auth) ↔ ((url ≡ "") × (hmac ≡ []))
  unfolding new_auth
  new_auth-no_auth_iff url interval_set fetched [] = ground (arith, eq_iff url "")
  new_auth-no_auth_iff url interval_set fetched (s ∷ ss) =
      elim (Option-cases (decode_all J (s ∷ ss))) [
        | inl bad ↦ (λ h. absurd (ground arith), λ (_, h). absurd (cc))
        | inr (ks, good) ↦ (λ h. absurd (ground arith), λ (_, h). absurd (cc))
      ]
