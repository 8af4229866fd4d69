-- ===== src/JwtAuth.antt =====
-- pkg/jwtauth/jwtauth.go: the tokens that the agent issues, and the check of a client's secret.
use inspiring_vacations_agen.Common.{ℕ, ◌+◌, Bool, true, false, List, [], ◌∷◌, String}
use inspiring_vacations_agen.Common.Dict.{Dict}
use Prim.Native.String.{◌++◌}
use inspiring_vacations_agen.Middleware.Auth.{
  Result, ok, err, Jwt, Claim, Claims, int64, bool, string, list, end, item,
}

module _ (J : Jwt) where
  open J use {Key, F, decode_secret}

  -- `jwt.NewWithClaims` and `SignedString` with HS256, and bcrypt.
  pub record Signer : Type 0 where
    pub sign : Dict String (Claim F) → Key → Result String
    pub compare_hash : Key → Key → Bool

  abbrev pub items : List String → Claims F
  items [] = end
  items (s ∷ ss) = item (string s) (items ss)

  -- The claims of a token that expires at the time given.
  abbrev pub api_claims : List String → ℕ → Dict String (Claim F)
  api_claims sdk_keys expires =
      ("iss", string "Optimizely")
      ∷ ("sdk_keys", list (items sdk_keys))
      ∷ ("exp", int64 expires)
      ∷ []

  abbrev pub admin_claims : ℕ → Dict String (Claim F)
  admin_claims expires =
      ("iss", string "Optimizely") ∷ ("exp", int64 expires) ∷ ("admin", bool true) ∷ []

  module _ (S : Signer) where
    open S use {sign, compare_hash}

    -- `BuildAPIAccessToken`, in seconds.
    unfoldable pub build_api_access_token : ℕ → List String → ℕ → Key → Result String
    build_api_access_token now sdk_keys ttl key =
        elim (sign (api_claims sdk_keys (now + ttl)) key) [
          | err e ↦ err ("error building API access token: " ++ e)
          | ok s ↦ ok s
        ]

    -- `BuildAdminAccessToken`
    unfoldable pub build_admin_access_token : ℕ → ℕ → Key → Result String
    build_admin_access_token now ttl key = elim (sign (admin_claims (now + ttl)) key) [
      | err e ↦ err ("error building Admin access token: " ++ e)
      | ok s ↦ ok s
    ]

    -- `ValidateClientSecret`: whether the secret is valid; with an error it is not.
    unfoldable pub validate_client_secret : String → Key → Bool
    validate_client_secret req_secret config_secret_hash = elim (decode_secret req_secret) [
      | err e ↦ false
      | ok secret ↦ compare_hash config_secret_hash secret
    ]
