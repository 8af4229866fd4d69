-- ===== src/Middleware/Auth/Tests.antt =====
-- The authorization middlewares over a small stand-in for the token library.
use inspiring_vacations_agen.Common.{
  ℕ, ◌≡◌, refl, ◌↔◌, ◌⊎◌, true, none, some, [], ◌∷◌, String, ◌==◌, eqb, arith, if◌then◌else◌,
  trim_left, trim_right, trim, trim_space, is_space, string_eq,
}
use inspiring_vacations_agen.Common.Dict
use inspiring_vacations_agen.Common.Dict.{Dict}
use inspiring_vacations_agen.Http
use inspiring_vacations_agen.Http.{Request, forward, fail, plain}
use inspiring_vacations_agen.Middleware.Auth.{
  Result, ok, err, Jwt, secrets, Claim, int64, bool, string, list, end, item, strip, strip_prefixes,
  request_token, hmac_key, try_keys, check_token, is_expired, authorize_admin, authorize_api,
  check_keys, names_key,
}
use inspiring_vacations_agen.Middleware.Auth.Access.{
  Current, GrantsKey, authorize_admin_iff, authorize_api_iff,
}

program : Unit {0}
unfolding strip strip_prefixes request_token hmac_key try_keys check_token is_expired
    authorize_admin authorize_api check_keys names_key trim_left trim_right trim trim_space is_space
    Dict.lookup Http.get
program = tt

-- A token is its claims; the text "yes" is the one token, signed under the key 7.
abbrev issued : Dict String (Claim ℕ)
issued =
    ("exp", int64 500)
    ∷ ("admin", bool true)
    ∷ ("sdk_keys", list (item (int64 1) (item (string "key1") end)))
    ∷ []

abbrev SampleToken : Type 0
SampleToken = Dict String (Claim ℕ)

abbrev signed : Result ℕ → Result SampleToken
signed (ok k) = if eqb k 7 then ok issued else err "signature is invalid"
signed (err e) = err e

abbrev parse : (SampleToken → Result ℕ) → String → Result SampleToken
parse pick s =
    if s == "yes" then signed (pick issued) else err "token contains an invalid number of segments"

parse_key :
    (pick : SampleToken → Result ℕ) (s : String) (tk : SampleToken)
    → parse pick s ≡ ok tk
    → (k : ℕ) × (pick tk ≡ ok k)
parse_key pick s tk h = go (pick issued) refl
  where
    go : (x : Result ℕ) → pick issued ≡ x → (k : ℕ) × (pick tk ≡ ok k)
    go (ok k) e = (k, ground (arith, e))
    go (err m) e = absurd (ground (arith, e))

abbrev sample : Jwt
sample = record {
  Token = SampleToken;
  Key = ℕ;
  KeySet = ℕ;
  F = ℕ;
  to_int64 = λ x. x;
  is_hmac = λ _. true;
  kid = λ _. none;
  valid = λ _. true;
  claims = λ tk. tk;
  parse = parse;
  parse_key = parse_key;
  lookup_key = λ _ _. none;
  decode_secret = λ _. ok 7;
}

abbrev keyed : String → Request
keyed value = record {
  method = "GET";
  path = "/v1/config";
  host = "localhost";
  header = ("Authorization", value ∷ []) ∷ (Http.sdk_header, "key1" ∷ []) ∷ [];
  form = [];
}

admits :
    authorize_api sample (secrets (3 ∷ 7 ∷ [])) 400 (keyed "Bearer yes")
    ≡ forward (keyed "Bearer yes")
unfolding program
admits = refl

expires :
    authorize_admin sample (secrets (7 ∷ [])) 500 (keyed "Bearer yes") ≡ fail 401 "token expired"
unfolding program
expires = refl

-- The prefix "JWT" stays in the token, which is then refused.
refuses_jwt :
    authorize_admin sample (secrets (7 ∷ [])) 400 (keyed "JWT yes")
    ≡ fail 401 "token contains an invalid number of segments"
unfolding program
refuses_jwt = refl

authorize_admin_iff_example :
    (authorize_admin sample (secrets (7 ∷ [])) 400 (keyed "Bearer yes")
      ≡ forward (keyed "Bearer yes"))
    ↔ ((check_token sample (secrets (7 ∷ [])) (request_token (keyed "Bearer yes")) ≡ ok none)
        ⊎ ((tk : SampleToken) × Current sample (secrets (7 ∷ [])) 400 (keyed "Bearer yes") tk
            × (Dict.lookup "admin" tk ≡ some (bool true))))
authorize_admin_iff_example = authorize_admin_iff sample (secrets (7 ∷ [])) 400 (keyed "Bearer yes")

authorize_api_iff_example :
    (authorize_api sample (secrets (7 ∷ [])) 400 (keyed "Bearer yes")
      ≡ forward (keyed "Bearer yes"))
    ↔ ((check_token sample (secrets (7 ∷ [])) (request_token (keyed "Bearer yes")) ≡ ok none)
        ⊎ ((tk : SampleToken) × Current sample (secrets (7 ∷ [])) 400 (keyed "Bearer yes") tk
            × GrantsKey sample tk (keyed "Bearer yes")))
authorize_api_iff_example = authorize_api_iff sample (secrets (7 ∷ [])) 400 (keyed "Bearer yes")
