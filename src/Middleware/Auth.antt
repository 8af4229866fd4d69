-- ===== src/Middleware/Auth.antt =====
-- pkg/middleware/auth.go: which tokens are accepted, and which requests are handed on.
pub mod Header
pub mod Tokens
pub mod Access
mod Tests
use Prim.Native.String.{◌++◌}
use mathlib.Core.List.{foldl}
use inspiring_vacations_agen.Common.{
  ℕ, ◌+◌, ◌-◌, ◌%◌, ◌≡◌, Bool, true, false, not, ◌&&◌, ◌||◌, Option, none, some, List, [], ◌∷◌,
  String, Char, ◌==◌, eqb, leb, if◌then◌else◌, chars, of_chars, in_set, trim_left, trim_space,
  string_eq,
}
use inspiring_vacations_agen.Common.Dict
use inspiring_vacations_agen.Common.Dict.{Dict}
use inspiring_vacations_agen.Http
use inspiring_vacations_agen.Http.{Request, Reply, forward, fail, plain, first_or}

-- A value or the text of an error.
pub data Result {ℓ} (A : Type ℓ) : Type ℓ where
  ok : A → Result A
  err : String → Result A

-- An `int64` is its bit pattern, a number below 2 ^ 64.
abbrev pub u64 : ℕ
u64 = 0x10000000000000000

abbrev pub i64_max : ℕ
i64_max = 0x7fffffffffffffff

-- What JSON decodes a claim to. `F` is `float64`.
mutual
  pub data Claim (F : Type 0) : Type 0 where
    int64 : ℕ → Claim F
    float64 : F → Claim F
    bool : Bool → Claim F
    string : String → Claim F
    list : Claims F → Claim F
    other : Claim F

  pub data Claims (F : Type 0) : Type 0 where
    end : Claims F
    item : Claim F → Claims F → Claims F

-- golang-jwt, jwx and encoding/base64 as far as the middleware calls them.
pub record Jwt : Type 1 where
  pub Token : Type 0
  pub Key : Type 0
  pub KeySet : Type 0
  pub F : Type 0
  -- The conversion of a `float64` to an `int64`, as a bit pattern.
  pub to_int64 : F → ℕ
  -- `token.Method.(*jwt.SigningMethodHMAC)` succeeds.
  pub is_hmac : Token → Bool
  -- `token.Header["kid"].(string)`.
  pub kid : Token → Option String
  pub valid : Token → Bool
  pub claims : Token → Dict String (Claim F)
  -- `jwt.Parse`, with the function that picks the key.
  pub parse : (Token → Result Key) → String → Result Token
  -- A token that `Parse` accepts has a key: the function was called on it and gave one.
  pub parse_key :
      (pick : Token → Result Key) (s : String) (tk : Token)
      → parse pick s ≡ ok tk
      → (k : Key) × (pick tk ≡ ok k)
  -- `set.LookupKeyID` and `key.Raw`: `none` where the id is unknown.
  pub lookup_key : KeySet → String → Option (Result Key)
  pub decode_secret : String → Result Key

-- `strings.TrimSpace(strings.TrimLeft(value, key))`
unfoldable pub strip : String → String → String
strip value key = of_chars (trim_space (trim_left (in_set (chars key)) (chars value)))

-- The loop over the prefixes: each round sets the token anew.
unfoldable pub strip_prefixes : List String → String → String → String
strip_prefixes keys value token = foldl (λ _ key. strip value key) token keys

abbrev pub from_authorization : Option (List String) → String → String
from_authorization (some (value ∷ _)) token = strip_prefixes ("JWT" ∷ "Bearer" ∷ []) value token
from_authorization _ token = token

-- The token of a request: a later header wins over an earlier one.
unfoldable pub request_token : Request → String
request_token r =
    let token = first_or (Dict.lookup "Auth" r.header) "" in
    let token' = first_or (Dict.lookup "Jwt" r.header) token in
    from_authorization (Dict.lookup "Authorization" r.header) token'

module _ (J : Jwt) where
  open J use {
    Token, Key, KeySet, F, to_int64, is_hmac, kid, valid, claims, parse, lookup_key, decode_secret,
  }

  -- `NoAuth`, `JWTVerifier` and `JWTVerifierURL` with its key set, if there is one.
  pub data Verifier : Type 0 where
    no_auth : Verifier
    secrets : List Key → Verifier
    key_set : Option KeySet → Verifier

  -- The key function of `JWTVerifier.CheckToken`.
  unfoldable pub hmac_key : Key → Token → Result Key
  hmac_key key tk = if is_hmac tk then ok key else err "unexpected signing method"

  -- The loop over the secrets, with the error seen last.
  unfoldable pub try_keys : List Key → String → String → Result Token
  try_keys [] token last = err last
  try_keys (key ∷ keys) token last = elim (parse (hmac_key key) token) [
    | err e ↦ try_keys keys token e
    | ok tk ↦ elim (valid tk) [ true ↦ ok tk | false ↦ try_keys keys token "invalid token" ]
  ]

  -- The key function of `JWTVerifierURL.CheckToken`; the text of the last error also quotes the id.
  unfoldable pub set_key : Option KeySet → Token → Result Key
  set_key none tk = err "unable to update key set"
  set_key (some set) tk = elim (kid tk) [
    | none ↦ err "expecting JWT header to have string kid"
    | some id ↦ elim (lookup_key set id) [ none ↦ err "unable to find key" | some raw ↦ raw ]
  ]

  unfoldable pub check_url : Option KeySet → String → Result Token
  check_url set token = elim (parse (set_key set) token) [
    | err e ↦ err e
    | ok tk ↦ if valid tk then ok tk else err "invalid token"
  ]

  -- `CheckToken` of each verifier; `NoAuth` gives no token and no error.
  unfoldable pub check_token : Verifier → String → Result (Option Token)
  check_token no_auth token = ok none
  check_token (secrets keys) token =
      if token == ""
      then err "empty token"
      else elim (try_keys keys token "invalid token") [ err e ↦ err e | ok tk ↦ ok (some tk) ]
  check_token (key_set set) token =
      if token == ""
      then err "empty token"
      else elim (check_url set token) [ err e ↦ err e | ok tk ↦ ok (some tk) ]

  -- `getNumberFromJSON`
  abbrev pub number : Option (Claim F) → ℕ
  number (some (int64 v)) = v
  number (some (float64 x)) = to_int64 x
  number _ = 0

  -- `(exp - now) <= 0` on `int64`.
  unfoldable pub is_expired : Token → ℕ → Bool
  is_expired tk now =
      let left = (number (Dict.lookup "exp" (claims tk)) + u64 - now) % u64 in
      eqb left 0 || not (leb left i64_max)

  abbrev pub is_admin : Option (Claim F) → Bool
  is_admin (some (bool b)) = b
  is_admin _ = false

  -- `AuthorizeAdmin`
  unfoldable pub authorize_admin : Verifier → ℕ → Request → Reply Request
  authorize_admin v now r = elim (check_token v (request_token r)) [
    | err e ↦ fail 401 e
    | ok none ↦ forward r
    | ok (some tk) ↦
        if is_expired tk now
        then fail 401 "token expired"
        else if is_admin (Dict.lookup "admin" (claims tk))
        then forward r
        else fail 401 "admin flag not set"
  ]

  -- The loop over the claimed SDK keys: one that is no text is skipped.
  unfoldable pub names_key : Claims F → String → Bool
  names_key end sdk_key = false
  names_key (item (string s) cs) sdk_key = s == sdk_key || names_key cs sdk_key
  names_key (item c cs) sdk_key = names_key cs sdk_key

  abbrev pub missing_keys : String
  missing_keys = "invalid claims: sdk_keys not found, or have the wrong type"

  abbrev pub unknown_key : String
  unknown_key =
      "SDK key given in X-Optimizely-Sdk-Key header was not found in the SDK keys in this token's claims"

  unfoldable pub check_keys : Option (Claim F) → Request → Reply Request
  check_keys (some (list cs)) r =
      if names_key cs (Http.get r.header Http.sdk_header) then forward r else fail 401 unknown_key
  check_keys _ r = fail 401 missing_keys

  -- The body of the answer to a token that is refused, as it is written in the code.
  abbrev pub unauthorized : String → String
  unauthorized e = "{\"error\": \"unauthorized, \"reason\": \"" ++ (e ++ "\"}")

  -- `AuthorizeAPI`
  unfoldable pub authorize_api : Verifier → ℕ → Request → Reply Request
  authorize_api v now r = elim (check_token v (request_token r)) [
    | err e ↦ plain 401 (unauthorized e)
    | ok none ↦ forward r
    | ok (some tk) ↦
        if is_expired tk now
        then fail 401 "token expired"
        else check_keys (Dict.lookup "sdk_keys" (claims tk)) r
  ]

  -- The loop of `NewAuth` that decodes the secrets.
  unfoldable pub decode_all : List String → Option (List Key)
  decode_all [] = some []
  decode_all (s ∷ ss) = elim (decode_secret s) [
    | err e ↦ none
    | ok k ↦ elim (decode_all ss) [ none ↦ none | some ks ↦ some (k ∷ ks) ]
  ]

  -- `NewAuth`, with whether the update interval is positive, and what the first fetch of the key
  -- set gave; `none` is the nil result.
  unfoldable pub new_auth : String → Bool → Option KeySet → List String → Option Verifier
  new_auth jwks_url interval_set fetched hmac_secrets =
      if jwks_url == ""
      then elim hmac_secrets [
        | [] ↦ some no_auth
        | s ∷ ss ↦ elim (decode_all (s ∷ ss)) [ none ↦ none | some ks ↦ some (secrets ks) ]
      ]
      else if interval_set
      then elim fetched [ none ↦ none | some set ↦ some (key_set (some set)) ]
      else none

  -- `updateKeySet`: a fetch that fails leaves the keys as they are.
  unfoldable pub update_key_set : Option KeySet → Option KeySet → Option KeySet
  update_key_set held none = held
  update_key_set held (some set) = some set
