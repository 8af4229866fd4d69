-- ===== src/Handlers/OAuth/Tests.antt =====
-- A client gets a token and uses it, over a stand-in for the JWT library that signs one token.
use inspiring_vacations_agen.Common.{
  ℕ, ◌≡◌, ◌≢◌, refl, ap, sym, ◌∙◌, ◌↔◌, inl, inr, true, Option, none, some, List, [], ◌∷◌, ◌++◌,
  String, ◌==◌, eq_iff, eqb, eqb_iff, if◌then◌else◌, string_eq, arith, chars, of_chars,
  chars-of_chars, Char, is_space, Bool-cases,
}
use inspiring_vacations_agen.Common.Dict
use inspiring_vacations_agen.Common.Dict.{Dict}
use inspiring_vacations_agen.Http
use inspiring_vacations_agen.Http.{Request, forward}
use inspiring_vacations_agen.Middleware.Auth.Header.{HasNoSpace}
use inspiring_vacations_agen.Middleware.Auth.{
  Result, ok, err, Jwt, secrets, hmac_key, authorize_api, number, new_auth, decode_all, Claim, list,
  string, int64, item, end,
}
use inspiring_vacations_agen.JwtAuth.{Signer, items, build_api_access_token, validate_client_secret}
use inspiring_vacations_agen.Handlers.OAuth.{
  ClientConf, verified, TokenRequest, ClientCredentials, OAuthHandler, build_credentials,
  signing_secret, new_oauth_handler, verify_client_credentials, create_api_access_token,
}
use inspiring_vacations_agen.Handlers.OAuth.Credentials.{
  Presented, verify_client_credentials_iff, usable, last_usable,
}
use inspiring_vacations_agen.Handlers.OAuth.Issued.{SignsFaithfully, issued-authorized}

program : Unit {0}
unfolding is_space hmac_key new_auth decode_all build_api_access_token validate_client_secret
    build_credentials signing_secret new_oauth_handler verify_client_credentials
    create_api_access_token usable last_usable Dict.lookup Dict.insert Http.get
program = tt

abbrev SampleClaims : Type 0
SampleClaims = Dict String (Claim ℕ)

abbrev signed_claims : SampleClaims
signed_claims =
    ("iss", string "Optimizely")
    ∷ ("sdk_keys", list (item (string "key1") end))
    ∷ ("exp", int64 500)
    ∷ []

abbrev picked : Result ℕ → Result SampleClaims
picked (ok k) = if eqb k 7 then ok signed_claims else err "signature is invalid"
picked (err e) = err e

abbrev parse : (SampleClaims → Result ℕ) → String → Result SampleClaims
parse pick s = if s == "yes" then picked (pick signed_claims) else err "malformed"

parse_key :
    (pick : SampleClaims → Result ℕ) (s : String) (tk : SampleClaims)
    → parse pick s ≡ ok tk
    → (k : ℕ) × (pick tk ≡ ok k)
parse_key pick s tk h = go (pick signed_claims) refl
  where
    go : (x : Result ℕ) → pick signed_claims ≡ x → (k : ℕ) × (pick tk ≡ ok k)
    go (ok k) e = (k, ground (arith, e))
    go (err m) e = absurd (ground (arith, e))

abbrev sample : Jwt
sample = record {
  Token = SampleClaims;
  Key = ℕ;
  KeySet = ℕ;
  F = ℕ;
  to_int64 = λ x. x;
  is_hmac = λ _. true;
  kid = λ _. none;
  valid = λ _. true;
  claims = λ tk. tk;
  parse = parse;
  parse_key = parse_key;
  lookup_key = λ _ _. none;
  decode_secret = λ _. ok 7;
}

same_text : (s t : String) → Option (s ≡ t)
same_text s t = elim (Bool-cases (s == t)) [ inl e ↦ some ((eq_iff s t).0 e) | inr _ ↦ none ]

same_number : (m n : ℕ) → Option (m ≡ n)
same_number m n = elim (Bool-cases (eqb m n)) [ inl e ↦ some ((eqb_iff m n).0 e) | inr _ ↦ none ]

infixl 5 ◌>>=◌
abbrev ◌>>=◌ : {A B : Type 0} → Option A → (A → Option B) → Option B
none >>= f = none
some a >>= f = f a

-- Whether the claims are those of the one token.
recognise : (cs : SampleClaims) → Option (cs ≡ signed_claims)
unfolding same_text same_number
recognise ((a, string b) ∷ (c, list (item (string d) end)) ∷ (e, int64 n) ∷ []) = do
  a' ← same_text a "iss"
  b' ← same_text b "Optimizely"
  c' ← same_text c "sdk_keys"
  d' ← same_text d "key1"
  e' ← same_text e "exp"
  n' ← same_number n 500
  some (cc)
recognise _ = none

abbrev sign : SampleClaims → ℕ → Result String
sign cs key = elim (recognise cs) [
  | none ↦ err "not this one"
  | some _ ↦ if eqb key 7 then ok "yes" else err "not this key"
]

abbrev signer : Signer sample
signer = record { sign = sign; compare_hash = λ _ _. true }

faithful : SignsFaithfully sample signer 450
unfolding program
faithful = record {
  parses =
      λ cs key s n signed expires early small. parses cs key s n (recognise cs) refl signed expires;
  text = λ cs key s signed. text cs key s (recognise cs) refl signed;
}
  where
    parses :
        (cs : SampleClaims) (key : ℕ) (s : String) (n : ℕ)
        → (x : Option (cs ≡ signed_claims)) → recognise cs ≡ x
        → sign cs key ≡ ok s
        → Dict.lookup "exp" cs ≡ some (int64 n)
        → (tk : SampleClaims) × (parse (hmac_key sample key) s ≡ ok tk)
          × (true ≡ true)
          × (true ≡ true)
          × (number sample (Dict.lookup "exp" tk) ≡ n)
          × ((name : String) (ss : List String)
              → Dict.lookup name cs ≡ some (list (items sample ss))
              → Dict.lookup name tk ≡ some (list (items sample ss)))
    parses cs key s n none e signed expires = absurd (ground (arith, e))
    parses cs key s n (some same) e signed expires =
        let key_is : eqb key 7 ≡ true = ground (arith, e) in
        let text_is : s ≡ "yes" = ground (arith, e) in
        (
          signed_claims,
          rw text_is (ground (arith, key_is)),
          refl,
          refl,
          ap (number sample) (ap (Dict.lookup "exp") (sym same) ∙ expires),
          λ name ss found. ap (Dict.lookup name) (sym same) ∙ found,
        )

    text :
        (cs : SampleClaims) (key : ℕ) (s : String)
        → (x : Option (cs ≡ signed_claims)) → recognise cs ≡ x
        → sign cs key ≡ ok s
        → (s ≢ "") × ((ds : List Char) × (s ≡ of_chars ds) × HasNoSpace ds)
    text cs key s none e signed = absurd (ground (arith, e))
    text cs key s (some same) e signed =
        let text_is : s ≡ "yes" = ground (arith, e) in
        (
          λ empty. absurd (ground (arith, eq_iff "yes" "", sym text_is ∙ empty)),
          (chars "yes", text_is, (refl, (refl, (refl, tt)))),
        )

abbrev client : ClientConf
client = record { id = "c1"; secret_hash = "aGFzaA=="; sdk_keys = "key1" ∷ [] }

abbrev credentials : ClientCredentials sample
credentials = record { id = "c1"; ttl = 100; secret_hash = 7; sdk_keys = "key1" ∷ [] }

abbrev handler : OAuthHandler sample
handler = record { client_credentials = ("c1", credentials) ∷ []; hmac_secret = some 7 }

abbrev asking : TokenRequest
asking = record {
  is_form = true;
  form_error = none;
  post_form =
      ("grant_type", "client_credentials" ∷ [])
      ∷ ("client_id", "c1" ∷ [])
      ∷ ("client_secret", "c2VjcmV0" ∷ [])
      ∷ [];
}

abbrev using : Request
using = record {
  method = "GET";
  path = "/v1/config";
  host = "localhost";
  header = ("Authorization", "Bearer yes" ∷ []) ∷ (Http.sdk_header, "key1" ∷ []) ∷ [];
  form = [];
}

bearer_sent :
    (cs : List Char)
    → "yes" ≡ of_chars cs
    → Dict.lookup "Authorization" using.header ≡ some (of_chars (chars "Bearer " ++ cs) ∷ [])
unfolding program
bearer_sent cs e =
    let same : chars "yes" ≡ cs = ap chars e ∙ chars-of_chars cs in
    ap (λ ds. some (of_chars (chars "Bearer " ++ ds) ∷ [])) same

issued-authorized_example : authorize_api sample (secrets (7 ∷ [])) 450 using ≡ forward using
unfolding program recognise Bool-cases
issued-authorized_example =
    issued-authorized sample signer (eqb 0) 0 100 (client ∷ []) ("c2VjcmV0" ∷ []) true none
      (secrets (7 ∷ [])) handler refl refl 400 450 asking credentials "yes" 100 using [] faithful
      refl refl (omega arith) (omega arith) bearer_sent (inl refl)

verify_client_credentials_iff_example :
    (verify_client_credentials sample signer handler asking ≡ verified credentials)
    ↔ Presented sample signer handler asking credentials
verify_client_credentials_iff_example =
    verify_client_credentials_iff sample signer handler asking credentials
