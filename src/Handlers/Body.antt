-- ===== src/Handlers/Body.antt =====
-- pkg/handlers/utils.go and pkg/middleware/utils.go: the request's body and client, and what a
-- handler answers.
use inspiring_vacations_agen.Common.{
  ℕ, ◌≡◌, refl, ◌⊎◌, inl, inr, Option, none, some, String, ◌==◌, if◌then◌else◌,
}

-- A handler renders JSON, an error with its status (`RenderError`), or a bare status, or panics.
pub data Answer {ℓ} (A : Type ℓ) : Type ℓ where
  json : A → Answer A
  fail : ℕ → String → Answer A
  status : ℕ → Answer A
  panic : Answer A

-- What a body is parsed to, or the text of the error.
pub data Parsed {ℓ} (B : Type ℓ) : Type ℓ where
  parsed : B → Parsed B
  refused : String → Parsed B

pub Parsed-cases {ℓ} :
    {B : Type ℓ} (x : Parsed B) → ((b : B) × (x ≡ parsed b)) ⊎ ((e : String) × (x ≡ refused e))
Parsed-cases (parsed b) = inl (b, refl)
Parsed-cases (refused e) = inr (e, refl)

-- `ParseRequestBody`: the body is `none` where reading it fails, and an empty body leaves the value
-- as it is. The function is `json.Unmarshal`.
unfoldable pub parse_request_body {ℓ} :
    {B : Type ℓ} → (String → Option B) → B → Option String → Parsed B
parse_request_body unmarshal zero none = refused "error reading request body"
parse_request_body unmarshal zero (some body) =
    if body == ""
    then parsed zero
    else elim (unmarshal body) [ none ↦ refused "error parsing request body" | some b ↦ parsed b ]

-- The text of `GetOptlyClient`'s error: the context holds no client.
abbrev pub no_client : String
no_client = "optlyClient not available"
