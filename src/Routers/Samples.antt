-- ===== src/Routers/Samples.antt =====
-- Tokens for the tests of the routers.
use inspiring_vacations_agen.Common.{ℕ, ◌≡◌, refl, true, none, [], ◌∷◌, String, arith}
use inspiring_vacations_agen.Middleware.Auth
use inspiring_vacations_agen.Middleware.Auth.{Jwt, Claim, int64, bool, list, item, string, end}

-- Every text is a token, signed under each key, for the SDK key "key1" and of an administrator.
abbrev pub pick_token : (Unit {0} → Auth.Result ℕ) → String → Auth.Result (Unit {0})
pick_token pick s = elim (pick tt) [ Auth.ok _ ↦ Auth.ok tt | Auth.err e ↦ Auth.err e ]

pub pick_token-key :
    (pick : Unit {0} → Auth.Result ℕ) (s : String) (tk : Unit {0})
    → pick_token pick s ≡ Auth.ok tk
    → (k : ℕ) × (pick tk ≡ Auth.ok k)
pick_token-key pick s tk h = go (pick tt) refl
  where
    go : (x : Auth.Result ℕ) → pick tt ≡ x → (k : ℕ) × (pick tk ≡ Auth.ok k)
    go (Auth.ok k) e = (k, e)
    go (Auth.err m) e = absurd (ground (arith, e, h))

abbrev pub jwt : Jwt
jwt = record {
  Token = Unit;
  Key = ℕ;
  KeySet = ℕ;
  F = ℕ;
  to_int64 = λ x. x;
  is_hmac = λ _. true;
  kid = λ _. none;
  valid = λ _. true;
  claims = λ _.
      ("admin", bool true)
      ∷ ("exp", int64 500)
      ∷ ("sdk_keys", list (item (string "key1") end))
      ∷ [];
  parse = pick_token;
  parse_key = pick_token-key;
  lookup_key = λ _ _. none;
  decode_secret = λ _. Auth.ok 7;
}
