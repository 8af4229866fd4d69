-- ===== src/Middleware/Auth/Header.antt =====
-- Which part of an Authorization header becomes the token.
use inspiring_vacations_agen.Common.{
  ◌≡◌, refl, Bool, false, some, List, [], ◌∷◌, ◌++◌, String, Char, arith, chars, of_chars,
  chars-of_chars, trim_left, trim_right, trim_space, trim, is_space, All, string_eq,
}
use inspiring_vacations_agen.Common.Dict
use inspiring_vacations_agen.Http.{Request}
use inspiring_vacations_agen.Middleware.Auth.{strip, strip_prefixes, request_token}

module _ (p : Char → Bool) where
  trim_left_none : (cs : List Char) → All (λ c. p c ≡ false) cs → trim_left p cs ≡ cs
  unfolding trim_left
  trim_left_none [] h = refl
  trim_left_none (c ∷ cs) h = rw h.0

  trim_right_none : (cs : List Char) → All (λ c. p c ≡ false) cs → trim_right p cs ≡ cs
  unfolding trim_right
  trim_right_none [] h = refl
  trim_right_none (c ∷ cs) h = ground (arith, trim_right_none cs h.1, h.0)

abbrev pub HasNoSpace : List Char → Type 0
HasNoSpace cs = All (λ c. is_space c ≡ false) cs

strip_bearer :
    (cs : List Char)
    → HasNoSpace cs
    → strip (of_chars (chars "Bearer " ++ cs)) "Bearer" ≡ of_chars cs
unfolding strip trim_space trim trim_left
strip_bearer cs h =
    simp (chars-of_chars cs, trim_left_none is_space cs h, trim_right_none is_space cs h)

strip_jwt :
    (c : Char) (cs : List Char)
    → HasNoSpace (c ∷ cs)
    → strip (of_chars (chars "JWT " ++ c ∷ cs)) "Bearer" ≡ of_chars (chars "JWT " ++ c ∷ cs)
unfolding strip trim_space trim trim_left trim_right
strip_jwt c cs h = simp (chars-of_chars cs, trim_right_none is_space cs h.1) (ground (arith, h.0))

module _ (r : Request) (rest : List String) where
  -- A request whose first Authorization header is "Bearer " and a text without spaces has that
  -- text for its token, whatever other headers it has.
  pub request_token-bearer :
      (cs : List Char)
      → Dict.lookup "Authorization" r.header ≡ some (of_chars (chars "Bearer " ++ cs) ∷ rest)
      → HasNoSpace cs
      → request_token r ≡ of_chars cs
  unfolding request_token strip_prefixes
  request_token-bearer cs e h = rw e (strip_bearer cs h)

  -- After "JWT " instead, the token still has the prefix: the round for "Bearer" starts from the
  -- whole value again, and undoes what the round for "JWT" cut off.
  pub request_token-jwt :
      (c : Char) (cs : List Char)
      → Dict.lookup "Authorization" r.header ≡ some (of_chars (chars "JWT " ++ c ∷ cs) ∷ rest)
      → HasNoSpace (c ∷ cs)
      → request_token r ≡ of_chars (chars "JWT " ++ c ∷ cs)
  unfolding request_token strip_prefixes
  request_token-jwt c cs e h = rw e (strip_jwt c cs h)
