-- ===== src/Optimizely/Cache/Loading.antt =====
-- How the loader splits a client key, and which plugin service it chooses.
use inspiring_vacations_agen.Common.{
  ◌≡◌, refl, false, List, [], ◌∷◌, ◌++◌, Char, code, is, of_chars, chars-of_chars, split,
  split_chars, All, string_eq,
}
use inspiring_vacations_agen.Optimizely.Cache.{split_key}

abbrev pub HasNoColon : List Char → Type 0
HasNoColon cs = All (λ c. is b':' c ≡ false) cs

split_chars_none : (cs : List Char) → HasNoColon cs → split_chars b':' cs ≡ cs ∷ []
unfolding split_chars
split_chars_none [] h = refl
split_chars_none (c ∷ cs) h = rw (h.0, split_chars_none cs h.1)

split_chars_colon :
    (cs ds : List Char) (colon : Char)
    → HasNoColon cs
    → HasNoColon ds
    → code colon ≡ b':'
    → split_chars b':' (cs ++ colon ∷ ds) ≡ cs ∷ ds ∷ []
unfolding split_chars
split_chars_colon [] ds colon h k e = rw (e, split_chars_none ds k)
split_chars_colon (c ∷ cs) ds colon h k e = rw (h.0, split_chars_colon cs ds colon h.1 k e)

pub split_key-plain :
    (key : List Char) → HasNoColon key → split_key (of_chars key) ≡ (of_chars key, "")
unfolding split_key split
split_key-plain key h = simp (chars-of_chars, split_chars_none key h)

pub split_key-colon :
    (key token : List Char) (colon : Char)
    → HasNoColon key
    → HasNoColon token
    → code colon ≡ b':'
    → split_key (of_chars (key ++ colon ∷ token)) ≡ (of_chars key, of_chars token)
unfolding split_key split
split_key-colon key token colon h k e =
    simp (chars-of_chars, split_chars_colon key token colon h k e)
