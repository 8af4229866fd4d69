-- ===== src/Common/Text.antt =====
-- Go's `strings` package over native texts: a text is walked as the list of its characters.
use Prim.Native.Char.{Char, code}
use Prim.Native.Nat.{ℕ, ◌+◌}
use Prim.Native.String.{String}
use mathlib.Core.Bool.{Bool, true, false, ◌&&◌, ◌||◌}
use mathlib.Core.List.{List, [], ◌∷◌, map, reverse}
use mathlib.Core.Option.{Option, none, some}
use mathlib.Core.Path.{◌≡◌, refl, ap}
use inspiring_vacations_agen.Common.Tests.{eqb, leb, if◌then◌else◌}

abbrev pub chars : String → List Char
chars String.[] = []
chars (String.◌∷◌ c s) = c ∷ chars s

abbrev pub of_chars : List Char → String
of_chars [] = String.[]
of_chars (c ∷ cs) = String.◌∷◌ c (of_chars cs)

pub of_chars-chars : (s : String) → of_chars (chars s) ≡ s
of_chars-chars String.[] = refl
of_chars-chars (String.◌∷◌ c s) = ap (String.◌∷◌ c) (of_chars-chars s)

pub chars-of_chars : (cs : List Char) → chars (of_chars cs) ≡ cs
chars-of_chars [] = refl
chars-of_chars (c ∷ cs) = ap (◌∷◌ c) (chars-of_chars cs)

-- Whether a character has the given code.
abbrev pub is : ℕ → Char → Bool
is n c = eqb (code c) n

abbrev pub is_nil {ℓ} : {A : Type ℓ} → List A → Bool
is_nil [] = true
is_nil (x ∷ xs) = false

-- `strings.Split(s, sep)` for a separator of one character: always at least one part.
abbrev push_front : Char → List (List Char) → List (List Char)
push_front c [] = (c ∷ []) ∷ []
push_front c (part ∷ parts) = (c ∷ part) ∷ parts

unfoldable pub split_chars : ℕ → List Char → List (List Char)
split_chars sep [] = [] ∷ []
split_chars sep (c ∷ cs) =
    let parts = split_chars sep cs in if is sep c then [] ∷ parts else push_front c parts

unfoldable pub split : ℕ → String → List String
unfolding split_chars
split sep s = map of_chars (split_chars sep (chars s))

-- `parts[0]` of a split, which is never empty.
abbrev pub first_part : List (List Char) → List Char
first_part [] = []
first_part (part ∷ parts) = part

-- `strings.SplitN(s, sep, 2)`: `none` when the separator does not occur.
unfoldable pub cut : ℕ → List Char → Option (List Char × List Char)
cut sep [] = none
cut sep (c ∷ cs) =
    let rest = cut sep cs in
    if is sep c then some ([], cs) else elim rest [ none ↦ none | some (a, b) ↦ some (c ∷ a, b) ]

-- `unicode.IsSpace`.
unfoldable pub is_space : Char → Bool
is_space c =
    let n = code c in
    (leb 9 n && leb n 13)
    || eqb n 0x20
    || eqb n 0x85
    || eqb n 0xa0
    || eqb n 0x1680
    || (leb 0x2000 n && leb n 0x200a)
    || eqb n 0x2028
    || eqb n 0x2029
    || eqb n 0x202f
    || eqb n 0x205f
    || eqb n 0x3000

-- `strings.TrimLeftFunc`, `TrimRightFunc` and `TrimFunc`.
unfoldable pub trim_left : (Char → Bool) → List Char → List Char
trim_left p [] = []
trim_left p (c ∷ cs) = let rest = trim_left p cs in if p c then rest else c ∷ cs

unfoldable pub trim_right : (Char → Bool) → List Char → List Char
trim_right p [] = []
trim_right p (c ∷ cs) = let rest = trim_right p cs in if is_nil rest && p c then [] else c ∷ rest

unfoldable pub trim : (Char → Bool) → List Char → List Char
unfolding trim_left trim_right
trim p cs = trim_right p (trim_left p cs)

unfoldable pub trim_space : List Char → List Char
unfolding trim is_space
trim_space cs = trim is_space cs

-- Membership in a cutset.
abbrev pub in_set : List Char → Char → Bool
in_set [] c = false
in_set (d ∷ ds) c = is (code d) c || in_set ds c

-- `strings.ToLower`, for the texts that are then compared with ASCII words: the letters A to Z,
-- and the two other characters whose lower case is an ASCII letter.
abbrev pub lower_code : ℕ → ℕ
lower_code n =
    if leb b'A' n && leb n b'Z'
    then n + 32
    else if eqb n 0x130
    then b'i'
    else if eqb n 0x212a
    then b'k'
    else n

unfoldable pub is_prefix : List ℕ → List ℕ → Bool
is_prefix [] ds = true
is_prefix (c ∷ cs) [] = false
is_prefix (c ∷ cs) (d ∷ ds) = eqb c d && is_prefix cs ds

abbrev pub codes : List Char → List ℕ
codes cs = map code cs

unfoldable pub codes_eq : List ℕ → List ℕ → Bool
codes_eq [] [] = true
codes_eq (c ∷ cs) (d ∷ ds) = eqb c d && codes_eq cs ds
codes_eq _ _ = false

-- `strings.HasPrefix(s, p)`.
unfoldable pub has_prefix : String → String → Bool
unfolding is_prefix
has_prefix s p = is_prefix (codes (chars p)) (codes (chars s))

is_infix : List ℕ → List ℕ → Bool
is_infix cs [] = is_prefix cs []
is_infix cs (d ∷ ds) = is_prefix cs (d ∷ ds) || is_infix cs ds

-- `strings.Contains(s, p)`.
unfoldable pub has_infix : String → String → Bool
unfolding is_prefix is_infix
has_infix s p = is_infix (codes (chars p)) (codes (chars s))

-- Whether the lower-case form of a text is the given ASCII word.
unfoldable pub lower_codes : List Char → List ℕ
lower_codes cs = map (λ c. lower_code (code c)) cs

-- `strings.HasSuffix(strings.ToLower(s), p)`.
unfoldable pub has_lower_suffix : String → String → Bool
unfolding is_prefix lower_codes
has_lower_suffix s p = is_prefix (reverse (codes (chars p))) (reverse (lower_codes (chars s)))
