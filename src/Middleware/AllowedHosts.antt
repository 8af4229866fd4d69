-- ===== src/Middleware/AllowedHosts.antt =====
-- pkg/middleware/allowed_hosts.go: the host of a request and the check against the allowed hosts.
pub mod Suffixes
pub mod Accepts
mod Tests
use mathlib.Core.List.{foldl}
use mathlib.Core.WellFounded.{Acc, WellFounded}
use inspiring_vacations_agen.Common.{
  ℕ, zero, suc, ◌<◌, ◌≡◌, refl, Bool, true, false, Option, none, some, List, [], ◌∷◌, String, Char,
  arith, is, if◌then◌else◌, chars, of_chars, split, first_part, split_chars, cut, trim, trim_space,
  lower_codes, codes, length, ◌==◌, Option-cases, is_nil, ◌⊎◌, inl, inr, codes_eq, is_nil, ◌||◌,
  ◌+◌, ◌≤◌, string_eq,
}
use inspiring_vacations_agen.Common.Dict
use inspiring_vacations_agen.Common.Dict.{Dict}
use inspiring_vacations_agen.Http
use inspiring_vacations_agen.Http.{Request, Reply, forward, fail}

-- The three results of `parseForwarded`.
pub record Forwarded : Type 0 where
  pub addr : String
  pub proto : String
  pub host : String

abbrev nothing : Forwarded
nothing = record { addr = ""; proto = ""; host = "" }

-- Whether the token is the word, in any case.
is_word : List Char → String → Bool
is_word token word = codes_eq (lower_codes token) (codes (chars word))

-- One round of the loop of `parseForwarded`.
unfoldable pub read_pair : Forwarded → List Char → Forwarded
unfolding is_word codes_eq cut trim trim_space lower_codes
read_pair f pair = elim (cut b'=' pair) [
  | none ↦ f
  | some (token, raw) ↦
      let name = trim_space token in
      let value = of_chars (trim_space (trim (is b'"') raw)) in
      if is_word name "for"
      then record f { addr = value }
      else if is_word name "proto"
      then record f { proto = value }
      else if is_word name "host"
      then record f { host = value }
      else f
]

unfoldable pub parse_forwarded : String → Forwarded
unfolding read_pair split_chars
parse_forwarded forwarded =
    if forwarded == ""
    then nothing
    else foldl read_pair nothing (split_chars b';' (chars forwarded))

unfoldable pub request_host : Request → String
unfolding parse_forwarded Http.get
request_host r =
    let first = Http.get r.header "X-Forwarded-Host" in
    let second = (parse_forwarded (Http.get r.header "Forwarded")).host in
    if first == "" then (if second == "" then r.host else second) else first

-- `strings.TrimPrefix(s, ".")`
unfoldable pub trim_dot : List Char → List Char
trim_dot [] = []
trim_dot (c ∷ cs) = if is b'.' c then cs else c ∷ cs

-- `s[strings.Index(s, "."):]`, or `none` where there is no dot.
unfoldable pub from_dot : List Char → Option (List Char)
from_dot [] = none
from_dot (c ∷ cs) = if is b'.' c then some (c ∷ cs) else from_dot cs

abbrev pub Shorter : List Char → List Char → Type 0
Shorter xs ys = length xs < length ys

Acc-shorter : (k : ℕ) (cs : List Char) → length cs < k → Acc Shorter cs
Acc-shorter zero cs h = elim h [ ]
Acc-shorter (suc k) cs h = Acc.intro cs (λ ds hd. Acc-shorter k ds (omega arith))

unfoldable pub shorter_wf : (cs : List Char) → Acc Shorter cs
unfolding Acc-shorter
shorter_wf cs = Acc-shorter (suc (length cs)) cs (omega arith)

from_dot-shorter : (cs rest : List Char) → from_dot cs ≡ some rest → length rest ≤ length cs
unfolding from_dot
from_dot-shorter [] rest e = absurd (ground arith)
from_dot-shorter (c ∷ cs) rest e = ground (arith, from_dot-shorter cs rest)

pub next-shorter :
    (c : Char) (cs rest : List Char)
    → from_dot (trim_dot (c ∷ cs)) ≡ some rest
    → Shorter rest (c ∷ cs)
unfolding trim_dot from_dot
next-shorter c cs rest e = ground (arith, from_dot-shorter cs rest)

-- The loop over the suffixes of the host: each starts at a later dot.
unfoldable pub walk : (String → Bool) → (cs : List Char) → Acc Shorter cs → Bool
unfolding Option-cases
walk allowed [] _ = false
walk allowed (c ∷ cs) (Acc.intro _ smaller) = elim (allowed (of_chars (c ∷ cs))) [
  | true ↦ true
  | false ↦ elim (Option-cases (from_dot (trim_dot (c ∷ cs)))) [
    | inl _ ↦ false
    | inr (rest, e) ↦ walk allowed rest (smaller rest (next-shorter c cs rest e))
  ]
]

-- The loop that fills `allowedMap`: `none` once "." is met, since then no host is checked.
unfoldable pub build_map : List String → Dict String Bool → Option (Dict String Bool)
build_map [] m = some m
build_map (h ∷ hs) m =
    let rest = build_map hs (Dict.insert h true m) in if h == "." then none else rest

-- `allowedMap[s]`, which is false at a key that is missing.
abbrev pub is_set : Dict String Bool → String → Bool
is_set m s = elim (Dict.lookup s m) [ none ↦ false | some b ↦ b ]

-- The host that is checked: the part before the first colon.
unfoldable pub checked_host : Request → List Char
unfolding request_host
checked_host r = first_part (split_chars b':' (chars (request_host r)))

-- `AllowedHosts`
unfoldable pub serve : List String → Request → Reply Request
unfolding build_map walk shorter_wf checked_host Dict.insert Dict.lookup
serve allowed_hosts r = elim (build_map allowed_hosts []) [
  | none ↦ forward r
  | some m ↦
      let host = checked_host r in
      if walk (is_set m) host (shorter_wf host) then forward r else fail 404 "invalid request host"
]
