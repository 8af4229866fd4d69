-- ===== src/Metrics.antt =====
-- pkg/metrics/metrics.go: the registry of metrics, each known by its key.
pub mod Names
pub mod Kept
pub mod Timers
pub mod Fresh
mod Tests
use Prim.Native.Char.{Char, char}
use inspiring_vacations_agen.Common.{
  ℕ, ◌≡◌, Bool, true, false, ◌&&◌, ◌||◌, not, Option, none, some, List, [], ◌∷◌, ◌++◌, map, String,
  ◌==◌, if◌then◌else◌, string_eq, chars, of_chars, codes, codes_eq, split_chars, is, leb, eqb,
  length, lower_code,
}
use inspiring_vacations_agen.Common.Dict
use inspiring_vacations_agen.Common.Dict.{Dict}

abbrev pub is_upper : ℕ → Bool
is_upper n = leb b'A' n && leb n b'Z'

abbrev pub is_lower : ℕ → Bool
is_lower n = leb b'a' n && leb n b'z'

abbrev pub is_digit : ℕ → Bool
is_digit n = leb b'0' n && leb n b'9'

-- Replacing `(.)([A-Z][a-z]+)` by `${1}_${2}`, over code points: the matches do not overlap. The
-- flag says that the rest begins inside a match, in its small letters.
unfoldable pub first_cap : Bool → List ℕ → List ℕ
first_cap inside [] = []
first_cap inside (c ∷ []) = c ∷ []
first_cap inside (c ∷ u ∷ []) = c ∷ u ∷ []
first_cap inside (c ∷ u ∷ l ∷ rest) =
    let matched = first_cap true (l ∷ rest) in
    let letters = first_cap true (u ∷ l ∷ rest) in
    let other = first_cap false (u ∷ l ∷ rest) in
    if inside && is_lower c
    then c ∷ letters
    else if not (eqb c 10) && is_upper u && is_lower l
    then c ∷ b'_' ∷ u ∷ matched
    else c ∷ other

-- Replacing `([a-z0-9])([A-Z])` by `${1}_${2}`.
unfoldable pub all_cap : List ℕ → List ℕ
all_cap [] = []
all_cap (c ∷ []) = c ∷ []
all_cap (c ∷ u ∷ rest) =
    let matched = all_cap rest in
    let other = all_cap (u ∷ rest) in
    if (is_lower c || is_digit c) && is_upper u then c ∷ b'_' ∷ u ∷ matched else c ∷ other

-- `strings.Join(parts, "_")`
unfoldable pub join_parts : List (List ℕ) → List ℕ
join_parts [] = []
join_parts (p ∷ []) = p
join_parts (p ∷ q ∷ ps) = p ++ b'_' ∷ join_parts (q ∷ ps)

abbrev pub undash : Char → Char
undash c = if is b'-' c then char 0x5f tt else c

-- `toSnakeCase`, as code points; the letters that are made small are ASCII.
unfoldable pub to_snake_case : String → List ℕ
unfolding first_cap all_cap join_parts split_chars
to_snake_case name =
    let parts = split_chars b'.' (map undash (chars name)) in
    join_parts (map (λ p. map lower_code (all_cap (first_cap false (codes p)))) parts)

-- A metric of a library is how many names the library knew when it was made.
pub record Timer : Type 0 where
  pub hits : ℕ
  pub total_time : ℕ
  pub histogram : ℕ

-- `Registry`, with the names that the library of metrics knows, which are those of the process.
pub record Registry : Type 0 where
  pub metrics_counter_vars : Dict String ℕ
  pub metrics_gauge_vars : Dict String ℕ
  pub metrics_histogram_vars : Dict String ℕ
  pub metrics_timer_vars : Dict String Timer
  pub metrics_type : String
  pub published : List (List ℕ)

-- `a + b` of texts.
abbrev pub join : String → String → String
join a b = of_chars (chars a ++ chars b)

unfoldable pub get_package_supported_name : Registry → String → List ℕ
unfolding to_snake_case
get_package_supported_name m name =
    if m.metrics_type == "prometheus" then to_snake_case name else codes (chars name)

unfoldable pub is_published : List (List ℕ) → List ℕ → Bool
unfolding codes_eq
is_published [] name = false
is_published (n ∷ ns) name = codes_eq n name || is_published ns name

-- A new metric of the library, or `none`: a name that is registered twice makes it panic.
unfoldable pub register : String → Registry → Option (ℕ × Registry)
unfolding get_package_supported_name is_published
register key m =
    let name = get_package_supported_name m key in
    if is_published m.published name
    then none
    else some (length m.published, record m { published = m.published ++ name ∷ [] })

unfoldable pub create_counter : String → Registry → Option (ℕ × Registry)
unfolding register Dict.insert
create_counter key m = elim (register key m) [
  | none ↦ none
  | some (v, n) ↦
      some (v, record n { metrics_counter_vars = Dict.insert key v n.metrics_counter_vars })
]

unfoldable pub create_gauge : String → Registry → Option (ℕ × Registry)
unfolding register Dict.insert
create_gauge key m = elim (register key m) [
  | none ↦ none
  | some (v, n) ↦ some (v, record n { metrics_gauge_vars = Dict.insert key v n.metrics_gauge_vars })
]

unfoldable pub register_quantiles : String → List String → Registry → Option Registry
unfolding register
register_quantiles key [] m = some m
register_quantiles key (q ∷ qs) m = elim (register (join key q) m) [
  | none ↦ none
  | some (_, n) ↦ register_quantiles key qs n
]

-- A histogram of expvar publishes its quantiles, one of Prometheus its name.
unfoldable pub register_histogram : String → Registry → Option (ℕ × Registry)
unfolding register register_quantiles
register_histogram key m =
    if m.metrics_type == "prometheus"
    then register key m
    else elim (register_quantiles key (".p50" ∷ ".p90" ∷ ".p95" ∷ ".p99" ∷ []) m) [
      | none ↦ none
      | some n ↦ some (length m.published, n)
    ]

unfoldable pub create_histogram : String → Registry → Option (ℕ × Registry)
unfolding register_histogram Dict.insert
create_histogram key m = elim (register_histogram key m) [
  | none ↦ none
  | some (v, n) ↦
      some (v, record n { metrics_histogram_vars = Dict.insert key v n.metrics_histogram_vars })
]

unfoldable pub create_timer : String → Registry → Option (Timer × Registry)
unfolding create_counter create_histogram
create_timer key m = elim (create_counter (join key ".hits") m) [
  | none ↦ none
  | some (hits, m1) ↦ elim (create_counter (join key ".responseTime") m1) [
    | none ↦ none
    | some (total, m2) ↦ elim (create_histogram (join key ".responseTimeHist") m2) [
      | none ↦ none
      | some (histogram, m3) ↦
          let timer : Timer = record { hits = hits; total_time = total; histogram = histogram } in
          some
            (timer, record m3 { metrics_timer_vars = Dict.insert key timer m3.metrics_timer_vars })
    ]
  ]
]

-- The result is `none` inside for nil; `none` outside is a panic.
abbrev found {ℓ} : {A : Type ℓ} → Option (A × Registry) → Option (Option A × Registry)
found none = none
found (some (v, m)) = some (some v, m)

unfoldable pub get_counter : String → Registry → Option (Option ℕ × Registry)
unfolding create_counter Dict.lookup
get_counter key m =
    let combined_key = join "counter." key in
    if key == "" then some (none, m) else elim (Dict.lookup combined_key m.metrics_counter_vars) [
      | some v ↦ some (some v, m)
      | none ↦ found (create_counter combined_key m)
    ]

unfoldable pub get_gauge : String → Registry → Option (Option ℕ × Registry)
unfolding create_gauge Dict.lookup
get_gauge key m =
    let combined_key = join "gauge." key in
    if key == "" then some (none, m) else elim (Dict.lookup combined_key m.metrics_gauge_vars) [
      | some v ↦ some (some v, m)
      | none ↦ found (create_gauge combined_key m)
    ]

-- `GetHistogram` puts nothing before the key.
unfoldable pub get_histogram : String → Registry → Option (Option ℕ × Registry)
unfolding create_histogram Dict.lookup
get_histogram key m =
    if key == "" then some (none, m) else elim (Dict.lookup key m.metrics_histogram_vars) [
      | some v ↦ some (some v, m)
      | none ↦ found (create_histogram key m)
    ]

unfoldable pub new_timer : String → Registry → Option (Option Timer × Registry)
unfolding create_timer Dict.lookup
new_timer key m =
    let combined_key = join "timer." key in
    if key == "" then some (none, m) else elim (Dict.lookup combined_key m.metrics_timer_vars) [
      | some t ↦ some (some t, m)
      | none ↦ found (create_timer combined_key m)
    ]

-- `NewRegistry`, in a process where the library knows the names given.
abbrev pub new_registry : String → List (List ℕ) → Registry
new_registry metrics_type published = record {
  metrics_counter_vars = [];
  metrics_gauge_vars = [];
  metrics_histogram_vars = [];
  metrics_timer_vars = [];
  metrics_type = metrics_type;
  published = published;
}
