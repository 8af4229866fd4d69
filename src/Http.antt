-- ===== src/Http.antt =====
-- What the agent uses of net/http: header fields, the parts of a request that the middlewares
-- read, and the two ways in which a middleware answers.
use inspiring_vacations_agen.Common.{ℕ, Option, none, some, List, [], ◌∷◌, String, string_eq}
use inspiring_vacations_agen.Common.Dict
use inspiring_vacations_agen.Common.Dict.{Dict}

-- `http.Header`: field names in canonical form, each with its values.
abbrev pub Header : Type 0
Header = Dict String (List String)

-- `len(values) > 0` and `values[0]`, or `otherwise`.
abbrev pub first_or : Option (List String) → String → String
first_or none otherwise = otherwise
first_or (some []) otherwise = otherwise
first_or (some (v ∷ vs)) otherwise = v

-- `Header.Get` at a canonical name: the first value, or the empty text.
unfoldable pub get : Header → String → String
get h name = first_or (Dict.lookup name h) ""

-- The names that the agent reads, in canonical form.
abbrev pub sdk_header : String
sdk_header = "X-Optimizely-Sdk-Key"

abbrev pub ups_header : String
ups_header = "X-Optimizely-Ups-Name"

abbrev pub odp_cache_header : String
odp_cache_header = "X-Optimizely-Odp-Cache-Name"

pub record Request : Type 0 where
  pub method : String
  pub path : String
  pub host : String
  pub header : Header
  -- `r.Form` after `ParseForm`: the values of each query parameter.
  pub form : Dict String (List String)

-- A middleware hands the request on, with a change of it or none, or answers with an error, as
-- `RenderError` (`fail`) or as `http.Error` (`plain`).
pub data Reply {ℓ} (A : Type ℓ) : Type ℓ where
  forward : A → Reply A
  fail plain : ℕ → String → Reply A
