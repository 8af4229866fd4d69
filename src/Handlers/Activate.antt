-- ===== src/Handlers/Activate.antt =====
-- pkg/handlers/activate.go: the decisions that a query selects.
pub mod Selection
pub mod Decisions
mod Tests
use Prim.Native.String.{◌++◌}
use inspiring_vacations_agen.Common.{
  ◌≡◌, Bool, true, false, not, ◌&&◌, Option, none, some, List, [], ◌∷◌, map, String, ◌==◌,
  if◌then◌else◌, string_eq,
}
use inspiring_vacations_agen.Common.Dict
use inspiring_vacations_agen.Common.Dict.{Dict}
use inspiring_vacations_agen.Http
use inspiring_vacations_agen.Optimizely.Cache.{Result, ok, err, failure, error_text}
use inspiring_vacations_agen.Optimizely.Client.{
  OptimizelyConfig, Decider, Decision, no_decision, activate_feature, activate_experiment,
}
use inspiring_vacations_agen.Handlers.Body.{
  Answer, json, fail, panic, status, Parsed, parsed, refused, parse_request_body, no_client,
}

-- `_, ok := m[k]`
unfoldable pub has {ℓ} : {V : Type ℓ} → Dict String V → String → Bool
has m k = elim (Dict.lookup k m) [ none ↦ false | some _ ↦ true ]

-- A loop that sets each key to the value that the function gives for it.
unfoldable pub mark : (String → String) → List String → Dict String String → Dict String String
mark kind [] kmap = kmap
mark kind (key ∷ keys) kmap = mark kind keys (Dict.insert key (kind key) kmap)

abbrev pub keys_of {ℓ} : {V : Type ℓ} → Dict String V → List String
keys_of [] = []
keys_of ((k, v) ∷ m) = k ∷ keys_of m

module _ {Variation Feature : Type 0} (conf : OptimizelyConfig Variation Feature) where
  abbrev pub experiment_kind : String → String
  experiment_kind key =
      if has conf.experiments_map key then "experiment" else "experimentKey-not-found"

  abbrev pub feature_kind : String → String
  feature_kind key = if has conf.features_map key then "feature" else "featureKey-not-found"

  unfoldable pub parse_experiment_keys : List String → Dict String String → Dict String String
  parse_experiment_keys keys kmap = mark experiment_kind keys kmap

  unfoldable pub parse_feature_keys : List String → Dict String String → Dict String String
  parse_feature_keys keys kmap = mark feature_kind keys kmap

  -- `parseTypeParameter`, with `strconv.Quote` for the message.
  unfoldable pub parse_type_parameter :
      (String → String) → List String → Dict String String → Result (Dict String String)
  parse_type_parameter quote [] kmap = ok kmap
  parse_type_parameter quote (type ∷ types) kmap =
      let experiments =
        parse_type_parameter quote types
          (mark (λ _. "experiment") (keys_of conf.experiments_map) kmap) in
      let features =
        parse_type_parameter quote types (mark (λ _. "feature") (keys_of conf.features_map) kmap) in
      if type == "experiment"
      then experiments
      else if type == "feature"
      then features
      else err (failure ("type " ++ (quote type ++ " not supported")))

-- The user of a request's body, and the SDK's decisions for that user.
pub record ActivateBody (Attributes : Type 0) : Type 0 where
  pub user_id : String
  pub user_attributes : Option Attributes

module _ (D : Decider) (quote : String → String) where
  -- The body of the loop over the selected keys.
  unfoldable pub activate_key : String → Bool → String → String → Result (Decision D)
  activate_key user_id disable_tracking key kind =
      if kind == "experiment"
      then activate_experiment D user_id key disable_tracking
      else if kind == "feature"
      then activate_feature D user_id key disable_tracking
      else if kind == "experimentKey-not-found"
      then ok (record (no_decision D) {
        user_id = user_id;
        experiment_key = key;
        error = "experimentKey not found";
      })
      else if kind == "featureKey-not-found"
      then ok (record (no_decision D) {
        user_id = user_id;
        feature_key = key;
        error = "featureKey not found";
      })
      else err (failure ("type " ++ (quote kind ++ " not supported")))

  -- The loop: the first error ends it.
  unfoldable pub activate_keys : String → Bool → List (String × String) → Result (List (Decision D))
  activate_keys user_id disable_tracking [] = ok []
  activate_keys user_id disable_tracking ((key, kind) ∷ rest) =
      elim (activate_key user_id disable_tracking key kind) [
        | err e ↦ err e
        | ok d ↦ elim (activate_keys user_id disable_tracking rest) [
          | err e ↦ err e
          | ok ds ↦ ok (d ∷ ds)
        ]
      ]

module _ {D : Decider} where
  -- Whether the filter "enabled" keeps a decision.
  abbrev pub keeps : String → Decision D → Bool
  keeps filter d =
      if filter == "true" && not d.enabled
      then false
      else if filter == "false" && d.enabled
      then false
      else true

  unfoldable pub filter_loop : String → List (Decision D) → List (Decision D)
  filter_loop filter [] = []
  filter_loop filter (d ∷ ds) =
      let rest = filter_loop filter ds in if keeps filter d then d ∷ rest else rest

  unfoldable pub filter_decisions : String → List (Decision D) → List (Decision D)
  filter_decisions filter ds = if filter == "" then ds else filter_loop filter ds

-- `getUserContext`
unfoldable pub get_user_context :
    {A : Type 0} → (String → Option (ActivateBody A)) → Option String → Parsed (ActivateBody A)
get_user_context unmarshal body =
    elim (parse_request_body unmarshal (record { user_id = ""; user_attributes = none }) body) [
      | refused e ↦ refused e
      | parsed b ↦
          if b.user_id == "" then refused "missing \"userId\" in request payload" else parsed b
    ]

abbrev pub values : Option (List String) → List String
values none = []
values (some vs) = vs

module _ {A Variation Feature : Type 0} (D : ActivateBody A → Decider) (quote : String → String)
    (unmarshal : String → Option (ActivateBody A))
    (order : Dict String String → List (String × String)) where
  -- The keys that the query selects, each with its kind.
  unfoldable pub select :
      OptimizelyConfig Variation Feature → Dict String (List String) → Result (Dict String String)
  select conf query =
      elim (parse_type_parameter conf quote (values (Dict.lookup "type" query)) []) [
        | err e ↦ err e
        | ok kmap ↦ ok (
            parse_feature_keys conf (values (Dict.lookup "featureKey" query))
              (parse_experiment_keys conf (values (Dict.lookup "experimentKey" query)) kmap))
      ]

  -- `Activate` for a known user and configuration; `order` is the order of ranging over the map.
  unfoldable pub decide_selected :
      OptimizelyConfig Variation Feature
      → Dict String (List String)
      → (b : ActivateBody A) → Answer (List (Decision (D b)))
  decide_selected conf query b = elim (select conf query) [
    | err e ↦ fail 400 (error_text e)
    | ok kmap ↦
        elim (activate_keys (D b) quote b.user_id (Http.get query "disableTracking" == "true")
          (order kmap)) [
            | err e ↦ fail 400 (error_text e)
            | ok ds ↦ json (filter_decisions (Http.get query "enabled") ds)
          ]
  ]

  -- `Activate`: the configuration is `none` for the nil pointer, and the client for its absence.
  unfoldable pub activate :
      Option (Option (OptimizelyConfig Variation Feature))
      → Dict String (List String)
      → Option String
      → Answer ((b : ActivateBody A) × List (Decision (D b)))
  activate none query body = fail 500 no_client
  activate (some conf) query body = elim (get_user_context unmarshal body) [
    | refused e ↦ fail 400 e
    | parsed b ↦ elim conf [
      | none ↦ panic
      | some c ↦ elim (decide_selected c query b) [
        | json ds ↦ json (b, ds)
        | fail n e ↦ fail n e
        | status n ↦ status n
        | panic ↦ panic
      ]
    ]
  ]
