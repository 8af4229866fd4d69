-- ===== src/Optimizely/Client.antt =====
-- pkg/optimizely/client.go: what the wrapped client adds to the SDK's.
use inspiring_vacations_agen.Common.{
  ◌≡◌, ◌≢◌, Bool, true, false, not, Option, none, some, List, [], ◌∷◌, ◌++◌, String, ◌==◌,
  if◌then◌else◌, string_eq,
}
use inspiring_vacations_agen.Common.Dict
use inspiring_vacations_agen.Common.Dict.{Dict}
use inspiring_vacations_agen.Optimizely.Cache.{Result, ok, err}
use inspiring_vacations_agen.Optimizely.Cache

-- `decision.ExperimentOverrideKey`
pub record OverrideKey : Type 0 where
  pub user_id : String
  pub experiment_key : String

-- `decision.MapExperimentOverridesStore` of the SDK: a map that is safe for concurrent use.
pub record OverridesStore : Type 1 where
  pub Store : Type 0
  pub get_variation : OverrideKey → Store → Option String
  pub set_variation : OverrideKey → String → Store → Store
  pub remove_variation : OverrideKey → Store → Store
  pub get-set :
      (k : OverrideKey) (v : String) (s : Store) → get_variation k (set_variation k v s) ≡ some v
  pub get-set_other :
      (k j : OverrideKey) (v : String) (s : Store)
      → k ≢ j
      → get_variation j (set_variation k v s) ≡ get_variation j s
  pub get-remove : (k : OverrideKey) (s : Store) → get_variation k (remove_variation k s) ≡ none
  pub get-remove_other :
      (k j : OverrideKey) (s : Store)
      → k ≢ j
      → get_variation j (remove_variation k s) ≡ get_variation j s

-- `Override`, the answer to a change of a forced variation.
pub record Override : Type 0 where
  pub user_id : String
  pub experiment_key : String
  pub variation_key : String
  pub prev_variation_key : String
  pub messages : List String

abbrev pub no_override : Override
no_override = record {
  user_id = "";
  experiment_key = "";
  variation_key = "";
  prev_variation_key = "";
  messages = [];
}

-- The SDK's `OptimizelyConfig`: experiments with their variations, and features.
pub record OptimizelyConfig (Variation Feature : Type 0) : Type 0 where
  pub experiments_map : Dict String (Dict String Variation)
  pub features_map : Dict String Feature

module _ {Variation Feature : Type 0} where
  -- The check of an override's keys against the configuration, if there is one.
  unfoldable pub config_messages :
      Option (OptimizelyConfig Variation Feature) → String → String → List String
  config_messages none experiment_key variation_key =
      "override cannot be validated via configuration" ∷ []
  config_messages (some conf) experiment_key variation_key =
      elim (Dict.lookup experiment_key conf.experiments_map) [
        | none ↦ "experimentKey not found in configuration" ∷ []
        | some variations ↦ elim (Dict.lookup variation_key variations) [
          | none ↦ "variationKey not found in configuration" ∷ []
          | some _ ↦ []
        ]
      ]

module _ (O : OverridesStore) where
  open O use {Store, get_variation, set_variation, remove_variation}

  -- The store of a client, or `none` for the nil pointer, and the answer or error of a call.
  abbrev pub Outcome : Type 0
  Outcome = Option Store × Result Override

  abbrev pub uninitialized : Cache.LoadError
  uninitialized = Cache.failure "client forced variations store not initialized"

  abbrev pub with_previous : Option String → Override → Override
  with_previous none o = o
  with_previous (some prev) o = record o {
    prev_variation_key = prev;
    messages = o.messages ++ "updating previous override" ∷ [];
  }

  -- `SetForcedVariation`
  unfoldable pub set_forced_variation :
      {Variation Feature : Type 0}
      → Option (OptimizelyConfig Variation Feature)
      → Option Store
      → String
      → String
      → String
      → Outcome
  set_forced_variation conf none experiment_key user_id variation_key = (none, err uninitialized)
  set_forced_variation conf (some s) experiment_key user_id variation_key =
      let key : OverrideKey = record { user_id = user_id; experiment_key = experiment_key } in
      let override : Override = record {
        user_id = user_id;
        experiment_key = experiment_key;
        variation_key = variation_key;
        prev_variation_key = "";
        messages = config_messages conf experiment_key variation_key;
      } in
      (some (set_variation key variation_key s), ok (with_previous (get_variation key s) override))

  abbrev pub removed : Option String → Override → Override
  removed none o = record o { messages = "no pre-existing override" ∷ [] }
  removed (some prev) o = record o {
    prev_variation_key = prev;
    messages = "removing previous override" ∷ [];
  }

  -- `RemoveForcedVariation`
  unfoldable pub remove_forced_variation : Option Store → String → String → Outcome
  remove_forced_variation none experiment_key user_id = (none, err uninitialized)
  remove_forced_variation (some s) experiment_key user_id =
      let key : OverrideKey = record { user_id = user_id; experiment_key = experiment_key } in
      let override : Override = record no_override {
        user_id = user_id;
        experiment_key = experiment_key;
      } in
      (some (remove_variation key s), ok (removed (get_variation key s) override))

-- The SDK client's calls that decide and track, for one user.
pub record Decider : Type 1 where
  pub Variables : Type 0
  pub no_variables : Variables
  -- `GetVariation` and `Activate`.
  pub get_variation : String → Result String
  pub activate : String → Result String
  -- `GetDetailedFeatureDecisionUnsafe`: the decision with its variables.
  pub feature_decision : String → Bool → Result (Bool × String × String × Variables)
  -- The error of `GetConfig`, and of `GetEventByKey`.
  pub config_error : Option String
  pub event_error : String → Option String
  -- The error of `Track`.
  pub track_error : String → Option String

-- `Track`
pub record Track : Type 0 where
  pub user_id : String
  pub event_key : String
  pub error : String

module _ (D : Decider) where
  open D use {
    Variables, no_variables, get_variation, activate, feature_decision, config_error, event_error,
    track_error,
  }

  -- `Decision`; its variables are `none` where the field is left nil.
  pub record Decision : Type 0 where
    pub user_id : String
    pub experiment_key : String
    pub feature_key : String
    pub variation_key : String
    pub type : String
    pub variables : Option Variables
    pub enabled : Bool
    pub error : String

  abbrev pub no_decision : Decision
  no_decision = record {
    user_id = "";
    experiment_key = "";
    feature_key = "";
    variation_key = "";
    type = "";
    variables = none;
    enabled = false;
    error = "";
  }

  -- `ActivateFeature`
  unfoldable pub activate_feature : String → String → Bool → Result Decision
  activate_feature user_id key disable_tracking = elim (feature_decision key disable_tracking) [
    | err e ↦ err e
    | ok (enabled, experiment_key, variation_key, variables) ↦ ok (record {
      user_id = user_id;
      experiment_key = experiment_key;
      feature_key = key;
      variation_key = variation_key;
      type = "feature";
      variables = some variables;
      enabled = enabled;
      error = "";
    })
  ]

  -- `ActivateExperiment`
  unfoldable pub activate_experiment : String → String → Bool → Result Decision
  activate_experiment user_id key disable_tracking =
      elim (if disable_tracking then get_variation key else activate key) [
        | err e ↦ err e
        | ok variation ↦ ok (record {
          user_id = user_id;
          experiment_key = key;
          feature_key = "";
          variation_key = variation;
          type = "experiment";
          variables = some no_variables;
          enabled = not (variation == "");
          error = "";
        })
      ]

  -- `TrackEvent`, with whether the event was handed to the SDK's `Track`.
  unfoldable pub track_event : String → String → Bool × Result Track
  track_event user_id event_key = elim config_error [
    | some e ↦ (false, err (Cache.failure e))
    | none ↦ elim (event_error event_key) [
      | some e ↦ (false, ok (record { user_id = user_id; event_key = event_key; error = e }))
      | none ↦ elim (track_error event_key) [
        | some e ↦ (true, err (Cache.failure e))
        | none ↦ (true, ok (record { user_id = user_id; event_key = event_key; error = "" }))
      ]
    ]
  ]
