-- ===== src/Optimizely/TestConfig/Getters.antt =====
-- The getters of TestProjectConfig.
use Prim.Native.String.{◌++◌}
use inspiring_vacations_agen.Common.{Option, none, some, List, [], ◌∷◌, String, string_eq}
use inspiring_vacations_agen.Common.Dict.{Dict, lookup}
use inspiring_vacations_agen.Optimizely.TestConfig.{
  Entities, Experiment, Rollout, Feature, TestProjectConfig, no_experiment, no_feature,
}

-- The values of a map, in the order in which the loop meets them.
abbrev pub values {ℓ} : {V : Type ℓ} → Dict String V → List V
values [] = []
values ((k, v) ∷ m) = v ∷ values m

-- A value with an error or nil.
abbrev pub Result : Type 0 → Type 0
Result V = V × Option String

-- The value under a key, or the zero value with an error.
unfoldable pub found : {V : Type 0} → Option V → V → String → Result V
found none zero_value e = (zero_value, some e)
found (some v) zero_value e = (v, none)

-- `m[k]`
unfoldable pub at : {V : Type 0} → Option V → V → V
at none zero_value = zero_value
at (some v) zero_value = v

-- `%q`, of a text in which Go quotes no character.
abbrev quoted : String → String
quoted s = "\"" ++ s ++ "\""

module _ {S : Entities} where
  unfoldable pub get_attributes : TestProjectConfig S → List S.Attribute
  get_attributes c = values c.attribute_map

  unfoldable pub get_events : TestProjectConfig S → List S.Event
  get_events c = values c.event_map

  unfoldable pub get_feature_list : TestProjectConfig S → List (Feature S)
  get_feature_list c = values c.feature_map

  unfoldable pub get_experiment_list : TestProjectConfig S → List Experiment
  get_experiment_list c = values c.experiment_map

  unfoldable pub get_rollout_list : TestProjectConfig S → List Rollout
  get_rollout_list c = values c.rollout_map

  unfoldable pub get_audience_list : TestProjectConfig S → List S.Audience
  get_audience_list c = values c.audience_map

  unfoldable pub get_attribute_id : TestProjectConfig S → String → String
  unfolding at
  get_attribute_id c key = at (lookup key c.attribute_key_to_id_map) ""

  unfoldable pub get_event_by_key : TestProjectConfig S → String → Result S.Event
  unfolding found
  get_event_by_key c key =
      found (lookup key c.event_map) S.no_event ("Event with key " ++ key ++ " not found")

  unfoldable pub get_feature_by_key : TestProjectConfig S → String → Result (Feature S)
  unfolding found
  get_feature_by_key c key =
      found (lookup key c.feature_map) no_feature ("Feature with key " ++ key ++ " not found")

  unfoldable pub get_audience_by_id : TestProjectConfig S → String → Result S.Audience
  unfolding found
  get_audience_by_id c id =
      found (lookup id c.audience_map) S.no_audience
        ("Audience with ID " ++ quoted id ++ " not found")

  unfoldable pub get_group_by_id : TestProjectConfig S → String → Result S.Group
  unfolding found
  get_group_by_id c id =
      found (lookup id c.group_map) S.no_group ("Group with ID " ++ quoted id ++ " not found")

  unfoldable pub get_attribute_by_key : TestProjectConfig S → String → Result S.Attribute
  unfolding at
  get_attribute_by_key c key = elim (lookup key c.attribute_key_to_id_map) [
    | none ↦ (S.no_attribute, some ("Attribute with key " ++ quoted key ++ " not found"))
    | some id ↦ (at (lookup id c.attribute_map) S.no_attribute, none)
  ]

  unfoldable pub get_experiment_by_key : TestProjectConfig S → String → Result Experiment
  unfolding at
  get_experiment_by_key c key = elim (lookup key c.experiment_key_to_id_map) [
    | none ↦ (no_experiment, some ("Experiment with key " ++ quoted key ++ " not found"))
    | some id ↦ (at (lookup id c.experiment_map) no_experiment, none)
  ]

  -- The variable is looked up under the key of the feature, as in the source.
  unfoldable pub get_variable_by_key :
      TestProjectConfig S → (feature_key variable_key : String) → Result S.Variable
  unfolding found
  get_variable_by_key c feature_key variable_key =
      let e = "variable with key " ++ feature_key ++ " not found" in
      elim (lookup feature_key c.feature_map) [
        | none ↦ (S.no_variable, some e)
        | some feature ↦ found (lookup feature_key feature.variable_map) S.no_variable e
      ]
