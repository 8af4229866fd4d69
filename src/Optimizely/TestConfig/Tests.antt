-- ===== src/Optimizely/TestConfig/Tests.antt =====
-- A configuration that a few calls build up.
use inspiring_vacations_agen.Common.{
  ◌+◌, ◌<◌, ◌≤◌, ◌≡◌, refl, false, none, some, List, [], ◌∷◌, ◌++◌, Elem, String, string_eq, All,
  get_elem?, arith, eq_iff, itoa,
}
use inspiring_vacations_agen.Common.Dict.{lookup, insert}
use inspiring_vacations_agen.Optimizely.TestConfig.{
  Entities, Variation, Experiment, Rollout, Feature, TestProjectConfig, new_config, get_next_id,
  make_map, read_map,
}
use inspiring_vacations_agen.Optimizely.TestConfig.Getters.{
  get_experiment_by_key, get_variable_by_key, get_feature_by_key, get_events, found, at,
  get_attributes, get_feature_list, get_experiment_list, get_rollout_list, get_audience_list,
}
use inspiring_vacations_agen.Optimizely.TestConfig.Adders.{
  add_event, add_experiment, add_experiment_with_variations, add_feature_rollout, add_feature_test,
  experiment_of, variation_of, variation_map, variation_keys, allocate, end_of_range, keyed,
  add_feature,
}
use inspiring_vacations_agen.Optimizely.TestConfig.Loops.{
  add_disabled_feature_rollout, feature_at, first_variations, each_variation, write_map, disable,
}
use inspiring_vacations_agen.Optimizely.TestConfig.Steps.{
  Call, feature_test, disabled_rollout, experiment, variation, ab_test, run,
}
use inspiring_vacations_agen.Optimizely.TestConfig.Shared.{
  IsOff, add_disabled_feature_rollout-IsOff,
}
use inspiring_vacations_agen.Optimizely.TestConfig.Issued.{IsKept, created, run_all, run_all-IsKept}
use inspiring_vacations_agen.Optimizely.TestConfig.New.{AreDistinct, IsUnused}
use inspiring_vacations_agen.Optimizely.TestConfig.Keys.{get_experiment_by_key-run_all}
use inspiring_vacations_agen.Optimizely.TestConfig.Traffic.{get_experiment_by_key-add_experiment}
use inspiring_vacations_agen.Optimizely.TestConfig.Lost.{
  get_experiment_by_key-add_experiment_with_variations,
}
use inspiring_vacations_agen.Optimizely.TestConfig.Bags.{IsRanged, getters-IsRanged}

program : Unit {0}
unfolding lookup insert itoa new_config get_next_id make_map read_map get_experiment_by_key
    get_variable_by_key get_feature_by_key get_events found at add_event add_experiment
    add_experiment_with_variations add_feature_rollout add_feature_test experiment_of variation_of
    variation_map variation_keys allocate end_of_range keyed add_feature
    add_disabled_feature_rollout feature_at first_variations each_variation write_map disable run
    run_all
program = tt

-- All entities are their keys.
abbrev named : Entities
named = record {
  Attribute = String;
  Audience = String;
  Event = String;
  Group = String;
  Integration = String;
  Variable = String;
  audience_id = λ a. a;
  event_key = λ e. e;
  variable_id = λ v. v;
  no_attribute = "";
  no_audience = "";
  no_event = "";
  no_group = "";
  no_variable = "";
}

abbrev flag : Feature named
flag = record {
  key = "flag";
  feature_experiments = [];
  rollout = record { id = ""; experiments = [] };
  variable_map = ("size", "large") ∷ [];
}

abbrev variation_named : String → String → Variation
variation_named key id = record { key = key; id = id; feature_enabled = false; variables = [] }

abbrev three : List Variation
three = variation_named "a" "v1" ∷ variation_named "b" "v2" ∷ variation_named "c" "v3" ∷ []

abbrev empty : TestProjectConfig named
empty = new_config

abbrev calls : List (Call named)
calls = feature_test flag ∷ experiment "exp" three ∷ disabled_rollout flag ∷ []

abbrev more : List (Call named)
more = variation "new" ∷ ab_test "ab" "a" "b" ∷ disabled_rollout flag ∷ calls

-- Ten calls give identifiers of two digits.
second_digit : (get_next_id (record empty { next_id = 9 })).0 ≡ "10"
unfolding program
second_digit = refl

-- A feature test is not among the keys of experiments.
untold :
    (get_experiment_by_key (add_feature_test empty flag) "1").1
    ≡ some "Experiment with key \"1\" not found"
unfolding program
untold = refl

-- The variable of a feature is not found under its key.
unfound :
    (get_variable_by_key (add_feature empty flag) "flag" "size")
    ≡ ("", some "variable with key flag not found")
unfolding program
unfound = refl

add_disabled_feature_rollout-IsOff_example :
    (d : TestProjectConfig named) × (r : Rollout) × (add_disabled_feature_rollout empty flag
      ≡ some d)
    × (get_feature_by_key d "flag" ≡ (record flag { rollout = r }, none))
    × (lookup r.id d.rollout_map ≡ some r)
    × IsOff d r
add_disabled_feature_rollout-IsOff_example = add_disabled_feature_rollout-IsOff empty flag

run_all-IsKept_example :
    (c : TestProjectConfig named) × (d : TestProjectConfig named) × (run_all calls empty ≡ some c)
    × (run_all more c ≡ some d)
    × IsKept c d
    × AreDistinct (created calls empty ++ created more c)
    × ((id : String) → Elem id (created calls empty ++ created more c) → IsUnused id d)
run_all-IsKept_example = run_all-IsKept calls more

abbrev told : TestProjectConfig named
unfolding program
told = add_experiment empty "exp" three

abbrev entry : Experiment
unfolding program
entry = (get_experiment_by_key told "exp").0

get_experiment_by_key-run_all_example :
    (entry.key ≡ "exp") × (lookup entry.id told.experiment_map ≡ some entry)
unfolding program
get_experiment_by_key-run_all_example =
    get_experiment_by_key-run_all (experiment "exp" three ∷ []) told "exp" entry refl refl

get_experiment_by_key-add_experiment_example :
    (e : Experiment) × (get_experiment_by_key (add_experiment empty "exp" three) "exp" ≡ (e, none))
    × (lookup "v2" (read_map e.variations (add_experiment empty "exp" three))
        ≡ some (variation_named "b" "v2"))
    × (lookup "b" e.variation_key_to_id_map ≡ some "v2")
    × (get_elem? e.traffic_allocation 1 ≡ some (record { entity_id = "v2"; end_of_range = 6666 }))
    × (6666 ≤ 10000)
    × (10000 < 9999 + 3)
get_experiment_by_key-add_experiment_example =
    get_experiment_by_key-add_experiment empty "exp" three 1 (variation_named "b" "v2")
      (
        (
          (λ e. ground (arith, eq_iff "b" "a", e), λ e. ground (arith, eq_iff "v2" "v1", e)),
          ((λ e. ground (arith, eq_iff "c" "a", e), λ e. ground (arith, eq_iff "v3" "v1", e)), tt),
        ),
        (
          ((λ e. ground (arith, eq_iff "c" "b", e), λ e. ground (arith, eq_iff "v3" "v2", e)), tt),
          (tt, tt),
        ),
      )
      refl

get_experiment_by_key-add_experiment_with_variations_example :
    (e : Experiment) × (v : Variation) × (get_experiment_by_key
        (add_experiment_with_variations empty "exp" ("a" ∷ "b" ∷ []))
        "exp"
      ≡ (e, none))
    × (v.key ≡ "b")
    × (read_map e.variations (add_experiment_with_variations empty "exp" ("a" ∷ "b" ∷ []))
        ≡ ("", v) ∷ [])
    × All (λ r. r.entity_id ≡ "") e.traffic_allocation
get_experiment_by_key-add_experiment_with_variations_example =
    get_experiment_by_key-add_experiment_with_variations empty "exp" "a" ("b" ∷ [])

abbrev two_events : TestProjectConfig named
unfolding program
two_events = add_event (add_event empty "click") "buy"

getters-IsRanged_example :
    IsRanged two_events.attribute_map (get_attributes two_events)
    × IsRanged two_events.event_map (get_events two_events)
    × IsRanged two_events.feature_map (get_feature_list two_events)
    × IsRanged two_events.experiment_map (get_experiment_list two_events)
    × IsRanged two_events.rollout_map (get_rollout_list two_events)
    × IsRanged two_events.audience_map (get_audience_list two_events)
unfolding program
getters-IsRanged_example = getters-IsRanged two_events tt (refl, (refl, tt)) tt tt tt tt
