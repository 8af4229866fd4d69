-- ===== src/Optimizely/TestConfig/Adders.antt =====
-- The methods of TestProjectConfig that add entities.
use inspiring_vacations_agen.Common.{
  ℕ, ◌+◌, ◌*◌, ◌/◌, true, false, Option, List, [], ◌∷◌, String, length, string_eq, suc,
}
use inspiring_vacations_agen.Common.Dict.{Dict, insert}
use inspiring_vacations_agen.Optimizely.TestConfig.{
  Entities, Variation, Range, Experiment, Rollout, Feature, TestProjectConfig, get_next_id,
  make_map,
}

-- An experiment with the one variation `variation_id`, which takes all traffic.
-- The literals `variation` and `experiment` of `AddFeatureTest` and `AddFeatureRollout`.
unfoldable pub variation_of : String → Variation
variation_of id = record { key = id; id = id; feature_enabled = true; variables = [] }

unfoldable pub experiment_of :
    (experiment_id variation_id layer_id : String) (variations : Option ℕ) → Experiment
experiment_of experiment_id variation_id layer_id variations = record {
  key = experiment_id;
  layer_id = layer_id;
  id = experiment_id;
  variations = variations;
  variation_key_to_id_map = (variation_id, variation_id) ∷ [];
  traffic_allocation = record { entity_id = variation_id; end_of_range = 10000 } ∷ [];
}

-- The loop of `AddExperiment` from the round `i` on, of `n` variations: the two maps and the
-- ranges.
unfoldable pub end_of_range : (n i : ℕ) → ℕ
end_of_range n i = 10000 / n * (i + 1)

unfoldable pub variation_map : List Variation → Dict String Variation → Dict String Variation
variation_map [] m = m
variation_map (v ∷ vs) m = variation_map vs (insert v.id v m)

unfoldable pub variation_keys : List Variation → Dict String String → Dict String String
variation_keys [] m = m
variation_keys (v ∷ vs) m = variation_keys vs (insert v.key v.id m)

unfoldable pub allocate : (n i : ℕ) → List Variation → List Range
unfolding end_of_range
allocate n i [] = []
allocate n i (v ∷ vs) =
    record { entity_id = v.id; end_of_range = end_of_range n i } ∷ allocate n (suc i) vs

-- The variations of AddExperimentWithVariations, which sets nothing but the key.
unfoldable pub keyed : List String → List Variation
keyed [] = []
keyed (k ∷ ks) = record { key = k; id = ""; feature_enabled = false; variables = [] } ∷ keyed ks

module _ {S : Entities} where
  unfoldable pub add_event : TestProjectConfig S → S.Event → TestProjectConfig S
  add_event c e = record c { event_map = insert (S.event_key e) e c.event_map }

  unfoldable pub add_feature : TestProjectConfig S → Feature S → TestProjectConfig S
  add_feature c f = record c { feature_map = insert f.key f c.feature_map }

  unfoldable pub add_audience : TestProjectConfig S → S.Audience → TestProjectConfig S
  add_audience c a = record c { audience_map = insert (S.audience_id a) a c.audience_map }

  unfoldable pub add_flag_variation :
      TestProjectConfig S → Feature S → Variation → TestProjectConfig S
  add_flag_variation c f v = record c { flag_variations_map = (f.key, v ∷ []) ∷ [] }

  unfoldable pub add_feature_test : TestProjectConfig S → Feature S → TestProjectConfig S
  unfolding get_next_id make_map experiment_of variation_of
  add_feature_test c f =
      let (experiment_id, c1) = get_next_id c in
      let (variation_id, c2) = get_next_id c1 in
      let (layer_id, c3) = get_next_id c2 in
      let (variations, c4) = make_map ((variation_id, variation_of variation_id) ∷ []) c3 in
      let experiment = experiment_of experiment_id variation_id layer_id variations in
      let tested = record f { feature_experiments = experiment ∷ [] } in
      record c4 {
        feature_map = insert f.key tested c4.feature_map;
        experiment_map = insert experiment.key experiment c4.experiment_map;
      }

  unfoldable pub add_feature_rollout : TestProjectConfig S → Feature S → TestProjectConfig S
  unfolding get_next_id make_map experiment_of variation_of
  add_feature_rollout c f =
      let (experiment_id, c1) = get_next_id c in
      let (rollout_id, c2) = get_next_id c1 in
      let (variation_id, c3) = get_next_id c2 in
      let (layer_id, c4) = get_next_id c3 in
      let (variations, c5) = make_map ((variation_id, variation_of variation_id) ∷ []) c4 in
      let experiment = experiment_of experiment_id variation_id layer_id variations in
      let rollout : Rollout = record { id = rollout_id; experiments = experiment ∷ [] } in
      record c5 {
        rollout_map = insert rollout_id rollout c5.rollout_map;
        feature_map = insert f.key (record f { rollout = rollout }) c5.feature_map;
      }

  unfoldable pub add_experiment :
      TestProjectConfig S → String → List Variation → TestProjectConfig S
  unfolding get_next_id make_map variation_map variation_keys allocate
  add_experiment c experiment_key variations =
      let (experiment_id, c1) = get_next_id c in
      let (layer_id, c2) = get_next_id c1 in
      let (address, c3) = make_map (variation_map variations []) c2 in
      let experiment : Experiment = record {
        key = experiment_key;
        id = experiment_id;
        layer_id = layer_id;
        variations = address;
        variation_key_to_id_map = variation_keys variations [];
        traffic_allocation = allocate (length variations) 0 variations;
      } in
      record c3 {
        experiment_key_to_id_map = insert experiment_key experiment_id c3.experiment_key_to_id_map;
        experiment_map = insert experiment_id experiment c3.experiment_map;
      }

  -- pkg/optimizely/optimizelytest/client.go: AddExperimentWithVariations
  unfoldable pub add_experiment_with_variations :
      TestProjectConfig S → String → List String → TestProjectConfig S
  unfolding keyed add_experiment
  add_experiment_with_variations c experiment_key variation_keys =
      add_experiment c experiment_key (keyed variation_keys)

  unfoldable pub create_variation : TestProjectConfig S → String → Variation × TestProjectConfig S
  unfolding get_next_id
  create_variation c var_key =
      let (variation_id, c1) = get_next_id c in
      (record { key = var_key; id = variation_id; feature_enabled = false; variables = [] }, c1)

  unfoldable pub add_multi_variation_feature_test :
      TestProjectConfig S → Feature S → (disabled_key enabled_key : String) → TestProjectConfig S
  unfolding get_next_id make_map
  add_multi_variation_feature_test c f disabled_key enabled_key =
      let (experiment_id, c1) = get_next_id c in
      let (disabled_id, c2) = get_next_id c1 in
      let (enabled_id, c3) = get_next_id c2 in
      let (layer_id, c4) = get_next_id c3 in
      let disabled : Variation = record {
        key = disabled_key;
        id = disabled_id;
        feature_enabled = false;
        variables = [];
      } in
      let enabled : Variation = record {
        key = enabled_key;
        id = enabled_id;
        feature_enabled = true;
        variables = [];
      } in
      let (variations, c5) = make_map ((disabled_id, disabled) ∷ (enabled_id, enabled) ∷ []) c4 in
      let half : Range = record { entity_id = disabled_id; end_of_range = 5000 } in
      let all : Range = record { entity_id = disabled_id; end_of_range = 10000 } in
      let experiment : Experiment = record {
        key = experiment_id;
        layer_id = layer_id;
        id = experiment_id;
        variations = variations;
        variation_key_to_id_map = (enabled_key, enabled_id) ∷ [];
        traffic_allocation = half ∷ all ∷ [];
      } in
      let tested = record f { feature_experiments = experiment ∷ [] } in
      record c5 {
        experiment_key_to_id_map = insert experiment_id experiment_id c5.experiment_key_to_id_map;
        experiment_map = insert experiment_id experiment c5.experiment_map;
        feature_map = insert f.key tested c5.feature_map;
      }

  unfoldable pub add_multi_variation_ab_test :
      TestProjectConfig S → (experiment_key key_a key_b : String) → TestProjectConfig S
  unfolding get_next_id make_map create_variation
  add_multi_variation_ab_test c experiment_key key_a key_b =
      let (a, c1) = create_variation c key_a in
      let (b, c2) = create_variation c1 key_b in
      let (variations, c3) = make_map (insert b.id b (insert a.id a [])) c2 in
      let (experiment_id, c4) = get_next_id c3 in
      let (layer_id, c5) = get_next_id c4 in
      let half : Range = record { entity_id = b.id; end_of_range = 5000 } in
      let all : Range = record { entity_id = b.id; end_of_range = 10000 } in
      let experiment : Experiment = record {
        key = experiment_key;
        id = experiment_id;
        layer_id = layer_id;
        variations = variations;
        variation_key_to_id_map = insert b.key b.id (insert a.key a.id []);
        traffic_allocation = half ∷ all ∷ [];
      } in
      record c5 {
        experiment_key_to_id_map = insert experiment_key experiment_id c5.experiment_key_to_id_map;
        experiment_map = insert experiment_id experiment c5.experiment_map;
      }
