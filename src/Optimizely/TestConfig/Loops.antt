-- ===== src/Optimizely/TestConfig/Loops.antt =====
-- The methods of TestProjectConfig that change the variations of what another method has added.
use inspiring_vacations_agen.Common.{ℕ, false, Option, none, some, List, [], ◌∷◌, String, string_eq}
use inspiring_vacations_agen.Common.Dict.{Dict, insert, lookup}
use inspiring_vacations_agen.Optimizely.TestConfig.{
  Entities, Variation, VariationVariable, Experiment, Feature, TestProjectConfig, no_feature,
  read_map, set_at,
}
use inspiring_vacations_agen.Optimizely.TestConfig.Adders.{add_feature_rollout, add_feature_test}

unfoldable pub disable : Variation → Variation
disable v = record v { feature_enabled = false }

unfoldable pub customize : Dict String VariationVariable → Variation → Variation
customize values v = record v { variables = values }

-- `for _, variation := range variations { ...; variations[variation.ID] = variation }`, over the
-- entries that the map has before the loop: no round adds a key, as a variation stands under its
-- ID.
unfoldable pub each_variation :
    (Variation → Variation) → Dict String Variation → Dict String Variation → Dict String Variation
each_variation g [] m = m
each_variation g ((k, v) ∷ rest) m = let w = g v in each_variation g rest (insert w.id w m)

module _ {S : Entities} where
  -- `c.FeatureMap[key]`
  unfoldable pub feature_at : String → TestProjectConfig S → Feature S
  feature_at key c = elim (lookup key c.feature_map) [ none ↦ no_feature | some f ↦ f ]

  unfoldable pub write_map :
      Option ℕ → Dict String Variation → TestProjectConfig S → TestProjectConfig S
  write_map none m c = c
  write_map (some a) m c = record c { heap = set_at a m c.heap }

  -- The loop over `experiments[0].Variations`; `none` is the panic where there is no experiment.
  unfoldable pub first_variations :
      (Variation → Variation) → List Experiment → TestProjectConfig S → Option (TestProjectConfig S)
  unfolding read_map each_variation write_map
  first_variations g [] c = none
  first_variations g (e ∷ es) c =
      let m = read_map e.variations c in some (write_map e.variations (each_variation g m m) c)

  unfoldable pub add_disabled_feature_rollout :
      TestProjectConfig S → Feature S → Option (TestProjectConfig S)
  unfolding add_feature_rollout feature_at first_variations disable
  add_disabled_feature_rollout c f =
      let c1 = add_feature_rollout c f in
      let experiments = (feature_at f.key c1).rollout.experiments in
      first_variations disable experiments c1

  unfoldable pub add_feature_test_with_custom_variable_value :
      TestProjectConfig S → Feature S → S.Variable → String → Option (TestProjectConfig S)
  unfolding add_feature_rollout add_feature_test feature_at first_variations customize
  add_feature_test_with_custom_variable_value c feature variable custom_value =
      let c1 = add_feature_rollout c feature in
      let c2 = add_feature_test c1 feature in
      let experiments = (feature_at feature.key c2).feature_experiments in
      let id = S.variable_id variable in
      let values : Dict String VariationVariable =
        (id, record { id = id; value = custom_value }) ∷ [] in
      first_variations (customize values) experiments c2
