-- ===== src/Optimizely/TestConfig/Shared.antt =====
-- The variations that the rollout of a feature and the map of rollouts share.
use inspiring_vacations_agen.Common.{
  ◌+◌, ◌≡◌, refl, false, none, some, List, [], ◌∷◌, ◌++◌, String, length, get_elem?, string_eq,
  itoa, eq_refl,
}
use inspiring_vacations_agen.Common.Dict
use inspiring_vacations_agen.Common.Dict.{Dict, insert, lookup}
use inspiring_vacations_agen.Optimizely.TestConfig.{
  Entities, Variation, VariationVariable, Experiment, Rollout, Feature, TestProjectConfig,
  get_next_id, make_map, read_map, set_at,
}
use inspiring_vacations_agen.Optimizely.TestConfig.Adders.{
  add_feature_rollout, add_feature_test, variation_of, experiment_of,
}
use inspiring_vacations_agen.Optimizely.TestConfig.Getters.{get_feature_by_key, found}
use inspiring_vacations_agen.Optimizely.TestConfig.Loops.{
  disable, customize, each_variation, feature_at, write_map, first_variations,
  add_disabled_feature_rollout, add_feature_test_with_custom_variable_value,
}

module _ {ℓ} {A : Type ℓ} where
  pub get_elem?-length : (h : List A) (x : A) → get_elem? (h ++ (x ∷ [])) (length h) ≡ some x
  get_elem?-length [] x = refl
  get_elem?-length (y ∷ h) x = get_elem?-length h x

  pub set_at-length : (h : List A) (x y : A) → set_at (length h) y (h ++ (x ∷ [])) ≡ h ++ (y ∷ [])
  set_at-length [] x y = refl
  set_at-length (z ∷ h) x y = rw (set_at-length h x y) refl

module _ {S : Entities} where
  -- The loop over the variations of an experiment that holds the one map made last.
  first_variations_lem :
      (g : Variation → Variation) (h : List (Dict String Variation)) (v : Variation)
      (c : TestProjectConfig S) (e : Experiment) (es : List Experiment)
      → (g v).id ≡ v.id
      → c.heap ≡ h ++ (((v.id, v) ∷ []) ∷ [])
      → e.variations ≡ some (length h)
      → first_variations g (e ∷ es) c ≡ some (record c { heap = h ++ (((v.id, g v) ∷ []) ∷ []) })
  unfolding first_variations read_map each_variation write_map insert
  first_variations_lem g h v c e es same made at_last =
      rw
        (
          at_last, made, read_map, get_elem?-length, each_variation, insert, same, eq_refl,
          set_at-length,
        )
        refl

  feature_at-insert :
      (f : Feature S) (c : TestProjectConfig S) (m : Dict String (Feature S))
      → c.feature_map ≡ insert f.key f m
      → feature_at f.key c ≡ f
  unfolding feature_at
  feature_at-insert f c m e = rw (e, feature_at, Dict.lookup-insert, eq_refl) refl

  pub add_disabled_feature_rollout_lem :
      (c : TestProjectConfig S) (f : Feature S)
      → let id = itoa (c.next_id + 1 + 1 + 1) in
        add_disabled_feature_rollout c f
        ≡ some (record (add_feature_rollout c f) {
          heap = c.heap ++ (((id, disable (variation_of id)) ∷ []) ∷ []);
        })
  unfolding add_disabled_feature_rollout add_feature_rollout get_next_id make_map experiment_of
      variation_of disable
  add_disabled_feature_rollout_lem c f =
      let n = c.next_id in
      let e =
        experiment_of (itoa (n + 1)) (itoa (n + 1 + 1 + 1)) (itoa (n + 1 + 1 + 1 + 1))
          (some (length c.heap)) in
      rw
        (add_disabled_feature_rollout, add_feature_rollout, feature_at, Dict.lookup-insert, eq_refl)
        (first_variations_lem disable c.heap (variation_of (itoa (n + 1 + 1 + 1)))
          (add_feature_rollout c f) e [] refl refl refl)

  pub add_feature_test_with_custom_variable_value_lem :
      (c : TestProjectConfig S) (f : Feature S) (v : S.Variable) (value : String)
      → let c1 = add_feature_rollout c f in
        let id = itoa (c1.next_id + 1 + 1) in
        let values : Dict String VariationVariable =
          (S.variable_id v, record { id = S.variable_id v; value = value }) ∷ [] in
        add_feature_test_with_custom_variable_value c f v value
        ≡ some (record (add_feature_test c1 f) {
          heap = c1.heap ++ (((id, customize values (variation_of id)) ∷ []) ∷ []);
        })
  unfolding add_feature_test_with_custom_variable_value add_feature_test get_next_id make_map
      experiment_of variation_of customize
  add_feature_test_with_custom_variable_value_lem c f v value =
      let c1 = add_feature_rollout c f in
      let n = c1.next_id in
      let values : Dict String VariationVariable =
        (S.variable_id v, record { id = S.variable_id v; value = value }) ∷ [] in
      let e =
        experiment_of (itoa (n + 1)) (itoa (n + 1 + 1)) (itoa (n + 1 + 1 + 1))
          (some (length c1.heap)) in
      rw
        (
          add_feature_test_with_custom_variable_value, add_feature_test, feature_at,
          Dict.lookup-insert, eq_refl,
        )
        (first_variations_lem (customize values) c1.heap (variation_of (itoa (n + 1 + 1)))
          (add_feature_test c1 f) e [] refl refl refl)

  -- What the feature of a disabled rollout shows: one experiment, whose traffic goes to one
  -- variation, in which the feature is off.
  abbrev pub IsOff : TestProjectConfig S → Rollout → Type 0
  IsOff c r =
      (e : Experiment) × (v : Variation) × (r.experiments ≡ e ∷ [])
      × (read_map e.variations c ≡ (v.id, v) ∷ [])
      × (v.feature_enabled ≡ false)
      × (e.traffic_allocation ≡ record { entity_id = v.id; end_of_range = 10000 } ∷ [])

  -- AddDisabledFeatureRollout does not panic, whatever was added before. Afterwards the feature is
  -- found under its key, with a rollout that RolloutMap holds too; and read through either, the
  -- rollout sends all traffic to one variation, in which the feature is off.
  pub add_disabled_feature_rollout-IsOff :
      (c : TestProjectConfig S) (f : Feature S)
      → (d : TestProjectConfig S) × (r : Rollout) × (add_disabled_feature_rollout c f ≡ some d)
        × (get_feature_by_key d f.key ≡ (record f { rollout = r }, none))
        × (lookup r.id d.rollout_map ≡ some r)
        × IsOff d r
  unfolding add_feature_rollout get_feature_by_key found get_next_id make_map experiment_of
      variation_of read_map disable
  add_disabled_feature_rollout-IsOff c f =
      let n = c.next_id in
      let e =
        experiment_of (itoa (n + 1)) (itoa (n + 1 + 1 + 1)) (itoa (n + 1 + 1 + 1 + 1))
          (some (length c.heap)) in
      let r : Rollout = record { id = itoa (n + 1 + 1); experiments = e ∷ [] } in
      let v = disable (variation_of (itoa (n + 1 + 1 + 1))) in
      (
        _,
        r,
        add_disabled_feature_rollout_lem c f,
        rw (Dict.lookup-insert, eq_refl) refl,
        rw (Dict.lookup-insert, eq_refl) refl,
        (e, v, refl, rw (read_map, get_elem?-length) refl, refl, refl),
      )
