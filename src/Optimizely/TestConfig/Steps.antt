-- ===== src/Optimizely/TestConfig/Steps.antt =====
-- The calls that build a configuration up, one after the other, and what each does to the store.
use inspiring_vacations_agen.Common.{
  ℕ, ◌+◌, ◌<◌, ◌≤◌, ◌≡◌, ◌⊎◌, inl, inr, refl, Option, some, List, [], ◌∷◌, ◌++◌, String,
  append_assoc, append-nil, string_eq, itoa, arith,
}
use inspiring_vacations_agen.Common.Dict.{Dict, insert}
use inspiring_vacations_agen.Optimizely.TestConfig.{
  Entities, Variation, Experiment, Rollout, Feature, TestProjectConfig, get_next_id, make_map,
}
use inspiring_vacations_agen.Optimizely.TestConfig.Adders.{
  add_event, add_feature, add_audience, add_flag_variation, add_feature_test, add_feature_rollout,
  add_experiment, create_variation, add_multi_variation_feature_test, add_multi_variation_ab_test,
  experiment_of,
}
use inspiring_vacations_agen.Optimizely.TestConfig.Loops.{
  add_disabled_feature_rollout, add_feature_test_with_custom_variable_value,
}
use inspiring_vacations_agen.Optimizely.TestConfig.Shared.{
  add_disabled_feature_rollout_lem, add_feature_test_with_custom_variable_value_lem,
}

-- The methods that change the configuration, with their arguments.
pub data Call (S : Entities) : Type 0 where
  event : S.Event → Call S
  audience : S.Audience → Call S
  feature feature_test feature_rollout disabled_rollout : Feature S → Call S
  flag_variation : Feature S → Variation → Call S
  custom_test : Feature S → S.Variable → String → Call S
  experiment : String → List Variation → Call S
  variation : String → Call S
  two_variations : Feature S → String → String → Call S
  ab_test : String → String → String → Call S

-- `Added lo hi m n`: `n` is `m`, or has one new entry, under an identifier from `lo + 1` to `hi`.
abbrev pub Added : {V : Type 0} → ℕ → ℕ → Dict String V → Dict String V → Type 0
Added lo hi m n = (n ≡ m) ⊎ ((k : ℕ) × (v : _) × (lo < k) × (k ≤ hi) × (n ≡ insert (itoa k) v m))

module _ {S : Entities} where
  -- `none` is a panic.
  unfoldable pub run : Call S → TestProjectConfig S → Option (TestProjectConfig S)
  run (event e) c = some (add_event c e)
  run (audience a) c = some (add_audience c a)
  run (feature f) c = some (add_feature c f)
  run (feature_test f) c = some (add_feature_test c f)
  run (feature_rollout f) c = some (add_feature_rollout c f)
  run (disabled_rollout f) c = add_disabled_feature_rollout c f
  run (flag_variation f v) c = some (add_flag_variation c f v)
  run (custom_test f v value) c = add_feature_test_with_custom_variable_value c f v value
  run (experiment key vs) c = some (add_experiment c key vs)
  run (variation key) c = some ((create_variation c key).1)
  run (two_variations f off on) c = some (add_multi_variation_feature_test c f off on)
  run (ab_test key a b) c = some (add_multi_variation_ab_test c key a b)

  -- ExperimentKeyToIDMap is as before, or leads to an experiment that is added under a new
  -- identifier.
  abbrev pub Keyed : TestProjectConfig S → TestProjectConfig S → Type 0
  Keyed c d =
      (d.experiment_key_to_id_map ≡ c.experiment_key_to_id_map)
      ⊎ ((k : ℕ) × (e : Experiment) × (c.next_id < k)
          × (d.experiment_map ≡ insert (itoa k) e c.experiment_map)
          × (d.experiment_key_to_id_map ≡ insert e.key (itoa k) c.experiment_key_to_id_map)
          × (e.id ≡ itoa k))

  -- What a call does to the identifiers, the experiments, the rollouts and the heap.
  pub record Grows (c d : TestProjectConfig S) : Type 0 where
    pub counted : c.next_id ≤ d.next_id
    pub experiments : Added c.next_id d.next_id c.experiment_map d.experiment_map
    pub rollouts : Added c.next_id d.next_id c.rollout_map d.rollout_map
    pub keyed : Keyed c d
    pub made : List (Dict String Variation)
    pub appended : d.heap ≡ c.heap ++ made

  same_store :
      (c d : TestProjectConfig S)
      → c.next_id ≤ d.next_id
      → d.experiment_map ≡ c.experiment_map
      → d.rollout_map ≡ c.rollout_map
      → d.experiment_key_to_id_map ≡ c.experiment_key_to_id_map
      → d.heap ≡ c.heap
      → Grows c d
  same_store c d n e r ks h = record {
    counted = n;
    experiments = inl e;
    rollouts = inl r;
    keyed = inl ks;
    made = [];
    appended = rw (h, append-nil) refl;
  }

  new_rollout :
      (c d : TestProjectConfig S) (k : ℕ) (r : Rollout) (m : Dict String Variation)
      → c.next_id < k
      → k ≤ d.next_id
      → d.experiment_map ≡ c.experiment_map
      → d.rollout_map ≡ insert (itoa k) r c.rollout_map
      → d.experiment_key_to_id_map ≡ c.experiment_key_to_id_map
      → d.heap ≡ c.heap ++ (m ∷ [])
      → Grows c d
  new_rollout c d k r m above below e added ks h = record {
    counted = omega arith;
    experiments = inl e;
    rollouts = inr (k, r, above, below, added);
    keyed = inl ks;
    made = m ∷ [];
    appended = h;
  }

  new_experiment :
      (c d : TestProjectConfig S) (k : ℕ) (e : Experiment) (m : Dict String Variation)
      → c.next_id < k
      → k ≤ d.next_id
      → d.experiment_map ≡ insert (itoa k) e c.experiment_map
      → d.rollout_map ≡ c.rollout_map
      → Keyed c d
      → d.heap ≡ c.heap ++ (m ∷ [])
      → Grows c d
  new_experiment c d k e m above below added r ks h = record {
    counted = omega arith;
    experiments = inr (k, e, above, below, added);
    rollouts = inl r;
    keyed = ks;
    made = m ∷ [];
    appended = h;
  }

  -- No call panics.
  pub run-Grows :
      (call : Call S) (c : TestProjectConfig S)
      → (d : TestProjectConfig S) × (run call c ≡ some d) × Grows c d
  unfolding run add_event add_audience add_feature add_flag_variation add_feature_test
      add_feature_rollout add_experiment create_variation add_multi_variation_feature_test
      add_multi_variation_ab_test get_next_id make_map experiment_of
  run-Grows (event e) c = (_, refl, same_store _ _ (omega arith) refl refl refl refl)
  run-Grows (audience a) c = (_, refl, same_store _ _ (omega arith) refl refl refl refl)
  run-Grows (feature f) c = (_, refl, same_store _ _ (omega arith) refl refl refl refl)
  run-Grows (flag_variation f v) c = (_, refl, same_store _ _ (omega arith) refl refl refl refl)
  run-Grows (variation key) c = (_, refl, same_store _ _ (omega arith) refl refl refl refl)
  run-Grows (feature_rollout f) c = (
    _,
    refl,
    new_rollout _ _ (c.next_id + 1 + 1) _ _ (omega arith) (omega arith) refl refl refl refl,
  )
  run-Grows (disabled_rollout f) c = (
    _,
    add_disabled_feature_rollout_lem c f,
    new_rollout _ _ (c.next_id + 1 + 1) _ _ (omega arith) (omega arith) refl refl refl refl,
  )
  run-Grows (feature_test f) c = (
    _,
    refl,
    new_experiment _ _ (c.next_id + 1) _ _ (omega arith) (omega arith) refl refl (inl refl) refl,
  )
  run-Grows (experiment key vs) c = (
    _,
    refl,
    new_experiment _ _ (c.next_id + 1) _ _ (omega arith) (omega arith) refl refl
        (inr (c.next_id + 1, _, omega arith, refl, refl, refl)) refl,
  )
  run-Grows (two_variations f off on) c = (
    _,
    refl,
    new_experiment _ _ (c.next_id + 1) _ _ (omega arith) (omega arith) refl refl
        (inr (c.next_id + 1, _, omega arith, refl, refl, refl)) refl,
  )
  run-Grows (ab_test key a b) c = (
    _,
    refl,
    new_experiment _ _ (c.next_id + 1 + 1 + 1) _ _ (omega arith) (omega arith) refl refl
        (inr (c.next_id + 1 + 1 + 1, _, omega arith, refl, refl, refl)) refl,
  )
  run-Grows (custom_test f v value) c = (
    _,
    add_feature_test_with_custom_variable_value_lem c f v value,
    record {
      counted = omega arith;
      experiments = inr (c.next_id + 1 + 1 + 1 + 1 + 1, _, omega arith, omega arith, refl);
      rollouts = inr (c.next_id + 1 + 1, _, omega arith, omega arith, refl);
      keyed = inl refl;
      made = _;
      appended = append_assoc c.heap _ _;
    },
  )
