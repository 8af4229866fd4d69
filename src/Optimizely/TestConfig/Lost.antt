-- ===== src/Optimizely/TestConfig/Lost.antt =====
-- AddExperimentWithVariations: the variations without identifiers.
use inspiring_vacations_agen.Common.{
  ℕ, ◌+◌, ◌≡◌, refl, false, none, some, List, [], ◌∷◌, String, string_eq, itoa, All, length, suc,
}
use inspiring_vacations_agen.Common.Dict
use inspiring_vacations_agen.Common.Dict.{Dict, insert, lookup}
use inspiring_vacations_agen.Optimizely.TestConfig.{
  Entities, Variation, Experiment, TestProjectConfig, get_next_id, make_map, read_map,
}
use inspiring_vacations_agen.Optimizely.TestConfig.Getters.{get_experiment_by_key, at}
use inspiring_vacations_agen.Optimizely.TestConfig.Adders.{
  add_experiment, add_experiment_with_variations, keyed, allocate, variation_map, variation_keys,
}
use inspiring_vacations_agen.Optimizely.TestConfig.Shared.{get_elem?-length}

-- The last of the keys.
abbrev pub last : String → List String → String
last k [] = k
last k (j ∷ js) = last j js

without_id : String → Variation
without_id k = record { key = k; id = ""; feature_enabled = false; variables = [] }

variation_map-keyed :
    (k : String) (ks : List String)
    → variation_map (keyed ks) (("", without_id k) ∷ []) ≡ ("", without_id (last k ks)) ∷ []
unfolding variation_map keyed without_id insert
variation_map-keyed k [] = refl
variation_map-keyed k (j ∷ js) = variation_map-keyed j js

allocate-keyed :
    (n i : ℕ) (ks : List String) → All (λ r. r.entity_id ≡ "") (allocate n i (keyed ks))
unfolding allocate keyed
allocate-keyed n i [] = tt
allocate-keyed n i (k ∷ ks) = (refl, allocate-keyed n (suc i) ks)

module _ {S : Entities} where
  -- Of the variations that AddExperimentWithVariations is given, one or more, the experiment holds
  -- the last alone, under the empty identifier, which every range of its traffic names.
  pub get_experiment_by_key-add_experiment_with_variations :
      (c : TestProjectConfig S) (key k : String) (ks : List String)
      → let d = add_experiment_with_variations c key (k ∷ ks) in
        (e : Experiment) × (v : Variation) × (get_experiment_by_key d key ≡ (e, none))
        × (v.key ≡ last k ks)
        × (read_map e.variations d ≡ ("", v) ∷ [])
        × All (λ r. r.entity_id ≡ "") e.traffic_allocation
  unfolding add_experiment_with_variations add_experiment get_experiment_by_key get_next_id make_map
      read_map at keyed variation_map without_id insert
  get_experiment_by_key-add_experiment_with_variations c key k ks =
      let vs = keyed (k ∷ ks) in
      let e : Experiment = record {
        key = key;
        id = itoa (c.next_id + 1);
        layer_id = itoa (c.next_id + 1 + 1);
        variations = some (length c.heap);
        variation_key_to_id_map = variation_keys vs [];
        traffic_allocation = allocate (length vs) 0 vs;
      } in
      (
        e,
        without_id (last k ks),
        rw (get_experiment_by_key, Dict.lookup-insert_same, at, Dict.lookup-insert_same) refl,
        refl,
        rw (read_map, get_elem?-length) (variation_map-keyed k ks),
        allocate-keyed (length vs) 0 (k ∷ ks),
      )
