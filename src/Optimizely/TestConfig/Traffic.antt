-- ===== src/Optimizely/TestConfig/Traffic.antt =====
-- AddExperiment: the variations it stores and the traffic it gives to each.
use native.Mathlib.Nat.{div-mul-le_self, lt-div-mul-add, mul-le-mul_left}
use inspiring_vacations_agen.Common.{
  ℕ, ◌+◌, ◌*◌, ◌/◌, ◌<◌, ◌≤◌, ◌≡◌, ◌≢◌, refl, ◌∙◌, Option, none, some, List, [], ◌∷◌, String,
  length, get_elem?, string_eq, ap, some_inj, itoa, arith, eq_iff, All, zero, suc,
}
use inspiring_vacations_agen.Common.Dict
use inspiring_vacations_agen.Common.Dict.{Dict, insert, lookup}
use inspiring_vacations_agen.Optimizely.TestConfig.{
  Entities, Variation, Range, Experiment, TestProjectConfig, get_next_id, make_map, read_map,
}
use inspiring_vacations_agen.Optimizely.TestConfig.Getters.{get_experiment_by_key, at}
use inspiring_vacations_agen.Optimizely.TestConfig.Adders.{
  add_experiment, allocate, end_of_range, variation_map, variation_keys,
}
use inspiring_vacations_agen.Optimizely.TestConfig.Shared.{get_elem?-length}

-- No two variations have a key or an identifier in common.
abbrev pub AreDistinct : List Variation → Type 0
AreDistinct [] = Unit
AreDistinct (v ∷ vs) = All (λ w. (w.key ≢ v.key) × (w.id ≢ v.id)) vs × AreDistinct vs

lookup-variation_map :
    (vs : List Variation) (m : Dict String Variation) (w : Variation)
    → All (λ v. (v.key ≢ w.key) × (v.id ≢ w.id)) vs
    → lookup w.id (variation_map vs m) ≡ lookup w.id m
unfolding variation_map
lookup-variation_map [] m w new = refl
lookup-variation_map (v ∷ vs) m w ((k, i), new) =
    rw (variation_map, lookup-variation_map vs (insert v.id v m) w new, Dict.lookup-insert)
      (ground (arith, eq_iff v.id w.id, i))

lookup-variation_keys :
    (vs : List Variation) (m : Dict String String) (w : Variation)
    → All (λ v. (v.key ≢ w.key) × (v.id ≢ w.id)) vs
    → lookup w.key (variation_keys vs m) ≡ lookup w.key m
unfolding variation_keys
lookup-variation_keys [] m w new = refl
lookup-variation_keys (v ∷ vs) m w ((k, i), new) =
    rw (variation_keys, lookup-variation_keys vs (insert v.key v.id m) w new, Dict.lookup-insert)
      (ground (arith, eq_iff v.key w.key, k))

-- The variation at a place is found by its identifier, and its identifier by its key.
stored :
    (vs : List Variation) (m : Dict String Variation) (ks : Dict String String) (i : ℕ)
    (w : Variation)
    → AreDistinct vs
    → get_elem? vs i ≡ some w
    → (lookup w.id (variation_map vs m) ≡ some w)
      × (lookup w.key (variation_keys vs ks) ≡ some w.id)
unfolding variation_map variation_keys
stored [] m ks i w distinct h = absurd (ground arith)
stored (v ∷ vs) m ks zero w (new, distinct) h =
    let e : v ≡ w = some_inj h in
    let new_w : All (λ u. (u.key ≢ w.key) × (u.id ≢ w.id)) vs = rw⁻¹ (e) new in
    rw
      (
        e,
        lookup-variation_map vs (insert w.id w m) w new_w,
        lookup-variation_keys vs (insert w.key w.id ks) w new_w,
        Dict.lookup-insert_same w.id,
        Dict.lookup-insert_same w.key,
      )
      (refl, refl)
stored (v ∷ vs) m ks (suc i) w (new, distinct) h =
    stored vs (insert v.id v m) (insert v.key v.id ks) i w distinct h

range : Variation → ℕ → ℕ → Option Range
range w n k = some (record { entity_id = w.id; end_of_range = end_of_range n k })

get_elem?-allocate :
    (n j : ℕ) (vs : List Variation) (i : ℕ) (w : Variation)
    → get_elem? vs i ≡ some w
    → get_elem? (allocate n j vs) i ≡ range w n (j + i)
unfolding allocate end_of_range range
get_elem?-allocate n j [] i w h = absurd (ground arith)
get_elem?-allocate n j (v ∷ vs) zero w h = rw (some_inj h) (ground arith)
get_elem?-allocate n j (v ∷ vs) (suc i) w h =
    rw (get_elem?-allocate n (suc j) vs i w h) (ap (range w n) (omega arith))

get_elem?-lt : {A : Type 0} (xs : List A) (i : ℕ) (x : A) → get_elem? xs i ≡ some x → i < length xs
get_elem?-lt [] i x h = absurd (ground arith)
get_elem?-lt (y ∷ xs) zero x h = omega arith
get_elem?-lt (y ∷ xs) (suc i) x h = omega (arith, get_elem?-lt xs i x h)

-- The share of `n` variations, in ten-thousandths.
share_bounds : (n i : ℕ) → i < n → (10000 / n * (i + 1) ≤ 10000) × (10000 < 10000 / n * n + n)
share_bounds n i h =
    let fits : 10000 / n * n ≤ 10000 = div-mul-le_self 10000 n in
    let below : 10000 / n * (i + 1) ≤ 10000 / n * n = mul-le-mul_left (10000 / n) (omega arith) in
    (omega arith, lt-div-mul-add (omega arith))

module _ {S : Entities} where
  -- After AddExperiment with variations of distinct keys and identifiers, GetExperimentByKey
  -- returns the experiment, without an error. Of `n` variations the one at a place `i` is found in
  -- it by its identifier, its identifier by its key, and the range at `i` is the variation's and
  -- ends at `10000 / n * (i + 1)`, at most 10000; so all have the same share, and less than `n` of
  -- the 10000 parts go to none.
  pub get_experiment_by_key-add_experiment :
      (c : TestProjectConfig S) (key : String) (vs : List Variation) (i : ℕ) (v : Variation)
      → AreDistinct vs
      → get_elem? vs i ≡ some v
      → let d = add_experiment c key vs in
        let n = length vs in
        (e : Experiment) × (get_experiment_by_key d key ≡ (e, none))
        × (lookup v.id (read_map e.variations d) ≡ some v)
        × (lookup v.key e.variation_key_to_id_map ≡ some v.id)
        × (get_elem? e.traffic_allocation i
            ≡ some (record { entity_id = v.id; end_of_range = 10000 / n * (i + 1) }))
        × (10000 / n * (i + 1) ≤ 10000)
        × (10000 < 10000 / n * n + n)
  unfolding add_experiment get_experiment_by_key get_next_id make_map read_map at end_of_range range
  get_experiment_by_key-add_experiment c key vs i v distinct h =
      let bounds = share_bounds (length vs) i (get_elem?-lt vs i v h) in
      let (by_id, by_key) = stored vs [] [] i v distinct h in
      let e : Experiment = record {
        key = key;
        id = itoa (c.next_id + 1);
        layer_id = itoa (c.next_id + 1 + 1);
        variations = some (length c.heap);
        variation_key_to_id_map = variation_keys vs [];
        traffic_allocation = allocate (length vs) 0 vs;
      } in
      (
        e,
        rw (get_experiment_by_key, Dict.lookup-insert_same, at, Dict.lookup-insert_same) refl,
        rw (read_map, get_elem?-length) by_id,
        by_key,
        get_elem?-allocate (length vs) 0 vs i v h ∙ ap (range v (length vs)) (omega arith),
        bounds.0,
        bounds.1,
      )
