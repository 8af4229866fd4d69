-- ===== src/Handlers/Override/Last.antt =====
-- After any requests the last one for a user and an experiment decides.
use inspiring_vacations_agen.Common.{
  ◌≡◌, ◌≢◌, refl, ap, ◌∙◌, ◌⊎◌, inl, inr, true, false, ◌&&◌, ◌||◌, Option, none, some, List, [],
  ◌∷◌, String, ◌==◌, eq_iff, if◌then◌else◌, string_eq, arith, Bool-cases, Option-cases,
}
use inspiring_vacations_agen.Optimizely.Client.{
  OverridesStore, OverrideKey, Override, OptimizelyConfig, set_forced_variation,
  remove_forced_variation,
}
use inspiring_vacations_agen.Handlers.Body.{json}
use inspiring_vacations_agen.Handlers.Override.{OverrideBody, override_parsed}

-- The variation that a body leaves for a key, given the one before it.
unfoldable pub effect : OverrideKey → OverrideBody → Option String → Option String
effect k b before =
    if b.user_id == "" || b.experiment_key == ""
    then before
    else if b.user_id == k.user_id && b.experiment_key == k.experiment_key
    then (if b.variation_key == "" then none else some b.variation_key)
    else before

unfoldable pub effects : OverrideKey → List OverrideBody → Option String → Option String
effects k [] before = before
effects k (b ∷ bs) before = effects k bs (effect k b before)

module _ (O : OverridesStore) {Variation Feature : Type 0}
    (conf : Option (OptimizelyConfig Variation Feature)) where
  open O use {
    Store, get_variation, set_variation, remove_variation, get-set, get-set_other, get-remove,
    get-remove_other,
  }

  unfoldable pub override_all : List OverrideBody → Option Store → Option Store
  override_all [] store = store
  override_all (b ∷ bs) store = override_all bs (override_parsed O conf store b).0

  same_key :
      (b : OverrideBody) (k : OverrideKey)
      → (b.user_id == k.user_id && b.experiment_key == k.experiment_key) ≡ true
      → record { user_id = b.user_id; experiment_key = b.experiment_key } ≡ k
  same_key b k h =
      ground (arith, eq_iff b.user_id k.user_id, eq_iff b.experiment_key k.experiment_key)

  other_key :
      (b : OverrideBody) (k : OverrideKey)
      → (b.user_id == k.user_id && b.experiment_key == k.experiment_key) ≡ false
      → ◌≢◌ {A = OverrideKey} (record { user_id = b.user_id; experiment_key = b.experiment_key }) k
  other_key b k h e =
      ground (arith, eq_iff b.user_id k.user_id, eq_iff b.experiment_key k.experiment_key)

  override_parsed-effect :
      (b : OverrideBody) (k : OverrideKey) (s : Store)
      → (s' : Store) × ((override_parsed O conf (some s) b).0 ≡ some s')
        × (get_variation k s' ≡ effect k b (get_variation k s))
  unfolding override_parsed set_forced_variation remove_forced_variation effect
  override_parsed-effect b k s =
      let key : OverrideKey = record { user_id = b.user_id; experiment_key = b.experiment_key } in
      elim (Bool-cases (b.user_id == "")) [
        | inl no_user ↦ (s, rw no_user refl, rw no_user refl)
        | inr user ↦ elim (Bool-cases (b.experiment_key == "")) [
          | inl no_exp ↦ (s, ground arith, ground arith)
          | inr exp ↦
              elim (Bool-cases (b.user_id == k.user_id && b.experiment_key == k.experiment_key)) [
                | inl same ↦ elim (Bool-cases (b.variation_key == "")) [
                  | inl remove ↦ (
                    remove_variation key s,
                    ground arith,
                    ground (arith, same_key b k same, get-remove key s),
                  )
                  | inr set ↦ (
                    set_variation key b.variation_key s,
                    ground arith,
                    ground (arith, same_key b k same, get-set key b.variation_key s),
                  )
                ]
                | inr other ↦ elim (Bool-cases (b.variation_key == "")) [
                  | inl remove ↦ (
                    remove_variation key s,
                    ground arith,
                    ground (arith, get-remove_other key k s (other_key b k other)),
                  )
                  | inr set ↦ (
                    set_variation key b.variation_key s,
                    ground arith,
                    ground (arith, get-set_other key k b.variation_key s (other_key b k other)),
                  )
                ]
              ]
        ]
      ]

  -- On a client with a store, any sequence of parsed override requests keeps a store, in which
  -- each user and experiment have the variation of the last request for them with both keys not
  -- empty, none where that request's variation is empty, and the old one where there was none.
  pub override_all-effects :
      (bs : List OverrideBody) (k : OverrideKey) (s : Store)
      → (s' : Store) × (override_all bs (some s) ≡ some s')
        × (get_variation k s' ≡ effects k bs (get_variation k s))
  unfolding override_all effects
  override_all-effects [] k s = (s, refl, refl)
  override_all-effects (b ∷ bs) k s =
      let (t, stored, got) = override_parsed-effect b k s in
      let (u, run, last) = override_all-effects bs k t in
      (u, ap (override_all bs) stored ∙ run, last ∙ ap (effects k bs) got)

  -- A request of a client with a store, its body parsed, that is answered with an override: the
  -- override has the body's keys, and its previous variation is the one that the store had for the
  -- user and the experiment, or the empty text where the store had none.
  pub override-previous :
      (b : OverrideBody) (s : Store) (o : Override)
      → (override_parsed O conf (some s) b).1 ≡ json o
      → (o.user_id ≡ b.user_id)
        × (o.experiment_key ≡ b.experiment_key)
        × (o.variation_key ≡ b.variation_key)
        × ((get_variation (record { user_id = b.user_id; experiment_key = b.experiment_key }) s
              ≡ some o.prev_variation_key)
            ⊎ ((get_variation (record { user_id = b.user_id; experiment_key = b.experiment_key }) s
                  ≡ none)
                × (o.prev_variation_key ≡ "")))
  unfolding override_parsed set_forced_variation remove_forced_variation
  override-previous b s o h =
      elim (Option-cases
        (get_variation (record { user_id = b.user_id; experiment_key = b.experiment_key }) s)) [
          | inl e ↦ ground (arith, eq_iff b.variation_key "")
          | inr (v, e) ↦ ground (arith, eq_iff b.variation_key "")
        ]
