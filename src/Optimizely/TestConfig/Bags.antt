-- ===== src/Optimizely/TestConfig/Bags.antt =====
-- The lists that the getters make of Go's maps, whose order of iteration is not fixed.
use mathlib.Core.List.{Perm}
use mathlib.Core.List.Perm
use mathlib.Core.Quot
use mathlib.Core.Quot.{Quot, Quot-set}
use inspiring_vacations_agen.Common.{
  ◌≡◌, refl, inl, inr, none, some, List, [], ◌∷◌, String, string_eq, arith, eq_refl, eq_iff,
  some_inj, Bool-cases, ◌==◌,
}
use inspiring_vacations_agen.Common.Dict
use inspiring_vacations_agen.Common.Dict.{Dict, IsDistinct, lookup, delete, insert}
use inspiring_vacations_agen.Optimizely.TestConfig.{Entities, TestProjectConfig}
use inspiring_vacations_agen.Optimizely.TestConfig.Getters.{
  values, get_attributes, get_events, get_feature_list, get_experiment_list, get_rollout_list,
  get_audience_list,
}

module _ {V : Type 0} where
  -- The values that a loop over a Go map meets, in some order: an entry of the map, then those of
  -- the map without its key, until no key has an entry.
  pub data Walk : Dict String V → List V → Type 0 where
    over : (m : Dict String V) → ((k : String) → lookup k m ≡ none) → Walk m []
    visit :
        (m : Dict String V) (k : String) (v : V) (xs : List V)
        → lookup k m ≡ some v
        → Walk (delete k m) xs
        → Walk m (v ∷ xs)

  -- Taking the entry of a key out of a map takes its value out of the list.
  values-delete :
      (k : String) (v : V) (m : Dict String V)
      → IsDistinct m
      → lookup k m ≡ some v
      → Perm (values m) (v ∷ values (delete k m))
  unfolding lookup delete
  values-delete k v [] d h = absurd (ground arith)
  values-delete k v ((j, w) ∷ m) d h = elim (Bool-cases (j == k)) [
    | inl e ↦
        let same : w ≡ v = some_inj (rw (lookup, e) at h) in
        let gone : lookup k m ≡ none = rw ((eq_iff j k).0 e) at d.0 in
        rw (e, same, Dict.delete_absent k m gone) (Perm.refl (v ∷ values m))
    | inr e ↦ rw (e) (
        Perm.trans (Perm.cons w (values-delete k v m d.1 (rw (lookup, e) at h)))
          (Perm.swap v w (values (delete k m))))
  ]

  values-Walk : (m : Dict String V) → IsDistinct m → Walk m (values m)
  unfolding lookup delete
  values-Walk [] d = over [] (λ k. refl)
  values-Walk ((k, v) ∷ m) (gone, d) =
      let rest : delete k ((k, v) ∷ m) ≡ m = rw (delete, eq_refl k) (Dict.delete_absent k m gone) in
      visit ((k, v) ∷ m) k v (values m) (rw (lookup, eq_refl k) refl) (rw rest (values-Walk m d))

  Walk-values : (m : Dict String V) (xs : List V) → IsDistinct m → Walk m xs → Perm xs (values m)
  unfolding lookup
  Walk-values [] _ d (over _ none_left) = Perm.nil
  Walk-values ((k, v) ∷ m) _ d (over _ none_left) = absurd (ground (arith, none_left k, eq_refl k))
  Walk-values _ _ d (visit m k v xs h rest) =
      Perm.trans (Perm.cons v (Walk-values (delete k m) xs (Dict.delete-IsDistinct k m d) rest))
        (Perm.symm (values-delete k v m d h))

-- A list whose order is left open.
abbrev pub Bag : Type 0 → Type 0
Bag V = Quot {α = List V} Perm

abbrev pub bag : {V : Type 0} → List V → Bag V
bag xs = Quot.mk xs

-- The list is that of a loop over the map, and as a bag that of any loop.
abbrev pub IsRanged : {V : Type 0} → Dict String V → List V → Type 0
IsRanged {V} m xs = Walk m xs × ((ys : List V) → Walk m ys → bag ys ≡ bag xs)

values-IsRanged : {V : Type 0} (m : Dict String V) → IsDistinct m → IsRanged m (values m)
values-IsRanged m d = (values-Walk m d, λ ys w. Quot.sound (Walk-values m ys d w))

module _ {S : Entities} where
  -- In a configuration whose maps have each key once: the lists of GetAttributes, GetEvents,
  -- GetFeatureList, GetExperimentList, GetRolloutList and GetAudienceList have the value under each
  -- key of their map exactly once, as a loop over the map meets them; and whatever order a loop
  -- takes, it makes the same list up to the order.
  pub getters-IsRanged :
      (c : TestProjectConfig S)
      → IsDistinct c.attribute_map
      → IsDistinct c.event_map
      → IsDistinct c.feature_map
      → IsDistinct c.experiment_map
      → IsDistinct c.rollout_map
      → IsDistinct c.audience_map
      → IsRanged c.attribute_map (get_attributes c)
        × IsRanged c.event_map (get_events c)
        × IsRanged c.feature_map (get_feature_list c)
        × IsRanged c.experiment_map (get_experiment_list c)
        × IsRanged c.rollout_map (get_rollout_list c)
        × IsRanged c.audience_map (get_audience_list c)
  unfolding get_attributes get_events get_feature_list get_experiment_list get_rollout_list
      get_audience_list
  getters-IsRanged c a e f x r u = (
    values-IsRanged _ a,
    values-IsRanged _ e,
    values-IsRanged _ f,
    values-IsRanged _ x,
    values-IsRanged _ r,
    values-IsRanged _ u,
  )
