-- ===== src/Handlers/Activate/Tests.antt =====
-- A query over one experiment and one feature of the same key.
use inspiring_vacations_agen.Common.{
  ◌≡◌, refl, ap, ◌∙◌, ◌↔◌, inl, inr, Bool, true, false, none, some, List, [], ◌∷◌, String, ◌==◌,
  eq_iff, eq_refl, string_eq, arith, Elem,
}
use inspiring_vacations_agen.Common.Dict
use inspiring_vacations_agen.Common.Dict.{Dict}
use inspiring_vacations_agen.Http
use inspiring_vacations_agen.Optimizely.Cache.{ok}
use inspiring_vacations_agen.Optimizely.Client.{
  OptimizelyConfig, Decider, Decision, activate_feature, activate_experiment,
}
use inspiring_vacations_agen.Handlers.Body.{json}
use inspiring_vacations_agen.Handlers.Activate.{
  ActivateBody, has, mark, parse_experiment_keys, parse_feature_keys, parse_type_parameter,
  activate_key, activate_keys, filter_loop, filter_decisions, select, decide_selected,
}
use inspiring_vacations_agen.Handlers.Activate.Decisions.{IsSelected, Passes, decide_selected-Elem}

program : Unit {0}
unfolding has mark parse_experiment_keys parse_feature_keys parse_type_parameter activate_key
    activate_keys filter_loop filter_decisions select decide_selected activate_feature
    activate_experiment Dict.lookup Dict.insert Http.get
program = tt

ranges :
    (m : Dict String String)
    → Dict.IsDistinct m
    → (k v : String) → Elem (k, v) m ↔ (Dict.lookup k m ≡ some v)
unfolding Dict.lookup
ranges [] d k v = (λ h. absurd h, λ h. absurd (ground arith))
ranges ((j, w) ∷ m) d k v =
    let (to, from) = ranges m d.1 k v in
    (
      elim [
        | inl same ↦ ground (arith, ap (λ p. p.0) same, ap (λ p. p.1) same, eq_refl k)
        | inr h ↦ ground (arith, to h, eq_iff j k, d.0)
      ],
      λ h. listed j w m k v h from (j == k) refl,
    )
  where
    listed :
        (j w : String) (m : Dict String String) (k v : String)
        → Dict.lookup k ((j, w) ∷ m) ≡ some v
        → (Dict.lookup k m ≡ some v → Elem (k, v) m)
        → (b : Bool) → (j == k) ≡ b
        → Elem (k, v) ((j, w) ∷ m)
    listed j w m k v h from true e =
        let key : k ≡ j = ground (arith, eq_iff j k) in
        let value : v ≡ w = ground arith in inl (ap (λ a. (a, v)) key ∙ ap (λ a. (j, a)) value)
    listed j w m k v h from false e = inr (from (ground arith))

abbrev conf : OptimizelyConfig Unit Unit
conf = record { experiments_map = ("a", []) ∷ ("b", []) ∷ []; features_map = ("a", tt) ∷ [] }

abbrev decider : ActivateBody Unit → Decider
decider b = record {
  Variables = Unit;
  no_variables = tt;
  get_variation = λ key. ok "v1";
  activate = λ key. ok "v1";
  feature_decision = λ key _. ok (true, "", "on", tt);
  config_error = none;
  event_error = λ _. none;
  track_error = λ _. none;
}

abbrev query : Dict String (List String)
query = ("type", "experiment" ∷ []) ∷ ("featureKey", "a" ∷ "c" ∷ []) ∷ ("enabled", "true" ∷ []) ∷ []

abbrev user : ActivateBody Unit
user = record { user_id = "u"; user_attributes = none }

abbrev experiment_b : Decision (decider user)
experiment_b = record {
  user_id = "u";
  experiment_key = "b";
  feature_key = "";
  variation_key = "v1";
  type = "experiment";
  variables = some tt;
  enabled = true;
  error = "";
}

abbrev feature_a : Decision (decider user)
feature_a = record {
  user_id = "u";
  experiment_key = "";
  feature_key = "a";
  variation_key = "on";
  type = "feature";
  variables = some tt;
  enabled = true;
  error = "";
}

-- The experiment "a" has no decision of its own: its key stands for the feature.
feature_hides_experiment :
    decide_selected decider (λ s. s) (λ _. some user) (λ m. m) conf query user
    ≡ json (feature_a ∷ experiment_b ∷ [])
unfolding program
feature_hides_experiment = refl

decide_selected-Elem_example : Elem feature_a (feature_a ∷ experiment_b ∷ []) ↔ (
    (key : String) × (kind : String) × IsSelected decider
      (λ s. s)
      (λ _. some user)
      (λ m. m)
      conf
      query
      key
      kind
    × (activate_key
          (decider user)
          (λ s. s)
          "u"
          (Http.get query "disableTracking" == "true")
          key
          kind
        ≡ ok feature_a)
    × Passes (Http.get query "enabled") feature_a)
unfolding program
decide_selected-Elem_example =
    decide_selected-Elem decider (λ s. s) (λ _. some user) (λ m. m) conf query user
      (feature_a ∷ experiment_b ∷ []) feature_a ranges feature_hides_experiment
