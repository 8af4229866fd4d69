-- ===== src/Handlers/Override/Tests.antt =====
-- Overrides on a store that is a function.
use inspiring_vacations_agen.Common.{
  ◌≡◌, ◌≢◌, refl, Bool, true, false, ◌&&◌, Option, none, some, List, [], ◌∷◌, String, ◌==◌, eq_iff,
  eq_refl, if◌then◌else◌, string_eq, arith,
}
use inspiring_vacations_agen.Common.Dict
use inspiring_vacations_agen.Optimizely.Client.{
  OverridesStore, OverrideKey, Override, OptimizelyConfig, config_messages, set_forced_variation,
  remove_forced_variation,
}
use inspiring_vacations_agen.Handlers.Override.{OverrideBody, override_parsed}
use inspiring_vacations_agen.Handlers.Override.Last.{
  effect, effects, override_all, override_all-effects,
}

program : Unit {0}
unfolding override_parsed set_forced_variation remove_forced_variation config_messages effect
    effects override_all Dict.lookup
program = tt

abbrev same : OverrideKey → OverrideKey → Bool
same k j = k.user_id == j.user_id && k.experiment_key == j.experiment_key

same_refl : (k : OverrideKey) → same k k ≡ true
same_refl k = ground (arith, eq_refl k.user_id, eq_refl k.experiment_key)

same_other : (k j : OverrideKey) → k ≢ j → same k j ≡ false
same_other k j ne =
    ground (arith, eq_iff k.user_id j.user_id, eq_iff k.experiment_key j.experiment_key)

abbrev sample : OverridesStore
sample = record {
  Store = OverrideKey → Option String;
  get_variation = λ k s. s k;
  set_variation = λ k v s j. if same k j then some v else s j;
  remove_variation = λ k s j. if same k j then none else s j;
  get-set = λ k v s. ground (arith, same_refl k);
  get-set_other = λ k j v s ne. ground (arith, same_other k j ne);
  get-remove = λ k s. ground (arith, same_refl k);
  get-remove_other = λ k j s ne. ground (arith, same_other k j ne);
}

abbrev body : String → String → OverrideBody
body user variation = record { user_id = user; experiment_key = "exp"; variation_key = variation }

abbrev requests : List OverrideBody
requests = body "u" "a" ∷ body "v" "b" ∷ body "u" "c" ∷ body "v" "" ∷ body "" "d" ∷ []

abbrev no_config : Option (OptimizelyConfig Unit Unit)
no_config = none

abbrev key : String → OverrideKey
key user = record { user_id = user; experiment_key = "exp" }

last_is_c : effects (key "u") requests none ≡ some "c"
unfolding program
last_is_c = refl

override_all-effects_example :
    (s' : OverrideKey → Option String) × (override_all sample no_config requests (some (λ _. none))
      ≡ some s')
    × (s' (key "u") ≡ effects (key "u") requests none)
override_all-effects_example = override_all-effects sample no_config requests (key "u") (λ _. none)

abbrev updated : Override
updated = record {
  user_id = "u";
  experiment_key = "exp";
  variation_key = "c";
  prev_variation_key = "a";
  messages = "override cannot be validated via configuration" ∷ "updating previous override" ∷ [];
}
