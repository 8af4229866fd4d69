-- ===== src/UserProfileService/Profile.antt =====
-- plugins/userprofileservice/services/utils.go: profiles as JSON objects and back.
pub mod RoundTrip
use inspiring_vacations_agen.Common.{
  ◌≡◌, Bool, true, false, ◌&&◌, Option, none, some, List, [], ◌∷◌, String, ◌==◌, if◌then◌else◌,
}
use inspiring_vacations_agen.UserProfileService.InMemory.{DecisionKey, UserProfile, no_profile}

-- The values of `map[string]interface{}`: texts, objects, and others that are never read.
mutual
  pub data Json : Type 0 where
    text : String → Json
    object : Members → Json
    other : Json

  pub data Members : Type 0 where
    end : Members
    member : String → Json → Members → Members

unfoldable pub find : String → Members → Option Json
find name end = none
find name (member k v ms) = if k == name then some v else find name ms

unfoldable pub remove : String → Members → Members
remove name end = end
remove name (member k v ms) =
    let rest = remove name ms in if k == name then rest else member k v rest

-- `m[name] = v`; the order of a Go map means nothing.
unfoldable pub put : String → Json → Members → Members
put name v ms = member name v (remove name ms)

-- The object of a bucket map: for each experiment its field with the variation.
unfoldable pub bucket_members : List (DecisionKey × String) → Members
bucket_members [] = end
bucket_members ((k, v) ∷ bs) =
    put k.experiment_id (object (member k.field (text v) end)) (bucket_members bs)

abbrev pub bucket_map_key : String
bucket_map_key = "experiment_bucket_map"

-- `convertUserProfileToMap`
unfoldable pub convert_user_profile_to_map : UserProfile → String → Members
convert_user_profile_to_map p user_id_key =
    put bucket_map_key (object (bucket_members p.bucket_map)) (put user_id_key (text p.id) end)

abbrev same_key : DecisionKey → DecisionKey → Bool
same_key j k = j.experiment_id == k.experiment_id && j.field == k.field

unfoldable pub remove_bucket :
    DecisionKey → List (DecisionKey × String) → List (DecisionKey × String)
remove_bucket k [] = []
remove_bucket k ((j, v) ∷ bs) =
    let rest = remove_bucket k bs in if same_key j k then rest else (j, v) ∷ rest

-- The field of the key that `decision.NewUserDecisionKey` of the SDK makes is a parameter.
module _ (field : String) where
  abbrev pub new_user_decision_key : String → DecisionKey
  new_user_decision_key experiment_id = record { experiment_id = experiment_id; field = field }

  -- The loop over the experiments; `none` is the panic of a variation that is no text.
  unfoldable pub read_buckets : Members → Option (List (DecisionKey × String))
  read_buckets end = some []
  read_buckets (member id (object bucket) ms) = elim (read_buckets ms) [
    | none ↦ none
    | some bs ↦ elim (find field bucket) [
      | some (text v) ↦
          some ((new_user_decision_key id, v) ∷ remove_bucket (new_user_decision_key id) bs)
      | _ ↦ none
    ]
  ]
  read_buckets (member id v ms) = read_buckets ms

  -- `convertToUserProfile`
  unfoldable pub convert_to_user_profile : Members → String → Option UserProfile
  convert_to_user_profile profile_dict user_id_key = elim (find user_id_key profile_dict) [
    | some (text user_id) ↦ elim (find bucket_map_key profile_dict) [
      | some (object experiments) ↦ elim (read_buckets experiments) [
        | none ↦ none
        | some bs ↦ some (record { id = user_id; bucket_map = bs })
      ]
      | _ ↦ some no_profile
    ]
    | _ ↦ some no_profile
  ]
