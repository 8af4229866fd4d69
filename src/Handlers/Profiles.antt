-- ===== src/Handlers/Profiles.antt =====
-- pkg/handlers/save.go and lookup.go: profiles saved and looked up by requests.
pub mod RoundTrip
mod Tests
use inspiring_vacations_agen.Common.{
  Bool, true, false, Option, none, some, List, [], ◌∷◌, String, ◌==◌, if◌then◌else◌,
}
use inspiring_vacations_agen.Handlers.Body.{
  Answer, json, fail, status, panic, Parsed, parsed, refused, parse_request_body, no_client,
}
use inspiring_vacations_agen.UserProfileService.InMemory.{UserProfile}
use inspiring_vacations_agen.UserProfileService.Profile.{Members, end, read_buckets, bucket_members}
use inspiring_vacations_agen.UserProfileService.Interface.{ProfileService}

-- `UPSResponseOut`, which is also the body of a save.
pub record UpsResponseOut : Type 0 where
  pub user_id : String
  pub experiment_bucket_map : Members

abbrev pub no_profile_body : UpsResponseOut
no_profile_body = record { user_id = ""; experiment_bucket_map = end }

abbrev pub empty_user_id : String
empty_user_id = "missing \"userId\" in request payload"

abbrev pub no_ups : String
no_ups = "no user profile service found"

-- The client of the context, if there is one, and its service, if it has one. The field is that of
-- the SDK's keys.
module _ (S : ProfileService) (field : String) where
  open S use {State, save, lookup}

  -- `Save`; `none` where the service never returns.
  unfoldable pub save_profile :
      (String → Option UpsResponseOut)
      → Option String
      → Option (Option State)
      → Option (Option (Option State) × Answer (Unit {0}))
  save_profile unmarshal body none = some (none, fail 500 no_client)
  save_profile unmarshal body (some none) = some (some none, fail 500 no_ups)
  save_profile unmarshal body (some (some s)) =
      elim (parse_request_body unmarshal no_profile_body body) [
        | refused e ↦ some (some (some s), fail 400 e)
        | parsed b ↦
            if b.user_id == ""
            then some (some (some s), fail 400 empty_user_id)
            else elim (read_buckets field b.experiment_bucket_map) [
              | none ↦ some (some (some s), panic)
              | some bs ↦ elim (save s (record { id = b.user_id; bucket_map = bs })) [
                | none ↦ none
                | some t ↦ some (some (some t), status 200)
              ]
            ]
      ]

  -- `Lookup`, whose body is the user id alone.
  unfoldable pub lookup_profile :
      (String → Option String)
      → Option String
      → Option (Option State)
      → Option (Answer UpsResponseOut)
  lookup_profile unmarshal body none = some (fail 500 no_client)
  lookup_profile unmarshal body (some none) = some (fail 500 no_ups)
  lookup_profile unmarshal body (some (some s)) = elim (parse_request_body unmarshal "" body) [
    | refused e ↦ some (fail 400 e)
    | parsed user_id ↦
        if user_id == "" then some (fail 400 empty_user_id) else elim (lookup s user_id) [
          | none ↦ none
          | some saved ↦ some (
              json (record {
                user_id = user_id;
                experiment_bucket_map = bucket_members saved.bucket_map;
              }))
        ]
  ]
