-- ===== src/Handlers/Profiles/RoundTrip.antt =====
-- What a lookup answers after a save.
use inspiring_vacations_agen.Common.{
  ◌≡◌, ◌≢◌, refl, false, Option, some, List, String, ◌==◌, arith, eq_iff,
}
use inspiring_vacations_agen.Handlers.Body.{json, status, parsed, parse_request_body}
use inspiring_vacations_agen.Handlers.Profiles.{
  UpsResponseOut, no_profile_body, save_profile, lookup_profile,
}
use inspiring_vacations_agen.UserProfileService.InMemory.{DecisionKey}
use inspiring_vacations_agen.UserProfileService.Profile.{bucket_members}
use inspiring_vacations_agen.UserProfileService.Profile.RoundTrip.{IsBucketMap, read-bucket_members}
use inspiring_vacations_agen.UserProfileService.Interface.{ProfileService}

-- On a service that is ready and can keep the profile: a save whose body names a user and has each
-- experiment once, with a variation under the field of the SDK's keys, is answered 200, and a
-- lookup of that user then answers exactly that body.
pub lookup_profile-save_profile :
    (S : ProfileService) (field : String) (s : S.State) (unmarshal : String → Option UpsResponseOut)
    (unmarshal_id : String → Option String) (body id_body : Option String) (user_id : String)
    (bs : List (DecisionKey × String))
    → parse_request_body unmarshal no_profile_body body
      ≡ parsed (record { user_id = user_id; experiment_bucket_map = bucket_members bs })
    → parse_request_body unmarshal_id "" id_body ≡ parsed user_id
    → user_id ≢ ""
    → IsBucketMap field bs
    → S.Ready s
    → S.Writable (record { id = user_id; bucket_map = bs })
    → (t : S.State) × (save_profile S field unmarshal body (some (some s))
        ≡ some (some (some t), status 200))
      × (lookup_profile S field unmarshal_id id_body (some (some t))
          ≡ some (json (record { user_id = user_id; experiment_bucket_map = bucket_members bs })))
unfolding save_profile lookup_profile
lookup_profile-save_profile S field s unmarshal unmarshal_id body id_body user_id bs e e_id named
      once ready fits =
    let given : (user_id == "") ≡ false = ground (arith, eq_iff user_id "") in
    let (t, saved, found, _) =
      S.lookup-save s (record { id = user_id; bucket_map = bs }) ready fits named in
    (
      t,
      rw (e, save_profile) (rw given (rw (read-bucket_members field bs once) (rw saved refl))),
      rw (e_id, lookup_profile) (rw given (rw found refl)),
    )
