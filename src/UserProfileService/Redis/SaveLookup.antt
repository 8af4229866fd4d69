-- ===== src/UserProfileService/Redis/SaveLookup.antt =====
-- What a lookup finds after profiles were saved.
use inspiring_vacations_agen.Common.{◌≡◌, ◌≢◌, sym, false, some, String, ◌==◌, eq_iff, arith}
use inspiring_vacations_agen.UserProfileService.InMemory.{UserProfile}
use inspiring_vacations_agen.UserProfileService.Profile.{
  bucket_members, bucket_map_key, convert_user_profile_to_map,
}
use inspiring_vacations_agen.UserProfileService.Profile.RoundTrip.{IsBucketMap, convert-convert}
use inspiring_vacations_agen.UserProfileService.Redis.{Database, lookup, save}

module _ (D : Database) where
  open D use {
    Store, available, get, set, marshal, unmarshal, get-set, get-set_other, unmarshal-marshal,
  }

  -- On a database that is available: a profile with a user id, each experiment once under the
  -- field of the SDK's keys, whose bucket map can be written as JSON, is found again after it was
  -- saved, and a lookup of any other user finds what it found before.
  pub lookup-save :
      (field : String) (s : Store) (p : UserProfile) (json : String)
      → available s
      → p.id ≢ ""
      → IsBucketMap field p.bucket_map
      → marshal (bucket_members p.bucket_map) ≡ some json
      → (lookup D field (save D s p) p.id ≡ some p)
        × ((user_id : String)
            → user_id ≢ p.id
            → lookup D field (save D s p) user_id ≡ lookup D field s user_id)
  unfolding lookup save convert_user_profile_to_map
  lookup-save field s p json up named buckets written =
      let given : (p.id == "") ≡ false = ground (arith, eq_iff p.id "") in
      let key : "user_id" ≢ bucket_map_key =
        λ e. absurd (ground (arith, eq_iff "user_id" bucket_map_key)) in
      let found = get-set p.id json s up in
      let read = unmarshal-marshal (bucket_members p.bucket_map) json written in
      (
        rw (given, written, save, found, read, lookup)
            (convert-convert field "user_id" p buckets key),
        λ user_id ne.
            rw (given, written, save)
              (ground (arith, get-set_other p.id user_id json s (λ e. ne (sym e)) up)),
      )
