-- ===== src/UserProfileService/Profile/RoundTrip.antt =====
-- A profile that is converted to an object and back.
use inspiring_vacations_agen.Common.{
  ◌≡◌, ◌≢◌, refl, ap, true, false, some, List, [], ◌∷◌, String, ◌==◌, eq_iff, eq_refl, arith,
}
use inspiring_vacations_agen.UserProfileService.InMemory.{DecisionKey, UserProfile}
use inspiring_vacations_agen.UserProfileService.Profile.{
  text, object, find, remove, put, bucket_members, bucket_map_key, convert_user_profile_to_map,
  remove_bucket, new_user_decision_key, read_buckets, convert_to_user_profile,
}

-- No experiment of the list has the id.
abbrev pub IsNew : String → List (DecisionKey × String) → Type 0
IsNew id [] = Unit
IsNew id ((k, v) ∷ bs) = ((k.experiment_id == id) ≡ false) × IsNew id bs

-- Each experiment stands once, under the field given.
abbrev pub IsBucketMap : String → List (DecisionKey × String) → Type 0
IsBucketMap field [] = Unit
IsBucketMap field ((k, v) ∷ bs) =
    (k.field ≡ field) × IsNew k.experiment_id bs × IsBucketMap field bs

remove_bucket-new :
    (k : DecisionKey) (bs : List (DecisionKey × String))
    → IsNew k.experiment_id bs
    → remove_bucket k bs ≡ bs
unfolding remove_bucket
remove_bucket-new k [] h = refl
remove_bucket-new k ((j, v) ∷ bs) h = ground (arith, h.0, remove_bucket-new k bs h.1)

remove-bucket_members :
    (id : String) (bs : List (DecisionKey × String))
    → IsNew id bs
    → (field : String) → IsBucketMap field bs
    → remove id (bucket_members bs) ≡ bucket_members bs
unfolding bucket_members remove put
remove-bucket_members id [] h field d = refl
remove-bucket_members id ((j, v) ∷ bs) h field d =
    let rest = remove-bucket_members id bs h.1 field d.2 in
    let plain = remove-bucket_members j.experiment_id bs d.1 field d.2 in rw (plain, h.0, rest) refl

pub read-bucket_members :
    (field : String) (bs : List (DecisionKey × String))
    → IsBucketMap field bs
    → read_buckets field (bucket_members bs) ≡ some bs
unfolding bucket_members read_buckets put find
read-bucket_members field [] d = refl
read-bucket_members field ((k, v) ∷ bs) d =
    let plain = remove-bucket_members k.experiment_id bs d.1 field d.2 in
    let rest = read-bucket_members field bs d.2 in
    let key : new_user_decision_key field k.experiment_id ≡ k = ground (arith, d.0) in
    let shared : (k.field == field) ≡ true = ground (arith, d.0, eq_iff k.field field) in
    rw (plain, rest, read_buckets, shared, key)
      (ap (λ r. some ((k, v) ∷ r)) (remove_bucket-new k bs d.1))

find-user_id :
    (p : UserProfile) (user_id_key : String)
    → user_id_key ≢ bucket_map_key
    → find user_id_key (convert_user_profile_to_map p user_id_key) ≡ some (text p.id)
unfolding find convert_user_profile_to_map put remove
find-user_id p user_id_key ne = ground (
  arith,
  eq_iff bucket_map_key user_id_key,
  eq_iff user_id_key bucket_map_key,
  eq_refl user_id_key,
)

find-bucket_map :
    (p : UserProfile) (user_id_key : String)
    → find bucket_map_key (convert_user_profile_to_map p user_id_key)
      ≡ some (object (bucket_members p.bucket_map))
unfolding find convert_user_profile_to_map put
find-bucket_map p user_id_key = refl

-- A profile whose experiments stand once each, under the field that the SDK's keys have, is read
-- back as it was, whatever text names the user id, but the one that names the bucket map.
pub convert-convert :
    (field user_id_key : String) (p : UserProfile)
    → IsBucketMap field p.bucket_map
    → user_id_key ≢ bucket_map_key
    → convert_to_user_profile field (convert_user_profile_to_map p user_id_key) user_id_key ≡ some p
unfolding convert_to_user_profile
convert-convert field user_id_key p d ne =
    rw
      (
        convert_to_user_profile,
        find-user_id p user_id_key ne,
        find-bucket_map p user_id_key,
        read-bucket_members field p.bucket_map d,
      )
      refl
