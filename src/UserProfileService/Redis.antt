-- ===== src/UserProfileService/Redis.antt =====
-- plugins/userprofileservice/services/redis_ups.go: profiles in a Redis database.
pub mod SaveLookup
mod Tests
use inspiring_vacations_agen.Common.{
  ◌≡◌, ◌≢◌, Option, none, some, List, [], ◌∷◌, String, ◌==◌, if◌then◌else◌,
}
use inspiring_vacations_agen.UserProfileService.InMemory.{DecisionKey, UserProfile, no_profile}
use inspiring_vacations_agen.UserProfileService.Profile.{
  Members, end, member, text, object, put, bucket_members, bucket_map_key, convert_to_user_profile,
}

-- The Redis client and encoding/json. `set` tells the database after the call, and so covers a
-- call that fails; `available` says that calls succeed.
pub record Database : Type 1 where
  pub Store : Type 0
  pub available : Store → Type 0
  pub get : String → Store → Option String
  pub set : String → String → Store → Store
  pub marshal : Members → Option String
  pub unmarshal : String → Option Members
  pub get-set : (k v : String) (s : Store) → available s → get k (set k v s) ≡ some v
  pub get-set_other :
      (k j v : String) (s : Store) → k ≢ j → available s → get j (set k v s) ≡ get j s
  pub unmarshal-marshal : (m : Members) (s : String) → marshal m ≡ some s → unmarshal s ≡ some m

module _ (D : Database) where
  open D use {Store, get, set, marshal, unmarshal}

  -- `Lookup`; `none` is a panic of the conversion. The key of the user id is "user_id".
  unfoldable pub lookup : String → Store → String → Option UserProfile
  lookup field s user_id = if user_id == "" then some no_profile else elim (get user_id s) [
    | none ↦ some no_profile
    | some result ↦ elim (unmarshal result) [
      | none ↦ some no_profile
      | some experiments ↦
          convert_to_user_profile field
            (put bucket_map_key (object experiments) (put "user_id" (text user_id) end)) "user_id"
    ]
  ]

  -- `Save`
  unfoldable pub save : Store → UserProfile → Store
  save s p =
      if p.id == ""
      then s
      else elim (marshal (bucket_members p.bucket_map)) [ none ↦ s | some final ↦ set p.id final s ]
