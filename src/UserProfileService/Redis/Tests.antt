-- ===== src/UserProfileService/Redis/Tests.antt =====
-- A profile saved to a database that is a function.
use inspiring_vacations_agen.Common.{
  ◌≡◌, ◌≢◌, refl, Bool, true, ◌&&◌, Option, none, some, [], ◌∷◌, String, ◌==◌, eq_iff, eq_refl,
  if◌then◌else◌, arith,
}
use inspiring_vacations_agen.UserProfileService.InMemory.{UserProfile}
use inspiring_vacations_agen.UserProfileService.Profile.{
  text, object, Members, end, member, find, remove, put, bucket_members,
}
use inspiring_vacations_agen.UserProfileService.Redis.{Database, lookup, save}
use inspiring_vacations_agen.UserProfileService.Redis.SaveLookup.{lookup-save}

program : Unit {0}
unfolding bucket_members put remove find lookup save
program = tt

-- Two objects are known as texts.
abbrev one_bucket : Members
one_bucket = member "exp1" (object (member "variation_id" (text "v1") end)) end

abbrev is_one : String → String → String → Bool
is_one experiment field variation =
    experiment == "exp1" && field == "variation_id" && variation == "v1"

abbrev marshal : Members → Option String
marshal end = some "empty"
marshal (member a (object (member b (text c) end)) end) = if is_one a b c then some "one" else none
marshal _ = none

abbrev unmarshal : String → Option Members
unmarshal s = if s == "empty" then some end else if s == "one" then some one_bucket else none

unmarshal_marshal : (m : Members) (s : String) → marshal m ≡ some s → unmarshal s ≡ some m
unmarshal_marshal end s e = let written : s ≡ "empty" = ground arith in rw written refl
unmarshal_marshal (member a (object (member b (text c) end)) end) s e =
    let written : s ≡ "one" = ground arith in
    let known : is_one a b c ≡ true = ground arith in
    let experiment : a ≡ "exp1" = ground (arith, eq_iff a "exp1") in
    let field : b ≡ "variation_id" = ground (arith, eq_iff b "variation_id") in
    let variation : c ≡ "v1" = ground (arith, eq_iff c "v1") in
    rw (written, experiment, field, variation) refl
unmarshal_marshal _ s e = absurd (ground arith)

same_refl : (k : String) (v w : Option String) → (if k == k then v else w) ≡ v
same_refl k v w = ground (arith, eq_refl k)

same_other : (k j : String) (v w : Option String) → k ≢ j → (if k == j then v else w) ≡ w
same_other k j v w ne = ground (arith, eq_iff k j)

abbrev sample : Database
sample = record {
  Store = String → Option String;
  available = λ _. Unit;
  get = λ k s. s k;
  set = λ k v s j. if k == j then some v else s j;
  marshal = marshal;
  unmarshal = unmarshal;
  get-set = λ k v s _. same_refl k (some v) (s k);
  get-set_other = λ k j v s ne _. same_other k j (some v) (s j) ne;
  unmarshal-marshal = unmarshal_marshal;
}

abbrev nobody : String → Option String
nobody _ = none

abbrev profile : UserProfile
profile = record {
  id = "u";
  bucket_map = (record { experiment_id = "exp1"; field = "variation_id" }, "v1") ∷ [];
}

lookup-save_example :
    (lookup sample "variation_id" (save sample nobody profile) "u" ≡ some profile)
    × ((user_id : String)
        → user_id ≢ "u"
        → lookup sample "variation_id" (save sample nobody profile) user_id
          ≡ lookup sample "variation_id" nobody user_id)
unfolding program
lookup-save_example =
    lookup-save sample "variation_id" nobody profile "one" tt
      (λ e. absurd (ground (arith, eq_iff "u" ""))) (refl, tt, tt) refl
