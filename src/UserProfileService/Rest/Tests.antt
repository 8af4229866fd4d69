-- ===== src/UserProfileService/Rest/Tests.antt =====
-- A service that keeps the last body it got.
use inspiring_vacations_agen.Common.{
  ℕ, ◌≡◌, ◌≢◌, refl, true, Option, none, some, [], ◌∷◌, String, eq_iff, arith,
}
use inspiring_vacations_agen.UserProfileService.InMemory.{UserProfile}
use inspiring_vacations_agen.UserProfileService.Profile.{
  Members, end, put, remove, bucket_members, bucket_map_key, convert_user_profile_to_map,
}
use inspiring_vacations_agen.UserProfileService.Rest.{
  Web, RestUserProfileService, get_url, get_user_id_key, build_request, query, lookup, save,
  settled,
}
use inspiring_vacations_agen.UserProfileService.Rest.SaveLookup.{lookup-settled}

program : Unit {0}
unfolding get_url get_user_id_key build_request query convert_user_profile_to_map bucket_members put
    remove
program = tt

abbrev kept : Option Members → Option Members → Option Members
kept none s = s
kept (some body) s = some body

abbrev response : Option Members → Option (ℕ × Members)
response none = some (404, end)
response (some body) = some (200, body)

abbrev web : Web
web = record {
  Url = String;
  Bytes = Members;
  Store = Option Members;
  parse = λ s. some s;
  scheme = λ _. "http";
  host = λ _. "ups";
  show = λ u. u;
  set_query = λ q u. u;
  marshal = λ m. some m;
  unmarshal = λ m. some m;
  to_text = λ _. "{}";
  send = λ url method body headers s. (kept body s, response (kept body s));
}

abbrev service : RestUserProfileService
service = record {
  host = "http://ups";
  headers = [];
  lookup_path = "/lookup";
  lookup_method = "GET";
  save_path = "/save";
  save_method = "";
  user_id_key = "";
  async = true;
}

abbrev user : UserProfile
user = record {
  id = "u";
  bucket_map = (record { experiment_id = "exp1"; field = "variation_id" }, "v1") ∷ [];
}

abbrev json : Members
unfolding program
json = convert_user_profile_to_map user "user_id"

-- The call that is left to the goroutine has not reached the service yet.
not_yet : (lookup web "variation_id" service (save web service none user).0 "u").1 ≢ some user
unfolding lookup save program
not_yet e = ground (arith, e, eq_iff "u" "")

lookup-settled_example :
    (lookup web "variation_id" service (settled web (save web service none user)) "u").1 ≡ some user
unfolding program
lookup-settled_example =
    lookup-settled web "variation_id" service none user "http://ups/save" "http://ups/lookup"
      (record { url = "http://ups/save"; method = "POST"; body = some json })
      (record { url = "http://ups/lookup"; method = "GET"; body = none }) json
      (λ e. absurd (ground (arith, eq_iff "u" "")))
      (λ e. absurd (ground (arith, eq_iff "user_id" bucket_map_key))) (refl, tt, tt) refl refl refl
      refl refl (λ _. refl) refl
