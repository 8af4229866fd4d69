-- ===== src/Handlers/Profiles/Tests.antt =====
-- A profile saved by a request and looked up by another.
use inspiring_vacations_agen.Common.{
  ◌≡◌, refl, false, none, some, List, [], ◌∷◌, String, eq_iff, arith,
}
use inspiring_vacations_agen.Common.Int.{pos}
use inspiring_vacations_agen.Handlers.Body.{json, status, fail, panic, parse_request_body}
use inspiring_vacations_agen.Handlers.Profiles.{
  UpsResponseOut, save_profile, lookup_profile, no_ups,
}
use inspiring_vacations_agen.Handlers.Profiles.RoundTrip.{lookup_profile-save_profile}
use inspiring_vacations_agen.UserProfileService.InMemory.{Service, DecisionKey}
use inspiring_vacations_agen.UserProfileService.InMemory.Refines.{Holds-fresh}
use inspiring_vacations_agen.UserProfileService.Profile.{
  end, member, object, bucket_members, read_buckets, find,
}
use inspiring_vacations_agen.UserProfileService.Interface.Instances.{in_memory}

abbrev unused : Service
unused = record {
  capacity = pos 2;
  storage_strategy = "fifo";
  profiles_map = [];
  fifo_ordered = [];
  lifo_ordered = [];
  is_ready = false;
}

abbrev buckets : List (DecisionKey × String)
buckets = (record { experiment_id = "e1"; field = "variation_id" }, "v1") ∷ []

abbrev body : UpsResponseOut
body = record { user_id = "u"; experiment_bucket_map = bucket_members buckets }

lookup_profile-save_profile_example :
    (t : Service) × (save_profile in_memory "variation_id"
        (λ _. some body)
        (some "{}")
        (some (some unused))
      ≡ some (some (some t), status 200))
    × (lookup_profile in_memory "variation_id" (λ _. some "u") (some "{}") (some (some t))
        ≡ some (json body))
unfolding parse_request_body
lookup_profile-save_profile_example =
    lookup_profile-save_profile in_memory "variation_id" unused (λ _. some body) (λ _. some "u")
      (some "{}") (some "{}") "u" buckets refl refl (λ e. absurd (ground (arith, eq_iff "u" "")))
      (refl, tt, tt)
      (
        [],
        Holds-fresh unused
            (record { not_ready = refl; no_profiles = refl; no_fifo = refl; no_lifo = refl }),
      )
      tt

-- A variation that is no text makes the handler panic.
bad_variation :
    save_profile in_memory "variation_id"
      (λ _. some (record { user_id = "u"; experiment_bucket_map = member "e1" (object end) end }))
      (some "{}")
      (some (some unused))
    ≡ some (some (some unused), panic)
unfolding save_profile parse_request_body read_buckets find
bad_variation = refl

no_service :
    lookup_profile in_memory "variation_id" (λ _. none) none (some none) ≡ some (fail 500 no_ups)
unfolding lookup_profile
no_service = refl
