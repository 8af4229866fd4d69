-- ===== src/UserProfileService/Interface/Instances.antt =====
-- The in-memory and the Redis service, as services that the handlers use.
use inspiring_vacations_agen.Common.{
  ◌≡◌, ◌≢◌, refl, ap, ◌∙◌, inl, inr, Bool, false, Option, none, some, String, ◌==◌, string_eq,
  arith, eq_iff, eq_refl, Option-cases, if◌then◌else◌, ltb,
}
use inspiring_vacations_agen.Common.Dict
use inspiring_vacations_agen.UserProfileService.InMemory.{
  UserProfile, Service, Run, returned, blocked, panicked, limit, is_lifo,
}
use inspiring_vacations_agen.UserProfileService.InMemory
use inspiring_vacations_agen.UserProfileService.InMemory.Order.{Window}
use inspiring_vacations_agen.UserProfileService.InMemory.Refines.{
  Holds, save-Holds, lookup-Holds, find, put, put_named,
}
use inspiring_vacations_agen.UserProfileService.InMemory.Room.{make_room}
use inspiring_vacations_agen.UserProfileService.Profile.{bucket_members}
use inspiring_vacations_agen.UserProfileService.Profile.RoundTrip.{IsBucketMap}
use inspiring_vacations_agen.UserProfileService.Redis
use inspiring_vacations_agen.UserProfileService.Redis.{Database}
use inspiring_vacations_agen.UserProfileService.Redis.SaveLookup.{lookup-save}
use inspiring_vacations_agen.UserProfileService.Interface.{ProfileService}

abbrev pub completed : Run → Option Service
completed (returned u) = some u
completed blocked = none
completed panicked = none

pub find-put :
    (lifo : Bool) (n : _) (w : Window) (p : UserProfile)
    → p.id ≢ ""
    → find p.id (put lifo n w p) ≡ p
unfolding put put_named
find-put lifo n w p ne =
    let given : (p.id == "") ≡ false = ground (arith, eq_iff p.id "") in
    elim (Option-cases (Dict.lookup p.id w)) [
      | inl new ↦
          rw (given, put) (rw (new, put_named) (found (if ltb 0 n then make_room lifo n w else w)))
      | inr (q, known) ↦ rw (given, put) (rw (known, put_named) (found w))
    ]
  where
    found : (w : Window) → find p.id (Dict.insert p.id p w) ≡ p
    found w = ground (arith, Dict.lookup-insert p.id p.id p w, eq_refl p.id)

-- The in-memory service: ready whenever it stands for some list of profiles.
abbrev pub in_memory : ProfileService
in_memory = record {
  State = Service;
  Ready = λ u. (w : Window) × Holds u w;
  Writable = λ _. Unit;
  save = λ u p. completed (InMemory.save u p);
  lookup = λ u id. some (InMemory.lookup u id);
  lookup-save = λ u p (w, held) _ ne.
      let (v, saved, held', _) = save-Holds u w p held in
      (
        v,
        ap completed saved,
        ap some (lookup-Holds v _ p.id held' ∙ find-put (is_lifo u) (limit u) w p ne),
        (_, held'),
      );
}

-- The Redis service, on a database that is available and stays so.
abbrev pub redis :
    (D : Database)
    → String
    → ((s : D.Store) (p : UserProfile) → D.available s → D.available (Redis.save D s p))
    → ProfileService
redis D field stays = record {
  State = D.Store;
  Ready = D.available;
  Writable = λ p.
      IsBucketMap field p.bucket_map
      × ((json : String) × (D.marshal (bucket_members p.bucket_map) ≡ some json));
  save = λ s p. some (Redis.save D s p);
  lookup = Redis.lookup D field;
  lookup-save = λ s p up (buckets, (json, written)) ne. (
    Redis.save D s p,
    refl,
    (lookup-save D field s p json up ne buckets written).0,
    stays s p up,
  );
}
