-- ===== src/UserProfileService/InMemory/Tests.antt =====
-- Runs of the in-memory service, and its theorem at a small capacity.
use inspiring_vacations_agen.Common.{
  ◌≡◌, refl, ◌<◌, ◌≤◌, String, List, [], ◌∷◌, true, false, length, string_eq,
}
use inspiring_vacations_agen.Common.Dict
use inspiring_vacations_agen.Common.Int.{pos}
use inspiring_vacations_agen.UserProfileService.InMemory.{
  Service, UserProfile, returned, lookup, initialise, pop_last, evict, push, enlist, store,
  save_ready, save, is_lifo, limit,
}
use inspiring_vacations_agen.UserProfileService.InMemory.Room.{make_room}
use inspiring_vacations_agen.UserProfileService.InMemory.Refines.{
  put_named, put, save_all, put_all, find, save_all-put_all,
}

program : Unit {0}
unfolding lookup initialise pop_last evict push enlist store save_ready save save_all make_room
    put_named put Dict.lookup Dict.insert Dict.delete
program = tt

abbrev profile : String → UserProfile
profile name = record { id = name; bucket_map = [] }

abbrev fresh : String → Service
fresh strategy = record {
  capacity = pos 2;
  storage_strategy = strategy;
  profiles_map = [];
  fifo_ordered = [];
  lifo_ordered = [];
  is_ready = false;
}

abbrev visits : List UserProfile
visits = profile "a" ∷ profile "b" ∷ profile "a" ∷ profile "c" ∷ []

-- The channel loses the oldest user, the slice the newest.
fifo_loses_a :
    save_all (fresh "fifo") visits
    ≡ returned (record (fresh "fifo") {
      profiles_map = ("b", profile "b") ∷ ("c", profile "c") ∷ [];
      fifo_ordered = "b" ∷ "c" ∷ [];
      is_ready = true;
    })
unfolding program
fifo_loses_a = refl

lifo_loses_b :
    save_all (fresh "lifo") visits
    ≡ returned (record (fresh "lifo") {
      profiles_map = ("a", profile "a") ∷ ("c", profile "c") ∷ [];
      lifo_ordered = "a" ∷ "c" ∷ [];
      is_ready = true;
    })
unfolding program
lifo_loses_b = refl

save_all-put_all_example :
    (v : Service) × (save_all (fresh "lifo") visits ≡ returned v)
    × ((k : String)
        → lookup v k ≡ find k (put_all (is_lifo (fresh "lifo")) (limit (fresh "lifo")) [] visits))
    × (0 < limit (fresh "lifo") → length v.profiles_map ≤ limit (fresh "lifo"))
save_all-put_all_example =
    save_all-put_all (fresh "lifo") visits
      (record { not_ready = refl; no_profiles = refl; no_fifo = refl; no_lifo = refl })
