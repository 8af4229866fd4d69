-- ===== src/Optimizely/Cache/Tests.antt =====
-- Two calls race for one key: both load, the second finds the first one's client set, starts to
-- close its own and is given the other. Then the context ends.
use inspiring_vacations_agen.Common.{
  ℕ, ◌≡◌, refl, ◌≢◌, ◌⊎◌, some, true, false, [], ◌∷◌, String, Elem, arith, string_eq,
}
use inspiring_vacations_agen.Common.Dict
use inspiring_vacations_agen.Optimizely.Cache.Threads.{
  Thread, idle, looking, loading, loaded, returned, State, update, call, hit, miss, load, set,
  set_late, cancel, close, close_late, Reach, here, next, start,
}
use inspiring_vacations_agen.Optimizely.Cache.Agreement.{returned-agree, returned-open, all-closed}

program : Unit {0}
unfolding Dict.lookup Dict.insert
program = tt

-- The calls before the first client is set, and at the end.
abbrev asked : ℕ → Thread
asked =
    update
      (update (update (update (λ _. idle) 0 (looking "key1")) 1 (looking "key1")) 0
        (loading "key1"))
      1 (loading "key1")

abbrev made : ℕ → Thread
made = update (update asked 0 (loaded "key1" 0)) 1 (loaded "key1" 1)

abbrev served : ℕ → Thread
served =
    update (update (update made 0 (returned "key1" 0)) 1 (looking "key1")) 1 (returned "key1" 0)

abbrev raced : State
raced = record {
  optly_map = ("key1", 0) ∷ [];
  closers = 0 ∷ [];
  leaving = 1 ∷ [];
  closed = [];
  fresh = 2;
  thread = served;
  cancelled = false;
}

race : Reach start raced
unfolding program
race =
    let asking =
      next
        (next (next (next here (call 0 "key1" refl)) (call 1 "key1" refl))
          (miss 0 "key1" refl refl))
        (miss 1 "key1" refl refl) in
    let loading_both = next (next asking (load 0 "key1" refl)) (load 1 "key1" refl) in
    next (next (next loading_both (set 0 "key1" 0 refl refl)) (set_late 1 "key1" 1 0 refl refl))
      (hit 1 "key1" 0 refl refl)

abbrev ended : State
ended = record raced { cancelled = true; closers = []; leaving = []; closed = 0 ∷ 1 ∷ [] }

ending : Reach start ended
ending = next (next (next race (close_late [] [] 1 refl)) cancel) (close [] [] 0 refl refl)

none_loaded : (i : ℕ) (k : String) → ended.thread i ≢ loaded k 1
none_loaded i k e = ground arith

returned-agree_example : ◌≡◌ {A = ℕ} 0 0
returned-agree_example = returned-agree raced 0 1 "key1" 0 0 race refl refl

returned-open_example : ¬ Elem 0 raced.closed
returned-open_example = returned-open raced 1 "key1" 0 race refl refl

all-closed_example :
    Elem 1 ended.closed
    ⊎ (Elem 1 ended.leaving × ((k : String) → Dict.lookup k ended.optly_map ≢ some 1))
all-closed_example = all-closed ended 1 ending none_loaded refl (omega arith)
