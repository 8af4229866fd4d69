-- ===== src/UserProfileService/InMemory/Room.antt =====
-- The parts of `Save` against a bounded list of profiles, oldest first.
use inspiring_vacations_agen.Common.{
  ℕ, ◌≤◌, ◌<◌, ◌≡◌, refl, inl, inr, Bool, true, none, some, List, [], ◌∷◌, ◌++◌, String, eqb, ltb,
  length, arith, ◌∙◌, sym, ap, if◌then◌else◌, string_eq, Bool-cases,
}
use inspiring_vacations_agen.Common.Dict
use inspiring_vacations_agen.Common.Dict.{Dict, IsDistinct}
use inspiring_vacations_agen.Common.Int.{pos_part}
use inspiring_vacations_agen.UserProfileService.InMemory.{
  UserProfile, Service, returned, is_lifo, limit, evict, push, enlist, store,
}
use inspiring_vacations_agen.UserProfileService.InMemory.Order.{
  Window, keys, drop_first, drop_last, Removed, Removed-first, Removed-last, keys-insert_new,
  keys-insert_old, length-keys,
}

-- Room for a new profile: where the list is full, the newest (lifo) or the oldest goes.
unfoldable pub make_room : Bool → ℕ → Window → Window
make_room lifo n w = if eqb (length w) n then (if lifo then drop_last w else drop_first w) else w

abbrev pub order : Service → List String
order u = if is_lifo u then u.lifo_ordered else u.fifo_ordered

-- The service holds what the list holds, and in its order where it is bounded.
pub record Tracks (u : Service) (w : Window) : Type 0 where
  pub ready : u.is_ready ≡ true
  pub distinct : IsDistinct u.profiles_map
  pub listed : IsDistinct w
  pub agrees : (k : String) → Dict.lookup k u.profiles_map ≡ Dict.lookup k w
  pub same_size : length u.profiles_map ≡ length w
  pub ordered : 0 < limit u → order u ≡ keys w
  pub bounded : 0 < limit u → length w ≤ limit u

module _ (u : Service) (w w' : Window) (k : String) (t : Tracks u w) (gone : Removed w w' k) where
  -- The map loses the entry that the list loses.
  delete-Tracks :
      (v : Service)
      → v.is_ready ≡ true
      → v.profiles_map ≡ Dict.delete k u.profiles_map
      → limit v ≡ limit u
      → order v ≡ keys w'
      → Tracks v w'
  delete-Tracks v ready same limits orders =
      let (p, found) = gone.found in
      let here : Dict.lookup k u.profiles_map ≡ some p = t.agrees k ∙ found in
      record {
        ready = ready;
        distinct = rw same (Dict.delete-IsDistinct k u.profiles_map t.distinct);
        listed = gone.distinct;
        agrees = λ j.
            rw same
              (ground (arith, Dict.lookup-delete k j u.profiles_map, t.agrees j, gone.lookups j));
        same_size = rw same (
            omega (
              arith,
              Dict.length-delete k p u.profiles_map t.distinct here,
              gone.shorter,
              t.same_size,
            ));
        ordered = λ _. orders;
        bounded = λ h. omega (arith, t.bounded (omega arith), gone.shorter);
      }

-- Where the list is full, `evict` takes out the entry that the list loses.
evict-Tracks :
    (u : Service) (e : String × UserProfile) (w : Window)
    → Tracks u (e ∷ w)
    → 0 < limit u
    → (v : Service) × (evict u ≡ returned v)
      × Tracks v (if is_lifo u then drop_last (e ∷ w) else w)
      × (v.capacity ≡ u.capacity)
      × (v.storage_strategy ≡ u.storage_strategy)
unfolding evict
evict-Tracks u (k, p) w t pos = elim (Bool-cases (is_lifo u)) [
  | inl lifo ↦
      let (last, popped, gone) = Removed-last (k, p) w t.listed in
      let kept = drop_last ((k, p) ∷ w) in
      let old_order : u.lifo_ordered ≡ keys ((k, p) ∷ w) = rw lifo at (t.ordered pos) in
      let v : Service = record u {
        lifo_ordered = keys kept;
        profiles_map = Dict.delete last u.profiles_map;
      } in
      (
        v,
        rw (lifo, old_order, popped),
        rw lifo (delete-Tracks u ((k, p) ∷ w) kept last t gone v t.ready refl refl (rw lifo)),
        refl,
        refl,
      )
  | inr fifo ↦
      let old_order : u.fifo_ordered ≡ keys ((k, p) ∷ w) = rw fifo at (t.ordered pos) in
      let v : Service = record u {
        fifo_ordered = keys w;
        profiles_map = Dict.delete k u.profiles_map;
      } in
      (
        v,
        rw (fifo, old_order),
        rw fifo (
            delete-Tracks u ((k, p) ∷ w) w k t (Removed-first k p w t.listed) v t.ready refl refl
              (rw fifo)),
        refl,
        refl,
      )
]

-- The bound and the strategy are left as they are.
abbrev pub SameConfig : Service → Service → Type 0
SameConfig v u = (v.capacity ≡ u.capacity) × (v.storage_strategy ≡ u.storage_strategy)

insert-IsDistinct :
    (p : UserProfile) (w : Window) → IsDistinct w → IsDistinct (Dict.insert p.id p w)
insert-IsDistinct p w d = Dict.insert-IsDistinct p.id p w d

module _ (u : Service) (w : Window) (p : UserProfile) (t : Tracks u w) where
  -- A known profile is replaced in the map and in the list.
  pub store-Tracks :
      (q : UserProfile) → Dict.lookup p.id w ≡ some q → Tracks (store p u) (Dict.insert p.id p w)
  unfolding store
  store-Tracks q h = record {
    ready = t.ready;
    distinct = Dict.insert-IsDistinct p.id p u.profiles_map t.distinct;
    listed = Dict.insert-IsDistinct p.id p w t.listed;
    agrees = λ k. ground (
      arith,
      Dict.lookup-insert p.id k p u.profiles_map,
      Dict.lookup-insert p.id k p w,
      t.agrees k,
    );
    same_size = omega (
      arith,
      Dict.length-insert_old p.id p q u.profiles_map (t.agrees p.id ∙ h),
      Dict.length-insert_old p.id p q w h,
      t.same_size,
    );
    ordered = λ pos. t.ordered pos ∙ sym (keys-insert_old p.id p q w h);
    bounded = λ pos. omega (arith, Dict.length-insert_old p.id p q w h, t.bounded pos);
  }

  -- A new profile comes last in the order, in the map and in the list.
  push-Tracks :
      Dict.lookup p.id w ≡ none
      → 0 < limit u
      → length w < limit u
      → (v : Service) × (push p.id u ≡ returned v)
        × Tracks (store p v) (Dict.insert p.id p w)
        × SameConfig v u
  unfolding push store
  push-Tracks h pos room = elim (Bool-cases (is_lifo u)) [
    | inl lifo ↦
        let old_order : u.lifo_ordered ≡ keys w = rw lifo at (t.ordered pos) in
        let v : Service = record u { lifo_ordered = u.lifo_ordered ++ p.id ∷ [] } in
        (
          v,
          rw lifo,
          added v t.ready refl refl (rw (lifo, old_order, keys-insert_new p.id p w h)),
          (refl, refl),
        )
    | inr fifo ↦
        let old_order : u.fifo_ordered ≡ keys w = rw fifo at (t.ordered pos) in
        let fits : ltb (length u.fifo_ordered) (limit u) ≡ true =
          rw old_order (ground (arith, length-keys w)) in
        let v : Service = record u { fifo_ordered = u.fifo_ordered ++ p.id ∷ [] } in
        (
          v,
          rw (fifo, fits),
          added v t.ready refl refl (rw (fifo, old_order, keys-insert_new p.id p w h)),
          (refl, refl),
        )
  ]
    where
      added :
          (v : Service)
          → v.is_ready ≡ true
          → v.profiles_map ≡ u.profiles_map
          → limit v ≡ limit u
          → order v ≡ keys (Dict.insert p.id p w)
          → Tracks (store p v) (Dict.insert p.id p w)
      added v ready same limits orders = record {
        ready = ready;
        distinct = rw same (Dict.insert-IsDistinct p.id p u.profiles_map t.distinct);
        listed = Dict.insert-IsDistinct p.id p w t.listed;
        agrees = λ k. rw same (
            ground (
              arith,
              Dict.lookup-insert p.id k p u.profiles_map,
              Dict.lookup-insert p.id k p w,
              t.agrees k,
            ));
        same_size = rw same (
            omega (
              arith,
              Dict.length-insert_new p.id p u.profiles_map (t.agrees p.id ∙ h),
              Dict.length-insert_new p.id p w h,
              t.same_size,
            ));
        ordered = λ _. orders;
        bounded = λ _. omega (arith, Dict.length-insert_new p.id p w h);
      }

make_room-lookup :
    (lifo : Bool) (n : ℕ) (k : String) (w : Window)
    → IsDistinct w
    → Dict.lookup k w ≡ none
    → Dict.lookup k (make_room lifo n w) ≡ none
unfolding make_room
make_room-lookup lifo n k [] d h = ground arith
make_room-lookup lifo n k ((j, p) ∷ w) d h =
    let (last, _, gone) = Removed-last (j, p) w d in
    let first = Removed-first j p w d in ground (arith, gone.lookups k, first.lookups k, h)

length-make_room :
    (lifo : Bool) (n : ℕ) (w : Window)
    → IsDistinct w
    → 0 < n
    → length w ≤ n
    → length (make_room lifo n w) < n
unfolding make_room
length-make_room lifo n [] d pos le = ground arith
length-make_room lifo n ((j, p) ∷ w) d pos le =
    let (last, _, gone) = Removed-last (j, p) w d in ground (arith, gone.shorter)

-- Where the map is full, `evict` leaves what `make_room` leaves.
full-Tracks :
    (u : Service) (w : Window)
    → Tracks u w
    → 0 < limit u
    → eqb (length w) (limit u) ≡ true
    → (v : Service) × (evict u ≡ returned v)
      × Tracks v (make_room (is_lifo u) (limit u) w)
      × SameConfig v u
unfolding make_room
full-Tracks u [] t pos full = absurd (ground arith)
full-Tracks u (e ∷ w) t pos full =
    let (v, evicted, tracks, caps, strategies) = evict-Tracks u e w t pos in
    (v, evicted, rw full tracks, (caps, strategies))

-- A new profile of a bounded service: room is made, and the profile comes last.
pub enlist-Tracks :
    (u : Service) (w : Window) (p : UserProfile)
    → Tracks u w
    → Dict.lookup p.id w ≡ none
    → 0 < limit u
    → (v : Service) × (enlist p.id u ≡ returned v)
      × Tracks (store p v) (Dict.insert p.id p (make_room (is_lifo u) (limit u) w))
      × SameConfig v u
unfolding enlist make_room
enlist-Tracks u w p t h pos =
    let n = limit u in
    let new = make_room-lookup (is_lifo u) n p.id w t.listed h in
    let room = length-make_room (is_lifo u) n w t.listed pos (t.bounded pos) in
    elim (Bool-cases (eqb (length w) n)) [
      | inl full ↦
          let (v, evicted, tracks, config) = full-Tracks u w t pos full in
          let same : limit v ≡ n = ap pos_part config.0 in
          let (x, pushed, stored, config') =
            push-Tracks v (make_room (is_lifo u) n w) p tracks new (rw same pos) (rw same room) in
          (
            x,
            rw (t.same_size, full) (rw evicted pushed),
            stored,
            (config'.0 ∙ config.0, config'.1 ∙ config.1),
          )
      | inr some_room ↦
          let kept : make_room (is_lifo u) n w ≡ w = rw some_room in
          let (x, pushed, stored, config) = push-Tracks u w p t h pos (rw kept at room) in
          (x, rw (t.same_size, some_room) pushed, rw kept stored, config)
    ]

-- A known profile, or any profile where there is no bound, is stored at once.
pub unbounded-Tracks :
    (u : Service) (w : Window) (p : UserProfile)
    → Tracks u w
    → ¬ (0 < limit u)
    → Dict.lookup p.id w ≡ none
    → Tracks (store p u) (Dict.insert p.id p w)
unfolding store
unbounded-Tracks u w p t none_kept h = record {
  ready = t.ready;
  distinct = Dict.insert-IsDistinct p.id p u.profiles_map t.distinct;
  listed = Dict.insert-IsDistinct p.id p w t.listed;
  agrees = λ k. ground (
    arith,
    Dict.lookup-insert p.id k p u.profiles_map,
    Dict.lookup-insert p.id k p w,
    t.agrees k,
  );
  same_size = omega (
    arith,
    Dict.length-insert_new p.id p u.profiles_map (t.agrees p.id ∙ h),
    Dict.length-insert_new p.id p w h,
    t.same_size,
  );
  ordered = λ pos. absurd (none_kept pos);
  bounded = λ pos. absurd (none_kept pos);
}
