-- ===== src/UserProfileService/InMemory/Refines.antt =====
-- The service against a bounded list of profiles, oldest first.
use native.Mathlib.Nat.{le_refl}
use inspiring_vacations_agen.Common.{
  ℕ, ◌≤◌, ◌<◌, ◌≡◌, refl, inl, inr, Bool, true, false, none, some, List, [], ◌∷◌, String, ◌==◌, ltb,
  ltb→lt, not_lt_of_ltb, length, arith, ◌∙◌, sym, ap, if◌then◌else◌, string_eq, Bool-cases,
  Option-cases,
}
use inspiring_vacations_agen.Common.Dict
use inspiring_vacations_agen.Common.Dict.{Dict, IsDistinct}
use inspiring_vacations_agen.Common.Int.{pos_part}
use inspiring_vacations_agen.UserProfileService.InMemory.{
  UserProfile, Service, Run, returned, is_lifo, limit, lookup, initialise, save_ready, store, save,
  no_profile, ◌>>=◌,
}
use inspiring_vacations_agen.UserProfileService.InMemory.Room.{
  make_room, order, Tracks, SameConfig, store-Tracks, enlist-Tracks, unbounded-Tracks,
}
use inspiring_vacations_agen.UserProfileService.InMemory.Order.{Window}

-- A known user's profile is replaced where it stands, and a new one comes last. A bound of 0 is
-- none.
unfoldable pub put_named : Bool → ℕ → Window → UserProfile → Window
put_named lifo n w p = elim (Dict.lookup p.id w) [
  | some _ ↦ Dict.insert p.id p w
  | none ↦ Dict.insert p.id p (if ltb 0 n then make_room lifo n w else w)
]

-- A profile with no user id is ignored.
unfoldable pub put : Bool → ℕ → Window → UserProfile → Window
put lifo n w p = if p.id == "" then w else put_named lifo n w p

store-SameConfig : (p : UserProfile) (u : Service) → SameConfig (store p u) u
unfolding store
store-SameConfig p u = (refl, refl)

save_ready-Tracks :
    (u : Service) (w : Window) (p : UserProfile)
    → Tracks u w
    → (v : Service) × (save_ready u p ≡ returned v)
      × Tracks v (put_named (is_lifo u) (limit u) w p)
      × SameConfig v u
unfolding save_ready put_named
save_ready-Tracks u w p t = elim (Option-cases (Dict.lookup p.id w)) [
  | inr (q, known) ↦ (
    store p u,
    rw (t.agrees p.id, known),
    rw (known, put_named) (store-Tracks u w p t q known),
    store-SameConfig p u,
  )
  | inl new ↦ elim (Bool-cases (ltb 0 (limit u))) [
    | inl bounded ↦
        let (v, enlisted, tracks, config) =
          enlist-Tracks u w p t new (ltb→lt 0 (limit u) bounded) in
        let same = store-SameConfig p v in
        (
          store p v,
          rw (t.agrees p.id, new, bounded, enlisted),
          rw (new, put_named, bounded) tracks,
          (same.0 ∙ config.0, same.1 ∙ config.1),
        )
    | inr unbounded ↦ (
      store p u,
      rw (t.agrees p.id, new, unbounded),
      rw (new, put_named, unbounded)
          (unbounded-Tracks u w p t (not_lt_of_ltb 0 (limit u) unbounded) new),
      store-SameConfig p u,
    )
  ]
]

-- The service stands for the list, from its first use on.
pub record Holds (u : Service) (w : Window) : Type 0 where
  pub tracks : Tracks (initialise u) w
  pub unused : length u.profiles_map ≤ length (initialise u).profiles_map

initialise_ready : (u : Service) → u.is_ready ≡ true → initialise u ≡ u
unfolding initialise
initialise_ready u h = rw h

initialise-SameConfig : (u : Service) → SameConfig (initialise u) u
unfolding initialise
initialise-SameConfig u = ground arith

-- A call of `Save` returns, and does to the map what `put` does to the list.
pub save-Holds :
    (u : Service) (w : Window) (p : UserProfile)
    → Holds u w
    → (v : Service) × (save u p ≡ returned v)
      × Holds v (put (is_lifo u) (limit u) w p)
      × SameConfig v u
unfolding save put
save-Holds u w p t = elim (Bool-cases (p.id == "")) [
  | inl unnamed ↦ (u, rw unnamed, rw unnamed t, (refl, refl))
  | inr named ↦
      let config = initialise-SameConfig u in
      let lifos : is_lifo (initialise u) ≡ is_lifo u = ap (λ s. s == "lifo") config.1 in
      let limits : limit (initialise u) ≡ limit u = ap pos_part config.0 in
      let (v, saved, tracks, config') = save_ready-Tracks (initialise u) w p t.tracks in
      let same = initialise_ready v tracks.ready in
      (
        v,
        rw (named, saved),
        record {
          tracks = rw (named, same) (rw (lifos, limits) at tracks);
          unused = rw same (le_refl (length v.profiles_map));
        },
        (config'.0 ∙ config.0, config'.1 ∙ config.1),
      )
]

-- Calls of `Save` one after the other.
unfoldable pub save_all : Service → List UserProfile → Run
save_all u [] = returned u
save_all u (p ∷ ps) = do v ← save u p; save_all v ps

-- The list after these calls, and what a lookup in it finds.
abbrev pub put_all : Bool → ℕ → Window → List UserProfile → Window
put_all lifo n w [] = w
put_all lifo n w (p ∷ ps) = put_all lifo n (put lifo n w p) ps

abbrev pub find : String → Window → UserProfile
find k w = elim (Dict.lookup k w) [ none ↦ no_profile | some p ↦ p ]

save_all-Holds :
    (u : Service) (w : Window) (ps : List UserProfile)
    → Holds u w
    → (v : Service) × (save_all u ps ≡ returned v)
      × Holds v (put_all (is_lifo u) (limit u) w ps)
      × SameConfig v u
unfolding save_all
save_all-Holds u w [] t = (u, refl, t, (refl, refl))
save_all-Holds u w (p ∷ ps) t =
    let (v, saved, held, config) = save-Holds u w p t in
    let lifos : is_lifo v ≡ is_lifo u = ap (λ s. s == "lifo") config.1 in
    let limits : limit v ≡ limit u = ap pos_part config.0 in
    let (x, run, held', config') = save_all-Holds v (put (is_lifo u) (limit u) w p) ps held in
    (x, rw saved run, rw (lifos, limits) at held', (config'.0 ∙ config.0, config'.1 ∙ config.1))

-- A service that was never used.
pub record IsFresh (u : Service) : Type 0 where
  pub not_ready : u.is_ready ≡ false
  pub no_profiles : u.profiles_map ≡ []
  pub no_fifo : u.fifo_ordered ≡ []
  pub no_lifo : u.lifo_ordered ≡ []

initialise-IsFresh :
    (u : Service)
    → IsFresh u
    → ((initialise u).is_ready ≡ true)
      × ((initialise u).profiles_map ≡ [])
      × (order (initialise u) ≡ [])
unfolding initialise
initialise-IsFresh u f = ground arith

pub Holds-fresh : (u : Service) → IsFresh u → Holds u []
Holds-fresh u f =
    let (ready, empty, none_listed) = initialise-IsFresh u f in
    record {
      tracks = record {
        ready = ready;
        distinct = rw empty tt;
        listed = tt;
        agrees = λ k. rw empty;
        same_size = rw empty;
        ordered = λ _. none_listed;
        bounded = λ _. omega arith;
      };
      unused = rw f.no_profiles (omega arith);
    }

initialise_empty : (u : Service) → u.is_ready ≡ false → (initialise u).profiles_map ≡ []
unfolding initialise
initialise_empty u h = ground arith

pub lookup-Holds : (u : Service) (w : Window) (k : String) → Holds u w → lookup u k ≡ find k w
unfolding lookup
lookup-Holds u w k t = elim (Bool-cases u.is_ready) [
  | inl ready ↦
      let agree : Dict.lookup k u.profiles_map ≡ Dict.lookup k w =
        rw (initialise_ready u ready) at (t.tracks.agrees k) in
      rw (ready, agree)
  | inr fresh ↦
      let missing : Dict.lookup k w ≡ none =
        sym (t.tracks.agrees k)
        ∙ ap (Dict.lookup k) (initialise_empty u fresh)
        ∙ Dict.lookup-nil k in
      ground (arith, missing)
]

-- From a service that was never used, any calls of `Save` return: none waits on the channel or
-- panics. Afterwards a lookup of any user finds what it finds in the list that `put` makes of the
-- same profiles, and where the capacity is positive the map holds no more profiles than it.
pub save_all-put_all :
    (u : Service) (ps : List UserProfile)
    → IsFresh u
    → (v : Service) × (save_all u ps ≡ returned v)
      × ((k : String) → lookup v k ≡ find k (put_all (is_lifo u) (limit u) [] ps))
      × (0 < limit u → length v.profiles_map ≤ limit u)
save_all-put_all u ps f =
    let (v, run, held, config) = save_all-Holds u [] ps (Holds-fresh u f) in
    let limits : limit (initialise v) ≡ limit u =
      ap pos_part ((initialise-SameConfig v).0 ∙ config.0) in
    (
      v,
      run,
      λ k. lookup-Holds v _ k held,
      λ pos.
          let most = held.tracks.bounded (rw limits pos) in
          omega (arith, limits, held.unused, held.tracks.same_size, most),
    )
