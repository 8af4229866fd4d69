-- ===== src/UserProfileService/InMemory.antt =====
-- plugins/userprofileservice/services/in_memory_ups.go: profiles in a map, of bounded size where a
-- capacity is configured. The order of insertion is kept in a channel (fifo) or a slice (lifo).
pub mod Order
pub mod Room
pub mod Refines
mod Tests
use inspiring_vacations_agen.Common.{
  ℕ, ◌+◌, ◌<◌, Bool, true, false, Option, none, some, List, [], ◌∷◌, ◌++◌, String, ◌==◌, eqb, ltb,
  length, if◌then◌else◌, string_eq, ◌≡◌,
}
use inspiring_vacations_agen.Common.Dict
use inspiring_vacations_agen.Common.Dict.{Dict}
use inspiring_vacations_agen.Common.Int.{ℤ, pos_part}

-- `decision.UserDecisionKey` and `decision.UserProfile`, as far as the agent reads them.
pub record DecisionKey : Type 0 where
  pub experiment_id : String
  pub field : String

pub record UserProfile : Type 0 where
  pub id : String
  pub bucket_map : List (DecisionKey × String)

-- The zero value of `decision.UserProfile`.
abbrev pub no_profile : UserProfile
no_profile = record { id = ""; bucket_map = [] }

pub record Service : Type 0 where
  pub capacity : ℤ
  pub storage_strategy : String
  pub profiles_map : Dict String UserProfile
  pub fifo_ordered : List String
  pub lifo_ordered : List String
  pub is_ready : Bool

-- What a call of `Save` comes to: it returns, waits for ever on the channel, or panics.
pub data Run : Type 0 where
  returned : Service → Run
  blocked : Run
  panicked : Run

infixl 5 ◌>>=◌
abbrev pub ◌>>=◌ : Run → (Service → Run) → Run
returned u >>= k = k u
blocked >>= k = blocked
panicked >>= k = panicked

abbrev pub is_lifo : Service → Bool
is_lifo u = u.storage_strategy == "lifo"

-- `u.Capacity` where it is positive; 0 stands for no bound.
abbrev pub limit : Service → ℕ
limit u = pos_part u.capacity

unfoldable pub lookup : Service → String → UserProfile
lookup u user_id =
    if u.is_ready
    then elim (Dict.lookup user_id u.profiles_map) [ none ↦ no_profile | some p ↦ p ]
    else no_profile

-- The initialisation at the first call.
unfoldable pub initialise : Service → Service
initialise u =
    if u.is_ready
    then u
    else if ltb 0 (limit u)
    then (if is_lifo u
        then record u { lifo_ordered = []; profiles_map = []; is_ready = true }
        else record u { fifo_ordered = []; profiles_map = []; is_ready = true })
    else record u { profiles_map = []; is_ready = true }

-- The slice without its last element, and that element; `none` is the index -1.
unfoldable pub pop_last : List String → Option (String × List String)
pop_last [] = none
pop_last (x ∷ xs) = elim (pop_last xs) [ none ↦ some (x, []) | some (l, ys) ↦ some (l, x ∷ ys) ]

-- Takes the next profile out of the order and the map.
unfoldable pub evict : Service → Run
evict u =
    if is_lifo u
    then elim (pop_last u.lifo_ordered) [
      | none ↦ panicked
      | some (old, kept) ↦
          returned (record u { lifo_ordered = kept; profiles_map = Dict.delete old u.profiles_map })
    ]
    else elim u.fifo_ordered [
      | [] ↦ blocked
      | old ∷ kept ↦
          returned (record u { fifo_ordered = kept; profiles_map = Dict.delete old u.profiles_map })
    ]

-- A send on the channel waits while the buffer is full.
unfoldable pub push : String → Service → Run
push id u =
    if is_lifo u
    then returned (record u { lifo_ordered = u.lifo_ordered ++ id ∷ [] })
    else if ltb (length u.fifo_ordered) (limit u)
    then returned (record u { fifo_ordered = u.fifo_ordered ++ id ∷ [] })
    else blocked

-- The order of insertion with the new profile in it, room made where the map is full.
unfoldable pub enlist : String → Service → Run
enlist id u = do
  v ← if eqb (length u.profiles_map) (limit u) then evict u else returned u
  push id v

unfoldable pub store : UserProfile → Service → Service
store p u = record u { profiles_map = Dict.insert p.id p u.profiles_map }

abbrev is_some : Option UserProfile → Bool
is_some none = false
is_some (some p) = true

-- What `Save` does once the service is initialised.
unfoldable pub save_ready : Service → UserProfile → Run
save_ready u p =
    if is_some (Dict.lookup p.id u.profiles_map)
    then returned (store p u)
    else if ltb 0 (limit u)
    then (do v ← enlist p.id u; returned (store p v))
    else returned (store p u)

unfoldable pub save : Service → UserProfile → Run
save u p = if p.id == "" then returned u else save_ready (initialise u) p
