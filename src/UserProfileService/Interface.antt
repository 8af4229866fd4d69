-- ===== src/UserProfileService/Interface.antt =====
-- decision.UserProfileService of the SDK, as the handlers use it: what the agent's services
-- promise.
pub mod Instances
use inspiring_vacations_agen.Common.{◌≡◌, ◌≢◌, Option, some, String}
use inspiring_vacations_agen.UserProfileService.InMemory.{UserProfile}

-- `none` is a call that panics or waits for ever. `Ready` are the states of a service that works,
-- `Writable` the profiles that it can keep.
pub record ProfileService : Type 1 where
  pub State : Type 0
  pub Ready : State → Type 0
  pub Writable : UserProfile → Type 0
  pub save : State → UserProfile → Option State
  pub lookup : State → String → Option UserProfile
  pub lookup-save :
      (s : State) (p : UserProfile)
      → Ready s
      → Writable p
      → p.id ≢ ""
      → (t : State) × (save s p ≡ some t) × (lookup t p.id ≡ some p) × Ready t
