-- ===== src/Optimizely/Cache.antt =====
-- pkg/optimizely/cache.go: the loader of clients, the choice of plugin services, and the parts of
-- the cache that one call runs alone. Calls that run side by side are in Threads.
pub mod Loading
pub mod Threads
pub mod Sound
pub mod Agreement
mod Tests
use inspiring_vacations_agen.Common.{
  Bool, true, false, Option, none, some, List, [], ◌∷◌, String, Char, ◌==◌, if◌then◌else◌, chars,
  of_chars, split, has_prefix, map, string_eq, ◌≡◌, refl, ◌⊎◌, inl, inr,
}
use inspiring_vacations_agen.Common.Dict
use inspiring_vacations_agen.Common.Dict.{Dict}

-- `ErrValidationFailure`, or any other error with its text.
pub data LoadError : Type 0 where
  validation_failure : LoadError
  failure : String → LoadError

abbrev pub error_text : LoadError → String
error_text validation_failure = "sdkKey failed validation"
error_text (failure e) = e

pub data Result {ℓ} (A : Type ℓ) : Type ℓ where
  ok : A → Result A
  err : LoadError → Result A

pub Result-cases {ℓ} :
    {A : Type ℓ} (x : Result A) → ((a : A) × (x ≡ ok a)) ⊎ ((e : LoadError) × (x ≡ err e))
Result-cases (ok a) = inl (a, refl)
Result-cases (err e) = inr (e, refl)

-- `cmap.SetIfAbsent`
unfoldable pub set_if_absent {ℓ} : {V : Type ℓ} → String → V → Dict String V → Dict String V
set_if_absent k v m = elim (Dict.lookup k m) [ none ↦ Dict.insert k v m | some _ ↦ m ]

-- The part of a plugin configuration that is read: the default name, and for each service whether
-- its configuration is a map. `none` stands for a "services" entry that is missing or no map.
pub record ServiceConf (Conf : Type 0) : Type 0 where
  pub default : Option String
  pub services : Option (Dict String (Option Conf))

module _ {Conf Service : Type 0} where
  -- The creators are those registered. What one makes is filled from the configuration; `none` is
  -- an error of the conversion.
  unfoldable pub initialise_service :
      Dict String (Conf → Option Service) → ServiceConf Conf → String → Option Service
  initialise_service creators conf name = elim conf.services [
    | none ↦ none
    | some services ↦ elim (Dict.lookup name services) [
      | some (some c) ↦ elim (Dict.lookup name creators) [ none ↦ none | some make ↦ make c ]
      | _ ↦ none
    ]
  ]

  abbrev default_service :
      Dict String (Conf → Option Service) → ServiceConf Conf → Option String → Option Service
  default_service creators conf none = none
  default_service creators conf (some name) =
      if name == "" then none else initialise_service creators conf name

  -- `getServiceWithType`, for the creators of one type.
  unfoldable pub get_service :
      Dict String (Conf → Option Service)
      → String
      → Dict String String
      → ServiceConf Conf
      → Option Service
  get_service creators sdk_key service_map conf = elim (Dict.lookup sdk_key service_map) [
    | none ↦ default_service creators conf conf.default
    | some name ↦
        if name == ""
        then default_service creators conf conf.default
        else initialise_service creators conf name
  ]

-- The SDK key and the datafile access token, empty where there is none.
abbrev key_of_parts : List String → String × String
key_of_parts [] = ("", "")
key_of_parts (key ∷ token ∷ []) = (key, token)
key_of_parts (key ∷ _) = (key, "")

unfoldable pub split_key : String → String × String
unfolding split
split_key client_key = key_of_parts (split b':' client_key)

-- The parts of the SDK that the loader calls.
pub record Sdk : Type 1 where
  pub ConfigManager : Type 0
  pub NotificationCenter : Type 0
  pub Conf : Type 0
  pub UserProfileService : Type 0
  pub OdpCache : Type 0
  pub validator : String → Bool
  -- A polling manager for an SDK key, with an access token or none.
  pub new_manager : String → Option String → ConfigManager
  -- The error of `GetConfig`, if there is one.
  pub config_error : ConfigManager → Option String
  -- `NewSyncedNotificationCenter`: `none` where it fails.
  pub synced_center : String → Option NotificationCenter
  -- The error of the client factory, if there is one.
  pub factory_error : String → ConfigManager → Option String

module _ (S : Sdk) where
  open S use {
    ConfigManager, NotificationCenter, Conf, UserProfileService, OdpCache, validator, new_manager,
    config_error, synced_center, factory_error,
  }

  pub record OptlyClient : Type 0 where
    pub sdk_key : String
    pub manager : ConfigManager
    pub center : Option NotificationCenter
    pub user_profile_service : Option UserProfileService
    pub odp_cache : Option OdpCache

  pub record LoaderConf : Type 0 where
    pub sync_notifications : Bool
    pub ups_conf : ServiceConf Conf
    pub odp_conf : ServiceConf Conf
    pub ups_creators : Dict String (Conf → Option UserProfileService)
    pub odp_creators : Dict String (Conf → Option OdpCache)

  unfoldable pub manager_for : String × String → ConfigManager
  manager_for (key, token) =
      if token == "" then new_manager key none else new_manager key (some token)

  -- `defaultLoader`; the maps hold the service names that requests asked for.
  unfoldable pub load :
      LoaderConf → Dict String String → Dict String String → String → Result OptlyClient
  load conf ups_map odp_map client_key =
      if validator client_key
      then (let key = (split_key client_key).0 in
          let manager = manager_for (split_key client_key) in
          elim (config_error manager) [
            | some e ↦ err (failure e)
            | none ↦ elim (factory_error key manager) [
              | some e ↦ err (failure e)
              | none ↦ ok (record {
                sdk_key = key;
                manager = manager;
                center = if conf.sync_notifications then synced_center key else none;
                user_profile_service = get_service conf.ups_creators key ups_map conf.ups_conf;
                odp_cache = get_service conf.odp_creators key odp_map conf.odp_conf;
              })
            ]
          ])
      else err validation_failure

module _ (S : Sdk) where
  -- `OptlyCache`: the clients by client key, and the service names that requests asked for.
  pub record OptlyCache : Type 0 where
    pub optly_map : Dict String (OptlyClient S)
    pub ups_map : Dict String String
    pub odp_map : Dict String String

  unfoldable pub set_user_profile_service : String → String → OptlyCache → OptlyCache
  set_user_profile_service key name c = record c { ups_map = set_if_absent key name c.ups_map }

  unfoldable pub set_odp_cache : String → String → OptlyCache → OptlyCache
  set_odp_cache key name c = record c { odp_map = set_if_absent key name c.odp_map }

  -- `GetClient` where no other call runs: the key that was missing is still missing after loading.
  unfoldable pub get_client :
      LoaderConf S → String → OptlyCache → OptlyCache × Result (OptlyClient S)
  get_client conf key c = elim (Dict.lookup key c.optly_map) [
    | some client ↦ (c, ok client)
    | none ↦ elim (load S conf c.ups_map c.odp_map key) [
      | err e ↦ (c, err e)
      | ok client ↦ (record c { optly_map = set_if_absent key client c.optly_map }, ok client)
    ]
  ]

  -- `Init`: the keys one after the other, errors aside.
  unfoldable pub init : LoaderConf S → List String → OptlyCache → OptlyCache
  init conf [] c = c
  init conf (key ∷ keys) c = init conf keys (get_client conf key c).0

-- `UpdateConfigs`: the clients whose configuration is fetched anew.
unfoldable pub update_configs {ℓ} : {C : Type ℓ} → String → Dict String C → List C
update_configs sdk_key [] = []
update_configs sdk_key ((k, c) ∷ m) =
    let rest = update_configs sdk_key m in if has_prefix k sdk_key then c ∷ rest else rest
