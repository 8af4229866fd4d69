-- ===== src/Syncer.antt =====
-- pkg/syncer/syncer.go and pubsub.go: notification centers that publish to other agents.
pub mod Centers
mod Tests
use Prim.Native.String.{◌++◌}
use inspiring_vacations_agen.Common.{
  ◌≡◌, ◌⊎◌, inl, inr, Bool, true, false, Option, none, some, List, [], ◌∷◌, String, ◌==◌,
  if◌then◌else◌, string_eq,
}
use inspiring_vacations_agen.Common.Dict
use inspiring_vacations_agen.Common.Dict.{Dict}
use inspiring_vacations_agen.Common.Int.{ℤ}

-- A value of a configuration, as its dynamic type: a string, an int, or another.
pub data Setting : Type 0 where
  text : String → Setting
  int : ℤ → Setting
  other : Setting

-- The configuration of a kind of pubsub: a map, or something else.
pub data PubsubConf : Type 0 where
  settings : Dict String Setting → PubsubConf
  not_settings : PubsubConf

-- `config.SyncConfig`, with the fields of its two feature configurations.
pub record SyncConfig : Type 0 where
  pub pubsub : Dict String PubsubConf
  pub notification_enable : Bool
  pub notification_default : String
  pub datafile_enable : Bool
  pub datafile_default : String

-- `pubsub.Redis`
pub record Redis : Type 0 where
  pub host : String
  pub password : String
  pub database : ℤ

-- `getPubSubRedis`, or the text of its error.
unfoldable pub get_pub_sub_redis : SyncConfig → Redis ⊎ String
unfolding Dict.lookup
get_pub_sub_redis conf = elim (Dict.lookup "redis" conf.pubsub) [
  | none ↦ inr "pubsub redis config not found"
  | some not_settings ↦ inr "pubsub redis config not valid"
  | some (settings redis_conf) ↦ elim (Dict.lookup "host" redis_conf) [
    | none ↦ inr "pubsub redis host not found"
    | some (text host) ↦ elim (Dict.lookup "password" redis_conf) [
      | none ↦ inr "pubsub redis password not found"
      | some (text password) ↦ elim (Dict.lookup "database" redis_conf) [
        | none ↦ inr "pubsub redis database not found"
        | some (int database) ↦
            inl (record { host = host; password = password; database = database })
        | some _ ↦ inr "pubsub redis database not valid, database must be int"
      ]
      | some _ ↦ inr "pubsub redis password not valid, password must be string"
    ]
    | some _ ↦ inr "pubsub redis host not valid, host must be string"
  ]
]

abbrev pub notification_flag : String
notification_flag = "sync-feature-flag-notification"

abbrev pub datafile_flag : String
datafile_flag = "sync-feature-flag-datafile"

-- `newPubSub`
unfoldable pub new_pub_sub : SyncConfig → String → Redis ⊎ String
unfolding get_pub_sub_redis
new_pub_sub conf feature_flag =
    if feature_flag == notification_flag
    then (if conf.notification_default == "redis"
        then get_pub_sub_redis conf
        else inr "pubsub type not supported")
    else if feature_flag == datafile_flag
    then (if conf.datafile_default == "redis"
        then get_pub_sub_redis conf
        else inr "pubsub type not supported")
    else inr "provided feature flag not supported"

-- `SyncedNotificationCenter`
pub record Center : Type 0 where
  pub sdk_key : String
  pub pubsub : Redis

-- `NewSyncedNotificationCenter`, on the cache that all calls share.
unfoldable pub new_synced_notification_center :
    String → SyncConfig → Dict String Center → Dict String Center × (Center ⊎ String)
unfolding new_pub_sub Dict.lookup Dict.insert
new_synced_notification_center sdk_key conf nc_cache = elim (Dict.lookup sdk_key nc_cache) [
  | some nc ↦ (nc_cache, inl nc)
  | none ↦ elim (new_pub_sub conf notification_flag) [
    | inr error ↦ (nc_cache, inr error)
    | inl pubsub ↦ (
      Dict.insert sdk_key (record { sdk_key = sdk_key; pubsub = pubsub }) nc_cache,
      inl (record { sdk_key = sdk_key; pubsub = pubsub }),
    )
  ]
]

abbrev pub pub_sub_default_chan : String
pub_sub_default_chan = "optimizely-sync"

unfoldable pub get_channel_for_sdk_key : String → String → String
get_channel_for_sdk_key channel key = channel ++ ("-" ++ key)

abbrev pub get_datafile_sync_channel : String
get_datafile_sync_channel = pub_sub_default_chan ++ "-datafile"

-- `Send`: what is published where, or the error of encoding the event.
unfoldable pub send :
    {Message : Type 0}
    → (String → Message → String ⊎ String)
    → Center
    → String
    → Message
    → (Redis × String × String) ⊎ String
unfolding get_channel_for_sdk_key
send marshal r type message = elim (marshal type message) [
  | inr error ↦ inr error
  | inl json_event ↦
      inl (r.pubsub, get_channel_for_sdk_key pub_sub_default_chan r.sdk_key, json_event)
]

-- `NewDatafileSyncer` and its `Sync`: the key is published on the channel given.
unfoldable pub new_datafile_syncer : SyncConfig → Redis ⊎ String
unfolding new_pub_sub
new_datafile_syncer conf = new_pub_sub conf datafile_flag

abbrev pub sync : Redis → String → String → Redis × String × String
sync pubsub channel sdk_key = (pubsub, channel, sdk_key)
