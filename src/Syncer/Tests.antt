-- ===== src/Syncer/Tests.antt =====
-- Two centers for one key, and configurations that are refused.
use inspiring_vacations_agen.Common.{◌≡◌, refl, inr, true, [], ◌∷◌, String, string_eq}
use inspiring_vacations_agen.Common.Dict
use inspiring_vacations_agen.Common.Int.{pos}
use inspiring_vacations_agen.Syncer.{
  SyncConfig, Center, text, int, other, settings, new_synced_notification_center, new_pub_sub,
  get_pub_sub_redis, datafile_flag, get_channel_for_sdk_key, get_datafile_sync_channel,
}
use inspiring_vacations_agen.Syncer.Centers.{run, channel, channel-shared}

abbrev at_host : String → SyncConfig
at_host host = record {
  pubsub =
      (
        "redis",
        settings (("host", text host) ∷ ("password", text "") ∷ ("database", int (pos 0)) ∷ []),
      )
      ∷ [];
  notification_enable = true;
  notification_default = "redis";
  datafile_enable = true;
  datafile_default = "redis";
}

abbrev center : String → Center
center key = record {
  sdk_key = key;
  pubsub = record { host = "h1"; password = ""; database = pos 0 };
}

-- The second call has another host, and gets the center of the first.
channel-shared_example : center "key1" ≡ center "key1"
unfolding new_synced_notification_center new_pub_sub get_pub_sub_redis run Dict.lookup Dict.insert
channel-shared_example =
    channel-shared [] (("key2", at_host "h3") ∷ []) "key1" "key1" (at_host "h1") (at_host "h2")
      (center "key1") (center "key1") refl refl refl

bad_host :
    new_pub_sub
      (record (at_host "h") { pubsub = ("redis", settings (("host", other) ∷ [])) ∷ [] })
      datafile_flag
    ≡ inr "pubsub redis host not valid, host must be string"
unfolding new_pub_sub get_pub_sub_redis Dict.lookup
bad_host = refl

-- A center of the SDK key "datafile" sends on the channel of the datafiles.
shares_channel : channel (center "datafile") ≡ get_datafile_sync_channel
unfolding get_channel_for_sdk_key
shares_channel = refl
