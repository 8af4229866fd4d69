-- ===== src/Interceptors/Analytics/Tests.antt =====
-- A request that is reported, and addresses.
use inspiring_vacations_agen.Common.{
  ◌≡◌, refl, ◌⊎◌, true, false, none, some, List, [], ◌∷◌, string_eq, split_chars,
}
use inspiring_vacations_agen.Common.Dict
use inspiring_vacations_agen.Http
use inspiring_vacations_agen.Middleware.Batch.{Call, write_header, write}
use inspiring_vacations_agen.Interceptors.Analytics.{
  Analytics, Incoming, EventData, handler, get_ip_address,
}
use inspiring_vacations_agen.Interceptors.Analytics.Transparent.{status_of, handler-calls}

abbrev analytics : Analytics
analytics = record { tracking_id = "G-1"; enabled = true; endpoint_url = "" }

abbrev incoming : Incoming
incoming = record {
  path = "/v1/decide";
  method = "POST";
  user_agent = "curl";
  remote_addr = "[2001:db8::1]:443";
  header = [];
  cookie = none;
  body = some (record { content = "{}"; fails = false });
}

abbrev answering : Incoming → List Call
answering r = write_header 400 ∷ write "{}" ∷ []

handler-calls_example :
    ((handler analytics answering incoming).calls ≡ write_header 400 ∷ write "{}" ∷ [])
    × (((handler analytics answering incoming).event ≡ none)
        ⊎ ((e : EventData) × ((handler analytics answering incoming).event ≡ some e)
            × (e.status_code ≡ status_of 200 (answering incoming))
            × (e.path ≡ "/v1/decide")
            × (e.method ≡ "POST")))
handler-calls_example = handler-calls analytics answering incoming refl

-- An address of IPv6 is cut at its first colon.
cut_address : get_ip_address incoming ≡ "[2001"
unfolding get_ip_address Http.get Dict.lookup split_chars
cut_address = refl

forwarded_address :
    get_ip_address (record incoming { header = ("X-Forwarded-For", "1.2.3.4,5.6.7.8" ∷ []) ∷ [] })
    ≡ "1.2.3.4"
unfolding get_ip_address Http.get Dict.lookup split_chars
forwarded_address = refl
