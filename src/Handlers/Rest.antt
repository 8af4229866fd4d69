-- ===== src/Handlers/Rest.antt =====
-- pkg/handlers/track.go, send_odp_event.go, get_datafile.go and optimizely_config.go: handlers that
-- ask one thing of the client.
pub mod Sent
mod Tests
use inspiring_vacations_agen.Common.{
  Bool, true, false, Option, none, some, String, ◌==◌, if◌then◌else◌, is_nil, [],
}
use inspiring_vacations_agen.Common.Dict.{Dict}
use inspiring_vacations_agen.Optimizely.Cache.{Result, ok, err, error_text}
use inspiring_vacations_agen.Optimizely.Client.{Decider, Track, track_event}
use inspiring_vacations_agen.Handlers.Body.{
  Answer, json, fail, Parsed, parsed, refused, parse_request_body, no_client,
}

-- `trackBody`; attributes and tags are the SDK's.
pub record TrackBody (Attributes : Type 0) : Type 0 where
  pub user_id : String
  pub user_attributes : Option Attributes
  pub event_tags : Option Attributes

abbrev pub no_track_body : {Attributes : Type 0} → TrackBody Attributes
no_track_body = record { user_id = ""; user_attributes = none; event_tags = none }

abbrev pub render_track : Result Track → Answer Track
render_track (ok t) = json t
render_track (err e) = fail 500 (error_text e)

-- `TrackEvent`, with whether an event went to the SDK. A client is what the SDK does for a body;
-- `event_key` is that of the query, empty where it is missing.
unfoldable pub track :
    {Attributes : Type 0}
    → (String → Option (TrackBody Attributes))
    → Option (TrackBody Attributes → Decider)
    → Option String
    → String
    → Bool × Answer Track
track unmarshal none body event_key = (false, fail 500 no_client)
track unmarshal (some client) body event_key =
    elim (parse_request_body unmarshal no_track_body body) [
      | refused e ↦ (false, fail 400 e)
      | parsed b ↦
          if event_key == ""
          then (false, fail 400 "missing required path parameter: eventKey")
          else (let (sent, result) = track_event (client b) b.user_id event_key in
              (sent, render_track result))
    ]

-- `event.Event` of the SDK.
pub record OdpEvent (Data : Type 0) : Type 0 where
  pub type : String
  pub action : String
  pub identifiers : Dict String String
  pub event_data : Option Data

abbrev pub no_event : {Data : Type 0} → OdpEvent Data
no_event = record { type = ""; action = ""; identifiers = []; event_data = none }

-- `getRequestOdpEvent`
unfoldable pub get_request_odp_event :
    {Data : Type 0} → (String → Option (OdpEvent Data)) → Option String → Parsed (OdpEvent Data)
get_request_odp_event unmarshal body = elim (parse_request_body unmarshal no_event body) [
  | refused e ↦ refused e
  | parsed b ↦
      if b.action == ""
      then refused "missing \"action\" in request payload"
      else if is_nil b.identifiers
      then refused "missing or empty \"identifiers\" in request payload"
      else parsed b
]

-- `SendOdpEvent`, with the event that goes to the SDK; a client is the error that it sends with.
unfoldable pub send_odp_event :
    {Data : Type 0}
    → (String → Option (OdpEvent Data))
    → Option (OdpEvent Data → Option String)
    → Option String
    → Option (OdpEvent Data) × Answer Bool
unfolding get_request_odp_event
send_odp_event unmarshal none body = (none, fail 500 no_client)
send_odp_event unmarshal (some send) body = elim (get_request_odp_event unmarshal body) [
  | refused e ↦ (none, fail 400 e)
  | parsed b ↦ elim (send b) [ some e ↦ (some b, fail 500 e) | none ↦ (some b, json true) ]
]

-- `GetDatafile`: the datafile as JSON, or the text of the error.
unfoldable pub get_datafile : {Json : Type 0} → (String → Result Json) → Option String → Answer Json
get_datafile unmarshal none = fail 500 no_client
get_datafile unmarshal (some datafile) = elim (unmarshal datafile) [
  | err e ↦ fail 500 (error_text e)
  | ok raw ↦ json raw
]

-- `OptimizelyConfig`
unfoldable pub optimizely_config : {Conf : Type 0} → Option Conf → Answer Conf
optimizely_config none = fail 500 no_client
optimizely_config (some conf) = json conf
