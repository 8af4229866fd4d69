-- ===== src/Handlers/Rest/Tests.antt =====
-- Requests that send events.
use inspiring_vacations_agen.Common.{
  ◌≡◌, ◌≢◌, refl, ◌↔◌, true, none, some, String, ◌==◌, if◌then◌else◌, [],
}
use inspiring_vacations_agen.Optimizely.Cache.{ok}
use inspiring_vacations_agen.Optimizely.Client.{Decider}
use inspiring_vacations_agen.Handlers.Body.{fail, parsed, parse_request_body}
use inspiring_vacations_agen.Handlers.Rest.{
  TrackBody, no_track_body, track, get_request_odp_event, send_odp_event,
}
use inspiring_vacations_agen.Handlers.Rest.Sent.{track-sent_iff}

abbrev body : TrackBody (Unit {0})
body = record { user_id = "u"; user_attributes = none; event_tags = none }

abbrev client : TrackBody (Unit {0}) → Decider
client b = record {
  Variables = Unit;
  no_variables = tt;
  get_variation = λ key. ok "v1";
  activate = λ key. ok "v1";
  feature_decision = λ key disable. ok (true, "", "", tt);
  config_error = none;
  event_error = λ key. if key == "buy" then none else some "no event";
  track_error = λ key. none;
}

track-sent_iff_example : ((track (λ _. some body) (some client) (some "{}") "buy").0 ≡ true) ↔ (
    (b : TrackBody (Unit {0})) × (parse_request_body (λ _. some body) no_track_body (some "{}")
      ≡ parsed b)
    × (◌≢◌ {A = String} "buy" "")
    × ((client b).config_error ≡ none)
    × ((client b).event_error "buy" ≡ none))
track-sent_iff_example = track-sent_iff (λ _. some body) client (some "{}") "buy"

-- An event without identifiers is refused, and not sent.
no_identifiers :
    send_odp_event {Data = Unit {0}}
      (λ _. some (record { type = "t"; action = "a"; identifiers = []; event_data = none }))
      (some (λ _. none))
      (some "{}")
    ≡ (none, fail 400 "missing or empty \"identifiers\" in request payload")
unfolding send_odp_event get_request_odp_event parse_request_body
no_identifiers = refl
