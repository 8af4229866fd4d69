-- ===== src/Handlers/Rest/Sent.antt =====
-- Which requests send an event.
use inspiring_vacations_agen.Common.{
  ◌≡◌, ◌≢◌, refl, ◌↔◌, inl, inr, true, Option, none, some, String, ◌==◌, arith, eq_iff, ap, ◌∙◌,
  Bool-cases,
}
use inspiring_vacations_agen.Optimizely.Client.{Decider, track_event}
use inspiring_vacations_agen.Handlers.Body.{
  parsed, refused, Parsed, Parsed-cases, parse_request_body,
}
use inspiring_vacations_agen.Handlers.Rest.{TrackBody, no_track_body, track}

body_or : {A : Type 0} → A → Parsed A → A
body_or b (parsed c) = c
body_or b (refused e) = b

track_event-sent_iff :
    (D : Decider) (user_id event_key : String)
    → ((track_event D user_id event_key).0 ≡ true)
      ↔ ((D.config_error ≡ none) × (D.event_error event_key ≡ none))
unfolding track_event
track_event-sent_iff D user_id event_key = ground arith

-- For a client, an event goes to the SDK's Track exactly when the body parses, the query has an
-- event key, the SDK has a configuration and the configuration has an event of this key.
pub track-sent_iff :
    {Attributes : Type 0} (unmarshal : String → Option (TrackBody Attributes))
    (client : TrackBody Attributes → Decider) (body : Option String) (event_key : String)
    → ((track unmarshal (some client) body event_key).0 ≡ true) ↔ (
        (b : TrackBody Attributes) × (parse_request_body unmarshal no_track_body body ≡ parsed b)
        × (event_key ≢ "")
        × ((client b).config_error ≡ none)
        × ((client b).event_error event_key ≡ none))
unfolding track body_or
track-sent_iff unmarshal client body event_key =
    elim (Parsed-cases (parse_request_body unmarshal no_track_body body)) [
      | inr (e, wrong) ↦
          rw (wrong, track) (λ h. absurd (ground arith), λ (b, h, _, _, _). absurd (ground arith))
      | inl (b, e) ↦ elim (Bool-cases (event_key == "")) [
        | inl unnamed ↦
            rw (e, track)
              (rw unnamed (
                λ h. absurd (ground arith),
                λ (c, _, ne, _, _). absurd (ne ((eq_iff event_key "").0 unnamed)),
              ))
        | inr named ↦
            let (to, from) = track_event-sent_iff (client b) b.user_id event_key in
            rw (e, track)
              (rw named (
                λ h. (
                  b,
                  refl,
                  (λ k. absurd (ground (arith, eq_iff event_key ""))),
                  (to h).0,
                  (to h).1,
                ),
                λ (c, same, _, config, event).
                    let it : b ≡ c = ap (body_or b) same in
                    from (
                      ap (λ x. (client x).config_error) it ∙ config,
                      ap (λ x. (client x).event_error event_key) it ∙ event,
                    ),
              ))
      ]
    ]
