-- ===== src/Handlers/Notification/Tests.antt =====
-- Two of three types asked for, and one that is unknown.
use inspiring_vacations_agen.Common.{
  ◌≡◌, refl, ◌↔◌, ◌⊎◌, true, false, Option, none, some, arith, eq_iff, List, [], ◌∷◌, String, split,
  string_eq,
}
use inspiring_vacations_agen.Common.Dict
use inspiring_vacations_agen.Common.Dict.{Dict}
use inspiring_vacations_agen.Handlers.Activate.{has}
use inspiring_vacations_agen.Handlers.Notification.{
  add_parts, add_filters, get_filter, Event, stream,
}
use inspiring_vacations_agen.Handlers.Notification.Receivers.{
  receive, register_all, default_notification_receiver, default_notification_receiver-stream,
}
use inspiring_vacations_agen.Handlers.Notification.Filter.{Asks, get_filter_iff}

program : Unit {0}
unfolding has add_parts add_filters get_filter stream split Dict.lookup Dict.insert
program = tt

abbrev types : Dict String String
types = ("decision", "decision") ∷ ("track", "track") ∷ ("update", "update") ∷ []

abbrev event : String → Event String
event t = record { type = t; message = t }

streamed :
    stream
      (λ s. some s)
      (get_filter types ("track,other" ∷ "decision" ∷ []))
      false
      (event "update" ∷ event "track" ∷ [])
    ≡ "data: track\n\n" ∷ []
unfolding program
streamed = refl

get_filter_iff_example : (has (get_filter types ("track,other" ∷ [])) "track" ≡ true) ↔ (
    (has types "track" ≡ true)
    × ((◌≡◌ {A = List String} ("track,other" ∷ []) []) ⊎ Asks ("track,other" ∷ []) "track"))
get_filter_iff_example = get_filter_iff types ("track,other" ∷ []) "track"

-- The three types, ranged over so that "update" is the last: a stream of decisions shows nothing,
-- and one of updates shows the decision too.
abbrev all_types : List String
all_types = "decision" ∷ "track" ∷ "update" ∷ []

abbrev told : List (String × String)
told = ("decision", "d") ∷ ("update", "u") ∷ []

abbrev only_updates : Dict String String
only_updates = ("update", "update") ∷ []

deaf :
    stream
      (λ s. some s)
      (("decision", "decision") ∷ [])
      true
      (receive (default_notification_receiver (λ _. none) all_types "key1").1 told)
    ≡ []
unfolding program receive default_notification_receiver register_all
deaf = refl

default_notification_receiver-stream_example :
    (◌≡◌ {A = Option String} none none)
    × (stream
          (λ s. some s)
          only_updates
          true
          (receive (record { registered = all_types; loop_variable = "update" }) told)
        ≡ "d\n" ∷ "u\n" ∷ [])
unfolding program default_notification_receiver register_all
default_notification_receiver-stream_example =
    default_notification_receiver-stream (λ s. some s) (λ _. none) "decision"
      ("track" ∷ "update" ∷ []) "key1" only_updates true told (λ _. refl)
      (λ e. absurd (ground (arith, eq_iff "key1" "")))
