-- ===== src/Handlers/Notification.antt =====
-- pkg/handlers/notification.go: the filter of notifications, and the stream of those that pass.
pub mod Filter
pub mod Receivers
mod Tests
use Prim.Native.String.{◌++◌}
use inspiring_vacations_agen.Common.{
  ◌≡◌, Bool, true, false, Option, none, some, List, [], ◌∷◌, String, ◌==◌, if◌then◌else◌, string_eq,
  is_nil, split,
}
use inspiring_vacations_agen.Common.Dict
use inspiring_vacations_agen.Common.Dict.{Dict}
use inspiring_vacations_agen.Handlers.Activate.{has}

-- The loop over the parts of one filter: a part that is a type is added.
unfoldable pub add_parts :
    Dict String String → List String → Dict String String → Dict String String
add_parts types [] m = m
add_parts types (part ∷ parts) m =
    add_parts types parts (if has types part then Dict.insert part part m else m)

-- The loop over the filters, each a list separated by commas.
unfoldable pub add_filters :
    Dict String String → List String → Dict String String → Dict String String
add_filters types [] m = m
add_filters types (filter ∷ filters) m =
    add_filters types filters (add_parts types (split b',' filter) m)

-- `getFilter`; the types of notifications are the SDK's.
unfoldable pub get_filter : Dict String String → List String → Dict String String
get_filter types filters = add_filters types filters (if is_nil filters then types else [])

-- `syncer.Event`
pub record Event (Message : Type 0) : Type 0 where
  pub type : String
  pub message : Message

module _ {Message : Type 0} (marshal : Message → Option String) where
  abbrev pub framed : Bool → String → String
  framed raw json = if raw then json ++ "\n" else "data: " ++ (json ++ "\n\n")

  -- The loop of `NotificationEventStreamHandler` over the events received until the request ends:
  -- what is written.
  unfoldable pub stream : Dict String String → Bool → List (Event Message) → List String
  stream wanted raw [] = []
  stream wanted raw (event ∷ events) =
      let rest = stream wanted raw events in
      if has wanted event.type
      then elim (marshal event.message) [ none ↦ rest | some json ↦ framed raw json ∷ rest ]
      else rest
