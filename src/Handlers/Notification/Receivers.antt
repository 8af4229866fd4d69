-- ===== src/Handlers/Notification/Receivers.antt =====
-- DefaultNotificationReceiver: where the events of a stream come from.
use inspiring_vacations_agen.Common.{
  ◌≡◌, refl, inl, inr, Bool, false, Option, none, some, List, [], ◌∷◌, ◌++◌, String, ◌==◌,
  if◌then◌else◌, string_eq, contains, Bool-cases, Option-cases, arith, ap, ◌∙◌, append_assoc, ◌≢◌,
  eq_iff,
}
use inspiring_vacations_agen.Common.Dict.{Dict}
use inspiring_vacations_agen.Handlers.Activate.{has}
use inspiring_vacations_agen.Handlers.Notification.{Event, stream, framed}

-- The handlers that are registered at the notification center, by their types. They share the
-- variable of the loop that made them, which Go 1.21 has once for all rounds: `loop_variable`.
pub record Receiver : Type 0 where
  pub registered : List String
  pub loop_variable : String

-- The loop of `DefaultNotificationReceiver` over the types, in the order of ranging. `add_handler`
-- of the SDK's center gives the error of a type, if any; those registered before it stay.
unfoldable pub register_all :
    (String → Option String) → List String → Receiver → Option String × Receiver
register_all add_handler [] r = (none, r)
register_all add_handler (t ∷ ts) r = elim (add_handler t) [
  | some e ↦ (some e, record r { loop_variable = t })
  | none ↦
      register_all add_handler ts
        (record { registered = r.registered ++ (t ∷ []); loop_variable = t })
]

-- `DefaultNotificationReceiver`, with the SDK key of the context.
unfoldable pub default_notification_receiver :
    (String → Option String) → List String → String → Option String × Receiver
unfolding register_all
default_notification_receiver add_handler types sdk_key =
    let unregistered : Receiver = record { registered = []; loop_variable = "" } in
    if sdk_key == ""
    then (some "sdk key not found", unregistered)
    else register_all add_handler types unregistered

module _ {Message : Type 0} where
  -- The events that the handlers make of the center's notifications, each a type and a message.
  unfoldable pub receive : Receiver → List (String × Message) → List (Event Message)
  receive r [] = []
  receive r ((t, message) ∷ ns) =
      let rest = receive r ns in
      if contains r.registered t
      then record { type = r.loop_variable; message = message } ∷ rest
      else rest

  -- The notifications of the types, whatever their own type is.
  abbrev pub of_types : List String → List (String × Message) → List Message
  of_types types [] = []
  of_types types ((t, message) ∷ ns) =
      let rest = of_types types ns in if contains types t then message ∷ rest else rest

-- The last type.
abbrev pub last : String → List String → String
last t [] = t
last t (u ∷ us) = last u us

register_all_lem :
    (add_handler : String → Option String) (t : String) (ts done : List String) (v : String)
    → ((u : String) → add_handler u ≡ none)
    → register_all add_handler (t ∷ ts) (record { registered = done; loop_variable = v })
      ≡ (none, record { registered = done ++ (t ∷ ts); loop_variable = last t ts })
unfolding register_all
register_all_lem add_handler t [] done v ok = rw (register_all, ok t) refl
register_all_lem add_handler t (u ∷ us) done v ok =
    rw (register_all, ok t)
      (register_all_lem add_handler u us (done ++ (t ∷ [])) t ok
        ∙ ap (λ ds. (none, record { registered = ds; loop_variable = last u us }))
            (append_assoc done (t ∷ []) (u ∷ us)))

module _ {Message : Type 0} (marshal : Message → Option String) where
  -- What is written of messages: those that can be written as JSON.
  abbrev pub written : Bool → List Message → List String
  written raw [] = []
  written raw (m ∷ ms) =
      let rest = written raw ms in
      elim (marshal m) [ none ↦ rest | some json ↦ framed marshal raw json ∷ rest ]

  stream-receive :
      (wanted : Dict String String) (raw : Bool) (r : Receiver) (ns : List (String × Message))
      → stream marshal wanted raw (receive r ns)
        ≡ (if has wanted r.loop_variable then written raw (of_types r.registered ns) else [])
  unfolding stream receive
  stream-receive wanted raw r [] = ground arith
  stream-receive wanted raw r ((t, m) ∷ ns) =
      let rest = stream-receive wanted raw r ns in
      elim (Bool-cases (contains r.registered t)) [
        | inr other ↦ rw (other) rest
        | inl heard ↦ elim (Bool-cases (has wanted r.loop_variable)) [
          | inr deaf ↦ rw (heard, stream, deaf) (rw (deaf) at rest)
          | inl asked ↦ elim (Option-cases (marshal m)) [
            | inl bad ↦ rw (heard, stream, asked, bad) (rw (asked) at rest)
            | inr (json, good) ↦
                rw (heard, stream, asked, good)
                  (ap (λ xs. framed marshal raw json ∷ xs) (rw (asked) at rest))
          ]
        ]
      ]

  -- Where the SDK registers a handler for each type: DefaultNotificationReceiver gives no error,
  -- and the stream of its events writes, in their order, the messages of all notifications, of
  -- whatever type, where the filter has the type that the loop over the types met last, and nothing
  -- where it has not, since all events carry that type.
  pub default_notification_receiver-stream :
      (add_handler : String → Option String) (t : String) (ts : List String) (sdk_key : String)
      (wanted : Dict String String) (raw : Bool) (ns : List (String × Message))
      → ((u : String) → add_handler u ≡ none)
      → sdk_key ≢ ""
      → let (error, r) = default_notification_receiver add_handler (t ∷ ts) sdk_key in
        (error ≡ none)
        × (stream marshal wanted raw (receive r ns)
            ≡ (if has wanted (last t ts) then written raw (of_types (t ∷ ts) ns) else []))
  unfolding default_notification_receiver
  default_notification_receiver-stream add_handler t ts sdk_key wanted raw ns ok keyed =
      let given : (sdk_key == "") ≡ false = ground (arith, eq_iff sdk_key "") in
      rw (default_notification_receiver, given, register_all_lem add_handler t ts [] "" ok)
        (
          refl,
          stream-receive wanted raw (record { registered = t ∷ ts; loop_variable = last t ts }) ns,
        )
