-- ===== src/Handlers/Webhook.antt =====
-- pkg/handlers/webhook.go: messages that a datafile has changed.
pub mod Updates
mod Tests
use Prim.Native.String.{◌++◌}
use inspiring_vacations_agen.Common.{
  ℕ, ◌≡◌, Bool, true, false, not, Option, none, some, List, [], ◌∷◌, String, ◌==◌, if◌then◌else◌,
  string_eq,
}
use inspiring_vacations_agen.Common.Dict
use inspiring_vacations_agen.Common.Dict.{Dict}
use inspiring_vacations_agen.Common.Int.{ℤ}
use inspiring_vacations_agen.Common.Dict.{lookup}
use inspiring_vacations_agen.Http
use inspiring_vacations_agen.Http.{Header}

-- `config.WebhookProject`
pub record WebhookProject : Type 0 where
  pub sdk_keys : List String
  pub secret : String
  pub skip_signature_check : Bool

-- What the handler does: it publishes a key on the datafile channel, or updates the
-- configurations of the cached clients of a key.
pub data Effect : Type 0 where
  synced updated : String → Effect

-- The status, with the text of an error.
pub data Status : Type 0 where
  no_content : Status
  bad_request : String → Status

-- The syncer is `none` where syncing is off; else it tells the error of publishing a key.
pub record WebhookHandler (ProjectId : Type 0) : Type 0 where
  pub project_map : ProjectId → Option WebhookProject
  pub config_syncer : Option (String → Option String)

-- One round of the loop over the SDK keys.
unfoldable pub update_key : Option (String → Option String) → String → Effect
update_key none key = updated key
update_key (some sync) key = elim (sync key) [ none ↦ synced key | some e ↦ updated key ]

unfoldable pub update_keys : Option (String → Option String) → List String → List Effect
update_keys syncer [] = []
update_keys syncer (key ∷ keys) = update_key syncer key ∷ update_keys syncer keys

-- The loop of `StartSyncer`, over the keys received until the context ends.
unfoldable pub receive_keys : List String → List Effect
receive_keys [] = []
receive_keys (key ∷ keys) = updated key ∷ receive_keys keys

module _ (hmac_sha1_hex : String → String → String) where
  -- `computeSignature`: HMAC-SHA1 of the payload under the secret, in hexadecimal. Writing to the
  -- hash never fails.
  unfoldable pub compute_signature : String → String → String
  compute_signature payload secret_key = "sha1=" ++ hmac_sha1_hex secret_key payload

  module _ {ProjectId : Type 0} where
    -- `validateSignature`
    unfoldable pub validate_signature :
        WebhookHandler ProjectId → String → String → ProjectId → Bool
    validate_signature h request_signature payload project_id = elim (h.project_map project_id) [
      | none ↦ false
      | some project ↦ compute_signature payload project.secret == request_signature
    ]

    -- `HandleWebhook`: the body is `none` where reading fails, the function finds the project of
    -- the message, and the effects come in their order.
    unfoldable pub handle_webhook :
        (String → Option ProjectId)
        → WebhookHandler ProjectId
        → Header
        → Option String
        → Status × List Effect
    handle_webhook project_of h header none =
        (bad_request "Unable to read webhook message body.", [])
    handle_webhook project_of h header (some body) = elim (project_of body) [
      | none ↦ (bad_request "Unable to parse webhook message.", [])
      | some id ↦ elim (h.project_map id) [
        | none ↦ (no_content, [])
        | some project ↦
            let updates = update_keys h.config_syncer project.sdk_keys in
            if project.skip_signature_check
            then (no_content, updates)
            else if validate_signature h (Http.get header "X-Hub-Signature") body id
            then (no_content, updates)
            else (
              bad_request
                  "Computed signature does not match signature in request. Ignoring message.",
              [],
            )
      ]
    ]
