-- ===== src/Handlers/Webhook/Tests.antt =====
-- A signed message for a project of two keys, where publishing the second key fails.
use Prim.Native.String.{◌++◌}
use inspiring_vacations_agen.Common.{
  ℕ, ◌≡◌, refl, false, none, some, List, [], ◌∷◌, String, ◌==◌, if◌then◌else◌, string_eq, All, map,
  eqb,
}
use inspiring_vacations_agen.Common.Dict
use inspiring_vacations_agen.Http
use inspiring_vacations_agen.Http.{Header}
use inspiring_vacations_agen.Handlers.Webhook.{
  WebhookProject, Effect, synced, updated, Status, no_content, WebhookHandler, compute_signature,
  validate_signature, update_key, update_keys, handle_webhook,
}
use inspiring_vacations_agen.Handlers.Webhook.Updates.{key_of, Fits, IsTrusted, handle_webhook_iff}

program : Unit {0}
unfolding compute_signature validate_signature update_key update_keys handle_webhook Dict.lookup
    Http.get
program = tt

abbrev project : WebhookProject
project = record { sdk_keys = "key1" ∷ "key2" ∷ []; secret = "s"; skip_signature_check = false }

abbrev handler : WebhookHandler ℕ
handler = record {
  project_map = λ id. if eqb id 1 then some project else none;
  config_syncer = some (λ key. if key == "key2" then some "unreachable" else none);
}

abbrev digest : String → String → String
digest secret payload = secret ++ payload

abbrev signature : String → Header
signature s = ("X-Hub-Signature", s ∷ []) ∷ []

signed :
    handle_webhook digest (λ _. some 1) handler (signature "sha1=sbody") (some "body")
    ≡ (no_content, synced "key1" ∷ updated "key2" ∷ [])
unfolding program
signed = refl

unsigned : (handle_webhook digest (λ _. some 1) handler (signature "sha1=") (some "body")).1 ≡ []
unfolding program
unsigned = refl

handle_webhook_iff_example :
    ((project : WebhookProject)
      → IsTrusted digest (λ _. some 1) handler (signature "sha1=sbody") "body" project
      → ((handle_webhook digest (λ _. some 1) handler (signature "sha1=sbody") (some "body")).0
          ≡ no_content)
        × (map key_of
              (handle_webhook digest (λ _. some 1) handler (signature "sha1=sbody") (some "body")).1
            ≡ project.sdk_keys)
        × All
            (Fits handler.config_syncer)
            (handle_webhook digest (λ _. some 1) handler (signature "sha1=sbody") (some "body")).1)
    × ((s : Status) (e : Effect) (es : List Effect)
        → handle_webhook digest (λ _. some 1) handler (signature "sha1=sbody") (some "body")
          ≡ (s, e ∷ es)
        → (project : WebhookProject) × IsTrusted digest
            (λ _. some 1)
            handler
            (signature "sha1=sbody")
            "body"
            project)
handle_webhook_iff_example =
    handle_webhook_iff digest (λ _. some 1) handler (signature "sha1=sbody") "body"
