-- ===== src/Handlers/Webhook/Updates.antt =====
-- When a webhook message has an effect, and that none is lost.
use inspiring_vacations_agen.Common.{
  ◌≡◌, refl, ap, ◌⊎◌, inl, inr, true, Option, none, some, List, [], ◌∷◌, String, eq_iff, string_eq,
  arith, Bool-cases, Option-cases, All, map,
}
use inspiring_vacations_agen.Http
use inspiring_vacations_agen.Http.{Header}
use inspiring_vacations_agen.Handlers.Webhook.{
  WebhookProject, Effect, synced, updated, Status, no_content, WebhookHandler, compute_signature,
  validate_signature, update_key, update_keys, handle_webhook,
}

-- The key that an effect is about.
abbrev pub key_of : Effect → String
key_of (synced key) = key
key_of (updated key) = key

-- Whether an effect fits the syncer: a key is published where that works, and else updated here.
abbrev pub Fits : Option (String → Option String) → Effect → Type 0
Fits none (synced key) = ⊥
Fits none (updated key) = Unit
Fits (some sync) (synced key) = sync key ≡ none
Fits (some sync) (updated key) = (e : String) × (sync key ≡ some e)

update_keys-All :
    (syncer : Option (String → Option String)) (keys : List String)
    → (map key_of (update_keys syncer keys) ≡ keys) × All (Fits syncer) (update_keys syncer keys)
unfolding update_keys update_key
update_keys-All syncer [] = (refl, tt)
update_keys-All none (key ∷ keys) =
    let (same, fits) = update_keys-All none keys in (ap (◌∷◌ key) same, (tt, fits))
update_keys-All (some sync) (key ∷ keys) =
    let (same, fits) = update_keys-All (some sync) keys in
    elim (Option-cases (sync key)) [
      | inl e ↦ rw e (ap (◌∷◌ key) same, (e, fits))
      | inr (m, e) ↦ rw e (ap (◌∷◌ key) same, ((m, e), fits))
    ]

module _ (hmac_sha1_hex : String → String → String) {ProjectId : Type 0} where
  -- The message is for a project of the configuration, which skips the check of signatures or
  -- whose secret gives the signature of the request.
  pub record IsTrusted (project_of : String → Option ProjectId) (h : WebhookHandler ProjectId)
      (header : Header) (body : String) (project : WebhookProject) : Type 0 where
    pub id : ProjectId
    pub parsed : project_of body ≡ some id
    pub known : h.project_map id ≡ some project
    pub signed :
        (project.skip_signature_check ≡ true)
        ⊎ (Http.get header "X-Hub-Signature" ≡ compute_signature hmac_sha1_hex body project.secret)

  trusted_updates :
      (project_of : String → Option ProjectId) (h : WebhookHandler ProjectId) (header : Header)
      (body : String) (project : WebhookProject)
      → IsTrusted project_of h header body project
      → handle_webhook hmac_sha1_hex project_of h header (some body)
        ≡ (no_content, update_keys h.config_syncer project.sdk_keys)
  unfolding handle_webhook validate_signature
  trusted_updates project_of h header body project t = elim t.signed [
    | inl skip ↦ ground (arith, t.parsed, t.known, skip)
    | inr same ↦ ground (
      arith,
      t.parsed,
      t.known,
      same,
      eq_iff (compute_signature hmac_sha1_hex body project.secret)
          (Http.get header "X-Hub-Signature"),
    )
  ]

  effect-IsTrusted :
      (project_of : String → Option ProjectId) (h : WebhookHandler ProjectId) (header : Header)
      (body : String) (s : Status) (e : Effect) (es : List Effect)
      → handle_webhook hmac_sha1_hex project_of h header (some body) ≡ (s, e ∷ es)
      → (project : WebhookProject) × IsTrusted project_of h header body project
  unfolding handle_webhook validate_signature
  effect-IsTrusted project_of h header body s e es g = elim (Option-cases (project_of body)) [
    | inl p ↦ absurd (ground (arith, p))
    | inr (id, p) ↦ elim (Option-cases (h.project_map id)) [
      | inl q ↦ absurd (ground (arith, p, q))
      | inr (project, q) ↦ (
        project,
        record {
          id = id;
          parsed = p;
          known = q;
          signed = elim (Bool-cases project.skip_signature_check) [
            | inl skip ↦ inl skip
            | inr check ↦ inr (
                ground (
                  arith,
                  p,
                  q,
                  eq_iff (compute_signature hmac_sha1_hex body project.secret)
                      (Http.get header "X-Hub-Signature"),
                ))
          ];
        },
      )
    ]
  ]

  -- A webhook request, its body read. Where the message is for a known project that skips the
  -- check of signatures or whose secret gives the request's signature, the answer is 204 and each
  -- SDK key of the project, in order, is published for all agents or, where that fails or syncing
  -- is off, updated here. Conversely a request that has any effect is such a message.
  pub handle_webhook_iff :
      (project_of : String → Option ProjectId) (h : WebhookHandler ProjectId) (header : Header)
      (body : String)
      → ((project : WebhookProject)
          → IsTrusted project_of h header body project
          → ((handle_webhook hmac_sha1_hex project_of h header (some body)).0 ≡ no_content)
            × (map key_of (handle_webhook hmac_sha1_hex project_of h header (some body)).1
                ≡ project.sdk_keys)
            × All
                (Fits h.config_syncer)
                (handle_webhook hmac_sha1_hex project_of h header (some body)).1)
        × ((s : Status) (e : Effect) (es : List Effect)
            → handle_webhook hmac_sha1_hex project_of h header (some body) ≡ (s, e ∷ es)
            → (project : WebhookProject) × IsTrusted project_of h header body project)
  handle_webhook_iff project_of h header body = (
    λ project t.
        rw (trusted_updates project_of h header body project t) (
          let (same, fits) = update_keys-All h.config_syncer project.sdk_keys in
          (refl, same, fits)),
    effect-IsTrusted project_of h header body,
  )
