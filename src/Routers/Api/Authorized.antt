-- ===== src/Routers/Api/Authorized.antt =====
-- Which requests reach a handler of the group "/v1".
use inspiring_vacations_agen.Common.{
  ℕ, ◌≡◌, refl, some, List, [], ◌∷◌, ◌++◌, String, Elem, All, Elem-All, ap, sym, ◌∙◌, string_eq,
}
use inspiring_vacations_agen.Http.{forward}
use inspiring_vacations_agen.Middleware.Auth.{Jwt, Verifier, authorize_api}
use inspiring_vacations_agen.Middleware.Cached.{client_ctx}
use inspiring_vacations_agen.Optimizely.Cache.{Sdk, OptlyClient, OptlyCache}
use inspiring_vacations_agen.Routers.Api.{
  Context, handled, with_all, ApiOptions, Library, set_request_id, v1, group_route,
}
use inspiring_vacations_agen.Routers.Api.Default.{
  AgentHandler, AgentMiddleware, sdk_middleware, o_auth_middleware, Handlers, ApiConfig, options_of,
}
use inspiring_vacations_agen.Routers.Api.Gates.{
  IsGate, IsGated, gate-handled, gates-handled, with_all-append, base-handled,
}
use inspiring_vacations_agen.Routers.Api.Replies.{o_auth-handled, sdk-handled}

module _ (S : Sdk) (J : Jwt) {R : Type 0} where
  -- A route of the group: its own middlewares are gates up to the check of the token.
  abbrev Guarded :
      Verifier J → ℕ → String × String × List (AgentMiddleware S J R) × AgentHandler S J R → Type 0
  Guarded v now (method, path, own, handler) =
      (before after : List (AgentMiddleware S J R)) × (own
        ≡ before ++ o_auth_middleware S J R v now ∷ after)
      × All IsGate before

  module _ (L : Library (OptlyCache S) (OptlyClient S) R) (gated : IsGated L) where
    v1-Guarded :
        (v : Verifier J) (now : ℕ) (opt : ApiOptions (OptlyCache S) (OptlyClient S) R)
        → opt.o_auth_middleware ≡ o_auth_middleware S J R v now
        → All (Guarded v now) (v1 (OptlyCache S) (OptlyClient S) R L opt)
    unfolding v1
    v1-Guarded v now opt e = (
      timed "get-config" _,
      (
        timed "get-datafile" _,
        (
          timed "activate" _,
          (
            timed "decide" _,
            (
              timed "track-event" _,
              (
                timed "override" _,
                (timed "lookup" _, (timed "save" _, (timed "send-odp-event" _, (bare _, tt)))),
              ),
            ),
          ),
        ),
      ),
    )
      where
        bare :
            (after : List (AgentMiddleware S J R))
            → (before rest : List (AgentMiddleware S J R)) × (opt.o_auth_middleware ∷ after
                ≡ before ++ o_auth_middleware S J R v now ∷ rest)
              × All IsGate before
        bare after = ([], after, ap (λ m. m ∷ after) e, tt)

        timed :
            (name : String) (after : List (AgentMiddleware S J R))
            → (before rest : List (AgentMiddleware S J R)) × (L.metricize name
                  ∷ opt.o_auth_middleware
                  ∷ after
                ≡ before ++ o_auth_middleware S J R v now ∷ rest)
              × All IsGate before
        timed name after = (
          L.metricize name ∷ [],
          after,
          ap (λ m. L.metricize name ∷ m ∷ after) e,
          (gated.metricize name, tt),
        )

    -- Where the middlewares of third-party packages and the observing ones each hand a request on
    -- as
    -- it is or answer themselves: a handler of the group "/v1", overrides and the notification
    -- stream
    -- included, handles a request only if ClientCtx finds a client for it and AuthorizeAPI accepts
    -- its
    -- token, both for the request with its id set.
    pub v1-handled :
        (v : Verifier J) (now : ℕ) (token_handler : AgentHandler S J R) (h : Handlers S J R)
        (conf : ApiConfig S J R)
        → IsGate conf.cors
        → (method path : String) (own : List (AgentMiddleware S J R)) (handler : AgentHandler S J R)
        → Elem
            (method, path, own, handler)
            (v1 (OptlyCache S) (OptlyClient S) R L (options_of S J R v token_handler h conf now))
        → (s : OptlyCache S) (c : Context (OptlyClient S)) (x : R)
        → (group_route
            (OptlyCache S)
            (OptlyClient S)
            R
            L
            (options_of S J R v token_handler h conf now)
            (method, path, own, handler)
            s
            c).1
          ≡ handled x
        → (client : OptlyClient S) × ((client_ctx S conf.loader s
              (set_request_id L.new_id c.request)).1
            ≡ forward (set_request_id L.new_id c.request, client))
          × (authorize_api J v now (set_request_id L.new_id c.request)
              ≡ forward (set_request_id L.new_id c.request))
    unfolding group_route options_of
    v1-handled v now token_handler h conf cors method path own handler listed s c x e =
        let opt = options_of S J R v token_handler h conf now in
        let (before, after, split, gates) =
          Elem-All (Guarded v now) _ (method, path, own, handler) (v1-Guarded v now opt refl)
            listed in
        let q = record c { request = set_request_id L.new_id c.request } in
        let based = base-handled L opt gated _ s c x e in
        let inner = with_all (OptlyCache S) (OptlyClient S) R own handler in
        let sdk = sdk_middleware S J R conf.loader in
        let (client, found, behind) =
          sdk-handled S J conf.loader inner s q x
            (gate-handled conf.cors cors (sdk inner) s q x based) in
        let whole =
          ap (λ ms. with_all (OptlyCache S) (OptlyClient S) R ms handler) split
          ∙ with_all-append before (o_auth_middleware S J R v now ∷ after) handler in
        let at_cache = (client_ctx S conf.loader s q.request).0 in
        let with_client : Context (OptlyClient S) = record q { client = some client } in
        let opened = ap (λ k. (k at_cache with_client).1) (sym whole) ∙ behind in
        let rest = with_all (OptlyCache S) (OptlyClient S) R after handler in
        (
          client,
          found,
          o_auth-handled S J v now rest at_cache with_client x (
              gates-handled before gates (o_auth_middleware S J R v now rest) at_cache with_client x
                opened),
        )
