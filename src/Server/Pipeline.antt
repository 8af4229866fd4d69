-- ===== src/Server/Pipeline.antt =====
-- Which requests reach the router of a server.
use inspiring_vacations_agen.Common.{
  ◌≡◌, refl, ◌↔◌, ◌⊎◌, inl, inr, true, ◌&&◌, Option, none, some, List, [], ◌∷◌, String, arith, Elem,
  Bool-cases, Option-cases, ◌==◌, has_lower_suffix, ap, ◌∙◌, sym, ◌≢◌, eq_iff, string_eq,
}
use inspiring_vacations_agen.Common.Int.{ℤ}
use inspiring_vacations_agen.Common.Dict
use inspiring_vacations_agen.Common.Dict.{Dict}
use inspiring_vacations_agen.Http.{Request}
use inspiring_vacations_agen.Middleware.AllowedHosts.{checked_host}
use inspiring_vacations_agen.Middleware.AllowedHosts.Accepts.{Matches, serve_iff}
use inspiring_vacations_agen.Middleware.Batch.{
  Net, BatchOperation, Routed, passed_on, refused, accepted, route,
}
use inspiring_vacations_agen.Server.{
  ServerConfig, get_allowed_hosts, Handler, Response, routed, bad_batch, batch, allow_hosts,
  batch_router, health_mw, chain, Registry, wrap_one, wrap_with_interceptors, new_server,
  make_tls_config, is_https_enabled, Server, ServerError,
}

-- What the layers before the router take for themselves.
abbrev pub IsHealth : String → Request → Type 0
IsHealth path r = (r.method ≡ "GET") × (has_lower_suffix r.path path ≡ true)

abbrev pub IsBatch : Request → Type 0
IsBatch r = (r.method ≡ "POST") × (has_lower_suffix r.path "/batch" ≡ true)

-- A request that is a batch is never passed on, any other always is.
route-passed_on :
    (N : Net) (limit : ℤ) (r : Request) (decoded : Option (List (BatchOperation N.Body)))
    → ((¬ IsBatch r) × (route N limit r.method r.path decoded ≡ passed_on))
      ⊎ (IsBatch r × (route N limit r.method r.path decoded ≢ passed_on))
unfolding route
route-passed_on N limit r none = ground (arith, eq_iff r.method "POST")
route-passed_on N limit r (some ops) = ground (arith, eq_iff r.method "POST")

module _ (N : Net) {R : Type 0} (decode : Request → Option (List (BatchOperation N.Body))) where
  batch_router-routed :
      (limit : ℤ) (router : Request → R) (r : Request)
      → (batch_router N R decode limit (λ q. routed (router q)) r ≡ routed (router r))
        ↔ (¬ IsBatch r)
  batch_router-routed limit router r =
      let cases : (o : Routed N)
          → (o ≡ passed_on)
            ⊎ ((o ≢ passed_on)
                × ((elim o as (λ _. Response N R) [
                  | passed_on ↦ routed (router r)
                  | refused code ↦ bad_batch code
                  | accepted ops ↦ batch ops
                ])
                    ≢ routed (router r))) =
        elim [
          | passed_on ↦ inl refl
          | refused code ↦ inr (λ e. ground arith, λ e. ground arith)
          | accepted ops ↦ inr (λ e. ground arith, λ e. ground arith)
        ] in
      elim (route-passed_on N limit r (decode r)) [
        | inl (single, passed) ↦ (λ _. single, λ _. rw (passed, batch_router) refl)
        | inr (several, stays) ↦ elim (cases (route N limit r.method r.path (decode r))) [
          | inl passed ↦ absurd (stays passed)
          | inr (_, other) ↦ (λ e. absurd (other e), λ single. absurd (single several))
        ]
      ]

  module _ {Conf : Type 0} (conf : ServerConfig Conf) (router : Request → R) where
    -- The layers hand a request to the router exactly when it is no health check, its host is
    -- allowed and it is no batch.
    chain-routed :
        (r : Request)
        → (chain N R decode conf (λ q. routed (router q)) r ≡ routed (router r)) ↔ (
            (¬ IsHealth conf.health_check_path r)
            × (Elem "." (get_allowed_hosts conf)
                ⊎ Matches (get_allowed_hosts conf) (checked_host r))
            × (¬ IsBatch r))
    unfolding chain health_mw
    chain-routed r =
        elim (Bool-cases (r.method == "GET" && has_lower_suffix r.path conf.health_check_path)) [
          | inl health ↦
              rw (health, chain, health_mw)
                (
                  λ e. absurd (ground arith),
                  λ h. absurd (h.0 (ground (arith, eq_iff r.method "GET"))),
                )
          | inr other ↦ elim (serve_iff (get_allowed_hosts conf) r).1 [
            | inl served ↦
                let (to, from) = batch_router-routed conf.operations_limit router r in
                rw (other, chain, health_mw)
                  (rw (served, allow_hosts)
                    (
                      λ e. (
                        λ h. ground (arith, eq_iff r.method "GET"),
                        (serve_iff (get_allowed_hosts conf) r).0.0 served,
                        to e,
                      ),
                      λ h. from (h.2),
                    ))
            | inr failed ↦
                rw (other, chain, health_mw)
                  (rw (failed, allow_hosts)
                    (
                      λ e. absurd (ground arith),
                      λ h.
                          absurd (
                            ground (arith, failed, (serve_iff (get_allowed_hosts conf) r).0.1 h.1)),
                    ))
          ]
        ]

-- Every interceptor that the registry makes hands requests on as they are.
abbrev pub PassOn : (N : Net) (R Conf : Type 0) → Registry N R Conf → Type 0
PassOn N R Conf registry =
    (name : String) (creator : Conf → Option (Handler N R → Handler N R))
    → Dict.lookup name registry ≡ some creator
    → (conf : Conf) (mw : Handler N R → Handler N R) → creator conf ≡ some mw
    → (next : Handler N R) (r : Request) → mw next r ≡ next r

module _ (N : Net) {R Conf : Type 0} (registry : Registry N R Conf)
    (pass : PassOn N R Conf registry) where
  wrap_one-pass :
      (name : String) (conf : Conf) (next : Handler N R) (r : Request)
      → wrap_one N R registry name conf next r ≡ next r
  unfolding wrap_one
  wrap_one-pass name conf next r = elim (Option-cases (Dict.lookup name registry)) [
    | inl missing ↦ rw (missing, wrap_one) refl
    | inr (creator, found) ↦ elim (Option-cases (creator conf)) [
      | inl broken ↦ rw (found, wrap_one) (rw broken refl)
      | inr (mw, made) ↦
          rw (found, wrap_one) (rw made (pass name creator found conf mw made next r))
    ]
  ]

  wrap_with_interceptors-pass :
      (confs : Dict String Conf) (next : Handler N R) (r : Request)
      → wrap_with_interceptors N R registry confs next r ≡ next r
  unfolding wrap_with_interceptors
  wrap_with_interceptors-pass [] next r = refl
  wrap_with_interceptors-pass ((name, conf) ∷ confs) next r =
      wrap_with_interceptors-pass confs (wrap_one N R registry name conf next) r
      ∙ wrap_one-pass name conf next r

loaded : {A B : Type 0} (x : A ⊎ B) → ((a : A) × (x ≡ inl a)) ⊎ ((b : B) × (x ≡ inr b))
loaded (inl a) = inl (a, refl)
loaded (inr b) = inr (b, refl)

-- What `NewServer` makes of a router is an error, or a server whose handler is the chain.
module _ (N : Net) {R Conf Cert : Type 0} (decode : Request → Option (List (BatchOperation N.Body)))
    (registry : Registry N R Conf) (load : String → String → Cert ⊎ String) (name port : String)
    (router : Request → R) (conf : ServerConfig Conf) where
  handler_of : Server N R Cert ⊎ ServerError → Handler N R → Handler N R
  handler_of (inl s) otherwise = s.handler
  handler_of (inr _) otherwise = otherwise

  handler_of-new_server :
      (next : Handler N R)
      → let wrapped =
          wrap_with_interceptors N R registry conf.interceptors (chain N R decode conf next) in
        handler_of (new_server N R decode registry load name port (some next) conf) wrapped
        ≡ wrapped
  unfolding new_server handler_of
  handler_of-new_server next = elim (Bool-cases (is_https_enabled conf)) [
    | inl on ↦
        rw (on, new_server)
          (elim (loaded (load conf.cert_file conf.key_file)) [
            | inl (_, e) ↦ rw (e, make_tls_config) refl
            | inr (_, e) ↦ rw (e, make_tls_config) refl
          ])
    | inr off ↦ rw (off, new_server) refl
  ]

  -- Where every interceptor hands requests on as they are, a server that NewServer made of a router
  -- serves a request by the router exactly when it is no health check (GET, the lower-case path
  -- ends in the configured one), "." or the checked host is among the server's own host and the
  -- allowed hosts, and it is no batch (POST, the lower-case path ends in "/batch").
  pub handler-routed :
      (s : Server N R Cert)
      → PassOn N R Conf registry
      → new_server N R decode registry load name port (some (λ q. routed (router q))) conf ≡ inl s
      → (r : Request)
      → (s.handler r ≡ routed (router r)) ↔ (
          (¬ IsHealth conf.health_check_path r)
          × (Elem "." (get_allowed_hosts conf) ⊎ Matches (get_allowed_hosts conf) (checked_host r))
          × (¬ IsBatch r))
  unfolding handler_of
  handler-routed s pass made r =
      let next : Handler N R = λ q. routed (router q) in
      let wrapped =
        wrap_with_interceptors N R registry conf.interceptors (chain N R decode conf next) in
      let whole : s.handler ≡ wrapped =
        sym (ap (λ x. handler_of x wrapped) made) ∙ handler_of-new_server next in
      let at_r : s.handler r ≡ chain N R decode conf next r =
        ap (λ h. h r) whole ∙ wrap_with_interceptors-pass N registry pass conf.interceptors _ r in
      rw at_r (chain-routed N decode conf router r)
