-- ===== src/Command/Needs.antt =====
-- When `initTracing` gives a provider.
use inspiring_vacations_agen.Common.{◌≡◌, ◌↔◌, ◌⊎◌, inl, inr, refl, ◌==◌, arith, eq_iff, Bool-cases}
use inspiring_vacations_agen.Config.{OtelTracingConfig}
use inspiring_vacations_agen.Command.Tracing.{
  Telemetry, init_tracing, get_remote_trace_provider, get_std_out_trace_provider,
  get_otel_trace_client,
}

pub sum_cases : {A B : Type 0} (s : A ⊎ B) → ((a : A) × (s ≡ inl a)) ⊎ ((b : B) × (s ≡ inr b))
sum_cases (inl a) = inl (a, refl)
sum_cases (inr b) = inr (b, refl)

module _ (T : Telemetry) where
  open T use {
    F, File, Exporter, Resource, Client, Provider, create, new_stdout_exporter, new_resource,
    http_client, grpc_client, new_exporter,
  }

  -- What tracing needs: a known service; for "stdout" a file and an exporter, for "remote" a known
  -- protocol and an exporter; and the resource.
  abbrev pub CanTrace : OtelTracingConfig F → Type 0
  CanTrace conf =
      (r : Resource) × (new_resource conf.service_name conf.env ≡ inl r)
      × (((conf.default_service ≡ "stdout")
            × (f : File) × (e : Exporter) × (create conf.filename ≡ inl f)
            × (new_stdout_exporter f ≡ inl e))
          ⊎ ((conf.default_service ≡ "remote")
              × (c : Client) × (e : Exporter) × (((conf.remote.protocol ≡ "http")
                    × (c ≡ http_client conf.remote.endpoint))
                  ⊎ ((conf.remote.protocol ≡ "grpc") × (c ≡ grpc_client conf.remote.endpoint)))
              × (new_exporter c ≡ inl e)))

  abbrev HasClient : OtelTracingConfig F → Client → Type 0
  HasClient conf c =
      ((conf.remote.protocol ≡ "http") × (c ≡ http_client conf.remote.endpoint))
      ⊎ ((conf.remote.protocol ≡ "grpc") × (c ≡ grpc_client conf.remote.endpoint))

  client_iff :
      (conf : OtelTracingConfig F) (c : Client)
      → (get_otel_trace_client T conf ≡ inl c) ↔ HasClient conf c
  unfolding get_otel_trace_client
  client_iff conf c =
      let protocol = conf.remote.protocol in
      elim (Bool-cases (protocol == "http")) [
        | inl e ↦ (
          λ h.
              inl
                ((eq_iff protocol "http").0 e, ground (arith, rw (get_otel_trace_client, e) at h)),
          λ h. elim h [
            | inl (_, q) ↦ rw (get_otel_trace_client, e, q) refl
            | inr (g, _) ↦ absurd (ground (arith, rw (g) at e))
          ],
        )
        | inr e ↦ elim (Bool-cases (protocol == "grpc")) [
          | inl g ↦ (
            λ h. inr (
              (eq_iff protocol "grpc").0 g,
              ground (arith, rw (get_otel_trace_client, e, g) at h),
            ),
            λ h. elim h [
              | inl (k, _) ↦ absurd (ground (arith, rw (k) at e))
              | inr (_, q) ↦ rw (get_otel_trace_client, e, g, q) refl
            ],
          )
          | inr n ↦ (
            λ h. absurd (ground (arith, rw (get_otel_trace_client, e, n) at h)),
            λ h. elim h [
              | inl (k, _) ↦ absurd (ground (arith, rw (k) at e))
              | inr (k, _) ↦ absurd (ground (arith, rw (k) at n))
            ],
          )
        ]
      ]

  std_out :
      (conf : OtelTracingConfig F) (p : Provider)
      → get_std_out_trace_provider T conf ≡ inl p
      → (r : Resource) × (f : File) × (e : Exporter) × (new_resource conf.service_name conf.env
          ≡ inl r)
        × (create conf.filename ≡ inl f)
        × (new_stdout_exporter f ≡ inl e)
  unfolding get_std_out_trace_provider
  std_out conf p h = elim (sum_cases (create conf.filename)) [
    | inr (m, bad) ↦ absurd (ground (arith, rw (get_std_out_trace_provider, bad) at h))
    | inl (f, made) ↦ elim (sum_cases (new_stdout_exporter f)) [
      | inr (m, bad) ↦ absurd (ground (arith, rw (get_std_out_trace_provider, made, bad) at h))
      | inl (e, exports) ↦ elim (sum_cases (new_resource conf.service_name conf.env)) [
        | inr (m, bad) ↦
            absurd (ground (arith, rw (get_std_out_trace_provider, made, exports, bad) at h))
        | inl (r, res) ↦ (r, f, e, res, made, exports)
      ]
    ]
  ]

  remote :
      (conf : OtelTracingConfig F) (p : Provider)
      → get_remote_trace_provider T conf ≡ inl p
      → (r : Resource) × (c : Client) × (e : Exporter) × (new_resource conf.service_name conf.env
          ≡ inl r)
        × (get_otel_trace_client T conf ≡ inl c)
        × (new_exporter c ≡ inl e)
  unfolding get_remote_trace_provider
  remote conf p h = elim (sum_cases (new_resource conf.service_name conf.env)) [
    | inr (m, bad) ↦ absurd (ground (arith, rw (get_remote_trace_provider, bad) at h))
    | inl (r, res) ↦ elim (sum_cases (get_otel_trace_client T conf)) [
      | inr (m, bad) ↦ absurd (ground (arith, rw (get_remote_trace_provider, res, bad) at h))
      | inl (c, made) ↦ elim (sum_cases (new_exporter c)) [
        | inr (m, bad) ↦
            absurd (ground (arith, rw (get_remote_trace_provider, res, made, bad) at h))
        | inl (e, exports) ↦ (r, c, e, res, made, exports)
      ]
    ]
  ]

  pub init_tracing-CanTrace :
      (conf : OtelTracingConfig F)
      → ((p : Provider) × (init_tracing T conf ≡ inl p)) ↔ CanTrace conf
  unfolding init_tracing get_remote_trace_provider get_std_out_trace_provider
  init_tracing-CanTrace conf =
      let service = conf.default_service in
      elim (Bool-cases (service == "remote")) [
        | inl e ↦ (
          λ (p, h).
              let (r, c, x, res, made, exports) = remote conf p (rw (init_tracing, e) at h) in
              (
                r,
                res,
                inr ((eq_iff service "remote").0 e, c, x, (client_iff conf c).0 made, exports),
              ),
          λ (r, res, how). elim how [
            | inl (k, _, _, _, _) ↦ absurd (ground (arith, rw (k) at e))
            | inr (_, c, x, client, exports) ↦ (
              T.remote_provider conf.remote.sample_rate r x,
              rw
                  (
                    init_tracing,
                    e,
                    get_remote_trace_provider,
                    res,
                    (client_iff conf c).1 client,
                    exports,
                  )
                  refl,
            )
          ],
        )
        | inr e ↦ elim (Bool-cases (service == "stdout")) [
          | inl g ↦ (
            λ (p, h).
                let (r, f, x, res, made, exports) = std_out conf p (rw (init_tracing, e, g) at h) in
                (r, res, inl ((eq_iff service "stdout").0 g, f, x, made, exports)),
            λ (r, res, how). elim how [
              | inr (k, _, _, _, _) ↦ absurd (ground (arith, rw (k) at e))
              | inl (_, f, x, made, exports) ↦ (
                T.stdout_provider x r,
                rw (init_tracing, e, g, get_std_out_trace_provider, made, exports, res) refl,
              )
            ],
          )
          | inr n ↦ (
            λ (p, h). absurd (ground (arith, rw (init_tracing, e, n) at h)),
            λ (r, res, how). elim how [
              | inl (k, _, _, _, _) ↦ absurd (ground (arith, rw (k) at n))
              | inr (k, _, _, _, _) ↦ absurd (ground (arith, rw (k) at e))
            ],
          )
        ]
      ]
