-- ===== src/Routers/Api/Gates.antt =====
-- Middlewares that hand a request on as it is, or answer themselves.
use inspiring_vacations_agen.Common.{
  ℕ, ◌≡◌, refl, ◌⊎◌, inl, inr, List, [], ◌∷◌, ◌++◌, String, arith, All, ap, sym, ◌∙◌, Bool-cases,
  ltb, string_eq,
}
use inspiring_vacations_agen.Common.Int.{pos_part}
use inspiring_vacations_agen.Routers.Api.{
  Context, handled, answered, Handler, Middleware, with_all, ApiOptions, Library, set_request_id,
  request_id, base,
}

module _ {St C R : Type 0} where
  -- A middleware that either hands a request on as it is, or answers itself.
  abbrev pub IsGate : Middleware St C R → Type 0
  IsGate m =
      (next : Handler St C R) (s : St) (c : Context C)
      → (m next s c ≡ next s c)
        ⊎ ((code : ℕ) × (message : String) × (m next s c ≡ (s, answered code message)))

  -- The middlewares of the library are gates.
  pub record IsGated (L : Library St C R) : Type 0 where
    pub throttle : (n : _) → IsGate (L.throttle n)
    pub allow_content_type : (kind : String) → IsGate (L.allow_content_type kind)
    pub set_content_type : IsGate L.set_content_type
    pub set_time : IsGate L.set_time
    pub metricize : (key : String) → IsGate (L.metricize key)
    pub add_tracing : (tracer span : String) → IsGate (L.add_tracing tracer span)

  -- What is behind a gate handles what comes through it.
  pub gate-handled :
      (m : Middleware St C R)
      → IsGate m
      → (next : Handler St C R) (s : St) (c : Context C) (x : R) → (m next s c).1 ≡ handled x
      → (next s c).1 ≡ handled x
  gate-handled m g next s c x e = elim (g next s c) [
    | inl passes ↦ ap (λ p. p.1) (sym passes) ∙ e
    | inr (code, message, stops) ↦
        let clash : answered code message ≡ handled x = ap (λ p. p.1) (sym stops) ∙ e in
        absurd (ground (arith, clash))
  ]

  pub gates-handled :
      (ms : List (Middleware St C R))
      → All IsGate ms
      → (next : Handler St C R) (s : St) (c : Context C) (x : R)
      → (with_all St C R ms next s c).1 ≡ handled x
      → (next s c).1 ≡ handled x
  gates-handled [] g next s c x e = e
  gates-handled (m ∷ ms) g next s c x e =
      gates-handled ms g.1 next s c x (gate-handled m g.0 (with_all St C R ms next) s c x e)

  pub with_all-append :
      (ms ns : List (Middleware St C R)) (next : Handler St C R)
      → with_all St C R (ms ++ ns) next ≡ with_all St C R ms (with_all St C R ns next)
  with_all-append [] ns next = refl
  with_all-append (m ∷ ms) ns next = ap m (with_all-append ms ns next)

  -- The middlewares before every route.
  pub base-handled :
      (L : Library St C R) (opt : ApiOptions St C R)
      → IsGated L
      → (next : Handler St C R) (s : St) (c : Context C) (x : R)
      → (with_all St C R (base St C R L opt) next s c).1 ≡ handled x
      → (next s (record c { request = set_request_id L.new_id c.request })).1 ≡ handled x
  unfolding base
  base-handled L opt g next s c x e = elim (Bool-cases (ltb 0 (pos_part opt.max_conns))) [
    | inr unbounded ↦ rest (rw (base, unbounded) at e)
    | inl bounded ↦ rest (
        gate-handled (L.throttle opt.max_conns) (g.throttle opt.max_conns) _ s c x
          (rw (base, bounded) at e))
  ]
    where
      rest :
          (with_all St C R (L.set_time ∷ L.set_content_type ∷ request_id St C R L ∷ []) next s c).1
            ≡ handled x
          → (next s (record c { request = set_request_id L.new_id c.request })).1 ≡ handled x
      rest h =
          gate-handled L.set_content_type g.set_content_type (request_id St C R L next) s c x
            (gate-handled L.set_time g.set_time _ s c x h)
