-- ===== src/Handlers/Decide/Answers.antt =====
-- When Decide answers with decisions.
use inspiring_vacations_agen.Common.{
  ◌≡◌, ◌≢◌, refl, ◌↔◌, ◌⊎◌, inl, inr, true, false, Option, none, some, List, String, ◌==◌, arith,
  eq_iff, ap, ◌∙◌, Bool-cases,
}
use inspiring_vacations_agen.Common.Dict.{Dict}
use inspiring_vacations_agen.Handlers.Body.{
  Answer, json, fail, parsed, Parsed-cases, parse_request_body,
}
use inspiring_vacations_agen.Handlers.Decide.{
  Rule, DecisionSdk, DecideBody, empty_user_id, no_segments, Decided, DecideOut, no_decide_body,
  get_user_context_with_options, user_context, decide_keys, decide, form_keys, set_forced_decisions,
}

Sum-cases : {A B : Type 0} (x : A ⊎ B) → ((a : A) × (x ≡ inl a)) ⊎ ((b : B) × (x ≡ inr b))
Sum-cases (inl a) = inl (a, refl)
Sum-cases (inr b) = inr (b, refl)

module _ (S : DecisionSdk) (unmarshal : String → Option (DecideBody S.Attributes S.Segments))
    (features : Dict String (List Rule)) (body : Option String)
    (form : Option (Dict String (List String))) where
  abbrev answer : Answer (Decided (DecideOut S))
  answer = decide S unmarshal (some features) body form

  -- The segments are fetched where the body asks for them.
  abbrev pub HasSegments : DecideBody S.Attributes S.Segments → Type 0
  HasSegments b =
      b.fetch_segments ≡ true
      → (S.fetch_qualified_segments b.fetch_segments_options
          (S.create_user_context b.user_id b.user_attributes)).0
        ≡ true

  -- A body that parses, names a user and has options that the SDK knows.
  abbrev pub IsAsked : DecideBody S.Attributes S.Segments → S.Options → Type 0
  IsAsked b options =
      (parse_request_body unmarshal (no_decide_body S) body ≡ parsed b)
      × (b.user_id ≢ "")
      × (S.translate_options b.decide_options ≡ inl options)

  user_context-cases :
      (b : DecideBody S.Attributes S.Segments)
      → (HasSegments b × ((uc : S.UserContext) × (user_context S b ≡ some uc)))
        ⊎ ((¬ HasSegments b) × (user_context S b ≡ none))
  unfolding user_context
  user_context-cases b = elim (Bool-cases b.fetch_segments) [
    | inr unasked ↦ inl (
      λ asked. absurd (ground arith),
      (
        set_forced_decisions S b.forced_decisions
            (S.create_user_context b.user_id b.user_attributes),
        rw (unasked, user_context) refl,
      ),
    )
    | inl asked ↦
        elim (Bool-cases
          (S.fetch_qualified_segments b.fetch_segments_options
            (S.create_user_context b.user_id b.user_attributes)).0) [
              | inl success ↦ inl (
                λ _. success,
                (
                  set_forced_decisions S b.forced_decisions
                      (S.fetch_qualified_segments b.fetch_segments_options
                        (S.create_user_context b.user_id b.user_attributes)).1,
                  rw (asked, user_context) (rw success refl),
                ),
              )
              | inr failure ↦ inr (
                λ h. absurd (ground (arith, h asked, failure)),
                rw (asked, user_context) (rw failure refl),
              )
            ]
  ]

  -- The rest of the handler, for a body that is fine.
  abbrev served : S.Options → Option S.UserContext → Answer (Decided (DecideOut S))
  served options none = fail 500 no_segments
  served options (some uc) = json (decide_keys S features (form_keys form) options uc)

  answer-IsAsked :
      (b : DecideBody S.Attributes S.Segments) (options : S.Options)
      → IsAsked b options
      → answer ≡ served options (user_context S b)
  unfolding decide get_user_context_with_options
  answer-IsAsked b options (e, named, known) =
      let given : (b.user_id == "") ≡ false = ground (arith, eq_iff b.user_id "") in
      rw (e, decide, get_user_context_with_options)
        (rw given (rw known (by_context (user_context S b))))
    where
      by_context :
          (uc : Option S.UserContext)
          → (elim uc as (λ _. Answer (Decided (DecideOut S))) [
            | none ↦ fail 500 no_segments
            | some c ↦ json (decide_keys S features (form_keys form) options c)
          ])
            ≡ served options uc
      by_context none = refl
      by_context (some uc) = refl

  answer-cases :
      ((b : DecideBody S.Attributes S.Segments) × (options : S.Options) × IsAsked b options)
      ⊎ ((e : String) × (answer ≡ fail 400 e))
  unfolding decide get_user_context_with_options
  answer-cases = elim (Parsed-cases (parse_request_body unmarshal (no_decide_body S) body)) [
    | inr (e, wrong) ↦ inr (e, rw (wrong, decide, get_user_context_with_options) refl)
    | inl (b, e) ↦ elim (Bool-cases (b.user_id == "")) [
      | inl unnamed ↦
          inr (empty_user_id, rw (e, decide, get_user_context_with_options) (rw unnamed refl))
      | inr named ↦ elim (Sum-cases (S.translate_options b.decide_options)) [
        | inl (options, known) ↦
            inl (b, options, (e, λ h. absurd (ground (arith, eq_iff b.user_id "")), known))
        | inr (bad, unknown) ↦
            inr (bad, rw (e, decide, get_user_context_with_options) (rw named (rw unknown refl)))
      ]
    ]
  ]

  decides :
      (b : DecideBody S.Attributes S.Segments) (options : S.Options)
      → IsAsked b options
      → HasSegments b
      → (d : Decided (DecideOut S)) × (answer ≡ json d)
  decides b options asked h = elim (user_context-cases b) [
    | inl (_, (uc, e)) ↦ (_, answer-IsAsked b options asked ∙ ap (served options) e)
    | inr (g, _) ↦ absurd (g h)
  ]

  lacks :
      (b : DecideBody S.Attributes S.Segments) (options : S.Options)
      → IsAsked b options
      → ¬ HasSegments b
      → answer ≡ fail 500 no_segments
  lacks b options asked h = elim (user_context-cases b) [
    | inl (g, _) ↦ absurd (h g)
    | inr (_, e) ↦ answer-IsAsked b options asked ∙ ap (served options) e
  ]

  -- For a client, Decide answers with decisions exactly when the body parses, names a user and has
  -- options that the SDK knows, and the user's segments are fetched where the body asks for them.
  -- The answer is 500 exactly when only the segments fail; any other answer is 400.
  pub decide-json_iff :
      (((d : Decided (DecideOut S)) × (answer ≡ json d)) ↔ (
        (b : DecideBody S.Attributes S.Segments) × (options : S.Options) × IsAsked b options
        × HasSegments b))
      × (((answer ≡ fail 500 no_segments) ↔ (
          (b : DecideBody S.Attributes S.Segments) × (options : S.Options) × IsAsked b options
          × (¬ HasSegments b))))
      × (((d : Decided (DecideOut S)) × (answer ≡ json d))
          ⊎ (answer ≡ fail 500 no_segments)
          ⊎ ((e : String) × (answer ≡ fail 400 e)))
  decide-json_iff = elim answer-cases [
    | inr (e, bad) ↦ (
      (
        λ (d, h). absurd (ground (arith, bad, h)),
        λ (b, options, asked, h). decides b options asked h,
      ),
      (λ h. absurd (ground (arith, bad, h)), λ (b, options, asked, h). lacks b options asked h),
      inr (inr (e, bad)),
    )
    | inl (b, options, asked) ↦ elim (user_context-cases b) [
      | inl (h, _) ↦
          (let (d, good) = decides b options asked h in
            (
              (λ _. (b, options, asked, h), λ _. (d, good)),
              (
                λ g. absurd (ground (arith, good, g)),
                λ (c, others, asked', g). lacks c others asked' g,
              ),
              inl (d, good),
            ))
      | inr (h, _) ↦
          (let failing = lacks b options asked h in
            (
              (
                λ (d, g). absurd (ground (arith, failing, g)),
                λ (c, others, asked', g). decides c others asked' g,
              ),
              (λ _. (b, options, asked, h), λ _. failing),
              inr (inl failing),
            ))
    ]
  ]
