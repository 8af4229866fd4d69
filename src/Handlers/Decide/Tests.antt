-- ===== src/Handlers/Decide/Tests.antt =====
-- Decisions of an SDK that decides by the key alone.
use inspiring_vacations_agen.Common.{
  ◌≡◌, refl, ◌↔◌, ◌⊎◌, inl, true, none, some, List, [], ◌∷◌, String, string_eq, has_prefix,
}
use inspiring_vacations_agen.Common.Dict
use inspiring_vacations_agen.Handlers.Body.{json, fail, parse_request_body}
use inspiring_vacations_agen.Handlers.Decide.{
  Rule, DecisionSdk, DecideBody, is_everyone_else_variation, no_segments, Decided, one, DecideOut,
  get_user_context_with_options, user_context, set_forced_decisions, decide_keys, decide_out,
  decide,
}
use inspiring_vacations_agen.Handlers.Decide.Answers.{IsAsked, HasSegments, decide-json_iff}

-- A decision is its flag key and its rule key.
abbrev sdk : DecisionSdk
sdk = record {
  Attributes = Unit;
  Options = List String;
  Segments = String;
  UserContext = List String;
  Decision = String × String;
  Variables = Unit;
  translate_options = λ os. inl os;
  create_user_context = λ user _. user ∷ [];
  fetch_qualified_segments = λ segments uc. (true, segments);
  set_forced_decision = λ flag rule variation uc. flag ∷ uc;
  decide = λ key _ _. (key, "default-1");
  decide_all = λ _ _. ("f", ("f", "default-1")) ∷ [];
  decide_for_keys = λ _ _ _. [];
  flag_key = λ d. d.0;
  rule_key = λ d. d.1;
  variables = λ _. tt;
}

abbrev body : DecideBody (Unit {0}) String
body = record {
  user_id = "u";
  user_attributes = none;
  decide_options = [];
  forced_decisions = record { flag_key = "f"; rule_key = ""; variation_key = "v" } ∷ [];
  fetch_segments = true;
  fetch_segments_options = [];
}

abbrev rules : List Rule
rules = record { key = "exp"; id = "1" } ∷ record { key = "default-1"; id = "default-1" } ∷ []

one_key :
    decide sdk
      (λ _. some body)
      (some (("f", rules) ∷ []))
      (some "{}")
      (some (("keys", "f" ∷ []) ∷ []))
    ≡ json (one (record { decision = ("f", "default-1"); variables = tt; is_everyone_else = true }))
unfolding decide get_user_context_with_options user_context set_forced_decisions decide_keys
    decide_out is_everyone_else_variation parse_request_body has_prefix Dict.lookup
one_key = refl

decide-json_iff_example :
    (((d : Decided (DecideOut sdk)) × (decide sdk
            (λ _. some body)
            (some (("f", rules) ∷ []))
            (some "{}")
            none
          ≡ json d))
      ↔ ((b : DecideBody (Unit {0}) String) × (options : List String) × IsAsked sdk
            (λ _. some body)
            (("f", rules) ∷ [])
            (some "{}")
            none
            b
            options
          × HasSegments sdk (λ _. some body) (("f", rules) ∷ []) (some "{}") none b))
    × ((decide sdk (λ _. some body) (some (("f", rules) ∷ [])) (some "{}") none
          ≡ fail 500 no_segments)
        ↔ ((b : DecideBody (Unit {0}) String) × (options : List String) × IsAsked sdk
              (λ _. some body)
              (("f", rules) ∷ [])
              (some "{}")
              none
              b
              options
            × (¬ HasSegments sdk (λ _. some body) (("f", rules) ∷ []) (some "{}") none b)))
    × (((d : Decided (DecideOut sdk)) × (decide sdk
              (λ _. some body)
              (some (("f", rules) ∷ []))
              (some "{}")
              none
            ≡ json d))
        ⊎ (decide sdk (λ _. some body) (some (("f", rules) ∷ [])) (some "{}") none
            ≡ fail 500 no_segments)
        ⊎ ((e : String) × (decide sdk (λ _. some body) (some (("f", rules) ∷ [])) (some "{}") none
              ≡ fail 400 e)))
decide-json_iff_example = decide-json_iff sdk (λ _. some body) (("f", rules) ∷ []) (some "{}") none
