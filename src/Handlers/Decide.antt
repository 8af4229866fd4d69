-- ===== src/Handlers/Decide.antt =====
-- pkg/handlers/decide.go: the decisions for the flags that a query names.
pub mod Answers
pub mod Rules
mod Tests
use inspiring_vacations_agen.Common.{
  ◌≡◌, ◌⊎◌, inl, inr, Bool, true, false, ◌&&◌, Option, none, some, List, [], ◌∷◌, map, String, ◌==◌,
  if◌then◌else◌, string_eq, has_prefix,
}
use inspiring_vacations_agen.Common.Dict
use inspiring_vacations_agen.Common.Dict.{Dict}
use inspiring_vacations_agen.Handlers.Body.{
  Answer, json, fail, Parsed, parsed, refused, parse_request_body, no_client,
}

-- The key and the id of a `config.OptimizelyExperiment`.
pub record Rule : Type 0 where
  pub key : String
  pub id : String

-- What is called of the SDK: its user contexts, for one client. Attributes, options and values are
-- its own.
pub record DecisionSdk : Type 1 where
  pub Attributes : Type 0
  pub Options : Type 0
  pub Segments : Type 0
  pub UserContext : Type 0
  pub Decision : Type 0
  pub Variables : Type 0
  pub translate_options : List String → Options ⊎ String
  pub create_user_context : String → Option Attributes → UserContext
  pub fetch_qualified_segments : List Segments → UserContext → Bool × UserContext
  pub set_forced_decision : String → String → String → UserContext → UserContext
  pub decide : String → Options → UserContext → Decision
  pub decide_all : Options → UserContext → Dict String Decision
  pub decide_for_keys : List String → Options → UserContext → Dict String Decision
  pub flag_key : Decision → String
  pub rule_key : Decision → String
  pub variables : Decision → Variables

pub record ForcedDecision : Type 0 where
  pub flag_key : String
  pub rule_key : String
  pub variation_key : String

pub record DecideBody (Attributes Segments : Type 0) : Type 0 where
  pub user_id : String
  pub user_attributes : Option Attributes
  pub decide_options : List String
  pub forced_decisions : List ForcedDecision
  pub fetch_segments : Bool
  pub fetch_segments_options : List Segments

unfoldable pub is_everyone_else_variation : List Rule → String → Bool
is_everyone_else_variation [] rule_key = false
is_everyone_else_variation (r ∷ rules) rule_key =
    if r.key == rule_key
    then r.key == r.id && has_prefix r.key "default-"
    else is_everyone_else_variation rules rule_key

abbrev pub empty_user_id : String
empty_user_id = "missing \"userId\" in request payload"

abbrev pub no_segments : String
no_segments = "failed to fetch qualified segments"

-- An answer is one decision or the list of several.
pub data Decided (D : Type 0) : Type 0 where
  one : D → Decided D
  several : List D → Decided D

-- `r.Form["keys"]`, where the form was parsed.
abbrev pub form_keys : Option (Dict String (List String)) → List String
form_keys none = []
form_keys (some f) = elim (Dict.lookup "keys" f) [ none ↦ [] | some keys ↦ keys ]

module _ (S : DecisionSdk) where
  open S use {
    Attributes, Options, Segments, UserContext, Decision, Variables, translate_options,
    create_user_context, fetch_qualified_segments, set_forced_decision, decide_all, decide_for_keys,
    flag_key, rule_key, variables,
  }

  pub record DecideOut : Type 0 where
    pub decision : Decision
    pub variables : Variables
    pub is_everyone_else : Bool

  abbrev pub no_decide_body : DecideBody Attributes Segments
  no_decide_body = record {
    user_id = "";
    user_attributes = none;
    decide_options = [];
    forced_decisions = [];
    fetch_segments = false;
    fetch_segments_options = [];
  }

  -- `getUserContextWithOptions`
  unfoldable pub get_user_context_with_options :
      (String → Option (DecideBody Attributes Segments))
      → Option String
      → Parsed (DecideBody Attributes Segments)
  get_user_context_with_options unmarshal body =
      elim (parse_request_body unmarshal no_decide_body body) [
        | refused e ↦ refused e
        | parsed b ↦ if b.user_id == "" then refused empty_user_id else parsed b
      ]

  -- `featureMap[d.FlagKey].DeliveryRules`, which is empty for a key that is missing.
  abbrev pub delivery_rules : Dict String (List Rule) → String → List Rule
  delivery_rules features key = elim (Dict.lookup key features) [ none ↦ [] | some rules ↦ rules ]

  unfoldable pub decide_out : Dict String (List Rule) → Decision → DecideOut
  unfolding is_everyone_else_variation
  decide_out features d = record {
    decision = d;
    variables = variables d;
    is_everyone_else =
        is_everyone_else_variation (delivery_rules features (flag_key d)) (rule_key d);
  }

  -- The forced decisions, one after the other.
  unfoldable pub set_forced_decisions : List ForcedDecision → UserContext → UserContext
  set_forced_decisions [] uc = uc
  set_forced_decisions (fd ∷ fds) uc =
      set_forced_decisions fds (set_forced_decision fd.flag_key fd.rule_key fd.variation_key uc)

  -- The user context of a body, or `none` where its segments are not fetched.
  unfoldable pub user_context : DecideBody Attributes Segments → Option UserContext
  unfolding set_forced_decisions
  user_context b =
      let uc = create_user_context b.user_id b.user_attributes in
      let (success, fetched) = fetch_qualified_segments b.fetch_segments_options uc in
      if b.fetch_segments
      then (if success then some (set_forced_decisions b.forced_decisions fetched) else none)
      else some (set_forced_decisions b.forced_decisions uc)

  abbrev pub values_of : Dict String Decision → List Decision
  values_of [] = []
  values_of ((_, d) ∷ ds) = d ∷ values_of ds

  -- The switch on the number of keys.
  unfoldable pub decide_keys :
      Dict String (List Rule) → List String → Options → UserContext → Decided DecideOut
  unfolding decide_out
  decide_keys features [] options uc =
      several (map (decide_out features) (values_of (decide_all options uc)))
  decide_keys features (key ∷ []) options uc = one (decide_out features (S.decide key options uc))
  decide_keys features keys options uc =
      several (map (decide_out features) (values_of (decide_for_keys keys options uc)))

  -- `Decide`, for the delivery rules of the client in the context, if there is one. `form` is
  -- `none` where `ParseForm` fails.
  unfoldable pub decide :
      (String → Option (DecideBody Attributes Segments))
      → Option (Dict String (List Rule))
      → Option String
      → Option (Dict String (List String))
      → Answer (Decided DecideOut)
  unfolding get_user_context_with_options user_context decide_keys
  decide unmarshal none body form = fail 500 no_client
  decide unmarshal (some features) body form = elim (get_user_context_with_options unmarshal body) [
    | refused e ↦ fail 400 e
    | parsed b ↦ elim (translate_options b.decide_options) [
      | inr e ↦ fail 400 e
      | inl options ↦ elim (user_context b) [
        | none ↦ fail 500 no_segments
        | some uc ↦ json (decide_keys features (form_keys form) options uc)
      ]
    ]
  ]
