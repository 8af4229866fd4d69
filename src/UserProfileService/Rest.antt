-- ===== src/UserProfileService/Rest.antt =====
-- plugins/userprofileservice/services/rest_ups.go: profiles behind a REST service.
pub mod SaveLookup
mod Tests
use Prim.Native.String.{◌++◌}
use inspiring_vacations_agen.Common.{
  ℕ, ◌≡◌, Bool, true, false, ◌&&◌, not, Option, none, some, List, [], ◌∷◌, String, ◌==◌, eqb,
  if◌then◌else◌, string_eq,
}
use inspiring_vacations_agen.Common.Dict.{Dict, insert}
use inspiring_vacations_agen.UserProfileService.InMemory.{UserProfile, no_profile}
use inspiring_vacations_agen.UserProfileService.Profile.{
  Json, Members, end, member, text, object, other, convert_user_profile_to_map,
  convert_to_user_profile,
}

-- net/url, encoding/json and the requester of the SDK. `send` gives the state of the service after
-- a request, and the response with its status, or none on an error.
pub record Web : Type 1 where
  pub Url : Type 0
  pub Bytes : Type 0
  pub Store : Type 0
  pub parse : String → Option Url
  pub scheme : Url → String
  pub host : Url → String
  pub show : Url → String
  -- The URL with these values set in its query.
  pub set_query : Dict String String → Url → Url
  pub marshal : Members → Option Bytes
  pub unmarshal : Bytes → Option Members
  pub to_text : Bytes → String
  pub send :
      (url method : String) → Option Bytes → Dict String String → Store → Store × Option (ℕ × Bytes)

-- `RestUserProfileService` but for its requester
pub record RestUserProfileService : Type 0 where
  pub host : String
  pub headers : Dict String String
  pub lookup_path : String
  pub lookup_method : String
  pub save_path : String
  pub save_method : String
  pub user_id_key : String
  pub async : Bool

unfoldable pub get_user_id_key : RestUserProfileService → String
get_user_id_key r = if r.user_id_key == "" then "user_id" else r.user_id_key

module _ (W : Web) where
  open W use {
    Url, Bytes, Store, parse, scheme, host, show, set_query, marshal, unmarshal, to_text, send,
  }

  unfoldable pub get_url : RestUserProfileService → String → Option String
  get_url r path = elim (parse (r.host ++ path)) [
    | none ↦ none
    | some u ↦ if not (scheme u == "") && not (host u == "") then some (show u) else none
  ]

  -- The loop over the parameters of a GET request: a value that is neither an object nor a text is
  -- left out, as is an object that cannot be written.
  unfoldable pub query : Members → Dict String String
  query end = []
  query (member k (text v) ms) = insert k v (query ms)
  query (member k (object v) ms) =
      let rest = query ms in
      elim (marshal v) [ none ↦ rest | some json ↦ insert k (to_text json) rest ]
  query (member k other ms) = query ms

  -- What is sent: the URL, the method and the body.
  pub record Request : Type 0 where
    pub url : String
    pub method : String
    pub body : Option Bytes

  -- The first part of `performRequest`.
  unfoldable pub build_request : (url method : String) → Members → Option Request
  unfolding query
  build_request url method parameters = elim (parse url) [
    | none ↦ none
    | some u ↦
        if method == "GET"
        then some
            (record { url = show (set_query (query parameters) u); method = method; body = none })
        else elim (marshal parameters) [
          | none ↦ none
          | some json ↦ some (record {
            url = show u;
            method = if method == "" then "POST" else method;
            body = some json;
          })
        ]
  ]

  -- The response to a request, where its status is 200.
  abbrev pub ok_body : Option (ℕ × Bytes) → Option Bytes
  ok_body none = none
  ok_body (some (code, response)) = if eqb code 200 then some response else none

  -- `performRequest`, its response none unless it succeeds.
  unfoldable pub perform_request :
      RestUserProfileService → (url method : String) → Members → Store → Store × Option Bytes
  unfolding build_request
  perform_request r url method parameters s = elim (build_request url method parameters) [
    | none ↦ (s, none)
    | some q ↦ let (t, response) = send q.url q.method q.body r.headers s in (t, ok_body response)
  ]

  -- `Lookup`; a profile of `none` is a panic of the conversion.
  unfoldable pub lookup :
      String → RestUserProfileService → Store → String → Store × Option UserProfile
  unfolding perform_request get_url get_user_id_key
  lookup field r s user_id =
      if user_id == "" then (s, some no_profile) else elim (get_url r r.lookup_path) [
        | none ↦ (s, some no_profile)
        | some url ↦
            let key = get_user_id_key r in
            let (t, response) =
              perform_request r url r.lookup_method (member key (text user_id) end) s in
            elim response [
              | none ↦ (t, some no_profile)
              | some json ↦ elim (unmarshal json) [
                | none ↦ (t, some no_profile)
                | some dict ↦ (t, convert_to_user_profile field dict key)
              ]
            ]
      ]

  -- `Save`: the state after it, and the call of `performRequest` that a goroutine still has to
  -- make.
  unfoldable pub save :
      RestUserProfileService → Store → UserProfile → Store × Option (Store → Store)
  unfolding perform_request get_url get_user_id_key
  save r s p = if p.id == "" then (s, none) else elim (get_url r r.save_path) [
    | none ↦ (s, none)
    | some url ↦
        let profile = convert_user_profile_to_map p (get_user_id_key r) in
        let call : Store → Store = λ u. (perform_request r url r.save_method profile u).0 in
        if r.async then (s, some call) else (call s, none)
  ]

  -- The state once the goroutine of a call, if there is one, has run.
  abbrev pub settled : Store × Option (Store → Store) → Store
  settled (s, none) = s
  settled (s, some call) = call s
