-- ===== src/Handlers/Override.antt =====
-- pkg/handlers/override.go: forced variations set and removed by requests.
pub mod Last
mod Tests
use inspiring_vacations_agen.Common.{
  ◌≡◌, Bool, true, false, Option, none, some, List, [], ◌∷◌, String, ◌==◌, if◌then◌else◌, string_eq,
}
use inspiring_vacations_agen.Optimizely.Cache.{Result, ok, err, error_text}
use inspiring_vacations_agen.Optimizely.Client.{
  OverridesStore, OverrideKey, Override, OptimizelyConfig, Outcome, set_forced_variation,
  remove_forced_variation,
}
use inspiring_vacations_agen.Handlers.Body.{
  Answer, json, fail, Parsed, parsed, refused, parse_request_body, no_client,
}

pub record OverrideBody : Type 0 where
  pub user_id : String
  pub experiment_key : String
  pub variation_key : String

abbrev pub no_body : OverrideBody
no_body = record { user_id = ""; experiment_key = ""; variation_key = "" }

abbrev pub render {ℓ} : {A : Type ℓ} → Result A → Answer A
render (ok a) = json a
render (err e) = fail 500 (error_text e)

module _ (O : OverridesStore) {Variation Feature : Type 0} where
  open O use {Store}

  -- The handler once the body is parsed.
  unfoldable pub override_parsed :
      Option (OptimizelyConfig Variation Feature)
      → Option Store
      → OverrideBody
      → Option Store × Answer Override
  override_parsed conf store body =
      if body.user_id == ""
      then (store, fail 400 "userId cannot be empty")
      else if body.experiment_key == ""
      then (store, fail 400 "experimentKey cannot be empty")
      else if body.variation_key == ""
      then (let (store', result) =
            remove_forced_variation O store body.experiment_key body.user_id in
          (store', render result))
      else (let (store', result) =
            set_forced_variation O conf store body.experiment_key body.user_id body.variation_key in
          (store', render result))

  -- `Override`, for the client in the context, if there is one, with its store.
  unfoldable pub override :
      (String → Option OverrideBody)
      → Option (OptimizelyConfig Variation Feature)
      → Option String
      → Option (Option Store)
      → Option (Option Store) × Answer Override
  override unmarshal conf body none = (none, fail 500 no_client)
  override unmarshal conf body (some store) = elim (parse_request_body unmarshal no_body body) [
    | refused e ↦ (some store, fail 400 e)
    | parsed b ↦ (let (store', answer) = override_parsed conf store b in (some store', answer))
  ]
