-- ===== src/UserProfileService/Rest/SaveLookup.antt =====
-- A profile that is sent to the REST service and asked for again.
use inspiring_vacations_agen.Common.{
  ℕ, ◌≡◌, ◌≢◌, refl, ap, ◌∙◌, inl, inr, false, Option, some, String, ◌==◌, eq_iff, arith,
  Bool-cases, Option-cases, some_inj,
}
use inspiring_vacations_agen.UserProfileService.InMemory.{UserProfile}
use inspiring_vacations_agen.UserProfileService.Profile.{
  Members, end, member, text, bucket_map_key, convert_user_profile_to_map,
}
use inspiring_vacations_agen.UserProfileService.Profile.RoundTrip.{IsBucketMap, convert-convert}
use inspiring_vacations_agen.UserProfileService.Rest.{
  Web, RestUserProfileService, Request, get_user_id_key, get_url, build_request, perform_request,
  lookup, save, settled,
}

module _ (W : Web) where
  open W use {Bytes, Store, parse, marshal, unmarshal, send}

  -- A body is the parameters as JSON.
  build_request-body :
      (url method : String) (m : Members) (q : Request W) (json : Bytes)
      → build_request W url method m ≡ some q
      → q.body ≡ some json
      → marshal m ≡ some json
  unfolding build_request
  build_request-body url method m q json built h = elim (Option-cases (parse url)) [
    | inl bad ↦ absurd (ground (arith, rw (build_request, bad) at built))
    | inr (u, good) ↦ elim (Bool-cases (method == "GET")) [
      | inl got ↦
          let e = ap body_of (some_inj (rw (build_request, good, got) at built)) in
          absurd (ground (arith, e, h))
      | inr other ↦ elim (Option-cases (marshal m)) [
        | inl failed ↦ absurd (ground (arith, rw (build_request, good, other, failed) at built))
        | inr (written, made) ↦
            let e = ap body_of (some_inj (rw (build_request, good, other, made) at built)) in
            made ∙ e ∙ h
      ]
    ]
  ]
    where
      body_of : Request W → Option Bytes
      body_of q = q.body

  -- The response of the service to one request after another.
  abbrev pub answer : RestUserProfileService → Store → Request W → Request W → Option (ℕ × Bytes)
  answer r s q a =
      (send a.url a.method a.body r.headers (send q.url q.method q.body r.headers s).0).1

  module _ (field : String) (r : RestUserProfileService) (s : Store) (p : UserProfile)
      (save_url lookup_url : String) (q a : Request W) (json : Bytes) where
    abbrev profile : Members
    profile = convert_user_profile_to_map p (get_user_id_key r)

    -- Where the two URLs are valid and a save has a body, which a GET request has not, where JSON
    -- that is written is read as it was, and where the service answers the lookup that follows a
    -- save with status 200 and the body that it got: a profile with a user id, each experiment once
    -- under the field of the SDK's keys, is found again after it was saved, also where Async leaves
    -- the request to a goroutine, once this has run. The key of the user id must not be that of the
    -- bucket map.
    pub lookup-settled :
        p.id ≢ ""
        → get_user_id_key r ≢ bucket_map_key
        → IsBucketMap field p.bucket_map
        → get_url W r r.save_path ≡ some save_url
        → get_url W r r.lookup_path ≡ some lookup_url
        → build_request W save_url r.save_method profile ≡ some q
        → build_request W lookup_url r.lookup_method (member (get_user_id_key r) (text p.id) end)
          ≡ some a
        → q.body ≡ some json
        → (marshal profile ≡ some json → unmarshal json ≡ some profile)
        → answer r s q a ≡ some (200, json)
        → (lookup W field r (settled W (save W r s p)) p.id).1 ≡ some p
    unfolding lookup save perform_request
    lookup-settled named distinct buckets to_save to_look sends asks has_body reads answers =
        let given : (p.id == "") ≡ false = ground (arith, eq_iff p.id "") in
        let read =
          reads (build_request-body save_url r.save_method profile q json sends has_body) in
        let saved : settled W (save W r s p) ≡ (send q.url q.method q.body r.headers s).0 =
          elim (Bool-cases r.async) [
            | inl later ↦ rw (save, given, to_save) (rw later (rw (perform_request, sends) refl))
            | inr now ↦ rw (save, given, to_save) (rw now (rw (perform_request, sends) refl))
          ] in
        rw (lookup, given, to_look, perform_request, asks, saved, answers, read)
          (convert-convert field (get_user_id_key r) p buckets distinct)
