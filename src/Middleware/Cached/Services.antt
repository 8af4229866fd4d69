-- ===== src/Middleware/Cached/Services.antt =====
-- Which user profile service a request's header brings about.
use inspiring_vacations_agen.Common.{
  ◌≡◌, refl, ◌≢◌, ap, sym, ◌∙◌, none, some, List, ◌∷◌, ◌++◌, String, Char, code, ◌==◌, eq_iff,
  eq_refl, if◌then◌else◌, chars, of_chars, chars-of_chars, arith, string_eq, length, length-append,
  inl, inr,
}
use inspiring_vacations_agen.Common.Dict
use inspiring_vacations_agen.Common.Dict.{Dict}
use inspiring_vacations_agen.Http
use inspiring_vacations_agen.Http.{Request, Reply, forward, fail}
use inspiring_vacations_agen.Optimizely.Cache.{
  LoadError, validation_failure, failure, Result-cases, ok, Sdk, OptlyClient, OptlyCache,
  LoaderConf, get_service, initialise_service, split_key, load, set_if_absent,
  set_user_profile_service, set_odp_cache, get_client,
}
use inspiring_vacations_agen.Optimizely.Cache.Loading.{HasNoColon, split_key-plain, split_key-colon}
use inspiring_vacations_agen.Middleware.Cached.{load_reply, remember_services, client_ctx}

lookup-set_if_absent :
    (k j name : String) (m : Dict String String)
    → Dict.lookup k m ≡ none
    → Dict.lookup j (set_if_absent k name m) ≡ (if k == j then some name else Dict.lookup j m)
unfolding set_if_absent
lookup-set_if_absent k j name m h = rw (h, set_if_absent) (Dict.lookup-insert k j name m)

lookup-set_if_absent_ne :
    (k j name : String) (m : Dict String String)
    → k ≢ j
    → Dict.lookup j (set_if_absent k name m) ≡ Dict.lookup j m
unfolding set_if_absent
lookup-set_if_absent_ne k j name m ne = ground (arith, eq_iff k j, Dict.lookup-insert k j name m)

longer_ne : (cs ds : List Char) (c : Char) → of_chars (cs ++ c ∷ ds) ≢ of_chars cs
longer_ne cs ds c e =
    let same : cs ++ c ∷ ds ≡ cs =
      sym (chars-of_chars (cs ++ c ∷ ds)) ∙ ap chars e ∙ chars-of_chars cs in
    omega (arith, ap length same, length-append cs (c ∷ ds))

load_reply-ne-forward {ℓ} :
    {A : Type ℓ} (key : String) (e : LoadError) (a : A) → load_reply key e ≢ forward a
unfolding load_reply
load_reply-ne-forward key validation_failure a h = ground arith
load_reply-ne-forward key (failure e) a h = ground arith

module _ (S : Sdk) (conf : LoaderConf S) (c : OptlyCache S) (r : Request) where
  abbrev key : String
  key = Http.get r.header Http.sdk_header

  load-ups :
      (u o : Dict String String) (k : String) (client : OptlyClient S)
      → load S conf u o k ≡ ok client
      → client.user_profile_service ≡ get_service conf.ups_creators (split_key k).0 u conf.ups_conf
  unfolding load
  load-ups u o k client h = ground arith

  remember-optly_map : (remember_services S key r c).optly_map ≡ c.optly_map
  unfolding remember_services set_user_profile_service set_odp_cache
  remember-optly_map = ground arith

  remember-ups_map :
      (name : String)
      → Http.get r.header Http.ups_header ≡ name
      → name ≢ ""
      → (remember_services S key r c).ups_map ≡ set_if_absent key name c.ups_map
  unfolding remember_services set_user_profile_service set_odp_cache
  remember-ups_map name h ne = ground (arith, eq_iff name "")

  -- A forwarded request whose client was not in the cache got what the loader made.
  loaded :
      (client : OptlyClient S)
      → Dict.lookup key c.optly_map ≡ none
      → (client_ctx S conf c r).1 ≡ forward (r, client)
      → load S conf (remember_services S key r c).ups_map (remember_services S key r c).odp_map key
        ≡ ok client
  unfolding client_ctx get_client
  loaded client new h =
      let c' = remember_services S key r c in
      let new' : Dict.lookup key c'.optly_map ≡ none = rw remember-optly_map new in
      elim (Result-cases (load S conf c'.ups_map c'.odp_map key)) [
        | inl (made, e) ↦ let same : made ≡ client = ground (arith, new', e) in e ∙ ap ok same
        | inr (e', e) ↦ absurd (
            load_reply-ne-forward {A = Request × OptlyClient S} key e' (r, client)
              (ground (arith, new', e)))
      ]

  module _ (name : String) (client : OptlyClient S)
      (asked : Http.get r.header Http.ups_header ≡ name) (given : name ≢ "")
      (new : Dict.lookup key c.optly_map ≡ none)
      (served : (client_ctx S conf c r).1 ≡ forward (r, client)) where
    client-ups :
        client.user_profile_service
        ≡ get_service conf.ups_creators
            (split_key key).0
            (set_if_absent key name c.ups_map)
            conf.ups_conf
    client-ups = rw (← remember-ups_map name asked given) (
        load-ups (remember_services S key r c).ups_map (remember_services S key r c).odp_map key
          client (loaded client new served))

    -- A request that is forwarded with a client loaded for it, its header X-Optimizely-UPS-Name not
    -- empty: for a key without an access token, where no name was stored for it before, the client
    -- uses the service that the header X-Optimizely-UPS-Name names.
    pub client_ctx-named_service :
        (cs : List Char)
        → key ≡ of_chars cs
        → HasNoColon cs
        → Dict.lookup key c.ups_map ≡ none
        → client.user_profile_service ≡ initialise_service conf.ups_creators conf.ups_conf name
    unfolding get_service
    client_ctx-named_service cs plain_key no_colon unnamed =
        let whole : (split_key key).0 ≡ key =
          ap (λ k. (split_key k).0) plain_key
          ∙ ap (λ p. p.0) (split_key-plain cs no_colon)
          ∙ sym plain_key in
        let found : Dict.lookup key (set_if_absent key name c.ups_map) ≡ some name =
          lookup-set_if_absent key key name c.ups_map unnamed ∙ rw (eq_refl key) refl in
        client-ups ∙ ground (arith, whole, found, eq_iff name "")

    -- A request that is forwarded with a client loaded for it, its header X-Optimizely-UPS-Name not
    -- empty: for a key with an access token, the client uses the service that it would use with no
    -- such header: the name is stored under the whole key and looked up under the bare one.
    pub client_ctx-ignored_service :
        (cs ds : List Char) (colon : Char)
        → key ≡ of_chars (cs ++ colon ∷ ds)
        → HasNoColon cs
        → HasNoColon ds
        → code colon ≡ b':'
        → client.user_profile_service
          ≡ get_service conf.ups_creators (of_chars cs) c.ups_map conf.ups_conf
    unfolding get_service
    client_ctx-ignored_service cs ds colon with_token no_colon no_colon' is_colon =
        let bare : (split_key key).0 ≡ of_chars cs =
          ap (λ k. (split_key k).0) with_token
          ∙ ap (λ p. p.0) (split_key-colon cs ds colon no_colon no_colon' is_colon) in
        let differs : key ≢ of_chars cs = λ e. longer_ne cs ds colon (sym with_token ∙ e) in
        let kept = lookup-set_if_absent_ne key (of_chars cs) name c.ups_map differs in
        client-ups ∙ rw bare (ground (arith, kept))
