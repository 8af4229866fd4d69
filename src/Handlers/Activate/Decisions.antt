-- ===== src/Handlers/Activate/Decisions.antt =====
-- Which decisions an answered request lists.
use inspiring_vacations_agen.Common.{
  ◌≡◌, refl, ap, sym, ◌∙◌, ◌↔◌, inl, inr, Bool, true, false, Option, some, List, [], ◌∷◌, String,
  ◌==◌, eq_iff, string_eq, arith, Bool-cases, Elem,
}
use inspiring_vacations_agen.Common.Dict
use inspiring_vacations_agen.Common.Dict.{Dict}
use inspiring_vacations_agen.Http
use inspiring_vacations_agen.Optimizely.Cache.{Result-cases, ok}
use inspiring_vacations_agen.Optimizely.Client.{OptimizelyConfig, Decider, Decision}
use inspiring_vacations_agen.Handlers.Body.{json}
use inspiring_vacations_agen.Handlers.Activate.{
  ActivateBody, parse_experiment_keys, parse_feature_keys, parse_type_parameter, activate_key,
  activate_keys, keeps, filter_loop, filter_decisions, values, select, decide_selected,
}
use inspiring_vacations_agen.Handlers.Activate.Selection.{
  selected_kind, lookup-parsed, parsed-IsDistinct,
}

module _ (D : Decider) (quote : String → String) (user_id : String) (disable_tracking : Bool) where
  -- The decision of one of the pairs.
  abbrev DecisionOf : Decision D → List (String × String) → Type 0
  DecisionOf d pairs =
      (key : String) × (kind : String) × Elem (key, kind) pairs
      × (activate_key D quote user_id disable_tracking key kind ≡ ok d)

  activate_keys-Elem :
      (pairs : List (String × String)) (ds : List (Decision D)) (d : Decision D)
      → activate_keys D quote user_id disable_tracking pairs ≡ ok ds
      → Elem d ds ↔ DecisionOf d pairs
  unfolding activate_keys
  activate_keys-Elem [] ds d e =
      let empty : ds ≡ [] = ground arith in
      (λ h. absurd (rw empty at h), λ (key, kind, h, _). absurd h)
  activate_keys-Elem ((key, kind) ∷ pairs) ds d e =
      elim (Result-cases (activate_key D quote user_id disable_tracking key kind)) [
        | inr (m, f) ↦ absurd (ground (arith, f))
        | inl (made, f) ↦
            elim (Result-cases (activate_keys D quote user_id disable_tracking pairs)) [
              | inr (m, g) ↦ absurd (ground (arith, f, g))
              | inl (rest, g) ↦
                  let whole : ds ≡ made ∷ rest = ground (arith, f, g) in
                  let (to, from) = activate_keys-Elem pairs rest d g in
                  (
                    λ h. elim (rw whole at h) [
                      | inl same ↦ (key, kind, inl refl, f ∙ ap ok (sym same))
                      | inr k ↦
                          let (key', kind', listed, decided) = to k in
                          (key', kind', inr listed, decided)
                    ],
                    λ (key', kind', listed, decided). rw whole (elim listed [
                      | inl same ↦
                          inl (ground (arith, f, decided, ap (λ p. p.0) same, ap (λ p. p.1) same))
                      | inr k ↦ inr (from (key', kind', k, decided))
                    ]),
                  )
            ]
      ]

module _ {D : Decider} where
  -- The filter "enabled" asks for neither value, or for the decision's.
  abbrev pub Passes : String → Decision D → Type 0
  Passes filter d = (filter ≡ "true" → d.enabled ≡ true) × (filter ≡ "false" → d.enabled ≡ false)

  keeps_iff : (filter : String) (d : Decision D) → (keeps filter d ≡ true) ↔ Passes filter d
  keeps_iff filter d = ground (arith, eq_iff filter "true", eq_iff filter "false")

  filter_loop-Elem :
      (filter : String) (ds : List (Decision D)) (d : Decision D)
      → Elem d (filter_loop filter ds) ↔ (Elem d ds × Passes filter d)
  unfolding filter_loop
  filter_loop-Elem filter [] d = (λ h. absurd h, λ h. absurd h.0)
  filter_loop-Elem filter (c ∷ ds) d =
      let (to, from) = filter_loop-Elem filter ds d in
      let (kept, keep) = keeps_iff filter c in
      elim (Bool-cases (keeps filter c)) [
        | inl kept_it ↦ rw kept_it (
          elim [ inl same ↦ (inl same, rw same (kept kept_it)) | inr h ↦ (inr (to h).0, (to h).1) ],
          λ (h, p). elim h [ inl same ↦ inl same | inr k ↦ inr (from (k, p)) ],
        )
        | inr dropped ↦ rw dropped (
          λ h. (inr (to h).0, (to h).1),
          λ (h, p). elim h [
            | inl same ↦ absurd (ground (arith, keep (rw (← same) p)))
            | inr k ↦ from (k, p)
          ],
        )
      ]

  filter_decisions-Elem :
      (filter : String) (ds : List (Decision D)) (d : Decision D)
      → Elem d (filter_decisions filter ds) ↔ (Elem d ds × Passes filter d)
  unfolding filter_decisions
  filter_decisions-Elem filter ds d = elim (Bool-cases (filter == "")) [
    | inl unset ↦
        let empty : filter ≡ "" = (eq_iff filter "").0 unset in
        rw unset (
          λ h. (
            h,
            rw empty (
              λ e. absurd (ground (arith, eq_iff "" "true")),
              λ e. absurd (ground (arith, eq_iff "" "false")),
            ),
          ),
          λ h. h.0,
        )
    | inr set ↦ rw set (filter_loop-Elem filter ds d)
  ]

module _ {A Variation Feature : Type 0} (D : ActivateBody A → Decider) (quote : String → String)
    (unmarshal : String → Option (ActivateBody A))
    (order : Dict String String → List (String × String))
    (conf : OptimizelyConfig Variation Feature) (query : Dict String (List String)) where
  -- A key that the query selects, by its types and keys, with what it stands for.
  abbrev pub IsSelected : String → String → Type 0
  IsSelected key kind =
      selected_kind conf (values (Dict.lookup "type" query))
        (values (Dict.lookup "experimentKey" query)) (values (Dict.lookup "featureKey" query)) key
      ≡ some kind

  -- Where ranging over a map with distinct keys gives exactly its entries, in any order, an answer
  -- of `Activate` lists
  -- a decision exactly when it is the decision for some key that the query selects (a key asked
  -- for as a feature is taken as one, else a key asked for as an experiment, else the last type
  -- that has the key counts) and it passes the filter "enabled".
  pub decide_selected-Elem :
      (b : ActivateBody A) (ds : List (Decision (D b))) (d : Decision (D b))
      → ((m : Dict String String)
          → Dict.IsDistinct m
          → (k v : String) → Elem (k, v) (order m) ↔ (Dict.lookup k m ≡ some v))
      → decide_selected D quote unmarshal order conf query b ≡ json ds
      → Elem d ds ↔ (
          (key : String) × (kind : String) × IsSelected key kind
          × (activate_key
                (D b)
                quote
                b.user_id
                (Http.get query "disableTracking" == "true")
                key
                kind
              ≡ ok d)
          × Passes (Http.get query "enabled") d)
  unfolding decide_selected select
  decide_selected-Elem b ds d ranges e =
      let tracking = Http.get query "disableTracking" == "true" in
      let types = values (Dict.lookup "type" query) in
      let exps = values (Dict.lookup "experimentKey" query) in
      let feats = values (Dict.lookup "featureKey" query) in
      elim (Result-cases (parse_type_parameter conf quote types [])) [
        | inr (m, f) ↦ absurd (ground (arith, f))
        | inl (kmap, f) ↦
            let all = parse_feature_keys conf feats (parse_experiment_keys conf exps kmap) in
            elim (Result-cases (activate_keys (D b) quote b.user_id tracking (order all))) [
              | inr (m, g) ↦ absurd (ground (arith, f, g))
              | inl (made, g) ↦
                  let whole : ds ≡ filter_decisions (Http.get query "enabled") made =
                    ground (arith, f, g) in
                  let (to, from) =
                    activate_keys-Elem (D b) quote b.user_id tracking (order all) made d g in
                  let (pass, unpass) = filter_decisions-Elem (Http.get query "enabled") made d in
                  let known : (key : String)
                      → Dict.lookup key all ≡ selected_kind conf types exps feats key =
                    λ key. lookup-parsed conf quote types exps feats kmap key f in
                  let listed_iff =
                    ranges all (parsed-IsDistinct conf quote types exps feats kmap f) in
                  (
                    λ h.
                        let (member, passes) = pass (rw whole at h) in
                        let (key, kind, listed, decided) = to member in
                        (
                          key,
                          kind,
                          sym (known key) ∙ (listed_iff key kind).0 listed,
                          decided,
                          passes,
                        ),
                    λ (key, kind, selected, decided, passes). rw whole (
                        unpass (
                          from (key, kind, (listed_iff key kind).1 (known key ∙ selected), decided),
                          passes,
                        )),
                  )
            ]
      ]
