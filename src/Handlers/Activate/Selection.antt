-- ===== src/Handlers/Activate/Selection.antt =====
-- Which kind of decision each key of a query stands for.
use inspiring_vacations_agen.Common.{
  ◌≡◌, refl, ap, ◌∙◌, inl, inr, Bool, true, false, ◌&&◌, Option, none, some, List, [], ◌∷◌, String,
  ◌==◌, eq_iff, contains, if◌then◌else◌, string_eq, arith, Bool-cases,
}
use inspiring_vacations_agen.Common.Dict
use inspiring_vacations_agen.Common.Dict.{Dict}
use inspiring_vacations_agen.Optimizely.Cache.{ok}
use inspiring_vacations_agen.Optimizely.Client.{OptimizelyConfig}
use inspiring_vacations_agen.Handlers.Activate.{
  has, mark, keys_of, experiment_kind, feature_kind, parse_experiment_keys, parse_feature_keys,
  parse_type_parameter,
}

pub lookup-mark :
    (kind : String → String) (keys : List String) (kmap : Dict String String) (k : String)
    → Dict.lookup k (mark kind keys kmap)
      ≡ (if contains keys k then some (kind k) else Dict.lookup k kmap)
unfolding mark
lookup-mark kind [] kmap k = refl
lookup-mark kind (key ∷ keys) kmap k = ground (
  arith,
  lookup-mark kind keys (Dict.insert key (kind key) kmap) k,
  Dict.lookup-insert key k (kind key) kmap,
  eq_iff key k,
)

mark-IsDistinct :
    (kind : String → String) (keys : List String) (kmap : Dict String String)
    → Dict.IsDistinct kmap
    → Dict.IsDistinct (mark kind keys kmap)
unfolding mark
mark-IsDistinct kind [] kmap d = d
mark-IsDistinct kind (key ∷ keys) kmap d =
    mark-IsDistinct kind keys (Dict.insert key (kind key) kmap)
      (Dict.insert-IsDistinct key (kind key) kmap d)

contains-keys_of {ℓ} :
    {V : Type ℓ} (m : Dict String V) (k : String) → contains (keys_of m) k ≡ has m k
unfolding has Dict.lookup
contains-keys_of [] k = refl
contains-keys_of ((j, v) ∷ m) k = ground (arith, contains-keys_of m k)

module _ {Variation Feature : Type 0} (conf : OptimizelyConfig Variation Feature) where
  -- The kind that the types of a query give a key: the last type that has the key counts.
  unfoldable pub type_kind : List String → String → Option String
  type_kind [] k = none
  type_kind (type ∷ types) k = elim (type_kind types k) [
    | some kind ↦ some kind
    | none ↦
        if type == "experiment" && has conf.experiments_map k
        then some "experiment"
        else if type == "feature" && has conf.features_map k
        then some "feature"
        else none
  ]

  -- A key asked for as a feature is one, else a key asked for as an experiment is one, else the
  -- types decide.
  unfoldable pub selected_kind : List String → List String → List String → String → Option String
  selected_kind types experiment_keys feature_keys k =
      if contains feature_keys k
      then some (feature_kind conf k)
      else if contains experiment_keys k
      then some (experiment_kind conf k)
      else type_kind types k

  or_else : Option String → Option String → Option String
  or_else (some v) o = some v
  or_else none o = o

  -- What one more type in front of the others adds.
  marked_kind :
      (type : String) (types : List String) (kind : String) (found : Bool) (o o' : Option String)
      (k : String)
      → o' ≡ (if found then some kind else o)
      → type_kind (type ∷ types) k ≡ or_else (type_kind types k) (if found then some kind else none)
      → or_else (type_kind types k) o' ≡ or_else (type_kind (type ∷ types) k) o
  unfolding or_else
  marked_kind type types kind found o o' k e f = rw (e, f) (go (type_kind types k) found)
    where
      go :
          (x : Option String) (b : Bool)
          → or_else x (if b then some kind else o)
            ≡ or_else (or_else x (if b then some kind else none)) o
      go none true = refl
      go none false = refl
      go (some v) b = refl

  type_kind-experiment :
      (types : List String) (k : String)
      → type_kind ("experiment" ∷ types) k
        ≡ or_else
            (type_kind types k)
            (if has conf.experiments_map k then some "experiment" else none)
  unfolding type_kind or_else
  type_kind-experiment types k = go (type_kind types k) (has conf.experiments_map k)
    where
      go :
          (x : Option String) (b : Bool)
          → (elim x [ some kind ↦ some kind | none ↦ if b then some "experiment" else none ])
            ≡ or_else x (if b then some "experiment" else none)
      go none b = refl
      go (some v) b = refl

  type_kind-feature :
      (types : List String) (k : String)
      → type_kind ("feature" ∷ types) k
        ≡ or_else (type_kind types k) (if has conf.features_map k then some "feature" else none)
  unfolding type_kind or_else
  type_kind-feature types k = go (type_kind types k) (has conf.features_map k)
    where
      go :
          (x : Option String) (b : Bool)
          → (elim x [ some kind ↦ some kind | none ↦ if b then some "feature" else none ])
            ≡ or_else x (if b then some "feature" else none)
      go none b = refl
      go (some v) b = refl

  lookup-types :
      (quote : String → String) (types : List String) (kmap kmap' : Dict String String) (k : String)
      → parse_type_parameter conf quote types kmap ≡ ok kmap'
      → Dict.lookup k kmap' ≡ or_else (type_kind types k) (Dict.lookup k kmap)
  unfolding parse_type_parameter or_else type_kind
  lookup-types quote [] kmap kmap' k e = ground arith
  lookup-types quote (type ∷ types) kmap kmap' k e = elim (Bool-cases (type == "experiment")) [
    | inl is_exp ↦
        let this : type ≡ "experiment" = (eq_iff type "experiment").0 is_exp in
        let rest : parse_type_parameter conf quote types
              (mark (λ _. "experiment") (keys_of conf.experiments_map) kmap)
            ≡ ok kmap' =
          rw is_exp at e in
        lookup-types quote types (mark (λ _. "experiment") (keys_of conf.experiments_map) kmap)
          kmap' k rest
        ∙ marked_kind type types "experiment" (has conf.experiments_map k) (Dict.lookup k kmap) _ k
            (rw (← contains-keys_of conf.experiments_map k)
              (lookup-mark (λ _. "experiment") (keys_of conf.experiments_map) kmap k))
            (ap (λ t. type_kind (t ∷ types) k) this ∙ type_kind-experiment types k)
    | inr not_exp ↦ elim (Bool-cases (type == "feature")) [
      | inl is_feature ↦
          let this : type ≡ "feature" = (eq_iff type "feature").0 is_feature in
          let rest : parse_type_parameter conf quote types
                (mark (λ _. "feature") (keys_of conf.features_map) kmap)
              ≡ ok kmap' =
            rw (not_exp, is_feature) at e in
          lookup-types quote types (mark (λ _. "feature") (keys_of conf.features_map) kmap) kmap' k
            rest
          ∙ marked_kind type types "feature" (has conf.features_map k) (Dict.lookup k kmap) _ k
              (rw (← contains-keys_of conf.features_map k)
                (lookup-mark (λ _. "feature") (keys_of conf.features_map) kmap k))
              (ap (λ t. type_kind (t ∷ types) k) this ∙ type_kind-feature types k)
      | inr other ↦ absurd (ground arith)
    ]
  ]

  pub lookup-parsed :
      (quote : String → String) (types experiment_keys feature_keys : List String)
      (kmap : Dict String String) (k : String)
      → parse_type_parameter conf quote types [] ≡ ok kmap
      → Dict.lookup k
          (parse_feature_keys conf feature_keys (parse_experiment_keys conf experiment_keys kmap))
        ≡ selected_kind types experiment_keys feature_keys k
  unfolding parse_feature_keys parse_experiment_keys selected_kind or_else
  lookup-parsed quote types experiment_keys feature_keys kmap k e = ground (
    arith,
    lookup-mark (feature_kind conf) feature_keys (mark (experiment_kind conf) experiment_keys kmap)
        k,
    lookup-mark (experiment_kind conf) experiment_keys kmap k,
    lookup-types quote types [] kmap k e,
    Dict.lookup-nil {V = String} k,
  )

  types-IsDistinct :
      (quote : String → String) (types : List String) (kmap kmap' : Dict String String)
      → Dict.IsDistinct kmap
      → parse_type_parameter conf quote types kmap ≡ ok kmap'
      → Dict.IsDistinct kmap'
  unfolding parse_type_parameter
  types-IsDistinct quote [] kmap kmap' d e = let same : kmap ≡ kmap' = ground arith in rw (← same) d
  types-IsDistinct quote (type ∷ types) kmap kmap' d e = elim (Bool-cases (type == "experiment")) [
    | inl is_exp ↦
        types-IsDistinct quote types (mark (λ _. "experiment") (keys_of conf.experiments_map) kmap)
          kmap' (mark-IsDistinct (λ _. "experiment") (keys_of conf.experiments_map) kmap d)
          (rw is_exp at e)
    | inr not_exp ↦ elim (Bool-cases (type == "feature")) [
      | inl is_feature ↦
          types-IsDistinct quote types (mark (λ _. "feature") (keys_of conf.features_map) kmap)
            kmap' (mark-IsDistinct (λ _. "feature") (keys_of conf.features_map) kmap d)
            (rw (not_exp, is_feature) at e)
      | inr other ↦ absurd (ground arith)
    ]
  ]

  pub parsed-IsDistinct :
      (quote : String → String) (types experiment_keys feature_keys : List String)
      (kmap : Dict String String)
      → parse_type_parameter conf quote types [] ≡ ok kmap
      → Dict.IsDistinct
          (parse_feature_keys conf feature_keys (parse_experiment_keys conf experiment_keys kmap))
  unfolding parse_feature_keys parse_experiment_keys
  parsed-IsDistinct quote types experiment_keys feature_keys kmap e =
      mark-IsDistinct (feature_kind conf) feature_keys _ (
        mark-IsDistinct (experiment_kind conf) experiment_keys kmap
          (types-IsDistinct quote types [] kmap tt e))
