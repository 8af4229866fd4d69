-- ===== src/Optimizely/TestConfig/New.antt =====
-- The identifiers of the variations that calls create: each is new.
use mathlib.Core.Path.{subst}
use inspiring_vacations_agen.Common.{
  ℕ, ◌+◌, ◌<◌, ◌≤◌, ◌≡◌, inl, inr, refl, sym, ◌∙◌, none, some, some_inj, List, [], ◌∷◌, ◌++◌,
  String, string_eq, itoa, itoa_inj, arith, eq_iff, Elem, ◌⊎◌,
}
use inspiring_vacations_agen.Common.Dict
use inspiring_vacations_agen.Common.Dict.{Dict, insert, lookup}
use inspiring_vacations_agen.Optimizely.TestConfig.{
  Entities, TestProjectConfig, get_next_id, make_map,
}
use inspiring_vacations_agen.Optimizely.TestConfig.Adders.{
  create_variation, add_multi_variation_ab_test,
}
use inspiring_vacations_agen.Optimizely.TestConfig.Steps.{
  Call, event, audience, feature, feature_test, feature_rollout, disabled_rollout, flag_variation,
  custom_test, experiment, variation, two_variations, ab_test, Added, Grows, run,
}

abbrev pub AreDistinct : List String → Type 0
AreDistinct [] = Unit
AreDistinct (x ∷ xs) = (¬ Elem x xs) × AreDistinct xs

Elem-split : (x : String) (xs ys : List String) → Elem x (xs ++ ys) → Elem x xs ⊎ Elem x ys
Elem-split x [] ys h = inr h
Elem-split x (z ∷ xs) ys (inl e) = inl (inl e)
Elem-split x (z ∷ xs) ys (inr h) = elim (Elem-split x xs ys h) [
  | inl g ↦ inl (inr g)
  | inr g ↦ inr g
]

append-AreDistinct :
    (xs ys : List String)
    → AreDistinct xs
    → AreDistinct ys
    → ((x : String) → Elem x xs → ¬ Elem x ys)
    → AreDistinct (xs ++ ys)
append-AreDistinct [] ys d e apart = e
append-AreDistinct (x ∷ xs) ys (out, d) e apart = (
  λ h. elim (Elem-split x xs ys h) [ inl g ↦ out g | inr g ↦ apart x (inl refl) g ],
  append-AreDistinct xs ys d e (λ z h. apart z (inr h)),
)

Added-unused :
    {V : Type 0} (lo hi k : ℕ) (m n : Dict String V)
    → Added lo hi m n
    → k ≤ lo
    → lookup (itoa k) m ≡ none
    → lookup (itoa k) n ≡ none
Added-unused lo hi k m n (inl e) under h = rw e h
Added-unused lo hi k m n (inr (j, v, over, below, e)) under h =
    rw (e, Dict.lookup-insert) (ground (arith, eq_iff (itoa j) (itoa k), itoa_inj j k, h))

free_of :
    {V : Type 0} (k j : ℕ) (v : V) (m : Dict String V)
    → k < j
    → lookup (itoa k) m ≡ none
    → lookup (itoa k) (insert (itoa j) v m) ≡ none
free_of k j v m h e =
    rw Dict.lookup-insert (ground (arith, eq_iff (itoa j) (itoa k), itoa_inj j k, e))

module _ {S : Entities} where
  -- The identifiers of the variations that a call creates.
  unfoldable pub created_by : Call S → TestProjectConfig S → List String
  unfolding create_variation
  created_by (variation key) c = ((create_variation c key).0).id ∷ []
  created_by (ab_test key a b) c =
      let (v, c1) = create_variation c a in v.id ∷ ((create_variation c1 b).0).id ∷ []
  created_by call c = []

  -- No experiment and no rollout has the identifier.
  abbrev pub IsUnused : String → TestProjectConfig S → Type 0
  IsUnused id c = (lookup id c.experiment_map ≡ none) × (lookup id c.rollout_map ≡ none)

  -- The identifiers were given out between two configurations, and no experiment or rollout has
  -- one of them.
  pub record AreNew (ids : List String) (c d : TestProjectConfig S) : Type 0 where
    pub distinct : AreDistinct ids
    pub numbered :
        (id : String) → Elem id ids → (k : ℕ) × (id ≡ itoa k) × (c.next_id < k) × (k ≤ d.next_id)
    pub unused : (id : String) → Elem id ids → IsUnused id d

  -- What is given out stays unused.
  abbrev pub StaysUnused : TestProjectConfig S → TestProjectConfig S → Type 0
  StaysUnused c d = (k : ℕ) → k ≤ c.next_id → IsUnused (itoa k) c → IsUnused (itoa k) d

  pub Grows-StaysUnused : (c d : TestProjectConfig S) → Grows c d → StaysUnused c d
  Grows-StaysUnused c d g k under (e, r) =
      (Added-unused _ _ k _ _ g.experiments under e, Added-unused _ _ k _ _ g.rollouts under r)

  pub nothing-AreNew : (c d : TestProjectConfig S) → AreNew [] c d
  nothing-AreNew c d = record {
    distinct = tt;
    numbered = λ id h. absurd h;
    unused = λ id h. absurd h;
  }

  pub append-AreNew :
      (xs ys : List String) (c d e : TestProjectConfig S)
      → c.next_id ≤ d.next_id
      → d.next_id ≤ e.next_id
      → StaysUnused d e
      → AreNew xs c d
      → AreNew ys d e
      → AreNew (xs ++ ys) c e
  append-AreNew xs ys c d e h g stays x y = record {
    distinct = append-AreDistinct xs ys x.distinct y.distinct (λ id i j.
        let (k, named, above, below) = x.numbered id i in
        let (l, named', above', below') = y.numbered id j in
        absurd (omega (arith, itoa_inj k l (sym named ∙ named'), above', below)));
    numbered = λ id i. elim (Elem-split id xs ys i) [
      | inl j ↦ let (k, named, above, below) = x.numbered id j in (k, named, above, omega arith)
      | inr j ↦ let (k, named, above, below) = y.numbered id j in (k, named, omega arith, below)
    ];
    unused = λ id i. elim (Elem-split id xs ys i) [
      | inl j ↦
          let (k, named, above, below) = x.numbered id j in
          rw named (stays k below (rw (named) at (x.unused id j)))
      | inr j ↦ y.unused id j
    ];
  }

  -- A call on a configuration without keys that are still to come.
  module _ (c : TestProjectConfig S) (free : (k : ℕ) → c.next_id < k → IsUnused (itoa k) c) where
    variation-AreNew :
        (key : String) → AreNew (created_by (variation key) c) c ((create_variation c key).1)
    unfolding created_by create_variation get_next_id
    variation-AreNew key = record {
      distinct = (λ h. absurd h, tt);
      numbered =
          λ id. elim [ inl e ↦ (c.next_id + 1, e, omega arith, omega arith) | inr h ↦ absurd h ];
      unused = λ id. elim [ inl e ↦ rw e (free (c.next_id + 1) (omega arith)) | inr h ↦ absurd h ];
    }

    ab_test-AreNew :
        (key a b : String)
        → AreNew (created_by (ab_test key a b) c) c (add_multi_variation_ab_test c key a b)
    unfolding created_by create_variation get_next_id add_multi_variation_ab_test make_map
    ab_test-AreNew key a b =
        let n = c.next_id in
        record {
          distinct = (
            elim [
              | inl e ↦ absurd (omega (arith, itoa_inj (n + 1) (n + 1 + 1) e))
              | inr h ↦ absurd h
            ],
            (λ h. absurd h, tt),
          );
          numbered = λ id. elim [
            | inl e ↦ (n + 1, e, omega arith, omega arith)
            | inr (inl e) ↦ (n + 1 + 1, e, omega arith, omega arith)
            | inr (inr h) ↦ absurd h
          ];
          unused = λ id. elim [
            | inl e ↦
                let (ex, ro) = free (n + 1) (omega arith) in
                rw e (free_of (n + 1) (n + 1 + 1 + 1) _ _ (omega arith) ex, ro)
            | inr (inl e) ↦
                let (ex, ro) = free (n + 1 + 1) (omega arith) in
                rw e (free_of (n + 1 + 1) (n + 1 + 1 + 1) _ _ (omega arith) ex, ro)
            | inr (inr h) ↦ absurd h
          ];
        }

    pub run-AreNew :
        (call : Call S) (d : TestProjectConfig S)
        → run call c ≡ some d
        → AreNew (created_by call c) c d
    unfolding run created_by
    run-AreNew (variation key) d e =
        subst (λ x. AreNew (created_by (variation key) c) c x) (some_inj e) (variation-AreNew key)
    run-AreNew (ab_test key a b) d e =
        subst (λ x. AreNew (created_by (ab_test key a b) c) c x) (some_inj e)
          (ab_test-AreNew key a b)
    run-AreNew (event _) d e = nothing-AreNew c d
    run-AreNew (audience _) d e = nothing-AreNew c d
    run-AreNew (feature _) d e = nothing-AreNew c d
    run-AreNew (feature_test _) d e = nothing-AreNew c d
    run-AreNew (feature_rollout _) d e = nothing-AreNew c d
    run-AreNew (disabled_rollout _) d e = nothing-AreNew c d
    run-AreNew (flag_variation _ _) d e = nothing-AreNew c d
    run-AreNew (custom_test _ _ _) d e = nothing-AreNew c d
    run-AreNew (experiment _ _) d e = nothing-AreNew c d
    run-AreNew (two_variations _ _ _) d e = nothing-AreNew c d
