-- ===== src/Optimizely/TestConfig/Issued.antt =====
-- The identifiers of TestProjectConfig: each is new, and what is added under one is never
-- overwritten.
use inspiring_vacations_agen.Common.{
  ℕ, ◌<◌, ◌≤◌, ◌≡◌, inl, inr, refl, Option, none, some, List, [], ◌∷◌, ◌++◌, String, string_eq,
  itoa, itoa_inj, arith, get_elem?, zero, suc, eq_iff, Elem,
}
use inspiring_vacations_agen.Common.Dict
use inspiring_vacations_agen.Common.Dict.{Dict, insert, lookup}
use inspiring_vacations_agen.Optimizely.TestConfig.{
  Entities, Variation, TestProjectConfig, new_config,
}
use inspiring_vacations_agen.Optimizely.TestConfig.Steps.{Call, Added, Grows, run, run-Grows}
use inspiring_vacations_agen.Optimizely.TestConfig.New.{
  AreDistinct, IsUnused, AreNew, StaysUnused, created_by, Grows-StaysUnused, nothing-AreNew,
  append-AreNew, run-AreNew,
}

-- No identifier that is still to come is a key.
abbrev pub IsFresh : {V : Type 0} → ℕ → Dict String V → Type 0
IsFresh n m = (k : ℕ) → n < k → lookup (itoa k) m ≡ none

-- What `m` has, `n` has.
infix 4 ◌⊑◌
abbrev pub ◌⊑◌ : {V : Type 0} → Dict String V → Dict String V → Type 0
m ⊑ n = (id : String) (v : _) → lookup id m ≡ some v → lookup id n ≡ some v

module _ {V : Type 0} where
  Added-IsFresh :
      (lo hi : ℕ) (m n : Dict String V) → lo ≤ hi → Added lo hi m n → IsFresh lo m → IsFresh hi n
  Added-IsFresh lo hi m n h (inl e) fresh k above = rw e (fresh k (omega arith))
  Added-IsFresh lo hi m n h (inr (j, v, over, under, e)) fresh k above =
      rw (e, Dict.lookup-insert)
        (ground (arith, eq_iff (itoa j) (itoa k), itoa_inj j k, fresh k (omega arith)))

  Added-kept : (lo hi : ℕ) (m n : Dict String V) → Added lo hi m n → IsFresh lo m → m ⊑ n
  Added-kept lo hi m n (inl e) fresh id v h = rw e h
  Added-kept lo hi m n (inr (j, w, over, under, e)) fresh id v h =
      rw (e, Dict.lookup-insert) (ground (arith, eq_iff (itoa j) id, fresh j over))

get_elem?-append :
    {A : Type 0} (h made : List A) (a : ℕ) (m : A)
    → get_elem? h a ≡ some m
    → get_elem? (h ++ made) a ≡ some m
get_elem?-append [] made a m e = absurd (ground arith)
get_elem?-append (x ∷ h) made zero m e = e
get_elem?-append (x ∷ h) made (suc a) m e = get_elem?-append h made a m e

module _ {S : Entities} where
  -- A sequence of calls.
  unfoldable pub run_all : List (Call S) → TestProjectConfig S → Option (TestProjectConfig S)
  unfolding run
  run_all [] c = some c
  run_all (call ∷ calls) c = elim (run call c) [ none ↦ none | some d ↦ run_all calls d ]

  -- The identifiers of the variations that the calls create, in their order.
  unfoldable pub created : List (Call S) → TestProjectConfig S → List String
  unfolding run created_by
  created [] c = []
  created (call ∷ calls) c = elim (run call c) [
    | none ↦ []
    | some d ↦ created_by call c ++ created calls d
  ]

  abbrev pub IsIssued : TestProjectConfig S → Type 0
  IsIssued c = IsFresh c.next_id c.experiment_map × IsFresh c.next_id c.rollout_map

  -- Each experiment and rollout of `c` is under its identifier in `d`, and each map of
  -- variations at its address.
  abbrev pub IsKept : TestProjectConfig S → TestProjectConfig S → Type 0
  IsKept c d =
      (c.experiment_map ⊑ d.experiment_map)
      × (c.rollout_map ⊑ d.rollout_map)
      × ((a : ℕ) (m : Dict String Variation)
          → get_elem? c.heap a ≡ some m
          → get_elem? d.heap a ≡ some m)

  pub Grows-IsIssued : (c d : TestProjectConfig S) → Grows c d → IsIssued c → IsIssued d
  Grows-IsIssued c d g (e, r) = (
    Added-IsFresh _ _ _ _ g.counted g.experiments e,
    Added-IsFresh _ _ _ _ g.counted g.rollouts r,
  )

  pub Grows-IsKept : (c d : TestProjectConfig S) → Grows c d → IsIssued c → IsKept c d
  Grows-IsKept c d g (e, r) = (
    Added-kept _ _ _ _ g.experiments e,
    Added-kept _ _ _ _ g.rollouts r,
    λ a m h. rw (g.appended) (get_elem?-append c.heap g.made a m h),
  )

  record Issues (calls : List (Call S)) (c d : TestProjectConfig S) : Type 0 where
    counted : c.next_id ≤ d.next_id
    stays : StaysUnused c d
    new : AreNew (created calls c) c d

  run_all-IsIssued :
      (calls : List (Call S)) (c : TestProjectConfig S)
      → IsIssued c
      → (d : TestProjectConfig S) × (run_all calls c ≡ some d)
        × IsIssued d
        × IsKept c d
        × Issues calls c d
  unfolding run_all created
  run_all-IsIssued [] c issued = (
    c,
    refl,
    issued,
    (λ id v h. h, λ id v h. h, λ a m h. h),
    record { counted = omega arith; stays = λ k h u. u; new = nothing-AreNew c c },
  )
  run_all-IsIssued (call ∷ calls) c issued =
      let (d, ran, grown) = run-Grows call c in
      let (e, rest, still, (experiments, rollouts, heap), issues) =
        run_all-IsIssued calls d (Grows-IsIssued c d grown issued) in
      let (experiments0, rollouts0, heap0) = Grows-IsKept c d grown issued in
      (
        e,
        rw (run_all, ran) rest,
        still,
        (
          λ id v h. experiments id v (experiments0 id v h),
          λ id v h. rollouts id v (rollouts0 id v h),
          λ a m h. heap a m (heap0 a m h),
        ),
        record {
          counted = omega (arith, grown.counted, issues.counted);
          stays = λ k h u.
              issues.stays k (omega (arith, grown.counted)) (Grows-StaysUnused c d grown k h u);
          new =
              rw (created, ran)
                (append-AreNew _ _ c d e grown.counted issues.counted issues.stays
                  (run-AreNew c (λ k h. (issued.0 k h, issued.1 k h)) call d ran) issues.new);
        },
      )

  -- Whatever is added to a new configuration, before and after, no call panics, and no later call
  -- changes an experiment or a rollout that an earlier one added, or a variation of theirs; and the
  -- identifiers of the variations that CreateVariation makes, called by itself or for the two of an
  -- AB test, before and after, are all different, and no experiment or rollout has one of them.
  pub run_all-IsKept :
      (earlier later : List (Call S))
      → (c : TestProjectConfig S) × (d : TestProjectConfig S) × (run_all earlier new_config
          ≡ some c)
        × (run_all later c ≡ some d)
        × IsKept c d
        × AreDistinct (created earlier new_config ++ created later c)
        × ((id : String) → Elem id (created earlier new_config ++ created later c) → IsUnused id d)
  unfolding new_config lookup
  run_all-IsKept earlier later =
      let (c, ran, issued, kept, issues) =
        run_all-IsIssued earlier new_config (λ k h. refl, λ k h. refl) in
      let (d, rest, still, kept_later, issues_later) = run_all-IsIssued later c issued in
      let all =
        append-AreNew (created earlier new_config) (created later c) new_config c d issues.counted
          issues_later.counted issues_later.stays issues.new issues_later.new in
      (c, d, ran, rest, kept_later, all.distinct, all.unused)
