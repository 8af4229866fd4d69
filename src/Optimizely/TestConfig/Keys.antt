-- ===== src/Optimizely/TestConfig/Keys.antt =====
-- GetExperimentByKey on the configurations that the calls build up.
use inspiring_vacations_agen.Common.{
  ◌≡◌, inl, inr, refl, none, some, List, [], ◌∷◌, String, string_eq, itoa, arith, eq_iff, eq_refl,
  ap, ◌∙◌, some_inj, Bool-cases, Option-cases, ◌==◌,
}
use inspiring_vacations_agen.Common.Dict
use inspiring_vacations_agen.Common.Dict.{Dict, insert, lookup}
use inspiring_vacations_agen.Optimizely.TestConfig.{
  Entities, Experiment, TestProjectConfig, new_config,
}
use inspiring_vacations_agen.Optimizely.TestConfig.Getters.{Result, get_experiment_by_key, at}
use inspiring_vacations_agen.Optimizely.TestConfig.Steps.{Call, Grows, run-Grows}
use inspiring_vacations_agen.Optimizely.TestConfig.Issued.{
  IsIssued, Grows-IsIssued, Grows-IsKept, run_all,
}

module _ {S : Entities} where
  -- ExperimentKeyToIDMap leads to experiments of that key and identifier.
  abbrev IsIndexed : TestProjectConfig S → Type 0
  IsIndexed c =
      (key id : String)
      → lookup key c.experiment_key_to_id_map ≡ some id
      → (e : Experiment) × (lookup id c.experiment_map ≡ some e) × (e.key ≡ key) × (e.id ≡ id)

  Grows-IsIndexed : (c d : TestProjectConfig S) → Grows c d → IsIssued c → IsIndexed c → IsIndexed d
  Grows-IsIndexed c d g issued indexed =
      let kept = (Grows-IsKept c d g issued).0 in
      elim g.keyed [
        | inl e ↦ λ key id h.
            let (x, there, s, t) = indexed key id (rw e at h) in (x, kept id x there, s, t)
        | inr (k, x, above, added, keyed, own) ↦ λ key id h. elim (Bool-cases (x.key == key)) [
          | inl same ↦
              let e : itoa k ≡ id = some_inj (rw (keyed, Dict.lookup-insert, same) at h) in
              (
                x,
                rw (added, Dict.lookup-insert, e, eq_refl) refl,
                (eq_iff x.key key).0 same,
                own ∙ e,
              )
          | inr other ↦
              let (y, there, s, t) = indexed key id (rw (keyed, Dict.lookup-insert, other) at h) in
              (y, kept id y there, s, t)
        ]
      ]

  run_all-IsIndexed :
      (calls : List (Call S)) (c d : TestProjectConfig S)
      → IsIssued c
      → IsIndexed c
      → run_all calls c ≡ some d
      → IsIndexed d
  unfolding run_all
  run_all-IsIndexed [] c d issued indexed h = rw⁻¹ (some_inj h) indexed
  run_all-IsIndexed (call ∷ calls) c d issued indexed h =
      let (e, ran, grown) = run-Grows call c in
      run_all-IsIndexed calls e d (Grows-IsIssued c e grown issued)
        (Grows-IsIndexed c e grown issued indexed) (rw (run_all, ran) at h)

  -- Whatever calls have built a configuration up: where GetExperimentByKey returns no error, it
  -- returns an experiment of that key, which ExperimentMap holds under its identifier, and never
  -- the zero experiment of a missing entry.
  pub get_experiment_by_key-run_all :
      (calls : List (Call S)) (c : TestProjectConfig S) (key : String) (e : Experiment)
      → run_all calls new_config ≡ some c
      → get_experiment_by_key c key ≡ (e, none)
      → (e.key ≡ key) × (lookup e.id c.experiment_map ≡ some e)
  unfolding new_config lookup get_experiment_by_key at
  get_experiment_by_key-run_all calls c key e ran got =
      let indexed =
        run_all-IsIndexed calls new_config c (λ k h. refl, λ k h. refl)
          (λ k id h. absurd (ground arith)) ran in
      elim (Option-cases (lookup key c.experiment_key_to_id_map)) [
        | inl absent ↦ absurd (ground (arith, got))
        | inr (id, there) ↦
            let (x, held, s, t) = indexed key id there in
            let got_x : (x, none) ≡ (e, none) =
              rw (get_experiment_by_key, there, at, held) at got in
            let same : x ≡ e = ap (λ (r : Result Experiment). r.0) got_x in
            rw⁻¹ same (s, rw (t) held)
      ]
