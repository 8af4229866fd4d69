-- ===== src/Metrics/Timers.antt =====
-- A new timer has six names that the library does not know yet.
use mathlib.Core.Path.{subst}
use inspiring_vacations_agen.Common.{
  ℕ, ◌≡◌, refl, sym, ap, eqb, eqb_iff, Elem, Bool, true, List, [], ◌∷◌, if◌then◌else◌, ◌⊎◌, inl,
  inr, false, none, some, String, ◌==◌, arith, Bool-cases, Option-cases, string_eq, length,
}
use inspiring_vacations_agen.Common.Dict
use inspiring_vacations_agen.Common.Dict.{Dict}
use inspiring_vacations_agen.Metrics.{
  Registry, Timer, join, create_counter, create_histogram, create_timer, new_timer,
}
use inspiring_vacations_agen.Metrics.Names.{
  Part, hits, response_time, p50, p90, p95, p99, part_name, part_name-cancel, counter-timer,
  gauge-timer,
}
use inspiring_vacations_agen.Metrics.Kept.{
  Known, publish, Has, Has-insert, Has-new, Known-publish, IsKept, with_counter, with_histogram,
  create_counter_new, create_histogram_new, Fine,
}

abbrev number : Part → ℕ
number hits = 0
number response_time = 1
number p50 = 2
number p90 = 3
number p95 = 4
number p99 = 5

-- The part is not among the parts.
abbrev misses : Part → List Part → Bool
misses q [] = true
misses q (p ∷ ps) = let rest = misses q ps in if eqb (number q) (number p) then false else rest

misses-Elem : (q : Part) (ps : List Part) → misses q ps ≡ true → ¬ Elem q ps
misses-Elem q [] e h = absurd h
misses-Elem q (p ∷ ps) e (inl same) =
    absurd (ground (arith, ap number same, eqb_iff (number q) (number p)))
misses-Elem q (p ∷ ps) e (inr h) = misses-Elem q ps (ground arith) h

-- The names of a new timer.
module _ (key : String) (m : Registry) (i : IsKept m)
    (e : Dict.lookup (join "timer." key) m.metrics_timer_vars ≡ none) where
  abbrev full : String
  full = join "timer." key

  abbrev first : Registry
  first = with_counter (join full ".hits") m

  abbrev second : Registry
  second = with_counter (join full ".responseTime") first

  abbrev histogram_key : String
  histogram_key = join full ".responseTimeHist"

  abbrev third : Registry
  third = with_histogram histogram_key second

  -- The registry once some parts are published.
  abbrev grown : List Part → Registry → Registry
  grown [] n = n
  grown (p ∷ ps) n = grown ps (publish (part_name full p) n)

  grown-Known :
      (x : String) (ps : List Part) (n : Registry)
      → Known (grown ps n) x
      → Known n x ⊎ ((p : Part) × Elem p ps × (x ≡ part_name full p))
  grown-Known x [] n h = inl h
  grown-Known x (p ∷ ps) n h = elim (grown-Known x ps (publish (part_name full p) n) h) [
    | inl h' ↦ elim (Known-publish (part_name full p) x n h') [
      | inl old ↦ inl old
      | inr same ↦ inr (p, inl refl, same)
    ]
    | inr (q, there, same) ↦ inr (q, inr there, same)
  ]

  is_new :
      (ps : List Part) (q : Part) → misses q ps ≡ true → ¬ Known (grown ps m) (part_name full q)
  is_new ps q out h = elim (grown-Known (part_name full q) ps m h) [
    | inl old ↦ let (v, there) = i.timers key q old in absurd (ground (arith, there, e))
    | inr (p, there, same) ↦
        misses-Elem q ps out
          (subst (λ x. Elem x ps) (sym (part_name-cancel full full q p same).1) there)
  ]

  made_first : create_counter (join full ".hits") m ≡ some (length m.published, first)
  made_first = create_counter_new (join full ".hits") m i.expvar (is_new [] hits refl)

  made_second :
      create_counter (join full ".responseTime") first ≡ some (length first.published, second)
  made_second =
      create_counter_new (join full ".responseTime") first i.expvar
        (is_new (hits ∷ []) response_time refl)

  made_third : create_histogram histogram_key second ≡ some (length second.published, third)
  made_third =
      create_histogram_new histogram_key second i.expvar
        (is_new (hits ∷ response_time ∷ []) p50 refl)
        (is_new (hits ∷ response_time ∷ p50 ∷ []) p90 refl)
        (is_new (hits ∷ response_time ∷ p50 ∷ p90 ∷ []) p95 refl)
        (is_new (hits ∷ response_time ∷ p50 ∷ p90 ∷ p95 ∷ []) p99 refl)

  peel : (x : String) → Known third x → Known m x ⊎ ((p : Part) × (x ≡ part_name full p))
  peel x h = elim (grown-Known x (hits ∷ response_time ∷ p50 ∷ p90 ∷ p95 ∷ p99 ∷ []) m h) [
    | inl old ↦ inl old
    | inr (p, there, same) ↦ inr (p, same)
  ]

  abbrev timed : Timer
  timed = record {
    hits = length m.published;
    total_time = length first.published;
    histogram = length second.published;
  }

  abbrev last : Registry
  last = record third { metrics_timer_vars = Dict.insert full timed third.metrics_timer_vars }

  last-IsKept : IsKept last
  last-IsKept = record {
    expvar = i.expvar;
    counters = λ k h. elim (peel (join "counter." k) h) [
      | inl old ↦ Has-insert _ _ _ _ (Has-insert _ _ _ _ (i.counters k old))
      | inr (p, same) ↦ absurd (counter-timer k key p same)
    ];
    gauges = λ k h. elim (peel (join "gauge." k) h) [
      | inl old ↦ i.gauges k old
      | inr (p, same) ↦ absurd (gauge-timer k key p same)
    ];
    timers = λ k p h. elim (peel (part_name (join "timer." k) p) h) [
      | inl old ↦ Has-insert _ _ _ _ (i.timers k p old)
      | inr (q, same) ↦
          subst (λ x. Has x (Dict.insert full timed m.metrics_timer_vars))
            (sym (part_name-cancel (join "timer." k) full p q same).0)
            (Has-new full timed m.metrics_timer_vars)
    ];
  }

  create_timer_new : create_timer full m ≡ some (timed, last)
  unfolding create_timer
  create_timer_new = rw (made_first, create_timer) (rw made_second (rw made_third refl))

pub new_timer-IsKept : (key : String) (m : Registry) → IsKept m → Fine (new_timer key m)
unfolding new_timer
new_timer-IsKept key m i = elim (Bool-cases (key == "")) [
  | inl none_given ↦ (none, m, rw (none_given, new_timer) refl, i)
  | inr given ↦ elim (Option-cases (Dict.lookup (join "timer." key) m.metrics_timer_vars)) [
    | inr (v, e) ↦ (some v, m, rw (given, new_timer) (rw e refl), i)
    | inl e ↦ (
      some (timed key m i e),
      last key m i e,
      rw (given, new_timer) (rw (e, create_timer_new key m i e) refl),
      last-IsKept key m i e,
    )
  ]
]
