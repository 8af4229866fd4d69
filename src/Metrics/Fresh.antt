-- ===== src/Metrics/Fresh.antt =====
-- Why no call on a registry of expvar registers a name twice.
use inspiring_vacations_agen.Common.{
  ℕ, ◌≡◌, ◌≢◌, refl, Option, none, some, List, [], ◌∷◌, String, arith, eq_iff, chars, codes, Elem,
  string_eq,
}
use inspiring_vacations_agen.Metrics.{
  Registry, join, get_counter, get_gauge, new_timer, new_registry,
}
use inspiring_vacations_agen.Metrics.Names.{suffix, part_name-suffix}
use inspiring_vacations_agen.Metrics.Kept.{IsKept, get_counter-IsKept, get_gauge-IsKept}
use inspiring_vacations_agen.Metrics.Timers.{new_timer-IsKept}

-- What the agent asks of a registry.
pub data Call : Type 0 where
  counter gauge timer : String → Call

unfoldable pub call : Call → Registry → Option Registry
unfolding get_counter get_gauge new_timer
call (counter key) m = elim (get_counter key m) [ none ↦ none | some (_, n) ↦ some n ]
call (gauge key) m = elim (get_gauge key m) [ none ↦ none | some (_, n) ↦ some n ]
call (timer key) m = elim (new_timer key m) [ none ↦ none | some (_, n) ↦ some n ]

unfoldable pub call_all : List Call → Registry → Option Registry
unfolding call
call_all [] m = some m
call_all (c ∷ cs) m = elim (call c m) [ none ↦ none | some n ↦ call_all cs n ]

call-IsKept : (c : Call) (m : Registry) → IsKept m → (n : Registry) × (call c m ≡ some n) × IsKept n
unfolding call
call-IsKept (counter key) m i =
    let (o, n, e, k) = get_counter-IsKept key m i in (n, rw (e, call) refl, k)
call-IsKept (gauge key) m i =
    let (o, n, e, k) = get_gauge-IsKept key m i in (n, rw (e, call) refl, k)
call-IsKept (timer key) m i =
    let (o, n, e, k) = new_timer-IsKept key m i in (n, rw (e, call) refl, k)

call_all-IsKept :
    (cs : List Call) (m : Registry) → IsKept m → (n : Registry) × (call_all cs m ≡ some n)
unfolding call_all
call_all-IsKept [] m i = (m, refl)
call_all-IsKept (c ∷ cs) m i =
    let (n, e, k) = call-IsKept c m i in
    let (last, all) = call_all-IsKept cs n k in (last, rw (e, call_all) all)

-- A new registry whose library is not Prometheus, in a process whose published names begin with
-- none of the registry's prefixes: any calls of GetCounter, GetGauge and NewTimer, with whatever
-- keys, the empty one and repeated ones included, return; none registers a name twice.
pub call_all_total :
    (metrics_type : String) (published : List (List ℕ)) (cs : List Call)
    → metrics_type ≢ "prometheus"
    → ((k : String)
        → (¬ Elem (codes (chars (join "counter." k))) published)
          × (¬ Elem (codes (chars (join "gauge." k))) published)
          × ((s : String) → ¬ Elem (codes (chars (join (join "timer." k) s))) published))
    → (n : Registry) × (call_all cs (new_registry metrics_type published) ≡ some n)
call_all_total metrics_type published cs ne free =
    call_all-IsKept cs (new_registry metrics_type published) (record {
      expvar = ground (arith, eq_iff metrics_type "prometheus");
      counters = λ k h. absurd ((free k).0 h);
      gauges = λ k h. absurd ((free k).1 h);
      timers =
          λ k p h. absurd ((free k).2 (suffix p) (rw (part_name-suffix (join "timer." k) p) at h));
    })
