-- ===== src/Metrics/Kept.antt =====
-- What holds of a registry of expvar, kept by its counters and gauges.
use mathlib.Core.Path.{subst}
use inspiring_vacations_agen.Common.{
  ℕ, ◌≡◌, refl, sym, ◌∙◌, ◌⊎◌, inl, inr, false, Option, none, some, List, [], ◌∷◌, ◌++◌, String,
  ◌==◌, arith, eq_refl, chars, codes, Elem, Bool-cases, Option-cases, string_eq, length,
}
use inspiring_vacations_agen.Common.Dict
use inspiring_vacations_agen.Common.Dict.{Dict}
use inspiring_vacations_agen.Metrics.{
  Registry, join, get_package_supported_name, is_published, register, register_quantiles,
  register_histogram, create_counter, create_gauge, create_histogram, get_counter, get_gauge,
}
use inspiring_vacations_agen.Metrics.Names.{
  is_published-Elem, name-eq, Part, part_name, counter-gauge, counter-timer, gauge-timer,
}

-- The library knows the text as a name.
abbrev pub Known : Registry → String → Type 0
Known m name = Elem (codes (chars name)) m.published

abbrev pub Has : {V : Type 0} → String → Dict String V → Type 0
Has {V} k vars = (v : V) × (Dict.lookup k vars ≡ some v)

pub Has-insert :
    {V : Type 0} (k j : String) (v : V) (vars : Dict String V)
    → Has k vars
    → Has k (Dict.insert j v vars)
Has-insert k j v vars (w, e) = elim (Bool-cases (j == k)) [
  | inl same ↦ (v, ground (arith, Dict.lookup-insert j k v vars, same))
  | inr other ↦ (w, ground (arith, Dict.lookup-insert j k v vars, other, e))
]

pub Has-new :
    {V : Type 0} (k : String) (v : V) (vars : Dict String V) → Has k (Dict.insert k v vars)
Has-new k v vars = (v, ground (arith, Dict.lookup-insert k k v vars, eq_refl k))

-- Each name that the library knows is that of a metric of the registry, for the keys that the
-- registry makes.
pub record IsKept (m : Registry) : Type 0 where
  pub expvar : (m.metrics_type == "prometheus") ≡ false
  pub counters :
      (k : String) → Known m (join "counter." k) → Has (join "counter." k) m.metrics_counter_vars
  pub gauges : (k : String) → Known m (join "gauge." k) → Has (join "gauge." k) m.metrics_gauge_vars
  pub timers :
      (k : String) (p : Part)
      → Known m (part_name (join "timer." k) p)
      → Has (join "timer." k) m.metrics_timer_vars

-- The registry once a name is published.
abbrev pub publish : String → Registry → Registry
publish key m = record m { published = m.published ++ codes (chars key) ∷ [] }

register_new :
    (key : String) (m : Registry)
    → (m.metrics_type == "prometheus") ≡ false
    → ¬ Known m key
    → register key m ≡ some (length m.published, publish key m)
unfolding register get_package_supported_name
register_new key m plain new = elim (Bool-cases (is_published m.published (codes (chars key)))) [
  | inl there ↦ absurd (new (is_published-Elem m.published (codes (chars key)) there))
  | inr fresh ↦ rw (plain, register, get_package_supported_name) (rw fresh refl)
]

pub Known-publish :
    (key x : String) (m : Registry) → Known (publish key m) x → Known m x ⊎ (x ≡ key)
Known-publish key x m h = last m.published h
  where
    last :
        (ns : List (List ℕ))
        → Elem (codes (chars x)) (ns ++ codes (chars key) ∷ [])
        → Elem (codes (chars x)) ns ⊎ (x ≡ key)
    last [] (inl e) = inr (name-eq x key e)
    last [] (inr h) = absurd h
    last (n ∷ ns) (inl e) = inl (inl e)
    last (n ∷ ns) (inr h) = elim (last ns h) [ inl k ↦ inl (inr k) | inr e ↦ inr e ]

abbrev pub with_counter : String → Registry → Registry
with_counter key m = record (publish key m) {
  metrics_counter_vars = Dict.insert key (length m.published) m.metrics_counter_vars;
}

abbrev pub with_gauge : String → Registry → Registry
with_gauge key m = record (publish key m) {
  metrics_gauge_vars = Dict.insert key (length m.published) m.metrics_gauge_vars;
}

-- The registry once the quantiles up to one are published.
abbrev pub to_p50 : String → Registry → Registry
to_p50 key m = publish (join key ".p50") m

abbrev pub to_p90 : String → Registry → Registry
to_p90 key m = publish (join key ".p90") (to_p50 key m)

abbrev pub to_p95 : String → Registry → Registry
to_p95 key m = publish (join key ".p95") (to_p90 key m)

abbrev pub to_p99 : String → Registry → Registry
to_p99 key m = publish (join key ".p99") (to_p95 key m)

abbrev pub with_histogram : String → Registry → Registry
with_histogram key m = record (to_p99 key m) {
  metrics_histogram_vars = Dict.insert key (length m.published) m.metrics_histogram_vars;
}

module _ (key : String) (m : Registry) (plain : (m.metrics_type == "prometheus") ≡ false)
    (new : ¬ Known m key) where
  pub create_counter_new : create_counter key m ≡ some (length m.published, with_counter key m)
  unfolding create_counter
  create_counter_new = rw (register_new key m plain new, create_counter) refl

  create_gauge_new : create_gauge key m ≡ some (length m.published, with_gauge key m)
  unfolding create_gauge
  create_gauge_new = rw (register_new key m plain new, create_gauge) refl

register_quantiles-next :
    (key q : String) (qs : List String) (m : Registry)
    → (m.metrics_type == "prometheus") ≡ false
    → ¬ Known m (join key q)
    → register_quantiles key (q ∷ qs) m ≡ register_quantiles key qs (publish (join key q) m)
unfolding register_quantiles
register_quantiles-next key q qs m plain new =
    rw (register_new (join key q) m plain new, register_quantiles) refl

register_quantiles-nil : (key : String) (m : Registry) → register_quantiles key [] m ≡ some m
unfolding register_quantiles
register_quantiles-nil key m = refl

register_histogram_new :
    (key : String) (m n : Registry)
    → (m.metrics_type == "prometheus") ≡ false
    → register_quantiles key (".p50" ∷ ".p90" ∷ ".p95" ∷ ".p99" ∷ []) m ≡ some n
    → register_histogram key m ≡ some (length m.published, n)
unfolding register_histogram
register_histogram_new key m n plain all = rw (all, register_histogram) (rw plain refl)

pub create_histogram_new :
    (key : String) (m : Registry)
    → (m.metrics_type == "prometheus") ≡ false
    → ¬ Known m (join key ".p50")
    → ¬ Known (to_p50 key m) (join key ".p90")
    → ¬ Known (to_p90 key m) (join key ".p95")
    → ¬ Known (to_p95 key m) (join key ".p99")
    → create_histogram key m ≡ some (length m.published, with_histogram key m)
unfolding create_histogram
create_histogram_new key m plain new50 new90 new95 new99 =
    let all : register_quantiles key (".p50" ∷ ".p90" ∷ ".p95" ∷ ".p99" ∷ []) m
        ≡ some (to_p99 key m) =
      register_quantiles-next key ".p50" (".p90" ∷ ".p95" ∷ ".p99" ∷ []) m plain new50
      ∙ register_quantiles-next key ".p90" (".p95" ∷ ".p99" ∷ []) (to_p50 key m) plain new90
      ∙ register_quantiles-next key ".p95" (".p99" ∷ []) (to_p90 key m) plain new95
      ∙ register_quantiles-next key ".p99" [] (to_p95 key m) plain new99
      ∙ register_quantiles-nil key (to_p99 key m) in
    rw (register_histogram_new key m (to_p99 key m) plain all, create_histogram) refl

-- A call that returns, and keeps the registry in order.
abbrev pub Fine : {A : Type 0} → Option (Option A × Registry) → Type 0
Fine {A} result = (o : Option A) × (n : Registry) × (result ≡ some (o, n)) × IsKept n

pub get_counter-IsKept : (key : String) (m : Registry) → IsKept m → Fine (get_counter key m)
unfolding get_counter
get_counter-IsKept key m i = elim (Bool-cases (key == "")) [
  | inl none_given ↦ (none, m, rw (none_given, get_counter) refl, i)
  | inr given ↦ elim (Option-cases (Dict.lookup (join "counter." key) m.metrics_counter_vars)) [
    | inr (v, e) ↦ (some v, m, rw (given, get_counter) (rw e refl), i)
    | inl e ↦
        let full = join "counter." key in
        let made =
          create_counter_new full m i.expvar
            (λ h. let (v, there) = i.counters key h in absurd (ground (arith, there, e))) in
        (
          some (length m.published),
          with_counter full m,
          rw (given, get_counter) (rw (e, made) refl),
          record {
            expvar = i.expvar;
            counters = λ k h. elim (Known-publish full (join "counter." k) m h) [
              | inl old ↦ Has-insert _ _ _ m.metrics_counter_vars (i.counters k old)
              | inr same ↦
                  subst (λ x. Has x (Dict.insert full (length m.published) m.metrics_counter_vars))
                    (sym same) (Has-new full (length m.published) m.metrics_counter_vars)
            ];
            gauges = λ k h. elim (Known-publish full (join "gauge." k) m h) [
              | inl old ↦ i.gauges k old
              | inr same ↦ absurd (counter-gauge key k (sym same))
            ];
            timers = λ k p h. elim (Known-publish full (part_name (join "timer." k) p) m h) [
              | inl old ↦ i.timers k p old
              | inr same ↦ absurd (counter-timer key k p (sym same))
            ];
          },
        )
  ]
]

pub get_gauge-IsKept : (key : String) (m : Registry) → IsKept m → Fine (get_gauge key m)
unfolding get_gauge
get_gauge-IsKept key m i = elim (Bool-cases (key == "")) [
  | inl none_given ↦ (none, m, rw (none_given, get_gauge) refl, i)
  | inr given ↦ elim (Option-cases (Dict.lookup (join "gauge." key) m.metrics_gauge_vars)) [
    | inr (v, e) ↦ (some v, m, rw (given, get_gauge) (rw e refl), i)
    | inl e ↦
        let full = join "gauge." key in
        let made =
          create_gauge_new full m i.expvar
            (λ h. let (v, there) = i.gauges key h in absurd (ground (arith, there, e))) in
        (
          some (length m.published),
          with_gauge full m,
          rw (given, get_gauge) (rw (e, made) refl),
          record {
            expvar = i.expvar;
            counters = λ k h. elim (Known-publish full (join "counter." k) m h) [
              | inl old ↦ i.counters k old
              | inr same ↦ absurd (counter-gauge k key same)
            ];
            gauges = λ k h. elim (Known-publish full (join "gauge." k) m h) [
              | inl old ↦ Has-insert _ _ _ m.metrics_gauge_vars (i.gauges k old)
              | inr same ↦
                  subst (λ x. Has x (Dict.insert full (length m.published) m.metrics_gauge_vars))
                    (sym same) (Has-new full (length m.published) m.metrics_gauge_vars)
            ];
            timers = λ k p h. elim (Known-publish full (part_name (join "timer." k) p) m h) [
              | inl old ↦ i.timers k p old
              | inr same ↦ absurd (gauge-timer key k p (sym same))
            ];
          },
        )
  ]
]
