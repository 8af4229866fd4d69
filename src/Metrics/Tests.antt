-- ===== src/Metrics/Tests.antt =====
-- Calls on a registry, and names of Prometheus.
use inspiring_vacations_agen.Common.{
  ℕ, ◌≡◌, refl, Option, none, some, List, [], ◌∷◌, arith, eq_iff, chars, codes, inl, inr, string_eq,
  split_chars, codes_eq,
}
use inspiring_vacations_agen.Common.Dict
use inspiring_vacations_agen.Metrics.{
  Registry, new_registry, to_snake_case, first_cap, all_cap, join_parts, register, is_published,
  get_package_supported_name, create_counter, get_counter,
}
use inspiring_vacations_agen.Metrics.Fresh.{counter, gauge, timer, call, call_all, call_all_total}

snake :
    to_snake_case "timer.getConfig-HTTPCode.responseTime"
    ≡ codes (chars "timer_get_config_http_code_response_time")
unfolding to_snake_case first_cap all_cap join_parts split_chars
snake = refl

-- Two keys of one name: the second counter makes Prometheus panic.
abbrev collision : Option Registry
unfolding call_all call get_counter create_counter register get_package_supported_name is_published
    to_snake_case first_cap all_cap join_parts split_chars codes_eq Dict.lookup Dict.insert
collision = call_all (counter "a-b" ∷ counter "a.b" ∷ []) (new_registry "prometheus" [])

collides : collision ≡ none
unfolding call_all call get_counter create_counter register get_package_supported_name is_published
    to_snake_case first_cap all_cap join_parts split_chars codes_eq Dict.lookup Dict.insert
collides = refl

-- The names that expvar publishes itself.
abbrev own_names : List (List ℕ)
own_names = codes (chars "cmdline") ∷ codes (chars "memstats") ∷ []

call_all_total_example :
    (n : Registry) × (call_all
        (timer "decide" ∷ counter "a" ∷ timer "decide" ∷ gauge "" ∷ counter "a" ∷ [])
        (new_registry "expvar" own_names)
      ≡ some n)
call_all_total_example =
    call_all_total "expvar" own_names
      (timer "decide" ∷ counter "a" ∷ timer "decide" ∷ gauge "" ∷ counter "a" ∷ [])
      (λ e. absurd (ground (arith, eq_iff "expvar" "prometheus")))
      (λ k. (
        elim [
          | inl e ↦ absurd (ground arith)
          | inr (inl e) ↦ absurd (ground arith)
          | inr (inr h) ↦ absurd h
        ],
        elim [
          | inl e ↦ absurd (ground arith)
          | inr (inl e) ↦ absurd (ground arith)
          | inr (inr h) ↦ absurd h
        ],
        λ s. elim [
          | inl e ↦ absurd (ground arith)
          | inr (inl e) ↦ absurd (ground arith)
          | inr (inr h) ↦ absurd h
        ],
      ))
