-- ===== src/Server/Ciphers.antt =====
-- Which suites a TLS server offers.
use inspiring_vacations_agen.Common.{
  ℕ, ◌≡◌, refl, ◌↔◌, ◌⊎◌, inl, inr, none, some, List, [], ◌∷◌, String, arith, Elem, Option-cases,
  nat_eq, string_eq, eqb_iff, eqb, Bool-cases, ap, ◌∙◌, sym,
}
use inspiring_vacations_agen.Common.Dict
use inspiring_vacations_agen.Common.Dict.{Dict}
use inspiring_vacations_agen.Server.Tls.{default_ciphers_map, disable, keep, blacklist_ciphers}

-- A name of the list is that of the suite.
abbrev pub Disables : List String → ℕ → Type 0
Disables blacklist cipher =
    (name : String) × Elem name blacklist × (Dict.lookup name default_ciphers_map ≡ some cipher)

disable_iff :
    (names : List String) (m : Dict ℕ (Unit {0})) (c : ℕ)
    → (Dict.lookup c (disable names m) ≡ some tt) ↔ ((Dict.lookup c m ≡ some tt) ⊎ Disables names c)
unfolding disable
disable_iff [] m c = (λ h. inl h, elim [ inl h ↦ h | inr (_, h, _) ↦ absurd h ])
disable_iff (name ∷ names) m c = elim (Option-cases (Dict.lookup name default_ciphers_map)) [
  | inl missing ↦
      let (to, from) = disable_iff names m c in
      rw (missing, disable)
        (
          λ h. elim (to h) [ inl k ↦ inl k | inr (n, k, e) ↦ inr (n, inr k, e) ],
          elim [
            | inl k ↦ from (inl k)
            | inr (n, inl same, e) ↦ absurd (ground (arith, missing, e, same))
            | inr (n, inr k, e) ↦ from (inr (n, k, e))
          ],
        )
  | inr (v, found) ↦
      let (to, from) = disable_iff names (Dict.insert v tt m) c in
      let put = Dict.lookup-insert v c tt m in
      rw (found, disable)
        (
          λ h. elim (to h) [
            | inl k ↦ elim (Bool-cases (eqb v c)) [
              | inl same ↦
                  let e : v ≡ c = (eqb_iff v c).0 same in inr (name, inl refl, found ∙ ap some e)
              | inr other ↦ inl (ground (arith, put, k, other))
            ]
            | inr (n, k, e) ↦ inr (n, inr k, e)
          ],
          elim [
            | inl k ↦ from (inl (ground (arith, put, k)))
            | inr (n, inl same, e) ↦ from (inl (ground (arith, put, found, e, same)))
            | inr (n, inr k, e) ↦ from (inr (n, k, e))
          ],
        )
]

keep_iff :
    (m : Dict ℕ (Unit {0})) (ciphers : List ℕ) (c : ℕ)
    → Elem c (keep m ciphers) ↔ (Elem c ciphers × (Dict.lookup c m ≡ none))
unfolding keep
keep_iff m [] c = (λ h. absurd h, λ h. absurd h.0)
keep_iff m (d ∷ ciphers) c =
    let (to, from) = keep_iff m ciphers c in
    elim (Option-cases (Dict.lookup d m)) [
      | inl absent ↦
          rw (absent, keep)
            (
              elim [
                | inl e ↦ (inl e, ap (λ x. Dict.lookup x m) e ∙ absent)
                | inr h ↦ (inr (to h).0, (to h).1)
              ],
              λ h. elim h.0 [ inl e ↦ inl e | inr k ↦ inr (from (k, h.1)) ],
            )
      | inr (v, present) ↦
          rw (present, keep)
            (
              λ h. (inr (to h).0, (to h).1),
              λ h. elim h.0 [
                | inl e ↦ absurd (ground (arith, sym (ap (λ x. Dict.lookup x m) e), present, h.1))
                | inr k ↦ from (k, h.1)
              ],
            )
    ]

-- A suite is offered exactly when it is among the defaults and no disabled name is its name;
-- names that the table does not have disable nothing.
pub blacklist_ciphers_iff :
    (blacklist : List String) (ciphers : List ℕ) (c : ℕ)
    → Elem c (blacklist_ciphers blacklist ciphers) ↔ (Elem c ciphers × (¬ Disables blacklist c))
unfolding blacklist_ciphers
blacklist_ciphers_iff blacklist ciphers c =
    let (to, from) = keep_iff (disable blacklist []) ciphers c in
    let (seen, put) = disable_iff blacklist [] c in
    (
      λ h. let (k, absent) = to h in (k, λ d. ground (arith, put (inr d), absent)),
      λ (k, free). from (
        k,
        elim (Option-cases (Dict.lookup c (disable blacklist []))) [
          | inl absent ↦ absent
          | inr (tt, present) ↦ elim (seen present) [
            | inl h ↦ absurd (ground (arith, Dict.lookup-nil {V = Unit {0}} c))
            | inr d ↦ absurd (free d)
          ]
        ],
      ),
    )
