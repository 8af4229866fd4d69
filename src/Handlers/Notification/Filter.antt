-- ===== src/Handlers/Notification/Filter.antt =====
-- Which notifications pass the filters of a request.
use inspiring_vacations_agen.Common.{
  ◌≡◌, refl, ap, sym, ◌↔◌, ◌⊎◌, inl, inr, true, List, [], ◌∷◌, String, ◌==◌, eq_iff, if◌then◌else◌,
  string_eq, arith, Bool-cases, Elem, split,
}
use inspiring_vacations_agen.Common.Dict
use inspiring_vacations_agen.Common.Dict.{Dict}
use inspiring_vacations_agen.Handlers.Activate.{has}
use inspiring_vacations_agen.Handlers.Notification.{add_parts, add_filters, get_filter}

has-insert :
    (k v j : String) (m : Dict String String)
    → has (Dict.insert k v m) j ≡ (if k == j then true else has m j)
unfolding has
has-insert k v j m = ground (arith, Dict.lookup-insert k j v m)

has-nil : (t : String) → ¬ (has {V = String} [] t ≡ true)
unfolding has Dict.lookup
has-nil t g = ground arith

-- A part of one of the filters is the type.
abbrev pub Asks : List String → String → Type 0
Asks [] t = ⊥
Asks (filter ∷ filters) t = Elem t (split b',' filter) ⊎ Asks filters t

has-add_parts :
    (types : Dict String String) (parts : List String) (m : Dict String String) (t : String)
    → (has (add_parts types parts m) t ≡ true)
      ↔ ((has m t ≡ true) ⊎ ((has types t ≡ true) × Elem t parts))
unfolding add_parts
has-add_parts types [] m t = (λ h. inl h, elim [ inl h ↦ h | inr h ↦ absurd h.1 ])
has-add_parts types (part ∷ parts) m t = elim (Bool-cases (has types part)) [
  | inl known ↦
      let (to, from) = has-add_parts types parts (Dict.insert part part m) t in
      let added = has-insert part part t m in
      rw known (
        λ h. elim (to h) [
          | inl g ↦ elim (Bool-cases (part == t)) [
            | inl same ↦
                let this : t ≡ part = sym ((eq_iff part t).0 same) in inr (rw this known, inl this)
            | inr differs ↦ inl (ground arith)
          ]
          | inr (g, k) ↦ inr (g, inr k)
        ],
        elim [
          | inl g ↦ from (inl (ground arith))
          | inr (g, inl this) ↦ from (inl (ground (arith, eq_iff part t)))
          | inr (g, inr k) ↦ from (inr (g, k))
        ],
      )
  | inr unknown ↦
      let (to, from) = has-add_parts types parts m t in
      rw unknown (
        λ h. elim (to h) [ inl g ↦ inl g | inr (g, k) ↦ inr (g, inr k) ],
        elim [
          | inl g ↦ from (inl g)
          | inr (g, inl this) ↦ absurd (ground (arith, ap (has types) this))
          | inr (g, inr k) ↦ from (inr (g, k))
        ],
      )
]

has-add_filters :
    (types : Dict String String) (filters : List String) (m : Dict String String) (t : String)
    → (has (add_filters types filters m) t ≡ true)
      ↔ ((has m t ≡ true) ⊎ ((has types t ≡ true) × Asks filters t))
unfolding add_filters
has-add_filters types [] m t = (λ h. inl h, elim [ inl h ↦ h | inr h ↦ absurd h.1 ])
has-add_filters types (filter ∷ filters) m t =
    let (to, from) = has-add_filters types filters (add_parts types (split b',' filter) m) t in
    let (to', from') = has-add_parts types (split b',' filter) m t in
    (
      λ h. elim (to h) [
        | inl g ↦ elim (to' g) [ inl k ↦ inl k | inr (k, l) ↦ inr (k, inl l) ]
        | inr (g, k) ↦ inr (g, inr k)
      ],
      elim [
        | inl g ↦ from (inl (from' (inl g)))
        | inr (g, inl k) ↦ from (inl (from' (inr (g, k))))
        | inr (g, inr k) ↦ from (inr (g, k))
      ],
    )

-- A notification of a type passes exactly when the SDK has the type and there is no filter at all
-- or some filter has the type among its parts between commas.
pub get_filter_iff :
    (types : Dict String String) (filters : List String) (t : String)
    → (has (get_filter types filters) t ≡ true)
      ↔ ((has types t ≡ true) × ((filters ≡ []) ⊎ Asks filters t))
unfolding get_filter
get_filter_iff types [] t =
    let (to, from) = has-add_filters types [] types t in
    (λ h. elim (to h) [ inl g ↦ (g, inl refl) | inr g ↦ absurd g.1 ], λ h. from (inl h.0))
get_filter_iff types (filter ∷ filters) t =
    let (to, from) = has-add_filters types (filter ∷ filters) [] t in
    (
      λ h. elim (to h) [ inl g ↦ absurd (has-nil t g) | inr (g, k) ↦ (g, inr k) ],
      λ (g, k). elim k [ inl none_given ↦ absurd (cc) | inr l ↦ from (inr (g, l)) ],
    )
