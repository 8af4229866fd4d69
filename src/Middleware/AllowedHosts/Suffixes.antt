-- ===== src/Middleware/AllowedHosts/Suffixes.antt =====
-- The loop over the suffixes of a host: what it finds, whatever texts are allowed.
use mathlib.Core.WellFounded.{Acc}
use inspiring_vacations_agen.Common.{
  ◌≡◌, ◌↔◌, ◌⊎◌, inl, inr, Bool, true, false, List, [], ◌∷◌, String, Char, code, none, some, arith,
  of_chars, Bool-cases, Option-cases, string_eq, is,
}
use inspiring_vacations_agen.Middleware.AllowedHosts.{
  trim_dot, from_dot, Shorter, next-shorter, walk,
}

-- `P` holds of the part of the text from some dot on.
abbrev pub AtDot : (List Char → Type 0) → List Char → Type 0
AtDot P [] = ⊥
AtDot P (c ∷ cs) = ((code c ≡ b'.') × P (c ∷ cs)) ⊎ AtDot P cs

-- `P` holds of the text, which is not empty, or of a later part from a dot on.
abbrev pub Permits : (List Char → Type 0) → List Char → Type 0
Permits P [] = ⊥
Permits P (c ∷ cs) = P (c ∷ cs) ⊎ AtDot P cs

next_lem : (c : Char) (cs : List Char) → from_dot (trim_dot (c ∷ cs)) ≡ from_dot cs
unfolding from_dot trim_dot
next_lem c cs = ground arith

module _ (P : List Char → Type 0) where
  from_dot-none : (cs : List Char) → from_dot cs ≡ none → ¬ AtDot P cs
  unfolding from_dot
  from_dot-none [] e h = h
  from_dot-none (c ∷ cs) e (inl h) = ground (arith, h.0)
  from_dot-none (c ∷ cs) e (inr h) = from_dot-none cs (ground arith) h

  from_dot-AtDot : (cs rest : List Char) → from_dot cs ≡ some rest → AtDot P cs ↔ Permits P rest
  unfolding from_dot
  from_dot-AtDot [] rest e = absurd (ground arith)
  from_dot-AtDot (c ∷ cs) rest e = elim (Bool-cases (is b'.' c)) [
    | inl dot ↦
        let same : c ∷ cs ≡ rest = ground arith in
        let is_dot : code c ≡ b'.' = ground arith in
        rw (← same) (
          elim [ inl h ↦ inl h.1 | inr h ↦ inr h ],
          elim [ inl p ↦ inl (is_dot, p) | inr h ↦ inr h ],
        )
    | inr other ↦
        let (to, from) = from_dot-AtDot cs rest (ground arith) in
        (elim [ inl h ↦ absurd (ground (arith, h.0)) | inr h ↦ to h ], λ h. inr (from h))
  ]

abbrev pub IsAllowed : (String → Bool) → List Char → Type 0
IsAllowed allowed cs = allowed (of_chars cs) ≡ true

module _ (allowed : String → Bool) where
  pub walk_iff :
      (cs : List Char) (w : Acc Shorter cs)
      → (walk allowed cs w ≡ true) ↔ Permits (IsAllowed allowed) cs
  unfolding walk
  walk_iff [] w = (λ h. ground arith, λ h. absurd h)
  walk_iff (c ∷ cs) (Acc.intro _ smaller) = elim (Bool-cases (allowed (of_chars (c ∷ cs)))) [
    | inl here ↦ (λ _. inl here, λ _. rw (here, walk))
    | inr not_here ↦
        let later : (walk allowed (c ∷ cs) (Acc.intro _ smaller) ≡ true)
            ↔ AtDot (IsAllowed allowed) cs =
          rw (not_here, walk)
            (elim (Option-cases (from_dot (trim_dot (c ∷ cs))))
              as (λ o.
                ((elim o [
                  | inl _ ↦ false
                  | inr (rest, e) ↦ walk allowed rest (smaller rest (next-shorter c cs rest e))
                ])
                  ≡ true)
                ↔ AtDot (IsAllowed allowed) cs) [
                  | inl e ↦ (
                    λ h. ground arith,
                    λ h. absurd (from_dot-none (IsAllowed allowed) cs (rw next_lem at e) h),
                  )
                  | inr (rest, e) ↦
                      let (ih_to, ih_from) =
                        walk_iff rest (smaller rest (next-shorter c cs rest e)) in
                      let (to, from) =
                        from_dot-AtDot (IsAllowed allowed) cs rest (rw next_lem at e) in
                      (λ h. from (ih_to h), λ h. ih_from (to h))
                ]) in
        (λ h. inr (later.0 h), elim [ inl here ↦ absurd (ground arith) | inr h ↦ later.1 h ])
  ]
