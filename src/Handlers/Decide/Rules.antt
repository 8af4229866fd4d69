-- ===== src/Handlers/Decide/Rules.antt =====
-- Which rule counts as that for everyone else.
use inspiring_vacations_agen.Common.{
  ◌≡◌, ◌≢◌, refl, ◌↔◌, inl, inr, true, false, ◌&&◌, List, [], ◌∷◌, ◌++◌, String, ◌==◌,
  if◌then◌else◌, has_prefix, arith, eq_iff, eq_refl, ap, sym, ◌∙◌, All, Bool-cases,
}
use inspiring_vacations_agen.Handlers.Decide.{Rule, is_everyone_else_variation}

-- The first rule with the key, the one that counts.
abbrev pub IsEveryoneElse : List Rule → String → Type 0
IsEveryoneElse rules rule_key =
    (before after : List Rule) × (r : Rule) × (rules ≡ before ++ r ∷ after)
    × (r.key ≡ rule_key)
    × (r.id ≡ rule_key)
    × (has_prefix rule_key "default-" ≡ true)
    × All (λ q. q.key ≢ rule_key) before

head_or : Rule → List Rule → Rule
head_or r [] = r
head_or r (q ∷ rules) = q

tail_of : List Rule → List Rule
tail_of [] = []
tail_of (q ∷ rules) = rules

-- A rule key counts as the variation for everyone else exactly when the first rule with this key
-- has it for its id, too, and the key begins with "default-".
pub is_everyone_else_variation_iff :
    (rules : List Rule) (rule_key : String)
    → (is_everyone_else_variation rules rule_key ≡ true) ↔ IsEveryoneElse rules rule_key
unfolding is_everyone_else_variation head_or tail_of
is_everyone_else_variation_iff [] rule_key = (
  λ e. absurd (ground arith),
  λ (before, after, r, e, _, _, _, _). absurd (nowhere before after r e),
)
  where
    nowhere : (before after : List Rule) (r : Rule) → [] ≡ before ++ r ∷ after → ⊥
    nowhere [] after r e = ground arith
    nowhere (b ∷ bs) after r e = ground arith
is_everyone_else_variation_iff (q ∷ rules) rule_key =
    let (to, from) = is_everyone_else_variation_iff rules rule_key in
    elim (Bool-cases (q.key == rule_key)) [
      | inl same ↦
          let e : q.key ≡ rule_key = ground (arith, eq_iff q.key rule_key) in
          (
            λ h. (
              [],
              rules,
              q,
              refl,
              e,
              ground (arith, eq_iff q.key q.id),
              ground (arith, ap (λ k. has_prefix k "default-") e),
              tt,
            ),
            λ (before, after, r, at, k, i, pre, others).
                at_first before after r at k i pre others same,
          )
      | inr other ↦
          rw (other, is_everyone_else_variation)
            (
              λ h.
                  let (before, after, r, at, k, i, pre, others) = to h in
                  (
                    q ∷ before,
                    after,
                    r,
                    ap (◌∷◌ q) at,
                    k,
                    i,
                    pre,
                    ((λ e. absurd (ground (arith, eq_iff q.key rule_key))), others),
                  ),
              λ (before, after, r, at, k, i, pre, others).
                  from (later before after r at k i pre others other),
            )
    ]
  where
    at_first :
        (before after : List Rule) (r : Rule)
        → q ∷ rules ≡ before ++ r ∷ after
        → r.key ≡ rule_key
        → r.id ≡ rule_key
        → has_prefix rule_key "default-" ≡ true
        → All (λ p. p.key ≢ rule_key) before
        → (q.key == rule_key) ≡ true
        → (if q.key == rule_key
            then q.key == q.id && has_prefix q.key "default-"
            else is_everyone_else_variation rules rule_key)
          ≡ true
    at_first [] after r at k i pre others same =
        let it : q ≡ r = ap (head_or q) at in
        let key : q.key ≡ rule_key = ap (λ p. p.key) it ∙ k in
        let id : q.id ≡ rule_key = ap (λ p. p.id) it ∙ i in
        rw (key, id) (ground (arith, eq_refl rule_key, pre))
    at_first (b ∷ bs) after r at k i pre others same =
        absurd
          (others.0 (sym (ap (λ p. p.key) (ap (head_or q) at)) ∙ (eq_iff q.key rule_key).0 same))

    later :
        (before after : List Rule) (r : Rule)
        → q ∷ rules ≡ before ++ r ∷ after
        → r.key ≡ rule_key
        → r.id ≡ rule_key
        → has_prefix rule_key "default-" ≡ true
        → All (λ p. p.key ≢ rule_key) before
        → (q.key == rule_key) ≡ false
        → IsEveryoneElse rules rule_key
    later [] after r at k i pre others other =
        let key : q.key ≡ rule_key = ap (λ p. p.key) (ap (head_or q) at) ∙ k in
        absurd (ground (arith, eq_iff q.key rule_key))
    later (b ∷ bs) after r at k i pre others other =
        (bs, after, r, ap tail_of at, k, i, pre, others.1)
