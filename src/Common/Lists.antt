-- ===== src/Common/Lists.antt =====
-- Lists measured by native numbers, and predicates on their elements.
use Prim.Native.Nat.{ℕ, zero, suc, ◌+◌}
use mathlib.Core.Path.{◌≡◌, sym, subst}
use mathlib.Core.Logic.{◌⊎◌, inl, inr}
use mathlib.Core.Bool.{Bool, false, ◌||◌}
use mathlib.Core.List.{List, [], ◌∷◌, ◌++◌}
use mathlib.Core.Option.{Option, none, some}
use native.Mathlib.Omega.{arith}
use text.Mathlib.Text.{◌==◌}
use Prim.Native.String.{String}

module _ {ℓ} {A : Type ℓ} where
  abbrev pub length : List A → ℕ
  length [] = 0
  length (x ∷ xs) = suc (length xs)

  abbrev pub get_elem? : List A → ℕ → Option A
  get_elem? [] i = none
  get_elem? (x ∷ xs) zero = some x
  get_elem? (x ∷ xs) (suc i) = get_elem? xs i

  pub length-append : (xs ys : List A) → length (xs ++ ys) ≡ length xs + length ys
  length-append [] ys = omega arith
  length-append (x ∷ xs) ys = omega (arith, length-append xs ys)

module _ {A : Type 0} where
  -- Membership, with the place of the element kept.
  abbrev pub Elem : A → List A → Type 0
  Elem a [] = ⊥
  Elem a (x ∷ xs) = (a ≡ x) ⊎ Elem a xs

  pub Elem-append_left : (a : A) (xs ys : List A) → Elem a xs → Elem a (xs ++ ys)
  Elem-append_left a [] ys h = absurd h
  Elem-append_left a (x ∷ xs) ys (inl e) = inl e
  Elem-append_left a (x ∷ xs) ys (inr h) = inr (Elem-append_left a xs ys h)

  pub Elem-append_right : (a : A) (xs ys : List A) → Elem a ys → Elem a (xs ++ ys)
  Elem-append_right a [] ys h = h
  Elem-append_right a (x ∷ xs) ys h = inr (Elem-append_right a xs ys h)

  pub Elem-remove : (a b : A) (xs ys : List A) → Elem a (xs ++ b ∷ ys) → (a ≡ b) ⊎ Elem a (xs ++ ys)
  Elem-remove a b [] ys h = h
  Elem-remove a b (x ∷ xs) ys (inl e) = inr (inl e)
  Elem-remove a b (x ∷ xs) ys (inr h) = elim (Elem-remove a b xs ys h) [
    | inl e ↦ inl e
    | inr g ↦ inr (inr g)
  ]

  pub Elem-weaken : (a b : A) (xs ys : List A) → Elem a (xs ++ ys) → Elem a (xs ++ b ∷ ys)
  Elem-weaken a b [] ys h = inr h
  Elem-weaken a b (x ∷ xs) ys (inl e) = inl e
  Elem-weaken a b (x ∷ xs) ys (inr h) = inr (Elem-weaken a b xs ys h)

module _ {ℓ κ} {A : Type ℓ} where
  abbrev pub All : (A → Type κ) → List A → Type κ
  All P [] = Unit
  All P (x ∷ xs) = P x × All P xs

  pub All-append : (P : A → Type κ) (xs ys : List A) → All P xs → All P ys → All P (xs ++ ys)
  All-append P [] ys hx hy = hy
  All-append P (x ∷ xs) ys hx hy = (hx.0, All-append P xs ys hx.1 hy)

pub Elem-All : {A : Type 0} (P : A → Type 0) (xs : List A) (a : A) → All P xs → Elem a xs → P a
Elem-All P [] a h k = absurd k
Elem-All P (x ∷ xs) a h (inl e) = subst P (sym e) h.0
Elem-All P (x ∷ xs) a h (inr k) = Elem-All P xs a h.1 k

-- Whether a text is among those of a list.
abbrev pub contains : List String → String → Bool
contains [] s = false
contains (t ∷ ts) s = t == s || contains ts s
