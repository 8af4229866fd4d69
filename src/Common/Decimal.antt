-- ===== src/Common/Decimal.antt =====
-- Go's `strconv.Itoa` for numbers that are not negative.
use Prim.Native.Char.{Char, code}
use Prim.Native.Nat.{ℕ, zero, suc, ◌+◌, ◌*◌, ◌-◌, ◌/◌, ◌%◌, ◌<◌}
use Prim.Native.String.{String}
use mathlib.Core.List.{List, [], ◌∷◌, reverse, reverse-reverse}
use mathlib.Core.Path.{◌≡◌, refl, sym, ap, ◌∙◌}
use native.Mathlib.Omega.{arith}
use inspiring_vacations_agen.Common.Tests.{ltb, if◌then◌else◌}
use inspiring_vacations_agen.Common.Lists.{get_elem?}
use mathlib.Core.Option.{none, some}
use inspiring_vacations_agen.Common.Text.{of_chars, chars, chars-of_chars}

digit : ℕ → Char
digit n = elim (get_elem? (chars "0123456789") n) [ none ↦ "9" | some c ↦ c ]

-- The digits of a number, the last one first.
digits : (fuel n : ℕ) → List Char
unfolding digit
digits zero n = []
digits (suc fuel) n =
    let rest = digits fuel (n / 10) in if ltb n 10 then digit n ∷ [] else digit (n % 10) ∷ rest

unfoldable pub itoa : ℕ → String
unfolding digits
itoa n = of_chars (reverse (digits (n + 1) n))

value : List Char → ℕ
value [] = 0
value (c ∷ cs) = code c - 48 + 10 * value cs

code-digit : (n : ℕ) → n < 10 → code (digit n) - 48 ≡ n
unfolding digit
code-digit zero h = refl
code-digit (suc zero) h = refl
code-digit (suc (suc zero)) h = refl
code-digit (suc (suc (suc zero))) h = refl
code-digit (suc (suc (suc (suc zero)))) h = refl
code-digit (suc (suc (suc (suc (suc zero))))) h = refl
code-digit (suc (suc (suc (suc (suc (suc zero)))))) h = refl
code-digit (suc (suc (suc (suc (suc (suc (suc zero))))))) h = refl
code-digit (suc (suc (suc (suc (suc (suc (suc (suc zero)))))))) h = refl
code-digit (suc (suc (suc (suc (suc (suc (suc (suc (suc zero))))))))) h = refl
code-digit (suc (suc (suc (suc (suc (suc (suc (suc (suc (suc n)))))))))) h = absurd (omega arith)

value-digits : (fuel n : ℕ) → n < fuel → value (digits fuel n) ≡ n
unfolding value digits
value-digits zero n h = omega arith
value-digits (suc fuel) n h =
    ground (arith, code-digit n, code-digit (n % 10), value-digits fuel (n / 10))

-- Different numbers have different texts.
pub itoa_inj : (m n : ℕ) → itoa m ≡ itoa n → m ≡ n
unfolding itoa
itoa_inj m n h =
    let same : digits (m + 1) m ≡ digits (n + 1) n =
      sym (reverse-reverse _)
      ∙ ap reverse (sym (chars-of_chars _) ∙ ap chars h ∙ chars-of_chars _)
      ∙ reverse-reverse _ in
    sym (value-digits (m + 1) m (omega arith))
    ∙ ap value same
    ∙ value-digits (n + 1) n (omega arith)
