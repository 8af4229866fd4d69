-- ===== src/Metrics/Names.antt =====
-- The names under which the library of metrics knows the metrics of a registry.
use text.Mathlib.TextEquality.{Char-path}
use mathlib.Core.List.{append_cancel_right}
use inspiring_vacations_agen.Common.{
  ℕ, ◌≡◌, ◌≢◌, refl, sym, ap, ◌∙◌, inl, inr, true, List, [], ◌∷◌, ◌++◌, String, Char, code,
  append_assoc, if◌then◌else◌, eqb, arith, eqb_iff, chars, of_chars, chars-of_chars, of_chars-chars,
  codes, codes_eq, Elem, Bool-cases,
}
use inspiring_vacations_agen.Metrics.{join, is_published}

codes_eq-eq : (a b : List ℕ) → codes_eq a b ≡ true → a ≡ b
unfolding codes_eq
codes_eq-eq [] [] e = refl
codes_eq-eq [] (d ∷ ds) e = absurd (ground arith)
codes_eq-eq (c ∷ cs) [] e = absurd (ground arith)
codes_eq-eq (c ∷ cs) (d ∷ ds) e =
    let same : c ≡ d = ground (arith, eqb_iff c d) in
    let rest : codes_eq cs ds ≡ true = ground arith in
    ap (λ x. x ∷ cs) same ∙ ap (◌∷◌ d) (codes_eq-eq cs ds rest)

pub is_published-Elem : (ns : List (List ℕ)) (n : List ℕ) → is_published ns n ≡ true → Elem n ns
unfolding is_published
is_published-Elem [] n e = absurd (ground arith)
is_published-Elem (m ∷ ns) n e = elim (Bool-cases (codes_eq m n)) [
  | inl same ↦ inl (sym (codes_eq-eq m n same))
  | inr other ↦ inr (is_published-Elem ns n (ground arith))
]

head_or : ℕ → List ℕ → ℕ
head_or n [] = n
head_or n (c ∷ cs) = c

tail_of : List ℕ → List ℕ
tail_of [] = []
tail_of (c ∷ cs) = cs

codes-eq : (a b : List Char) → codes a ≡ codes b → a ≡ b
unfolding head_or tail_of
codes-eq [] [] e = refl
codes-eq [] (d ∷ b) e = absurd (ground arith)
codes-eq (c ∷ a) [] e = absurd (ground arith)
codes-eq (c ∷ a) (d ∷ b) e =
    ap (λ x. x ∷ a) (Char-path c d (ap (head_or 0) e)) ∙ ap (◌∷◌ d) (codes-eq a b (ap tail_of e))

-- A text is known by its code points.
pub name-eq : (a b : String) → codes (chars a) ≡ codes (chars b) → a ≡ b
name-eq a b e =
    sym (of_chars-chars a) ∙ ap of_chars (codes-eq (chars a) (chars b) e) ∙ of_chars-chars b

chars-join : (a b : String) → chars (join a b) ≡ chars a ++ chars b
chars-join a b = chars-of_chars (chars a ++ chars b)

join_assoc : (a b c : String) → join (join a b) c ≡ join a (join b c)
join_assoc a b c =
    ap (λ x. of_chars (x ++ chars c)) (chars-join a b)
    ∙ ap of_chars (append_assoc (chars a) (chars b) (chars c))
    ∙ ap (λ x. of_chars (chars a ++ x)) (sym (chars-join b c))

join-cancel : (a b s : String) → join a s ≡ join b s → a ≡ b
join-cancel a b s e =
    let texts = sym (chars-join a s) ∙ ap chars e ∙ chars-join b s in
    let parts = append_cancel_right (chars a) (chars b) (chars s) texts in
    sym (of_chars-chars a) ∙ ap of_chars parts ∙ of_chars-chars b

-- What `createTimer` makes expvar publish under its key.
pub data Part : Type 0 where
  hits response_time p50 p90 p95 p99 : Part

abbrev pub part_name : String → Part → String
part_name key hits = join key ".hits"
part_name key response_time = join key ".responseTime"
part_name key p50 = join (join key ".responseTimeHist") ".p50"
part_name key p90 = join (join key ".responseTimeHist") ".p90"
part_name key p95 = join (join key ".responseTimeHist") ".p95"
part_name key p99 = join (join key ".responseTimeHist") ".p99"

abbrev pub suffix : Part → String
suffix hits = ".hits"
suffix response_time = ".responseTime"
suffix p50 = ".responseTimeHist.p50"
suffix p90 = ".responseTimeHist.p90"
suffix p95 = ".responseTimeHist.p95"
suffix p99 = ".responseTimeHist.p99"

pub part_name-suffix : (key : String) (p : Part) → part_name key p ≡ join key (suffix p)
part_name-suffix key hits = refl
part_name-suffix key response_time = refl
part_name-suffix key p50 = join_assoc key ".responseTimeHist" ".p50"
part_name-suffix key p90 = join_assoc key ".responseTimeHist" ".p90"
part_name-suffix key p95 = join_assoc key ".responseTimeHist" ".p95"
part_name-suffix key p99 = join_assoc key ".responseTimeHist" ".p99"

-- The codes of the last two characters.
abbrev ends : List Char → ℕ × ℕ
ends [] = (0, 0)
ends (c ∷ []) = (0, code c)
ends (c ∷ d ∷ []) = (code c, code d)
ends (c ∷ d ∷ e ∷ cs) = ends (d ∷ e ∷ cs)

ends-append :
    (a : List Char) (c d : Char) (b : List Char) → ends (a ++ c ∷ d ∷ b) ≡ ends (c ∷ d ∷ b)
ends-append [] c d b = refl
ends-append (x ∷ []) c d b = refl
ends-append (x ∷ y ∷ []) c d b = refl
ends-append (x ∷ y ∷ z ∷ a) c d b = ends-append (y ∷ z ∷ a) c d b

-- The part that ends in two characters.
abbrev which : ℕ × ℕ → Part
which (c, d) =
    if eqb d b's'
    then hits
    else if eqb d b'e'
    then response_time
    else if eqb d b'5'
    then p95
    else if eqb d b'9'
    then p99
    else if eqb c b'9'
    then p90
    else p50

which-join :
    (key s : String) (c d : Char) (b : List Char)
    → chars s ≡ c ∷ d ∷ b
    → which (ends (chars (join key s))) ≡ which (ends (chars s))
which-join key s c d b e =
    ap (λ x. which (ends x)) (chars-join key s ∙ ap (λ x. chars key ++ x) e)
    ∙ ap which (ends-append (chars key) c d b)
    ∙ ap (λ x. which (ends x)) (sym e)

which-part_name : (key : String) (p : Part) → which (ends (chars (part_name key p))) ≡ p
which-part_name key p = ap (λ x. which (ends (chars x))) (part_name-suffix key p) ∙ by_part p
  where
    by_part : (p : Part) → which (ends (chars (join key (suffix p)))) ≡ p
    by_part hits = which-join key ".hits" _ _ _ refl
    by_part response_time = which-join key ".responseTime" _ _ _ refl
    by_part p50 = which-join key ".responseTimeHist.p50" _ _ _ refl
    by_part p90 = which-join key ".responseTimeHist.p90" _ _ _ refl
    by_part p95 = which-join key ".responseTimeHist.p95" _ _ _ refl
    by_part p99 = which-join key ".responseTimeHist.p99" _ _ _ refl

pub part_name-cancel :
    (a b : String) (p q : Part) → part_name a p ≡ part_name b q → (a ≡ b) × (p ≡ q)
part_name-cancel a b p q e =
    let same : p ≡ q =
      sym (which-part_name a p) ∙ ap (λ x. which (ends (chars x))) e ∙ which-part_name b q in
    let texts : join a (suffix q) ≡ join b (suffix q) =
      sym (part_name-suffix a q) ∙ ap (part_name a) (sym same) ∙ e ∙ part_name-suffix b q in
    (join-cancel a b (suffix q) texts, same)

-- Keys with different first letters are different.
abbrev first_code : String → ℕ
first_code String.[] = 0
first_code (String.◌∷◌ c s) = code c

pub counter-gauge : (j k : String) → join "counter." j ≢ join "gauge." k
counter-gauge j k e = absurd (ground (arith, ap first_code e))

pub counter-timer : (j k : String) (p : Part) → join "counter." j ≢ part_name (join "timer." k) p
counter-timer j k p e =
    absurd (ground (arith, ap first_code (e ∙ part_name-suffix (join "timer." k) p)))

pub gauge-timer : (j k : String) (p : Part) → join "gauge." j ≢ part_name (join "timer." k) p
gauge-timer j k p e =
    absurd (ground (arith, ap first_code (e ∙ part_name-suffix (join "timer." k) p)))
