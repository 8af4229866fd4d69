-- ===== src/Middleware/Batch/Complete.antt =====
-- What a batch answers when all its goroutines are done.
use mathlib.Core.List.Perm
use mathlib.Core.List.{Perm, perm_middle}
use inspiring_vacations_agen.Common.{
  ℕ, ◌+◌, ◌≡◌, refl, ap, sym, ◌∙◌, inl, inr, true, false, none, some, List, [], ◌∷◌, ◌++◌, map,
  append_assoc, append-nil, eqb, if◌then◌else◌, arith, Bool-cases,
}
use inspiring_vacations_agen.Middleware.Batch.{
  BatchOperation, ResponseCollector, Call, Net, make_request, Batch, append, begin, Step, start,
  check, terminate, finish, release, release_error, fail, end_context, Reach, here, next_step,
  result,
}

module _ (N : Net) where
  open N use {Body, Json, Req}

  unfoldable pub errors : List (ResponseCollector Json) → ℕ
  errors [] = 0
  errors (col ∷ cols) = let rest = errors cols in if eqb col.status 200 then rest else rest + 1

  errors-append :
      (cols : List (ResponseCollector Json)) (col : ResponseCollector Json)
      → errors (cols ++ col ∷ []) ≡ (if eqb col.status 200 then errors cols else errors cols + 1)
  unfolding errors
  errors-append [] col = refl
  errors-append (c ∷ cols) col = ground (arith, errors-append cols col)

  module _ (max_concurrency : ℕ) (next : Req → List Call) where
    abbrev run : List (BatchOperation Body) → List (ResponseCollector Json)
    run ops = map (make_request N next) ops

    abbrev pool : Batch N → List (BatchOperation Body)
    pool b = b.serving ++ (b.started ++ b.waiting)

    -- Where the group has no error and none is on its way, no operation is lost; an error comes only
    -- of an ended context.
    pub record IsSound (ops : List (BatchOperation Body)) (b : Batch N) : Type 0 where
      pub kept :
          b.failed ≡ false
          → b.erring + b.returning ≡ 0
          → Perm (b.response_items ++ run (pool b)) (run ops)
      pub counted : b.error_count ≡ errors b.response_items
      pub early : b.ended ≡ false → (b.failed ≡ false) × (b.erring + b.returning ≡ 0)

    -- An operation that was taken out goes to the front.
    front :
        (before after rest : List (BatchOperation Body)) (op : BatchOperation Body)
        → Perm (op ∷ ((before ++ after) ++ rest)) ((before ++ op ∷ after) ++ rest)
    front before after rest op = Perm.append_right rest (Perm.symm (perm_middle before after))

    module _ {ops : List (BatchOperation Body)} {b : Batch N} (v : IsSound ops b) where
      moved :
          (pool' : List (BatchOperation Body))
          → Perm pool' (pool b)
          → b.failed ≡ false
          → b.erring + b.returning ≡ 0
          → Perm (b.response_items ++ run pool') (run ops)
      moved pool' p alive clean =
          Perm.trans (Perm.append_left b.response_items (Perm.map (make_request N next) p))
            (v.kept alive clean)

    Step-IsSound :
        {ops : List (BatchOperation Body)} {b c : Batch N}
        → Step N max_concurrency next b c
        → IsSound ops b
        → IsSound ops c
    unfolding append
    Step-IsSound {ops} {b} (start op rest e room) v = record {
      kept = λ alive clean.
          moved v (b.serving ++ ((op ∷ b.started) ++ rest))
            (rw e (Perm.append_left b.serving (Perm.symm (perm_middle b.started rest)))) alive
            clean;
      counted = v.counted;
      early = v.early;
    }
    Step-IsSound {ops} {b} (check before after op e alive) v = record {
      kept = λ alive' clean.
          moved v ((op ∷ b.serving) ++ ((before ++ after) ++ b.waiting))
            (rw e (
              Perm.trans (Perm.symm (perm_middle b.serving ((before ++ after) ++ b.waiting)))
                (Perm.append_left b.serving (front before after b.waiting op))))
            alive' clean;
      counted = v.counted;
      early = v.early;
    }
    Step-IsSound {ops} {b} (terminate before after op e dead) v = record {
      kept = λ alive clean. absurd (omega (arith, clean));
      counted = v.counted;
      early = λ on. absurd (ground (arith, dead, (v.early on).0));
    }
    Step-IsSound {ops} {b} (finish before after op e) v = record {
      kept = λ alive clean.
          rw
            (append_assoc b.response_items (make_request N next op ∷ [])
              (run ((before ++ after) ++ (b.started ++ b.waiting))))
            (moved v (op ∷ ((before ++ after) ++ (b.started ++ b.waiting)))
              (rw e (front before after (b.started ++ b.waiting) op)) alive clean);
      counted = ground (arith, v.counted, errors-append b.response_items (make_request N next op));
      early = v.early;
    }
    Step-IsSound (release l c e f) v = record {
      kept = v.kept;
      counted = v.counted;
      early = v.early;
    }
    Step-IsSound (release_error l c e f) v = record {
      kept = λ alive clean. absurd (omega (arith, clean));
      counted = v.counted;
      early = λ on. absurd (omega (arith, e, (v.early on).1));
    }
    Step-IsSound (fail l e) v = record {
      kept = λ alive. absurd (ground arith);
      counted = v.counted;
      early = λ on. absurd (omega (arith, e, (v.early on).1));
    }
    Step-IsSound (end_context f) v = record {
      kept = v.kept;
      counted = v.counted;
      early = λ on. absurd (ground arith);
    }

    begin-IsSound : (ops : List (BatchOperation Body)) → IsSound ops (begin N ops)
    unfolding errors
    begin-IsSound ops = record {
      kept = λ _ _. Perm.refl (run ops);
      counted = refl;
      early = λ _. (refl, refl);
    }

    Reach-IsSound :
        {ops : List (BatchOperation Body)} {b : Batch N}
        → Reach N max_concurrency next (begin N ops) b
        → IsSound ops b
    Reach-IsSound {ops} here = begin-IsSound ops
    Reach-IsSound (next_step r x) = Step-IsSound x (Reach-IsSound r)

    -- No goroutine is left, and the loop is over.
    pub record IsOver (b : Batch N) : Type 0 where
      pub none_waiting : b.waiting ≡ []
      pub none_started : b.started ≡ []
      pub none_serving : b.serving ≡ []
      pub none_leaving : b.leaving ≡ 0
      pub none_erring : b.erring ≡ 0
      pub none_returning : b.returning ≡ 0

    -- In whatever order the goroutines of a batch take their steps: once none is left, an answer
    -- has the response of every operation exactly once, in some order, and counts those whose
    -- status is not 200; and there is an answer unless the request's context had ended.
    pub result_complete :
        (ops : List (BatchOperation Body)) (b : Batch N)
        → Reach N max_concurrency next (begin N ops) b
        → IsOver b
        → ((n : ℕ) (cols : List (ResponseCollector Json))
            → result N b ≡ some (n, cols)
            → Perm cols (run ops) × (n ≡ errors cols))
          × (result N b ≡ none → b.ended ≡ true)
    result_complete ops b r over =
        let v = Reach-IsSound r in
        let emptied : b.response_items ++ run (pool b) ≡ b.response_items =
          ap (λ p. b.response_items ++ run p) (empty_pool b over) ∙ append-nil b.response_items in
        let clean : b.erring + b.returning ≡ 0 =
          omega (arith, over.none_erring, over.none_returning) in
        elim (Bool-cases b.failed) [
          | inl bad ↦ (
            λ n cols h. absurd (ground (arith, bad)),
            λ _. elim (Bool-cases b.ended) [
              | inl off ↦ off
              | inr on ↦ absurd (ground (arith, bad, (v.early on).0))
            ],
          )
          | inr good ↦ (
            λ n cols h.
                let items : b.response_items ≡ cols = ground (arith, good) in
                let count : b.error_count ≡ n = ground (arith, good) in
                (
                  rw (← items) (rw emptied at (v.kept good clean)),
                  rw (← items) (sym count ∙ v.counted),
                ),
            λ h. absurd (ground (arith, good)),
          )
        ]
      where
        empty_pool : (b : Batch N) → IsOver b → pool b ≡ []
        empty_pool b over = rw (over.none_waiting, over.none_started, over.none_serving) refl
