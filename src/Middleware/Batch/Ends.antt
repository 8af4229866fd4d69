-- ===== src/Middleware/Batch/Ends.antt =====
-- The channel that bounds the goroutines of a batch, and that a batch comes to its end.
use inspiring_vacations_agen.Common.{
  ℕ, ◌+◌, ◌*◌, ◌≤◌, ◌<◌, ◌≡◌, refl, ap, ◌⊎◌, inl, inr, ◌||◌, List, [], ◌∷◌, ◌++◌, if◌then◌else◌,
  arith, length, length-append, Bool-cases, zero, suc,
}
use inspiring_vacations_agen.Middleware.Batch.{
  BatchOperation, Call, Net, Batch, append, begin, Step, start, check, terminate, finish, release,
  release_error, fail, end_context, Reach, here, next_step,
}
use inspiring_vacations_agen.Middleware.Batch.Complete.{IsOver}

module _ (N : Net) where
  open N use {Body, Json, Req}

  module _ (max_concurrency : ℕ) (next : Req → List Call) where
    -- The goroutines that have not received from the channel.
    abbrev pub holding : Batch N → ℕ
    holding b = length b.started + length b.serving + b.leaving + b.erring

    -- The channel has one value for each of them, and no more than its buffer takes.
    record IsCounted (b : Batch N) : Type 0 where
      one_each : b.channel ≡ holding b
      bounded : b.channel ≤ max_concurrency

    length-split :
        {A : Type 0} (xs before after : List A) (x : A)
        → xs ≡ before ++ x ∷ after
        → length xs ≡ length (before ++ after) + 1
    length-split xs before after x e =
        omega (arith, ap length e, length-append before (x ∷ after), length-append before after)

    Step-IsCounted : {b c : Batch N} → Step N max_concurrency next b c → IsCounted b → IsCounted c
    unfolding append
    Step-IsCounted (start op rest e room) v = record {
      one_each = omega (arith, v.one_each);
      bounded = omega (arith, room);
    }
    Step-IsCounted {b} (check before after op e alive) v = record {
      one_each = omega (arith, v.one_each, length-split b.started before after op e);
      bounded = v.bounded;
    }
    Step-IsCounted {b} (terminate before after op e dead) v = record {
      one_each = omega (arith, v.one_each, length-split b.started before after op e);
      bounded = v.bounded;
    }
    Step-IsCounted {b} (finish before after op e) v = record {
      one_each = omega (arith, v.one_each, length-split b.serving before after op e);
      bounded = v.bounded;
    }
    Step-IsCounted (release l c e f) v = record {
      one_each = omega (arith, v.one_each, e, f);
      bounded = omega (arith, v.bounded, f);
    }
    Step-IsCounted (release_error l c e f) v = record {
      one_each = omega (arith, v.one_each, e, f);
      bounded = omega (arith, v.bounded, f);
    }
    Step-IsCounted (fail l e) v = record { one_each = v.one_each; bounded = v.bounded }
    Step-IsCounted (end_context f) v = record { one_each = v.one_each; bounded = v.bounded }

    Reach-IsCounted :
        {ops : List (BatchOperation Body)} {b : Batch N}
        → Reach N max_concurrency next (begin N ops) b
        → IsCounted b
    Reach-IsCounted here = record { one_each = refl; bounded = omega arith }
    Reach-IsCounted (next_step r x) = Step-IsCounted x (Reach-IsCounted r)

    -- In whatever order the steps of a batch are taken: no more goroutines than the configuration
    -- allows are between their start and their receive from the channel, which is their last act but
    -- for giving an error to the group; so no more operations are served at the same time.
    pub Reach-bounded :
        (ops : List (BatchOperation Body)) (b : Batch N)
        → Reach N max_concurrency next (begin N ops) b
        → (holding b ≤ max_concurrency) × (length b.serving ≤ max_concurrency)
    Reach-bounded ops b r =
        let v = Reach-IsCounted r in
        (omega (arith, v.one_each, v.bounded), omega (arith, v.one_each, v.bounded))

    -- What is left to do.
    abbrev work : Batch N → ℕ
    work b =
        length b.waiting * 4
        + (length b.started * 3
            + (length b.serving * 2
                + (b.erring * 2 + (b.leaving + (b.returning + (if b.ended then 0 else 1))))))

    Step-work : {b c : Batch N} → Step N max_concurrency next b c → work c < work b
    unfolding append
    Step-work (start op rest e room) = omega (arith, ap length e)
    Step-work {b} (check before after op e alive) =
        omega (arith, length-split b.started before after op e)
    Step-work {b} (terminate before after op e dead) =
        omega (arith, length-split b.started before after op e)
    Step-work {b} (finish before after op e) =
        omega (arith, length-split b.serving before after op e)
    Step-work (release l c e f) = omega (arith, e)
    Step-work (release_error l c e f) = omega (arith, e)
    Step-work (fail l e) = omega (arith, e)
    Step-work (end_context f) = rw f (omega arith)

    -- How many steps were taken.
    abbrev pub steps : {b c : Batch N} → Reach N max_concurrency next b c → ℕ
    steps here = 0
    steps (next_step r x) = suc (steps r)

    steps-work : {b c : Batch N} (r : Reach N max_concurrency next b c) → steps r + work c ≤ work b
    steps-work here = omega arith
    steps-work (next_step r x) = omega (arith, steps-work r, Step-work x)

    -- A step that is not the end of the context.
    abbrev pub Advance : Batch N → Type 0
    Advance b = (c : Batch N) × Step N max_concurrency next b c × (c.ended ≡ b.ended)

    advance :
        0 < max_concurrency
        → (b : Batch N) → IsCounted b
        → IsOver N max_concurrency next b ⊎ Advance b
    unfolding append
    advance room b v = elim (cases b.channel) [
      | inl empty ↦ calm empty b.waiting refl
      | inr (c, full) ↦ inr (busy c full b.serving refl b.started refl)
    ]
      where
        cases : (n : ℕ) → (n ≡ 0) ⊎ ((l : ℕ) × (n ≡ suc l))
        cases zero = inl refl
        cases (suc l) = inr (l, refl)

        nil : (xs : List (BatchOperation Body)) → length xs ≡ 0 → xs ≡ []
        nil [] e = refl
        nil (x ∷ xs) e = absurd (omega (arith, e))

        calm :
            b.channel ≡ 0
            → (zs : List (BatchOperation Body)) → b.waiting ≡ zs
            → IsOver N max_concurrency next b ⊎ Advance b
        calm empty (op ∷ zs) g = inr (_, start op zs g (omega (arith, empty, room)), refl)
        calm empty [] g = elim (cases b.returning) [
          | inr (l, e) ↦ inr (_, fail l e, refl)
          | inl quiet ↦ inl (record {
            none_waiting = g;
            none_started = nil b.started (omega (arith, v.one_each, empty));
            none_serving = nil b.serving (omega (arith, v.one_each, empty));
            none_leaving = omega (arith, v.one_each, empty);
            none_erring = omega (arith, v.one_each, empty);
            none_returning = quiet;
          })
        ]

        busy :
            (c : ℕ)
            → b.channel ≡ suc c
            → (xs : List (BatchOperation Body)) → b.serving ≡ xs
            → (ys : List (BatchOperation Body)) → b.started ≡ ys
            → Advance b
        busy c full (op ∷ xs) e ys f = (_, finish [] xs op e, refl)
        busy c full [] e (op ∷ ys) f = elim (Bool-cases (b.ended || b.failed)) [
          | inl dead ↦ (_, terminate [] ys op f dead, refl)
          | inr alive ↦ (_, check [] ys op f alive, refl)
        ]
        busy c full [] e [] f = elim (cases b.leaving) [
          | inr (l, g) ↦ (_, release l c g full, refl)
          | inl none_leave ↦ elim (cases b.erring) [
            | inr (l, g) ↦ (_, release_error l c g full, refl)
            | inl none_err ↦
                absurd
                  (omega (arith, v.one_each, full, ap length e, ap length f, none_leave, none_err))
          ]
        ]

    -- Where at least one goroutine is allowed: however the steps of a batch of n operations are
    -- ordered, at most 4 * n + 1 are taken; and as long as the loop or a goroutine is left, one more
    -- can be taken that is not the end of the request's context.
    pub batch-ends :
        (ops : List (BatchOperation Body)) (b : Batch N)
        → 0 < max_concurrency
        → (r : Reach N max_concurrency next (begin N ops) b)
        → (steps r ≤ 4 * length ops + 1) × (IsOver N max_concurrency next b ⊎ Advance b)
    batch-ends ops b room r = (omega (arith, steps-work r), advance room b (Reach-IsCounted r))
