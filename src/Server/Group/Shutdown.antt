-- ===== src/Server/Group/Shutdown.antt =====
-- How a group of servers comes to its end once its context is done.
use inspiring_vacations_agen.Common.{
  ℕ, ◌+◌, ◌*◌, ◌≤◌, ◌≡◌, ◌≢◌, refl, ◌⊎◌, inl, inr, true, List, [], ◌∷◌, ◌++◌, arith, All, length,
  ap, Option-cases,
}
use inspiring_vacations_agen.Server.Group.{
  ErrGroup, Listener, listening, Closer, awaiting, shutting_down, Member, Group, is_done, Move,
  fails, closes, wakes, shut, listener_returns, canceled,
}

-- How many steps the goroutines of a server have left.
abbrev weight : Listener → Closer → ℕ
weight listening awaiting = 3
weight listening shutting_down = 2
weight listening Closer.finished = 1
weight Listener.finished awaiting = 2
weight Listener.finished shutting_down = 1
weight Listener.finished Closer.finished = 0

weight-bound : (l : Listener) (c : Closer) → weight l c ≤ 3
weight-bound listening awaiting = omega arith
weight-bound listening shutting_down = omega arith
weight-bound listening Closer.finished = omega arith
weight-bound Listener.finished awaiting = omega arith
weight-bound Listener.finished shutting_down = omega arith
weight-bound Listener.finished Closer.finished = omega arith

abbrev work : List Member → ℕ
work [] = 0
work (m ∷ ms) = weight m.listener m.closer + work ms

work-append : (xs ys : List Member) → work (xs ++ ys) ≡ work xs + work ys
work-append [] ys = omega arith
work-append (x ∷ xs) ys = omega (arith, work-append xs ys)

work-bound : (ms : List Member) → work ms ≤ 3 * length ms
work-bound [] = omega arith
work-bound (m ∷ ms) = omega (arith, weight-bound m.listener m.closer, work-bound ms)

-- Both goroutines of every server have returned.
abbrev pub AllReturned : List Member → Type 0
AllReturned ms = All (λ m. (m.listener ≡ Listener.finished) × (m.closer ≡ Closer.finished)) ms

Closer-cases : (c : Closer) → (c ≡ awaiting) ⊎ (c ≡ shutting_down) ⊎ (c ≡ Closer.finished)
Closer-cases awaiting = inl refl
Closer-cases shutting_down = inr (inl refl)
Closer-cases Closer.finished = inr (inr refl)

-- A server with a goroutine that has not returned.
abbrev Unfinished : List Member → Type 0
Unfinished ms =
    (before after : List Member) × (m : Member) × (ms ≡ before ++ m ∷ after)
    × ((m.closer ≢ Closer.finished) ⊎ (m.listener ≡ listening))

member-cases :
    (m : Member)
    → ((m.listener ≡ Listener.finished) × (m.closer ≡ Closer.finished))
      ⊎ ((m.closer ≢ Closer.finished) ⊎ (m.listener ≡ listening))
member-cases m = split m.listener m.closer
  where
    split :
        (l : Listener) (c : Closer)
        → ((l ≡ Listener.finished) × (c ≡ Closer.finished))
          ⊎ ((c ≢ Closer.finished) ⊎ (l ≡ listening))
    split listening c = inr (inr refl)
    split Listener.finished awaiting = inr (inl (λ e. ground arith))
    split Listener.finished shutting_down = inr (inl (λ e. ground arith))
    split Listener.finished Closer.finished = inl (refl, refl)

find-Unfinished : (ms : List Member) → AllReturned ms ⊎ Unfinished ms
find-Unfinished [] = inl tt
find-Unfinished (m ∷ ms) = elim (member-cases m) [
  | inr open_ended ↦ inr ([], ms, m, refl, open_ended)
  | inl over ↦ elim (find-Unfinished ms) [
    | inl all_over ↦ inl (over, all_over)
    | inr (before, after, n, e, h) ↦ inr (m ∷ before, after, n, ap (◌∷◌ m) e, h)
  ]
]

work-replace :
    {ms : List Member} (before after : List Member) (m m' : Member)
    → ms ≡ before ++ m ∷ after
    → weight m'.listener m'.closer + 1 ≡ weight m.listener m.closer
    → work (before ++ m' ∷ after) + 1 ≡ work ms
work-replace before after m m' e less =
    omega (arith, less, ap work e, work-append before (m ∷ after), work-append before (m' ∷ after))

ends-listener :
    (m : Member)
    → m.listener ≡ listening
    → weight Listener.finished m.closer + 1 ≡ weight m.listener m.closer
ends-listener m up = rw up (by_closer m.closer)
  where
    by_closer : (c : Closer) → weight Listener.finished c + 1 ≡ weight listening c
    by_closer awaiting = refl
    by_closer shutting_down = refl
    by_closer Closer.finished = refl

moves-closer :
    (m : Member)
    → m.closer ≡ awaiting
    → weight m.listener shutting_down + 1 ≡ weight m.listener m.closer
moves-closer m still = rw still (by_listener m.listener)
  where
    by_listener : (l : Listener) → weight l shutting_down + 1 ≡ weight l awaiting
    by_listener listening = refl
    by_listener Listener.finished = refl

ends-closer :
    (m : Member)
    → m.closer ≡ shutting_down
    → weight m.listener Closer.finished + 1 ≡ weight m.listener m.closer
ends-closer m still = rw still (by_listener m.listener)
  where
    by_listener : (l : Listener) → weight l Closer.finished + 1 ≡ weight l shutting_down
    by_listener listening = refl
    by_listener Listener.finished = refl

module _ (E : ErrGroup) where
  open E use {wait, returned, wait-nil, wait-first, wait-later}

  Move-work : {g h : Group E} → Move E g h → work h.members + 1 ≡ work g.members
  unfolding listener_returns
  Move-work (fails _ before after m e up) = work-replace before after m _ e (ends-listener m up)
  Move-work (closes before after m e up _) = work-replace before after m _ e (ends-listener m up)
  Move-work (wakes before after m e still _) =
      work-replace before after m _ e (moves-closer m still)
  Move-work (shut before after m e still) = work-replace before after m _ e (ends-closer m still)

  Move-done : {g h : Group E} → is_done E g ≡ true → Move E g h → is_done E h ≡ true
  unfolding is_done listener_returns
  Move-done d (fails error _ _ _ _ _) = refl
  Move-done d (closes _ _ _ _ _ _) = refl
  Move-done d (wakes _ _ _ _ _ _) = d
  Move-done {g} d (shut _ _ _ _ _) = elim (Option-cases (wait g.eg)) [
    | inl fresh ↦ ground (arith, wait-first canceled g.eg fresh)
    | inr (e, kept) ↦ ground (arith, wait-later e canceled g.eg kept)
  ]

  progress :
      (g : Group E) → is_done E g ≡ true → AllReturned g.members ⊎ ((h : Group E) × Move E g h)
  progress g d = elim (find-Unfinished g.members) [
    | inl over ↦ inl over
    | inr (before, after, m, e, rest) ↦ inr (elim (Closer-cases m.closer) [
      | inl still ↦ (_, wakes before after m e still d)
      | inr (inl running) ↦ (_, shut before after m e running)
      | inr (inr over) ↦ elim rest [
        | inl open_ended ↦ absurd (open_ended over)
        | inr up ↦ (_, closes before after m e up (λ x. ground arith))
      ]
    ])
  ]

  -- Steps of the goroutines, counted.
  pub data Moves (g : Group E) : ℕ → Group E → Type 0 where
    stay : Moves g 0 g
    more : {n : ℕ} {h k : Group E} → Moves g n h → Move E h k → Moves g (n + 1) k

  Moves-done : {g h : Group E} {n : ℕ} → is_done E g ≡ true → Moves g n h → is_done E h ≡ true
  Moves-done d stay = d
  Moves-done d (more ms mv) = Move-done (Moves-done d ms) mv

  Moves-work : {g h : Group E} {n : ℕ} → Moves g n h → n + work h.members ≡ work g.members
  Moves-work stay = omega arith
  Moves-work (more ms mv) = omega (arith, Moves-work ms, Move-work mv)

  -- Once the context of a group is done, its goroutines come to their end in whatever order they
  -- take their steps: any run of them, from there on, has at most three steps for each server, and
  -- where it stops short of the end of all goroutines one of them can take a further step.
  pub shutdown_ends :
      {g h : Group E} {n : ℕ}
      → is_done E g ≡ true
      → Moves g n h
      → (n ≤ 3 * length g.members) × (AllReturned h.members ⊎ ((k : Group E) × Move E h k))
  shutdown_ends {g} {h} d ms =
      (omega (arith, Moves-work ms, work-bound g.members), progress h (Moves-done d ms))
