-- ===== src/Server/Group/Reports.antt =====
-- What the states of a group of servers have in common, and what `Wait` returns at the end.
use inspiring_vacations_agen.Common.{
  ◌≡◌, ◌≢◌, refl, inl, inr, Bool, true, false, ◌||◌, Option, none, some, List, [], ◌∷◌, ◌++◌,
  String, arith, All, ap, ◌∙◌, Option-cases, Bool-cases, ◌==◌,
}
use mathlib.Core.Path.{subst}
use inspiring_vacations_agen.Server.Group.{
  ErrGroup, Listener, listening, Closer, awaiting, shutting_down, Member, Group, is_done, Move,
  fails, closes, wakes, shut, listener_returns, canceled, is_some, Step, moves, adds, interrupt,
  Reach, start, next_step, go_listen_and_serve,
}
use inspiring_vacations_agen.Server.Group.Shutdown.{AllReturned}

abbrev is_up : Listener → Closer → Bool
is_up listening awaiting = true
is_up _ _ = false

abbrev is_over : Closer → Bool
is_over Closer.finished = true
is_over _ = false

-- A server stops only when the context is done, and its closer ends only with an error.
abbrev Sane : Bool → Bool → Member → Type 0
Sane done failed m =
    (is_up m.listener m.closer ≡ false → done ≡ true) × (is_over m.closer ≡ true → failed ≡ true)

module _ (d f d' f' : Bool) (more_done : d ≡ true → d' ≡ true)
    (more_failed : f ≡ true → f' ≡ true) where
  Sane-replace :
      (before after : List Member) (m m' : Member)
      → (Sane d f m → Sane d' f' m')
      → All (Sane d f) (before ++ m ∷ after)
      → All (Sane d' f') (before ++ m' ∷ after)
  Sane-replace [] after m m' new (old, h) = (new old, Sane-mono after h)
    where
      Sane-mono : (ms : List Member) → All (Sane d f) ms → All (Sane d' f') ms
      Sane-mono [] h = tt
      Sane-mono (m ∷ ms) (h, hs) =
          ((λ e. more_done (h.0 e), λ e. more_failed (h.1 e)), Sane-mono ms hs)
  Sane-replace (b ∷ before) after m m' new (h, hs) =
      ((λ e. more_done (h.0 e), λ e. more_failed (h.1 e)), Sane-replace before after m m' new hs)

-- The two goroutines of a server that is up.
abbrev pub IsUp : Member → Type 0
IsUp m = (m.listener ≡ listening) × (m.closer ≡ awaiting)

module _ (E : ErrGroup) where
  open E use {wait, returned, wait-with_context, wait-nil, wait-first, wait-later}

  abbrev Inv : Group E → Type 0
  Inv g = All (Sane (is_done E g) (is_some (wait g.eg))) g.members

  returned-failed : (e : String) (g : E.Eg) → is_some (wait (returned (some e) g)) ≡ true
  returned-failed e g = elim (Option-cases (wait g)) [
    | inl fresh ↦ ap is_some (wait-first e g fresh)
    | inr (d, kept) ↦ ap is_some (wait-later d e g kept)
  ]

  returned-stays :
      (o : Option String) (g : E.Eg)
      → is_some (wait g) ≡ true
      → is_some (wait (returned o g)) ≡ true
  returned-stays none g h = ap is_some (wait-nil g) ∙ h
  returned-stays (some e) g h = returned-failed e g

  module _ (g : Group E) (i : Inv g) (before after : List Member) (m : Member)
      (e : g.members ≡ before ++ m ∷ after) where
    listener_returns-Inv : (o : Option String) → Inv (listener_returns E o before m after g)
    unfolding is_done listener_returns
    listener_returns-Inv o =
        Sane-replace _ _ _ _ (λ _. refl) (returned-stays o g.eg) before after m _
          (λ old. (λ _. refl, λ over. returned-stays o g.eg (old.1 over)))
          (subst (λ ms. All (Sane (is_done E g) (is_some (wait g.eg))) ms) e i)

    wakes-Inv :
        is_done E g ≡ true
        → Inv (record g { members = before ++ record m { closer = shutting_down } ∷ after })
    unfolding is_done
    wakes-Inv d =
        Sane-replace _ _ _ _ (λ h. h) (λ h. h) before after m _
          (λ old. (λ _. d, λ over. absurd (ground arith)))
          (subst (λ ms. All (Sane (is_done E g) (is_some (wait g.eg))) ms) e i)

    shut-Inv : Inv (record g {
      eg = returned (some canceled) g.eg;
      members = before ++ record m { closer = Closer.finished } ∷ after;
    })
    unfolding is_done
    shut-Inv =
        let failed = returned-failed canceled g.eg in
        let done : (g.stopped || is_some (wait (returned (some canceled) g.eg))) ≡ true =
          ground (arith, failed) in
        Sane-replace _ _ _ _ (λ _. done) (λ _. failed) before after m _
          (λ old. (λ _. done, λ _. failed))
          (subst (λ ms. All (Sane (is_done E g) (is_some (wait g.eg))) ms) e i)

  Move-Inv : {g h : Group E} → Inv g → Move E g h → Inv h
  Move-Inv i (fails error before after m e up) =
      listener_returns-Inv _ i before after m e (some error)
  Move-Inv i (closes before after m e up down) = listener_returns-Inv _ i before after m e none
  Move-Inv i (wakes before after m e still d) = wakes-Inv _ i before after m e d
  Move-Inv i (shut before after m e still) = shut-Inv _ i before after m e

  stop-Inv : (g : Group E) → Inv g → Inv (record g { stopped = true })
  unfolding is_done
  stop-Inv g i = mono g.members i
    where
      mono :
          (ms : List Member)
          → All (Sane (is_done E g) (is_some (wait g.eg))) ms
          → All (Sane true (is_some (wait g.eg))) ms
      mono [] h = tt
      mono (m ∷ ms) (h, hs) = ((λ _. refl, h.1), mono ms hs)

  go_listen_and_serve-Inv :
      (port : String) (made : Bool) (g : Group E) → Inv g → Inv (go_listen_and_serve E port made g)
  unfolding go_listen_and_serve is_done
  go_listen_and_serve-Inv port made g i = elim (Bool-cases (port == "0")) [
    | inl zero_port ↦ rw (zero_port, go_listen_and_serve) i
    | inr used ↦ elim (Bool-cases made) [
      | inl fine ↦
          rw (used, go_listen_and_serve)
            (rw fine ((λ e. absurd (ground arith), λ e. absurd (ground arith)), i))
      | inr broken ↦ rw (used, go_listen_and_serve) (rw broken (stop-Inv g i))
    ]
  ]

  Step-Inv : {g h : Group E} → Inv g → Step E g h → Inv h
  Step-Inv i (moves mv) = Move-Inv i mv
  Step-Inv {g} i (adds port made) = go_listen_and_serve-Inv port made g i
  Step-Inv {g} i interrupt = stop-Inv g i

  Reach-Inv : {g : Group E} → Reach E g → Inv g
  Reach-Inv start = tt
  Reach-Inv (next_step r st) = Step-Inv (Reach-Inv r) st

  -- Once the goroutines of all servers have returned, and there is a server, Wait returns an error,
  -- also where no server failed and the group was only told to stop.
  pub wait-failed :
      {g : Group E}
      → Reach E g
      → AllReturned g.members
      → g.members ≢ []
      → (e : String) × (wait g.eg ≡ some e)
  wait-failed {g} r over some_server = first g.members (Reach-Inv r) over some_server
    where
      first :
          (ms : List Member)
          → All (Sane (is_done E g) (is_some (wait g.eg))) ms
          → AllReturned ms
          → ms ≢ []
          → (e : String) × (wait g.eg ≡ some e)
      first [] h o ne = absurd (ne refl)
      first (m ∷ ms) (h, hs) (o, os) ne = elim (Option-cases (wait g.eg)) [
        | inl none_yet ↦ absurd (ground (arith, h.1 (ap is_over o.1), ap is_some none_yet))
        | inr found ↦ found
      ]
