-- ===== src/Command/Exits.antt =====
-- How `main` ends: its group of servers, to which it adds three while the signals and the
-- goroutines of the first ones already run.
use inspiring_vacations_agen.Common.{
  ℕ, ◌+◌, ◌≡◌, ◌≢◌, ◌⊎◌, zero, suc, inl, inr, refl, Bool, true, false, none, List, [], ◌∷◌, ◌++◌,
  String, ◌==◌, if◌then◌else◌, length, length-append, arith, Bool-cases, string_eq, ap,
}
use inspiring_vacations_agen.Server.Group.{
  ErrGroup, Member, Listener, Closer, shutting_down, Group, new_group, go_listen_and_serve, Move,
  fails, closes, wakes, shut, moves, adds, interrupt, Reach, start, next_step, listener_returns,
}
use inspiring_vacations_agen.Server.Group.Shutdown.{AllReturned}
use inspiring_vacations_agen.Server.Group.Reports.{wait-failed}
use inspiring_vacations_agen.Command.Tracing.{Telemetry}
use inspiring_vacations_agen.Command.{waits_for_clients, logged, returned, fatal, after_wait}

-- The three calls of `GoListenAndServe`, with whether `NewServer` gives no error.
pub record Ports : Type 0 where
  pub api : String
  pub webhook : String
  pub admin : String
  pub api_made : Bool
  pub webhook_made : Bool
  pub admin_made : Bool

-- A server joins the group.
abbrev pub joins : String → Bool → ℕ
joins port made = if port == "0" then 0 else if made then 1 else 0

List-cases : (ms : List Member) → (ms ≡ []) ⊎ (ms ≢ [])
List-cases [] = inl refl
List-cases (m ∷ ms) = inr λ e. ground (arith, ap length e)

length_zero : {ms : List Member} → length ms ≡ 0 → ms ≡ []
length_zero {ms = []} e = refl
length_zero {ms = m ∷ ms} e = absurd (omega (arith, e))

module _ (E : ErrGroup) where
  open E use {wait, wait-with_context}

  -- The states of the group after `n` of the calls.
  pub data Run (p : Ports) : ℕ → Group E → Type 0 where
    begin : Run p 0 (new_group E false)
    add_api : {g : Group E} → Run p 0 g → Run p 1 (go_listen_and_serve E p.api p.api_made g)
    add_webhook :
        {g : Group E} → Run p 1 g → Run p 2 (go_listen_and_serve E p.webhook p.webhook_made g)
    add_admin : {g : Group E} → Run p 2 g → Run p 3 (go_listen_and_serve E p.admin p.admin_made g)
    move : {n : ℕ} {g h : Group E} → Run p n g → Move E g h → Run p n h
    signal : {n : ℕ} {g : Group E} → Run p n g → Run p n (record g { stopped = true })

  Run-Reach : (p : Ports) {n : ℕ} {g : Group E} → Run p n g → Reach E g
  Run-Reach p begin = start
  Run-Reach p (add_api r) = next_step (Run-Reach p r) (adds p.api p.api_made)
  Run-Reach p (add_webhook r) = next_step (Run-Reach p r) (adds p.webhook p.webhook_made)
  Run-Reach p (add_admin r) = next_step (Run-Reach p r) (adds p.admin p.admin_made)
  Run-Reach p (move r m) = next_step (Run-Reach p r) (moves m)
  Run-Reach p (signal r) = next_step (Run-Reach p r) interrupt

  joined : Ports → ℕ → ℕ
  joined p zero = 0
  joined p (suc zero) = 0 + joins p.api p.api_made
  joined p (suc (suc zero)) = 0 + joins p.api p.api_made + joins p.webhook p.webhook_made
  joined p (suc (suc (suc _))) =
      0 + joins p.api p.api_made + joins p.webhook p.webhook_made + joins p.admin p.admin_made

  -- The group has the servers that joined; and while it has none, no goroutine has returned.
  Counted : ℕ → Group E → Type 0
  Counted n g = (length g.members ≡ n) × (n ≡ 0 → wait g.eg ≡ none)

  length-replace :
      (before after : List Member) (m m' : Member) (ms : List Member)
      → ms ≡ before ++ m ∷ after
      → (length (before ++ m' ∷ after) ≡ length ms) × (length ms ≢ 0)
  length-replace before after m m' ms e = rw (e) (
    omega (arith, length-append before (m ∷ after), length-append before (m' ∷ after)),
    λ h. omega (arith, h, length-append before (m ∷ after)),
  )

  Move-Counted : (n : ℕ) {g h : Group E} → Counted n g → Move E g h → Counted n h
  unfolding Counted listener_returns
  Move-Counted n {g} (c, w) (fails error before after m e up) =
      let (same, some_server) =
        length-replace before after m (record m { listener = Listener.finished }) g.members e in
      (omega (arith, same, c), λ z. absurd (some_server (omega (arith, c, z))))
  Move-Counted n {g} (c, w) (closes before after m e up down) =
      let (same, some_server) =
        length-replace before after m (record m { listener = Listener.finished }) g.members e in
      (omega (arith, same, c), λ z. absurd (some_server (omega (arith, c, z))))
  Move-Counted n {g} (c, w) (wakes before after m e still d) =
      let (same, some_server) =
        length-replace before after m (record m { closer = shutting_down }) g.members e in
      (omega (arith, same, c), w)
  Move-Counted n {g} (c, w) (shut before after m e still) =
      let (same, some_server) =
        length-replace before after m (record m { closer = Closer.finished }) g.members e in
      (omega (arith, same, c), λ z. absurd (some_server (omega (arith, c, z))))

  go_listen_and_serve-Counted :
      (n : ℕ) (port : String) (made : Bool) (g : Group E)
      → Counted n g
      → Counted (n + joins port made) (go_listen_and_serve E port made g)
  unfolding Counted go_listen_and_serve
  go_listen_and_serve-Counted n port made g (c, w) = elim (Bool-cases (port == "0")) [
    | inl off ↦ rw (go_listen_and_serve, off) (omega (arith, c), λ z. w (omega (arith, z)))
    | inr on ↦ elim (Bool-cases made) [
      | inl fine ↦
          rw (go_listen_and_serve, on, fine) (omega (arith, c), λ z. absurd (omega (arith, z)))
      | inr bad ↦ rw (go_listen_and_serve, on, bad) (omega (arith, c), λ z. w (omega (arith, z)))
    ]
  ]

  Run-Counted : (p : Ports) {n : ℕ} {g : Group E} → Run p n g → Counted (joined p n) g
  unfolding Counted joined
  Run-Counted p begin = (refl, λ _. wait-with_context)
  Run-Counted p (add_api r) = go_listen_and_serve-Counted 0 p.api p.api_made _ (Run-Counted p r)
  Run-Counted p (add_webhook r) =
      go_listen_and_serve-Counted _ p.webhook p.webhook_made _ (Run-Counted p r)
  Run-Counted p (add_admin r) =
      go_listen_and_serve-Counted _ p.admin p.admin_made _ (Run-Counted p r)
  Run-Counted p (move r m) = Move-Counted _ (Run-Counted p r) m
  Run-Counted p (signal r) = Run-Counted p r

  module _ (T : Telemetry) where
    -- However the signals and the goroutines of the servers interleave with the three calls of
    -- GoListenAndServe: once Wait returns, `main` waits for the clients of the cache and returns
    -- exactly where none of the three servers was made, each port being "0" or NewServer having
    -- failed; with a server, it ends in log.Fatal, and does not wait for them.
    pub after_wait-Run :
        (p : Ports) {g : Group E}
        → Run p 3 g
        → AllReturned g.members
        → let none_joined =
            joins p.api p.api_made + joins p.webhook p.webhook_made + joins p.admin p.admin_made
            ≡ 0 in
          ((none_joined
              × (after_wait T (wait g.eg) ≡ (logged "Exiting." ∷ waits_for_clients ∷ [], returned)))
            ⊎ ((¬ none_joined) × (e : String) × (after_wait T (wait g.eg) ≡ ([], fatal e))))
    unfolding after_wait Counted joined
    after_wait-Run p {g} r over =
        let (c, w) = Run-Counted p r in
        elim (List-cases g.members) [
          | inl empty ↦
              inl
                (omega (arith, c, ap length empty), rw (w (omega (arith, c, ap length empty))) refl)
          | inr some_server ↦
              let (e, failed) = wait-failed E (Run-Reach p r) over some_server in
              inr (λ z. some_server (length_zero (omega (arith, c, z))), e, rw (failed) refl)
        ]
