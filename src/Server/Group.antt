-- ===== src/Server/Group.antt =====
-- pkg/server/server_group.go: servers that end together. Each has two goroutines in an errgroup,
-- its listener and the one that shuts it down; their steps interleave in any order.
pub mod Shutdown
pub mod Reports
mod Tests
use inspiring_vacations_agen.Common.{
  ℕ, ◌≡◌, ◌≢◌, ◌⊎◌, inl, inr, Bool, true, false, ◌||◌, Option, none, some, List, [], ◌∷◌, ◌++◌,
  String, ◌==◌, if◌then◌else◌,
}

-- errgroup, a third-party package: what its goroutines returned, and the error that `Wait` returns,
-- which is the first that a goroutine returned.
pub record ErrGroup : Type 1 where
  pub Eg : Type 0
  pub with_context : Eg
  pub returned : Option String → Eg → Eg
  pub wait : Eg → Option String
  pub wait-with_context : wait with_context ≡ none
  pub wait-nil : (g : Eg) → wait (returned none g) ≡ wait g
  pub wait-first : (e : String) (g : Eg) → wait g ≡ none → wait (returned (some e) g) ≡ some e
  pub wait-later : (d e : String) (g : Eg) → wait g ≡ some d → wait (returned (some e) g) ≡ some d

pub data Listener : Type 0 where
  listening finished : Listener

pub data Closer : Type 0 where
  awaiting shutting_down finished : Closer

-- A server of the group, by its two goroutines.
pub record Member : Type 0 where
  pub listener : Listener
  pub closer : Closer

abbrev pub is_some : Option String → Bool
is_some none = false
is_some (some _) = true

-- `ctx.Err()` of a context that is done by its cancel function.
abbrev pub canceled : String
canceled = "context canceled"

module _ (E : ErrGroup) where
  open E use {Eg, with_context, returned, wait}

  -- `stopped`: the context that `stop` cancels is done, as is that of the caller.
  pub record Group : Type 0 where
    pub stopped : Bool
    pub eg : Eg
    pub members : List Member

  -- `g.ctx.Done()`: errgroup cancels its context on the first error.
  unfoldable pub is_done : Group → Bool
  is_done g = g.stopped || is_some (wait g.eg)

  abbrev pub new_group : Bool → Group
  new_group stopped = record { stopped = stopped; eg = with_context; members = [] }

  -- `GoListenAndServe`, where `made` is whether `NewServer` gives no error.
  unfoldable pub go_listen_and_serve : String → Bool → Group → Group
  go_listen_and_serve port made g =
      if port == "0"
      then g
      else if made
      then record g { members = record { listener = listening; closer = awaiting } ∷ g.members }
      else record g { stopped = true }

  -- The listener's goroutine returns, `defer g.stop()` first.
  unfoldable pub listener_returns :
      Option String → List Member → Member → List Member → Group → Group
  listener_returns error before m after g = record g {
    stopped = true;
    eg = returned error g.eg;
    members = before ++ record m { listener = Listener.finished } ∷ after;
  }

  -- One step of a goroutine. `http.Server` returns `ErrServerClosed` from listening once it is shut
  -- down, and before that only another error; `Shutdown` returns in 5 seconds at most.
  pub data Move (g : Group) : Group → Type 0 where
    fails :
        (error : String) (before after : List Member) (m : Member)
        → g.members ≡ before ++ m ∷ after
        → m.listener ≡ listening
        → Move g (listener_returns (some error) before m after g)
    closes :
        (before after : List Member) (m : Member)
        → g.members ≡ before ++ m ∷ after
        → m.listener ≡ listening
        → m.closer ≢ awaiting
        → Move g (listener_returns none before m after g)
    -- `<-g.ctx.Done()`
    wakes :
        (before after : List Member) (m : Member)
        → g.members ≡ before ++ m ∷ after
        → m.closer ≡ awaiting
        → is_done g ≡ true
        → Move g (record g { members = before ++ record m { closer = shutting_down } ∷ after })
    -- `return g.ctx.Err()`
    shut :
        (before after : List Member) (m : Member)
        → g.members ≡ before ++ m ∷ after
        → m.closer ≡ shutting_down
        → Move g (record g {
          eg = returned (some canceled) g.eg;
          members = before ++ record m { closer = Closer.finished } ∷ after;
        })

  -- A step of the program: of a goroutine, of the caller that adds a server, or of a signal that
  -- cancels the caller's context.
  pub data Step (g : Group) : Group → Type 0 where
    moves : {h : Group} → Move g h → Step g h
    adds : (port : String) (made : Bool) → Step g (go_listen_and_serve port made g)
    interrupt : Step g (record g { stopped = true })

  pub data Reach : Group → Type 0 where
    start : Reach (new_group false)
    next_step : {g h : Group} → Reach g → Step g h → Reach h
