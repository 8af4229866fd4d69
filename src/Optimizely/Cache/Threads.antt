-- ===== src/Optimizely/Cache/Threads.antt =====
-- pkg/optimizely/cache.go, calls of `GetClient` side by side: each access to the shared map is one
-- step, the loader runs between two of them, and the goroutines that close clients are steps too:
-- those that wait for the context, and those of the calls that come late.
use inspiring_vacations_agen.Common.{
  ℕ, suc, ◌≡◌, Bool, true, false, none, some, List, [], ◌∷◌, ◌++◌, String, eqb, if◌then◌else◌,
  string_eq,
}
use inspiring_vacations_agen.Common.Dict
use inspiring_vacations_agen.Common.Dict.{Dict}

-- Where a call stands, for its client key. A client is a number, given when it is loaded.
pub data Thread : Type 0 where
  idle : Thread
  looking loading : String → Thread
  loaded returned : String → ℕ → Thread
  failed : String → Thread

-- `closers` are the goroutines that wait for the context to end, one for each count of the wait
-- group; `leaving` are the goroutines `go oc.Close()`, which the group does not count; `closed`
-- are the clients whose `Close` was called.
pub record State : Type 0 where
  pub optly_map : Dict String ℕ
  pub closers : List ℕ
  pub leaving : List ℕ
  pub closed : List ℕ
  pub fresh : ℕ
  pub thread : ℕ → Thread
  pub cancelled : Bool

abbrev pub update : (ℕ → Thread) → ℕ → Thread → ℕ → Thread
update f i t j = if eqb i j then t else f j

abbrev pub at : State → ℕ → Thread → State
at s i t = record s { thread = update s.thread i t }

pub data Step (s : State) : State → Type 0 where
  -- A call starts.
  call : (i : ℕ) (k : String) → s.thread i ≡ idle → Step s (at s i (looking k))
  -- `optlyMap.Get` finds a client, which is returned.
  hit :
      (i : ℕ) (k : String) (c : ℕ)
      → s.thread i ≡ looking k
      → Dict.lookup k s.optly_map ≡ some c
      → Step s (at s i (returned k c))
  -- It finds none: the loader runs.
  miss :
      (i : ℕ) (k : String)
      → s.thread i ≡ looking k
      → Dict.lookup k s.optly_map ≡ none
      → Step s (at s i (loading k))
  load_fails : (i : ℕ) (k : String) → s.thread i ≡ loading k → Step s (at s i (failed k))
  load :
      (i : ℕ) (k : String)
      → s.thread i ≡ loading k
      → Step s (record s { fresh = suc s.fresh; thread = update s.thread i (loaded k s.fresh) })
  -- `SetIfAbsent` sets: a goroutine will close the client, and the client is returned.
  set :
      (i : ℕ) (k : String) (c : ℕ)
      → s.thread i ≡ loaded k c
      → Dict.lookup k s.optly_map ≡ none
      → Step s (record s {
        optly_map = Dict.insert k c s.optly_map;
        closers = c ∷ s.closers;
        thread = update s.thread i (returned k c);
      })
  -- It does not set: a goroutine is started that closes the client, and the call begins again.
  set_late :
      (i : ℕ) (k : String) (c d : ℕ)
      → s.thread i ≡ loaded k c
      → Dict.lookup k s.optly_map ≡ some d
      → Step s (record s { leaving = c ∷ s.leaving; thread = update s.thread i (looking k) })
  -- The context ends.
  cancel : Step s (record s { cancelled = true })
  -- Then any of the waiting goroutines closes its client and is done.
  close :
      (before after : List ℕ) (c : ℕ)
      → s.cancelled ≡ true
      → s.closers ≡ before ++ c ∷ after
      → Step s (record s { closers = before ++ after; closed = c ∷ s.closed })
  -- Any of the goroutines of late calls closes its client and is done.
  close_late :
      (before after : List ℕ) (c : ℕ)
      → s.leaving ≡ before ++ c ∷ after
      → Step s (record s { leaving = before ++ after; closed = c ∷ s.closed })

pub data Reach (s : State) : State → Type 0 where
  here : Reach s s
  next : {t u : State} → Reach s t → Step t u → Reach s u

abbrev pub start : State
start = record {
  optly_map = [];
  closers = [];
  leaving = [];
  closed = [];
  fresh = 0;
  thread = λ _. idle;
  cancelled = false;
}
