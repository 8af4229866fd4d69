-- ===== src/Optimizely/Cache/Agreement.antt =====
-- What calls of `GetClient` side by side agree on, and which clients are closed.
use inspiring_vacations_agen.Common.{
  ℕ, ◌<◌, ◌≡◌, ◌≢◌, ◌⊎◌, inl, inr, false, some, [], String, eqb, eqb_iff, eq_iff, Elem, Elem-remove,
  eq_refl, arith, Bool-cases, string_eq,
}
use inspiring_vacations_agen.Common.Dict
use inspiring_vacations_agen.Common.Dict.{Dict}
use inspiring_vacations_agen.Optimizely.Cache.Sound.{Reach-IsSound}
use inspiring_vacations_agen.Optimizely.Cache.Threads.{
  Thread, idle, looking, loading, loaded, returned, failed, State, at, Step, call, hit, miss,
  load_fails, load, set, set_late, cancel, close, close_late, Reach, here, next, start,
}

-- A client that a call returned is the map's.
abbrev Returned : State → Type 0
Returned s =
    (i : ℕ) (k : String) (c : ℕ) → s.thread i ≡ returned k c → Dict.lookup k s.optly_map ≡ some c

Step-Returned : {s t : State} → Step s t → Returned s → Returned t
Step-Returned (call i k e) r j k' c' h = ground (arith, r j k' c')
Step-Returned (hit i k c e f) r j k' c' h = ground (arith, r j k' c')
Step-Returned (miss i k e f) r j k' c' h = ground (arith, r j k' c')
Step-Returned (load_fails i k e) r j k' c' h = ground (arith, r j k' c')
Step-Returned (load i k e) r j k' c' h = ground (arith, r j k' c')
Step-Returned {s} (set i k c e f) r j k' c' h =
    ground (arith, r j k' c', Dict.lookup-insert k k' c s.optly_map, eq_iff k k')
Step-Returned (set_late i k c d e f) r j k' c' h = ground (arith, r j k' c')
Step-Returned cancel r j k' c' h = r j k' c' h
Step-Returned (close before after c e f) r j k' c' h = r j k' c' h
Step-Returned (close_late before after c e) r j k' c' h = r j k' c' h

Reach-Returned : {s : State} → Reach start s → Returned s
Reach-Returned here i k c h = absurd (ground arith)
Reach-Returned (next r x) i k c h = Step-Returned x (Reach-Returned r) i k c h

-- In every state that calls, cancelling and closing lead to, in any order of their steps: two
-- calls that returned for the same client key returned the same client.
pub returned-agree :
    (s : State) (i j : ℕ) (k : String) (c d : ℕ)
    → Reach start s
    → s.thread i ≡ returned k c
    → s.thread j ≡ returned k d
    → c ≡ d
returned-agree s i j k c d r e f =
    ground (arith, Reach-Returned r i k c e, Reach-Returned r j k d f)

-- In every state that calls, cancelling and closing lead to, in any order of their steps, in which
-- the context has not ended: no call was given a closed client.
pub returned-open :
    (s : State) (i : ℕ) (k : String) (c : ℕ)
    → Reach start s
    → s.thread i ≡ returned k c
    → s.cancelled ≡ false
    → ¬ Elem c s.closed
returned-open s i k c r e on = ((Reach-IsSound r).mapped k c (Reach-Returned r i k c e)).early on

-- A client that was loaded is still a call's, is in the map, is a late call's goroutine's, or is
-- closed.
Accounted : State → ℕ → Type 0
Accounted s c =
    ((i : ℕ) × (k : String) × (s.thread i ≡ loaded k c))
    ⊎ ((k : String) × (Dict.lookup k s.optly_map ≡ some c))
    ⊎ Elem c s.leaving
    ⊎ Elem c s.closed

at-Accounted :
    (s : State) (i : ℕ) (t u : Thread) (c : ℕ)
    → s.thread i ≡ t
    → ((k : String) (c' : ℕ) → t ≢ loaded k c')
    → Accounted s c
    → Accounted (at s i u) c
unfolding Accounted
at-Accounted s i t u c e idle_call (inl (j, k, h)) =
    inl (j, k, ground (arith, eqb_iff i j, idle_call k c))
at-Accounted s i t u c e idle_call (inr h) = inr h

Step-Accounted :
    {s t : State}
    → Step s t
    → ((c : ℕ) → c < s.fresh → Accounted s c)
    → (c : ℕ) → c < t.fresh
    → Accounted t c
unfolding Accounted
Step-Accounted {s} (call i k e) a c h =
    at-Accounted s i idle (looking k) c e (λ _ _ g. ground arith) (a c h)
Step-Accounted {s} (hit i k d e f) a c h =
    at-Accounted s i (looking k) (returned k d) c e (λ _ _ g. ground arith) (a c h)
Step-Accounted {s} (miss i k e f) a c h =
    at-Accounted s i (looking k) (loading k) c e (λ _ _ g. ground arith) (a c h)
Step-Accounted {s} (load_fails i k e) a c h =
    at-Accounted s i (loading k) (failed k) c e (λ _ _ g. ground arith) (a c h)
Step-Accounted {s} (load i k e) a c h = elim (Bool-cases (eqb c s.fresh)) [
  | inl new ↦ inl (i, k, ground (arith, eqb_iff c s.fresh))
  | inr old ↦
      let older : c < s.fresh = ground (arith, eqb_iff c s.fresh) in
      elim (a c older) [ inl (j, k', g) ↦ inl (j, k', ground (arith, eqb_iff i j)) | inr g ↦ inr g ]
]
Step-Accounted {s} (set i k d e f) a c h = elim (a c h) [
  | inl (j, k', g) ↦ elim (Bool-cases (eqb i j)) [
    | inl same ↦
        inr (inl (k, ground (arith, eqb_iff i j, Dict.lookup-insert k k d s.optly_map, eq_refl k)))
    | inr other ↦ inl (j, k', ground arith)
  ]
  | inr (inl (k', g)) ↦
      inr (inl (k', ground (arith, Dict.lookup-insert k k' d s.optly_map, eq_iff k k')))
  | inr (inr g) ↦ inr (inr g)
]
Step-Accounted (set_late i k d d' e f) a c h = elim (a c h) [
  | inl (j, k', g) ↦ elim (Bool-cases (eqb i j)) [
    | inl same ↦ inr (inr (inl (inl (ground (arith, eqb_iff i j)))))
    | inr other ↦ inl (j, k', ground arith)
  ]
  | inr (inl g) ↦ inr (inl g)
  | inr (inr (inl g)) ↦ inr (inr (inl (inr g)))
  | inr (inr (inr g)) ↦ inr (inr (inr g))
]
Step-Accounted cancel a c h = a c h
Step-Accounted (close before after d e f) a c h = elim (a c h) [
  | inl g ↦ inl g
  | inr (inl g) ↦ inr (inl g)
  | inr (inr (inl g)) ↦ inr (inr (inl g))
  | inr (inr (inr g)) ↦ inr (inr (inr (inr g)))
]
Step-Accounted (close_late before after d e) a c h = elim (a c h) [
  | inl g ↦ inl g
  | inr (inl g) ↦ inr (inl g)
  | inr (inr (inl g)) ↦ elim (Elem-remove c d before after (rw e at g)) [
    | inl same ↦ inr (inr (inr (inl same)))
    | inr w ↦ inr (inr (inl w))
  ]
  | inr (inr (inr g)) ↦ inr (inr (inr (inr g)))
]

Reach-Accounted : {s : State} → Reach start s → (c : ℕ) → c < s.fresh → Accounted s c
Reach-Accounted here c h = absurd (omega arith)
Reach-Accounted (next r x) c h = Step-Accounted x (Reach-Accounted r) c h

-- In every state that calls, cancelling and closing lead to, in any order of their steps, in which
-- no call holds the client and the wait group's count is 0 (no goroutine is left that waits to
-- close): a client that was ever loaded is closed, or it is no key's client in the map and the
-- goroutine that a late call started, which the count leaves out, has still to close it.
pub all-closed :
    (s : State) (c : ℕ)
    → Reach start s
    → ((i : ℕ) (k : String) → s.thread i ≢ loaded k c)
    → s.closers ≡ []
    → c < s.fresh
    → Elem c s.closed ⊎ (Elem c s.leaving × ((k : String) → Dict.lookup k s.optly_map ≢ some c))
unfolding Accounted
all-closed s c r no_call no_closer h = elim (Reach-Accounted r c h) [
  | inl (i, k, g) ↦ absurd (no_call i k g)
  | inr (inl (k, g)) ↦ elim ((Reach-IsSound r).mapped k c g).kept [
    | inl w ↦ absurd (rw no_closer at w)
    | inr w ↦ inl w
  ]
  | inr (inr (inl g)) ↦ inr (g, λ k mapped. ((Reach-IsSound r).mapped k c mapped).stays g)
  | inr (inr (inr g)) ↦ inl g
]

-- A client in the map stays there, for its key, whatever steps follow.
pub mapped-stays :
    (s t : State) (k : String) (c : ℕ)
    → Reach s t
    → Dict.lookup k s.optly_map ≡ some c
    → Dict.lookup k t.optly_map ≡ some c
mapped-stays s t k c here h = h
mapped-stays s t k c (next {t = u} r x) h = Step-mapped x (mapped-stays s u k c r h)
  where
    Step-mapped :
        {u t : State}
        → Step u t
        → Dict.lookup k u.optly_map ≡ some c
        → Dict.lookup k t.optly_map ≡ some c
    Step-mapped (call i k' e) g = g
    Step-mapped (hit i k' c' e f) g = g
    Step-mapped (miss i k' e f) g = g
    Step-mapped (load_fails i k' e) g = g
    Step-mapped (load i k' e) g = g
    Step-mapped {u} (set i k' c' e f) g =
        ground (arith, Dict.lookup-insert k' k c' u.optly_map, eq_iff k' k)
    Step-mapped (set_late i k' c' d' e f) g = g
    Step-mapped cancel g = g
    Step-mapped (close before after c' e f) g = g
    Step-mapped (close_late before after c' e) g = g
