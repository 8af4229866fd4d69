-- ===== src/Middleware/AllowedHosts/Accepts.antt =====
-- What the host check accepts, against a rule stated on its own.
use inspiring_vacations_agen.Common.{
  ◌≡◌, refl, ◌↔◌, ◌⊎◌, inl, inr, Bool, true, List, [], ◌∷◌, String, Char, code, none, some, arith,
  of_chars, Bool-cases, Option-cases, ◌++◌, Elem, ◌==◌, eq_iff, string_eq, ◌≢◌, ap, if◌then◌else◌,
  sym,
}
use inspiring_vacations_agen.Common.Dict
use inspiring_vacations_agen.Common.Dict.{Dict}
use inspiring_vacations_agen.Http.{Request, forward, fail}
use inspiring_vacations_agen.Middleware.AllowedHosts.Suffixes.{AtDot, Permits, IsAllowed, walk_iff}
use inspiring_vacations_agen.Middleware.AllowedHosts.{
  shorter_wf, walk, build_map, is_set, checked_host, serve,
}

module _ (P : List Char → Type 0) where
  split_AtDot :
      (cs : List Char)
      → AtDot P cs
      → (pre : List Char) × (c : Char) × (suf : List Char) × (cs ≡ pre ++ c ∷ suf)
        × (code c ≡ b'.')
        × P (c ∷ suf)
  split_AtDot [] h = absurd h
  split_AtDot (c ∷ cs) (inl h) = ([], c, cs, refl, h.0, h.1)
  split_AtDot (c ∷ cs) (inr h) =
      let (pre, d, suf, e, dot, p) = split_AtDot cs h in (c ∷ pre, d, suf, ap (◌∷◌ c) e, dot, p)

  join_AtDot :
      (pre : List Char) (c : Char) (suf : List Char)
      → code c ≡ b'.'
      → P (c ∷ suf)
      → AtDot P (pre ++ c ∷ suf)
  join_AtDot [] c suf dot p = inl (dot, p)
  join_AtDot (d ∷ pre) c suf dot p = inr (join_AtDot pre c suf dot p)

build_map-none :
    (hosts : List String) (m : Dict String Bool) → (build_map hosts m ≡ none) ↔ Elem "." hosts
unfolding build_map
build_map-none [] m = (λ h. ground arith, λ h. absurd h)
build_map-none (h ∷ hosts) m =
    let (to, from) = build_map-none hosts (Dict.insert h true m) in
    elim (Bool-cases (h == ".")) [
      | inl dot ↦ (λ _. inl (ground (arith, eq_iff h ".")), λ _. rw dot)
      | inr other ↦
          rw other (
            λ e. inr (to e),
            elim [ inl e ↦ absurd (ground (arith, eq_iff h ".")) | inr k ↦ from k ],
          )
    ]

is_set-insert :
    (h s : String) (m : Dict String Bool)
    → is_set (Dict.insert h true m) s ≡ (if h == s then true else is_set m s)
is_set-insert h s m = ground (arith, Dict.lookup-insert h s true m)

build_map-some :
    (hosts : List String) (m m' : Dict String Bool) (s : String)
    → build_map hosts m ≡ some m'
    → (is_set m' s ≡ true) ↔ ((is_set m s ≡ true) ⊎ Elem s hosts)
unfolding build_map
build_map-some [] m m' s e =
    let same : m ≡ m' = ground arith in
    rw (← same) (λ h. inl h, elim [ inl h ↦ h | inr h ↦ absurd h ])
build_map-some (h ∷ hosts) m m' s e =
    let (to, from) = build_map-some hosts (Dict.insert h true m) m' s (ground arith) in
    elim (Bool-cases (h == s)) [
      | inl same ↦
          let found : is_set (Dict.insert h true m) s ≡ true = rw (is_set-insert h s m) (rw same) in
          (λ _. inr (inl (sym ((eq_iff h s).0 same))), λ _. from (inl found))
      | inr other ↦
          let kept : is_set (Dict.insert h true m) s ≡ is_set m s =
            rw (is_set-insert h s m) (rw other) in
          let differs : s ≢ h = ground (arith, eq_iff h s) in
          (
            λ k. elim (to k) [ inl g ↦ inl (rw kept at g) | inr g ↦ inr (inr g) ],
            elim [
              | inl g ↦ from (inl (rw kept g))
              | inr (inl e') ↦ absurd (differs e')
              | inr (inr g) ↦ from (inr g)
            ],
          )
    ]

-- The rule that the allowed hosts express: a host is listed whole, or some part of it that
-- begins at a dot is.
pub data Matches (hosts : List String) (host : List Char) : Type 0 where
  whole : host ≢ [] → Elem (of_chars host) hosts → Matches hosts host
  domain :
      (pre : List Char) (c : Char) (suf : List Char)
      → host ≡ pre ++ c ∷ suf
      → code c ≡ b'.'
      → Elem (of_chars (c ∷ suf)) hosts
      → Matches hosts host

AtDot-Permits : (P : List Char → Type 0) (cs : List Char) → AtDot P cs → Permits P cs
AtDot-Permits P [] h = h
AtDot-Permits P (c ∷ cs) (inl h) = inl h.1
AtDot-Permits P (c ∷ cs) (inr h) = inr h

AtDot-mono :
    (P Q : List Char → Type 0)
    → ((cs : List Char) → P cs → Q cs)
    → (cs : List Char) → AtDot P cs
    → AtDot Q cs
AtDot-mono P Q f [] h = h
AtDot-mono P Q f (c ∷ cs) (inl h) = inl (h.0, f (c ∷ cs) h.1)
AtDot-mono P Q f (c ∷ cs) (inr h) = inr (AtDot-mono P Q f cs h)

Permits-mono :
    (P Q : List Char → Type 0)
    → ((cs : List Char) → P cs → Q cs)
    → (cs : List Char) → Permits P cs
    → Permits Q cs
Permits-mono P Q f [] h = h
Permits-mono P Q f (c ∷ cs) (inl h) = inl (f (c ∷ cs) h)
Permits-mono P Q f (c ∷ cs) (inr h) = inr (AtDot-mono P Q f cs h)

module _ (hosts : List String) where
  abbrev Listed : List Char → Type 0
  Listed cs = Elem (of_chars cs) hosts

  Permits-Matches : (host : List Char) → Permits Listed host → Matches hosts host
  Permits-Matches [] h = absurd h
  Permits-Matches (c ∷ cs) (inl h) = whole (λ e. cc) h
  Permits-Matches (c ∷ cs) (inr h) =
      let (pre, d, suf, e, dot, p) = split_AtDot Listed cs h in
      domain (c ∷ pre) d suf (ap (◌∷◌ c) e) dot p

  whole-Permits : (host : List Char) → host ≢ [] → Listed host → Permits Listed host
  whole-Permits [] ne h = absurd (ne refl)
  whole-Permits (c ∷ cs) ne h = inl h

  Matches-Permits : (host : List Char) → Matches hosts host → Permits Listed host
  Matches-Permits host (whole ne h) = whole-Permits host ne h
  Matches-Permits host (domain pre c suf e dot h) =
      AtDot-Permits Listed host (rw e (join_AtDot Listed pre c suf dot h))

  is_set_iff :
      (m : Dict String Bool) (s : String)
      → build_map hosts [] ≡ some m
      → (is_set m s ≡ true) ↔ Elem s hosts
  unfolding Dict.lookup
  is_set_iff m s e =
      let (to, from) = build_map-some hosts [] m s e in
      (λ h. elim (to h) [ inl g ↦ absurd (ground arith) | inr g ↦ g ], λ h. from (inr h))

  walk-Matches :
      (m : Dict String Bool) (host : List Char)
      → build_map hosts [] ≡ some m
      → (walk (is_set m) host (shorter_wf host) ≡ true) ↔ Matches hosts host
  walk-Matches m host e =
      let (to, from) = walk_iff (is_set m) host (shorter_wf host) in
      let P = IsAllowed (is_set m) in
      (
        λ h.
            Permits-Matches host
              (Permits-mono P Listed (λ cs. (is_set_iff m (of_chars cs) e).0) host (to h)),
        λ h. from (
            Permits-mono Listed P (λ cs. (is_set_iff m (of_chars cs) e).1) host
              (Matches-Permits host h)),
      )

  -- A request is handed on exactly when "." is among the allowed hosts or the host that is
  -- checked matches one of them; any other request is answered 404 with the fixed message.
  pub serve_iff :
      (r : Request)
      → ((serve hosts r ≡ forward r) ↔ (Elem "." hosts ⊎ Matches hosts (checked_host r)))
        × ((serve hosts r ≡ forward r) ⊎ (serve hosts r ≡ fail 404 "invalid request host"))
  unfolding serve
  serve_iff r = elim (Option-cases (build_map hosts [])) [
    | inl all ↦
        let served : serve hosts r ≡ forward r = rw (all, serve) in
        ((λ _. inl ((build_map-none hosts []).0 all), λ _. served), inl served)
    | inr (m, e) ↦
        let (to, from) = walk-Matches m (checked_host r) e in
        elim (Bool-cases (walk (is_set m) (checked_host r) (shorter_wf (checked_host r)))) [
          | inl ok ↦
              let served : serve hosts r ≡ forward r = rw (e, serve) (rw ok) in
              ((λ _. inr (to ok), λ _. served), inl served)
          | inr bad ↦
              let refused : serve hosts r ≡ fail 404 "invalid request host" =
                rw (e, serve) (rw bad) in
              (
                (
                  λ h. absurd (cc),
                  elim [
                    | inl dot ↦ absurd (cc ((build_map-none hosts []).1 dot))
                    | inr h ↦ absurd (cc (from h))
                  ],
                ),
                inr refused,
              )
        ]
  ]
