-- ===== src/Optimizely/Cache/Sound.antt =====
-- The invariant of the calls side by side: where each loaded client is.
use inspiring_vacations_agen.Common.{
  ℕ, suc, ◌<◌, ◌≡◌, refl, ◌≢◌, ◌⊎◌, inl, inr, sym, ◌∙◌, ap, true, false, none, some, List, ◌∷◌,
  ◌++◌, String, eqb, eq_iff, ◌==◌, Elem, Elem-append_right, Elem-remove, Elem-weaken, eq_refl,
  if◌then◌else◌, arith, Bool-cases, string_eq,
}
use inspiring_vacations_agen.Common.Dict
use inspiring_vacations_agen.Common.Dict.{Dict}
use inspiring_vacations_agen.Optimizely.Cache.Threads.{
  Thread, looking, loading, loaded, returned, failed, State, update, at, Step, call, hit, miss,
  load_fails, load, set, set_late, cancel, close, close_late, Reach, here, next, start,
}

-- The client's `Close` was called, or the goroutine of a late call will call it.
abbrev pub Shut : State → ℕ → Type 0
Shut s c = Elem c s.leaving ⊎ Elem c s.closed

-- A loaded client is numbered below `fresh`, held by one call, and neither mapped nor closed nor about
-- to be.
pub record Held (s : State) (i : ℕ) (k : String) (c : ℕ) : Type 0 where
  pub old : c < s.fresh
  pub unmapped : (k' : String) → Dict.lookup k' s.optly_map ≢ some c
  pub unshut : ¬ Shut s c
  pub alone : (j : ℕ) (k' : String) → s.thread j ≡ loaded k' c → i ≡ j

-- A mapped client is numbered below `fresh`, and waits for its close or is closed. It is closed
-- only after the context has ended, and by no late call's goroutine.
pub record Mapped (s : State) (k : String) (c : ℕ) : Type 0 where
  pub old : c < s.fresh
  pub kept : Elem c s.closers ⊎ Elem c s.closed
  pub early : s.cancelled ≡ false → ¬ Elem c s.closed
  pub stays : ¬ Elem c s.leaving

pub record IsSound (s : State) : Type 0 where
  pub held : (i : ℕ) (k : String) (c : ℕ) → s.thread i ≡ loaded k c → Held s i k c
  pub mapped : (k : String) (c : ℕ) → Dict.lookup k s.optly_map ≡ some c → Mapped s k c
  pub closer_mapped :
      (c : ℕ) → Elem c s.closers → (k : String) × (Dict.lookup k s.optly_map ≡ some c)
  pub shut_old : (c : ℕ) → Shut s c → c < s.fresh

update-loaded :
    (f : ℕ → Thread) (i j : ℕ) (t : Thread) (k : String) (c : ℕ)
    → ((k' : String) (c' : ℕ) → t ≢ loaded k' c')
    → update f i t j ≡ loaded k c
    → (i ≢ j) × (f j ≡ loaded k c)
update-loaded f i j t k c other h = ground (arith, other k c)

module _ {s : State} (v : IsSound s) where
  -- A call that moves to a place where it holds no client.
  at-IsSound : (i : ℕ) (t : Thread) → ((k : String) (c : ℕ) → t ≢ loaded k c) → IsSound (at s i t)
  at-IsSound i t other = record {
    held = λ j k c h.
        let (_, h') = update-loaded s.thread i j t k c other h in
        let was = v.held j k c h' in
        record {
          old = was.old;
          unmapped = was.unmapped;
          unshut = was.unshut;
          alone = λ m k' g. was.alone m k' (update-loaded s.thread i m t k' c other g).1;
        };
    mapped = λ k c h.
        let was = v.mapped k c h in
        record { old = was.old; kept = was.kept; early = was.early; stays = was.stays };
    closer_mapped = v.closer_mapped;
    shut_old = v.shut_old;
  }

  load-IsSound :
      (i : ℕ) (k : String)
      → IsSound (record s { fresh = suc s.fresh; thread = update s.thread i (loaded k s.fresh) })
  load-IsSound i k = record {
    held = λ j k' c h. elim (Bool-cases (eqb i j)) [
      | inl same ↦
          let new : c ≡ s.fresh = ground arith in
          record {
            old = omega arith;
            unmapped = λ k'' g. absurd (omega (arith, (v.mapped k'' c g).old));
            unshut = λ g. absurd (omega (arith, v.shut_old c g));
            alone = λ m k'' g. elim (Bool-cases (eqb i m)) [
              | inl e ↦ ground arith
              | inr ne ↦ absurd (ground (arith, (v.held m k'' c (ground arith)).old))
            ];
          }
      | inr differs ↦
          let was = v.held j k' c (ground arith) in
          record {
            old = omega (arith, was.old);
            unmapped = was.unmapped;
            unshut = was.unshut;
            alone = λ m k'' g. elim (Bool-cases (eqb i m)) [
              | inl e ↦ absurd (ground (arith, was.old))
              | inr ne ↦ was.alone m k'' (ground arith)
            ];
          }
    ];
    mapped = λ k' c h.
        let was = v.mapped k' c h in
        record {
          old = omega (arith, was.old);
          kept = was.kept;
          early = was.early;
          stays = was.stays;
        };
    closer_mapped = v.closer_mapped;
    shut_old = λ c h. omega (arith, v.shut_old c h);
  }

  set-IsSound :
      (i : ℕ) (k : String) (c : ℕ)
      → s.thread i ≡ loaded k c
      → Dict.lookup k s.optly_map ≡ none
      → IsSound (record s {
        optly_map = Dict.insert k c s.optly_map;
        closers = c ∷ s.closers;
        thread = update s.thread i (returned k c);
      })
  set-IsSound i k c e absent =
      let own = v.held i k c e in
      let found : (k' : String)
          → Dict.lookup k' (Dict.insert k c s.optly_map)
            ≡ (if k == k' then some c else Dict.lookup k' s.optly_map) =
        λ k'. Dict.lookup-insert k k' c s.optly_map in
      record {
        held = λ j k' d h.
            let (ne, h') =
              update-loaded s.thread i j (returned k c) k' d (λ _ _ g. ground arith) h in
            let was = v.held j k' d h' in
            let differs : c ≢ d = λ same. ne (own.alone j k' (h' ∙ ap (loaded k') (sym same))) in
            record {
              old = was.old;
              unmapped = λ k'' g. elim (Bool-cases (k == k'')) [
                | inl same ↦ ground (arith, found k'')
                | inr other ↦ was.unmapped k'' (ground (arith, found k''))
              ];
              unshut = was.unshut;
              alone = λ m k'' g.
                  was.alone m k''
                    (update-loaded s.thread i m (returned k c) k'' d (λ _ _ g'. ground arith) g).1;
            };
        mapped = λ k' d h. elim (Bool-cases (k == k')) [
          | inl same ↦
              let this : d ≡ c = ground (arith, found k') in
              record {
                old = rw this own.old;
                kept = inl (inl this);
                early = λ _ g. own.unshut (inr (rw this at g));
                stays = λ g. own.unshut (inl (rw this at g));
              }
          | inr other ↦
              let was = v.mapped k' d (ground (arith, found k')) in
              record {
                old = was.old;
                kept = elim was.kept [ inl w ↦ inl (inr w) | inr w ↦ inr w ];
                early = was.early;
                stays = was.stays;
              }
        ];
        closer_mapped = λ d h. elim h [
          | inl this ↦ (k, ground (arith, found k, eq_refl k))
          | inr before ↦
              let (k', at_k') = v.closer_mapped d before in
              (k', ground (arith, found k', eq_iff k k'))
        ];
        shut_old = v.shut_old;
      }

  set_late-IsSound :
      (i : ℕ) (k : String) (c : ℕ)
      → s.thread i ≡ loaded k c
      → IsSound (record s { leaving = c ∷ s.leaving; thread = update s.thread i (looking k) })
  set_late-IsSound i k c e =
      let own = v.held i k c e in
      record {
        held = λ j k' d h.
            let (ne, h') = update-loaded s.thread i j (looking k) k' d (λ _ _ g. ground arith) h in
            let was = v.held j k' d h' in
            record {
              old = was.old;
              unmapped = was.unmapped;
              unshut = elim [
                | inl (inl same) ↦ ne (own.alone j k' (h' ∙ ap (loaded k') same))
                | inl (inr g) ↦ was.unshut (inl g)
                | inr g ↦ was.unshut (inr g)
              ];
              alone = λ m k'' g.
                  was.alone m k''
                    (update-loaded s.thread i m (looking k) k'' d (λ _ _ g'. ground arith) g).1;
            };
        mapped = λ k' d h.
            let was = v.mapped k' d h in
            record {
              old = was.old;
              kept = was.kept;
              early = was.early;
              stays = elim [ inl same ↦ own.unmapped k' (rw (← same) h) | inr g ↦ was.stays g ];
            };
        closer_mapped = v.closer_mapped;
        shut_old = λ d. elim [
          | inl (inl same) ↦ rw same own.old
          | inl (inr g) ↦ v.shut_old d (inl g)
          | inr g ↦ v.shut_old d (inr g)
        ];
      }

  cancel-IsSound : IsSound (record s { cancelled = true })
  cancel-IsSound = record {
    held = λ j k c h.
        let was = v.held j k c h in
        record { old = was.old; unmapped = was.unmapped; unshut = was.unshut; alone = was.alone };
    mapped = λ k c h.
        let was = v.mapped k c h in
        record {
          old = was.old;
          kept = was.kept;
          early = λ off. absurd (ground arith);
          stays = was.stays;
        };
    closer_mapped = v.closer_mapped;
    shut_old = v.shut_old;
  }

  close-IsSound :
      (before after : List ℕ) (c : ℕ)
      → s.cancelled ≡ true
      → s.closers ≡ before ++ c ∷ after
      → IsSound (record s { closers = before ++ after; closed = c ∷ s.closed })
  close-IsSound before after c off e =
      let listed : Elem c s.closers = rw e (Elem-append_right c before (c ∷ after) (inl refl)) in
      let (key, at_key) = v.closer_mapped c listed in
      record {
        held = λ j k d h.
            let was = v.held j k d h in
            record {
              old = was.old;
              unmapped = was.unmapped;
              unshut = elim [
                | inl g ↦ was.unshut (inl g)
                | inr (inl same) ↦ was.unmapped key (at_key ∙ ap some (sym same))
                | inr (inr g) ↦ was.unshut (inr g)
              ];
              alone = was.alone;
            };
        mapped = λ k d h.
            let was = v.mapped k d h in
            record {
              old = was.old;
              kept = elim was.kept [
                | inl w ↦ elim (Elem-remove d c before after (rw e at w)) [
                  | inl same ↦ inr (inl same)
                  | inr g ↦ inl g
                ]
                | inr w ↦ inr (inr w)
              ];
              early = λ on. absurd (ground arith);
              stays = was.stays;
            };
        closer_mapped = λ d h. v.closer_mapped d (rw e (Elem-weaken d c before after h));
        shut_old = λ d. elim [
          | inl g ↦ v.shut_old d (inl g)
          | inr (inl same) ↦ rw same (v.mapped key c at_key).old
          | inr (inr g) ↦ v.shut_old d (inr g)
        ];
      }

  close_late-IsSound :
      (before after : List ℕ) (c : ℕ)
      → s.leaving ≡ before ++ c ∷ after
      → IsSound (record s { leaving = before ++ after; closed = c ∷ s.closed })
  close_late-IsSound before after c e =
      let listed : Elem c s.leaving = rw e (Elem-append_right c before (c ∷ after) (inl refl)) in
      let still : (d : ℕ) → Elem d (before ++ after) → Elem d s.leaving =
        λ d h. rw e (Elem-weaken d c before after h) in
      record {
        held = λ j k d h.
            let was = v.held j k d h in
            record {
              old = was.old;
              unmapped = was.unmapped;
              unshut = elim [
                | inl g ↦ was.unshut (inl (still d g))
                | inr (inl same) ↦ was.unshut (inl (rw same listed))
                | inr (inr g) ↦ was.unshut (inr g)
              ];
              alone = was.alone;
            };
        mapped = λ k d h.
            let was = v.mapped k d h in
            record {
              old = was.old;
              kept = elim was.kept [ inl w ↦ inl w | inr w ↦ inr (inr w) ];
              early = λ on. elim [ inl same ↦ was.stays (rw same listed) | inr g ↦ was.early on g ];
              stays = λ g. was.stays (still d g);
            };
        closer_mapped = v.closer_mapped;
        shut_old = λ d. elim [
          | inl g ↦ v.shut_old d (inl (still d g))
          | inr (inl same) ↦ rw same (v.shut_old c (inl listed))
          | inr (inr g) ↦ v.shut_old d (inr g)
        ];
      }

pub Step-IsSound : {s t : State} → Step s t → IsSound s → IsSound t
Step-IsSound (call i k e) v = at-IsSound v i (looking k) (λ _ _ h. ground arith)
Step-IsSound (hit i k c e f) v = at-IsSound v i (returned k c) (λ _ _ h. ground arith)
Step-IsSound (miss i k e f) v = at-IsSound v i (loading k) (λ _ _ h. ground arith)
Step-IsSound (load_fails i k e) v = at-IsSound v i (failed k) (λ _ _ h. ground arith)
Step-IsSound (load i k e) v = load-IsSound v i k
Step-IsSound (set i k c e f) v = set-IsSound v i k c e f
Step-IsSound (set_late i k c d e f) v = set_late-IsSound v i k c e
Step-IsSound cancel v = cancel-IsSound v
Step-IsSound (close before after c off e) v = close-IsSound v before after c off e
Step-IsSound (close_late before after c e) v = close_late-IsSound v before after c e

start-IsSound : IsSound start
unfolding Dict.lookup
start-IsSound = record {
  held = λ i k c h. absurd (ground arith);
  mapped = λ k c h. absurd (ground arith);
  closer_mapped = λ c h. absurd h;
  shut_old = λ c. elim [ inl h ↦ absurd h | inr h ↦ absurd h ];
}

pub Reach-IsSound : {s : State} → Reach start s → IsSound s
Reach-IsSound here = start-IsSound
Reach-IsSound (next r x) = Step-IsSound x (Reach-IsSound r)
