-- ===== src/UserProfileService/InMemory/Order.antt =====
-- Lists of profiles, oldest first: taking out the first or the last, and putting one in.
use inspiring_vacations_agen.Common.{
  ◌+◌, ◌≡◌, refl, none, some, List, [], ◌∷◌, ◌++◌, String, ◌==◌, eq_iff, eq_refl, length, map,
  arith, if◌then◌else◌, string_eq,
}
use inspiring_vacations_agen.Common.Dict
use inspiring_vacations_agen.Common.Dict.{Dict, IsDistinct}
use inspiring_vacations_agen.UserProfileService.InMemory.{UserProfile, pop_last}

abbrev pub Window : Type 0
Window = Dict String UserProfile

abbrev pub keys : Window → List String
keys w = map (λ e. e.0) w

abbrev pub drop_first : Window → Window
drop_first [] = []
drop_first (e ∷ w) = w

abbrev pub drop_last : Window → Window
drop_last [] = []
drop_last (e ∷ []) = []
drop_last (e ∷ f ∷ w) = e ∷ drop_last (f ∷ w)

-- Taking one entry, of the key `k`, out of a list of entries.
pub record Removed (w w' : Window) (k : String) : Type 0 where
  pub found : (p : UserProfile) × (Dict.lookup k w ≡ some p)
  pub lookups : (j : String) → Dict.lookup j w' ≡ (if k == j then none else Dict.lookup j w)
  pub shorter : length w' + 1 ≡ length w
  pub distinct : IsDistinct w'

pub Removed-first :
    (k : String) (p : UserProfile) (w : Window) → IsDistinct ((k, p) ∷ w) → Removed ((k, p) ∷ w) w k
unfolding Dict.lookup
Removed-first k p w d = record {
  found = (p, rw (eq_refl k));
  lookups = λ j. ground (arith, eq_iff k j);
  shorter = omega arith;
  distinct = d.1;
}

pub Removed-last :
    (e : String × UserProfile) (w : Window)
    → IsDistinct (e ∷ w)
    → (k : String) × (pop_last (keys (e ∷ w)) ≡ some (k, keys (drop_last (e ∷ w))))
      × Removed (e ∷ w) (drop_last (e ∷ w)) k
unfolding Dict.lookup pop_last
Removed-last (k, p) [] d = (k, refl, Removed-first k p [] d)
Removed-last (j, q) (e ∷ w) d =
    let (k, popped, r) = Removed-last e w d.1 in
    (
      k,
      rw popped,
      record {
        found = (r.found.0, ground (arith, r.found.1, eq_iff j k, d.0));
        lookups =
            λ i. ground (arith, r.lookups i, r.found.1, d.0, eq_iff j i, eq_iff k i, eq_iff j k);
        shorter = omega (arith, r.shorter);
        distinct = (ground (arith, r.lookups j, d.0), r.distinct);
      },
    )

pub keys-insert_new :
    (k : String) (p : UserProfile) (w : Window)
    → Dict.lookup k w ≡ none
    → keys (Dict.insert k p w) ≡ keys w ++ k ∷ []
unfolding Dict.lookup Dict.insert
keys-insert_new k p [] h = refl
keys-insert_new k p ((j, q) ∷ w) h = ground (arith, keys-insert_new k p w)

pub keys-insert_old :
    (k : String) (p q : UserProfile) (w : Window)
    → Dict.lookup k w ≡ some q
    → keys (Dict.insert k p w) ≡ keys w
unfolding Dict.lookup Dict.insert
keys-insert_old k p q [] h = absurd (ground arith)
keys-insert_old k p q ((j, r) ∷ w) h = ground (arith, keys-insert_old k p q w, eq_iff j k)

pub length-keys : (w : Window) → length (keys w) ≡ length w
length-keys [] = refl
length-keys (e ∷ w) = omega (arith, length-keys w)
