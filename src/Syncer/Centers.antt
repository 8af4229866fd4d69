-- ===== src/Syncer/Centers.antt =====
-- Which notification centers calls return.
use Prim.Native.String.{◌++◌}
use text.Mathlib.TextLemmas.{append_cancel_left}
use inspiring_vacations_agen.Common.{
  ◌≡◌, refl, sym, ap, ◌∙◌, ◌⊎◌, inl, inr, Option, none, some, List, [], ◌∷◌, String, ◌==◌, arith,
  eq_iff, eq_refl, Option-cases, Bool-cases, string_eq,
}
use inspiring_vacations_agen.Common.Dict
use inspiring_vacations_agen.Common.Dict.{Dict}
use inspiring_vacations_agen.Syncer.{
  Redis, SyncConfig, Center, new_synced_notification_center, new_pub_sub, notification_flag,
  get_channel_for_sdk_key, pub_sub_default_chan,
}

-- Calls one after the other, errors included.
unfoldable pub run : List (String × SyncConfig) → Dict String Center → Dict String Center
run [] c = c
run ((key, conf) ∷ calls) c = run calls (new_synced_notification_center key conf c).0

-- Each center of the cache stands under its own key.
abbrev Keyed : Dict String Center → Type 0
Keyed c = (k : String) (nc : Center) → Dict.lookup k c ≡ some nc → nc.sdk_key ≡ k

made-cases : (x : Redis ⊎ String) → ((p : Redis) × (x ≡ inl p)) ⊎ ((e : String) × (x ≡ inr e))
made-cases (inl p) = inl (p, refl)
made-cases (inr e) = inr (e, refl)

center_or : Center → Option Center → Center
center_or nc none = nc
center_or nc (some other) = other

result_or : Center → Center ⊎ String → Center
result_or nc (inl other) = other
result_or nc (inr _) = nc

-- A call leaves what is in the cache.
kept :
    (j k : String) (conf : SyncConfig) (c : Dict String Center) (nc : Center)
    → Dict.lookup k c ≡ some nc
    → Dict.lookup k (new_synced_notification_center j conf c).0 ≡ some nc
unfolding new_synced_notification_center
kept j k conf c nc e = elim (Option-cases (Dict.lookup j c)) [
  | inr (old, there) ↦ rw (there, new_synced_notification_center) e
  | inl absent ↦ elim (made-cases (new_pub_sub conf notification_flag)) [
    | inr (error, bad) ↦ rw (absent, new_synced_notification_center) (rw bad e)
    | inl (p, good) ↦
        let put = Dict.lookup-insert j k (record { sdk_key = j; pubsub = p }) c in
        rw (absent, new_synced_notification_center)
          (rw good (elim (Bool-cases (j == k)) [
            | inl same ↦ absurd (ground (arith, absent, e, (eq_iff j k).0 same))
            | inr other ↦ ground (arith, put, other, e)
          ]))
  ]
]

run-kept :
    (calls : List (String × SyncConfig)) (k : String) (c : Dict String Center) (nc : Center)
    → Dict.lookup k c ≡ some nc
    → Dict.lookup k (run calls c) ≡ some nc
unfolding run
run-kept [] k c nc e = e
run-kept ((j, conf) ∷ calls) k c nc e = run-kept calls k _ nc (kept j k conf c nc e)

call-Keyed :
    (j : String) (conf : SyncConfig) (c : Dict String Center)
    → Keyed c
    → Keyed (new_synced_notification_center j conf c).0
unfolding new_synced_notification_center center_or
call-Keyed j conf c h = elim (Option-cases (Dict.lookup j c)) [
  | inr (old, there) ↦ rw (there, new_synced_notification_center) h
  | inl absent ↦ elim (made-cases (new_pub_sub conf notification_flag)) [
    | inr (error, bad) ↦ rw (absent, new_synced_notification_center) (rw bad h)
    | inl (p, good) ↦
        rw (absent, new_synced_notification_center)
          (rw good (λ k nc e.
            let put = Dict.lookup-insert j k (record { sdk_key = j; pubsub = p }) c in
            elim (Bool-cases (j == k)) [
              | inl same ↦
                  (let made : Center = record { sdk_key = j; pubsub = p } in
                    let there : Dict.lookup k (Dict.insert j made c) ≡ some made =
                      ground (arith, put, same) in
                    let it : made ≡ nc = ap (center_or made) (sym there ∙ e) in
                    ap (λ x. x.sdk_key) (sym it) ∙ (eq_iff j k).0 same)
              | inr other ↦ h k nc (ground (arith, put, other, e))
            ]))
  ]
]

run-Keyed :
    (calls : List (String × SyncConfig)) (c : Dict String Center) → Keyed c → Keyed (run calls c)
unfolding run
run-Keyed [] c h = h
run-Keyed ((j, conf) ∷ calls) c h = run-Keyed calls _ (call-Keyed j conf c h)

empty-Keyed : Keyed []
empty-Keyed k nc e = absurd (ground (arith, Dict.lookup-nil {V = Center} k, e))

-- What a call returns is in the cache afterwards.
returned-lookup :
    (k : String) (conf : SyncConfig) (c : Dict String Center) (nc : Center)
    → (new_synced_notification_center k conf c).1 ≡ inl nc
    → Dict.lookup k (new_synced_notification_center k conf c).0 ≡ some nc
unfolding new_synced_notification_center result_or
returned-lookup k conf c nc e = elim (Option-cases (Dict.lookup k c)) [
  | inr (old, there) ↦
      (let it : old ≡ nc = ap (result_or old) (rw (there, new_synced_notification_center) at e) in
        rw (there, new_synced_notification_center) (there ∙ ap some it))
  | inl absent ↦ elim (made-cases (new_pub_sub conf notification_flag)) [
    | inr (error, bad) ↦ absurd (ground (arith, absent, bad, e))
    | inl (p, good) ↦
        (let made : Center = record { sdk_key = k; pubsub = p } in
          let all : (new_synced_notification_center k conf c).1 ≡ inl made =
            rw (absent, new_synced_notification_center) (rw good refl) in
          let it : made ≡ nc = ap (result_or made) (sym all ∙ e) in
          rw (absent, new_synced_notification_center)
            (rw good (ground (arith, Dict.lookup-insert k k made c, eq_refl k) ∙ ap some it)))
  ]
]

-- The channel on which a center sends.
abbrev pub channel : Center → String
channel nc = get_channel_for_sdk_key pub_sub_default_chan nc.sdk_key

channel-key : (m n : Center) → channel m ≡ channel n → m.sdk_key ≡ n.sdk_key
unfolding get_channel_for_sdk_key
channel-key m n e =
    append_cancel_left "-" m.sdk_key n.sdk_key
      (append_cancel_left pub_sub_default_chan ("-" ++ m.sdk_key) ("-" ++ n.sdk_key) e)

-- Of any calls of NewSyncedNotificationCenter, whatever keys and configurations they have and
-- whichever fail, two that return centers which send on one channel return the same center, also
-- where the second has another configuration.
pub channel-shared :
    (before between : List (String × SyncConfig)) (j k : String) (conf conf' : SyncConfig)
    (m n : Center)
    → (new_synced_notification_center j conf (run before [])).1 ≡ inl m
    → (new_synced_notification_center k conf'
        (run between (new_synced_notification_center j conf (run before [])).0)).1
      ≡ inl n
    → channel m ≡ channel n
    → m ≡ n
unfolding center_or
channel-shared before between j k conf conf' m n first second same =
    let c1 = run before [] in
    let c2 = run between (new_synced_notification_center j conf c1).0 in
    let c3 = (new_synced_notification_center k conf' c2).0 in
    let keyed : Keyed c3 =
      call-Keyed k conf' c2
        (run-Keyed between _ (call-Keyed j conf c1 (run-Keyed before [] empty-Keyed))) in
    let at_j : Dict.lookup j c3 ≡ some m =
      kept k j conf' c2 m (run-kept between j _ m (returned-lookup j conf c1 m first)) in
    let at_k : Dict.lookup k c3 ≡ some n = returned-lookup k conf' c2 n second in
    let keys : j ≡ k = sym (keyed j m at_j) ∙ channel-key m n same ∙ keyed k n at_k in
    ap (center_or m) (sym at_j ∙ ap (λ x. Dict.lookup x c3) keys ∙ at_k)
