-- ===== src/Services/Subscribe/Unsubscribing.antt =====
-- What unsubscribing does, on every branch.
use mathlib.Core.Path.{subst⁻¹}
use mattermost_plugin_apps.Base.{
  Str, ◌≡◌, ok, err, Result, Error, arith, Result-cases, inl, inr, if◌then◌else◌, ◌==◌, eq_iff,
}
use mattermost_plugin_apps.Apps.Event.{Event}
use mattermost_plugin_apps.Incoming.{Request, Directory}
use mattermost_plugin_apps.Store.Kv.{Kv, KvLaws}
use mattermost_plugin_apps.Store.Subscriptions.{Stored, subs_key}
use mattermost_plugin_apps.Services.Subscribe.{
  check_unsubscribe, unsubscribe, unsubscribe_owner, finish_unsubscribe, removed, failed, Removal,
}
use mattermost_plugin_apps.Services.Subscribe.Checked.{key_of_check_unsubscribe}
use mattermost_plugin_apps.Services.Subscribe.Effects.{at, unsubscribe_owner_effect}
use mattermost_plugin_apps.Services.Subscribe.Records.{count_own, others_of_count_zero}
use mattermost_plugin_apps.Services.Subscribe.Outcomes.{own_others, OwnEffect, HasOneEach}

module _ {S : Type 0} (kv : Kv S Stored) (laws : KvLaws kv) (d : Directory) where
  pub unsubscribe_refused :
      (r : Request) (e : Event) (s : S) (x : Error)
      → check_unsubscribe d r e ≡ err x
      → unsubscribe kv d r e s ≡ (err x, s)
  unfolding unsubscribe
  unsubscribe_refused r e s x h = rw (h, unsubscribe)

  unsubscribe_checked :
      (r r' : Request) (e : Event) (s : S)
      → check_unsubscribe d r e ≡ ok r'
      → unsubscribe kv d r e s
        ≡ finish_unsubscribe kv d (unsubscribe_owner kv d r' r'.acting_user_id e s)
  unfolding unsubscribe
  unsubscribe_checked r r' e s h = rw (h, unsubscribe)

  finish_unsubscribe-others :
      (r : Request) (key : Str) (s : S) (removal : Removal) (t : S)
      → OwnEffect kv laws d r key s (removal, t)
      → (j : Str)
      → own_others r (at kv laws j (finish_unsubscribe kv d (removal, t)).1)
        ≡ own_others r (at kv laws j s)
  finish_unsubscribe-others r key s (removed m) t effect j =
      ground (arith, effect.0, effect.3 j, eq_iff key j)
  finish_unsubscribe-others r key s (failed all x) t effect j = rw (effect.1 j)

  -- Whatever comes of `Unsubscribe`, the records of other apps and users stay, for every event.
  pub unsubscribe-others :
      (r r' : Request) (e : Event) (s : S)
      → check_unsubscribe d r e ≡ ok r'
      → (j : Str)
      → own_others r' (at kv laws j (unsubscribe kv d r e s).1) ≡ own_others r' (at kv laws j s)
  unsubscribe-others r r' e s h j =
      let (key, k) = key_of_check_unsubscribe d r r' e h in
      let after = unsubscribe_owner kv d r' r'.acting_user_id e s in
      rw (unsubscribe_checked r r' e s h) (
        finish_unsubscribe-others r' key s after.0 after.1
          (unsubscribe_owner_effect kv laws d r' r'.acting_user_id e key s k) j)

  finish_unsubscribe-HasOneEach :
      (r : Request) (key : Str) (s : S) (removal : Removal) (t : S)
      → HasOneEach kv laws d s
      → OwnEffect kv laws d r key s (removal, t)
      → HasOneEach kv laws d (finish_unsubscribe kv d (removal, t)).1
  finish_unsubscribe-HasOneEach r key s (removed m) t inv effect j a o =
      ground (arith, effect.2 a o, effect.3 j, inv key a o, inv j a o)
  finish_unsubscribe-HasOneEach r key s (failed all x) t inv effect j a o =
      rw (effect.1 j) (inv j a o)

  -- `Unsubscribe` keeps the invariant, whatever comes of it.
  pub unsubscribe-HasOneEach :
      (r : Request) (e : Event) (s : S)
      → HasOneEach kv laws d s
      → HasOneEach kv laws d (unsubscribe kv d r e s).1
  unsubscribe-HasOneEach r e s inv = elim (Result-cases (check_unsubscribe d r e)) [
    | inr (x, h) ↦
        subst⁻¹ (λ (p : Result (Unit {0}) × S). HasOneEach kv laws d p.1)
          (unsubscribe_refused r e s x h) inv
    | inl (r', h) ↦
        let (key, k) = key_of_check_unsubscribe d r r' e h in
        let after = unsubscribe_owner kv d r' r'.acting_user_id e s in
        subst⁻¹ (λ (p : Result (Unit {0}) × S). HasOneEach kv laws d p.1)
          (unsubscribe_checked r r' e s h)
          (finish_unsubscribe-HasOneEach r' key s after.0 after.1 inv
            (unsubscribe_owner_effect kv laws d r' r'.acting_user_id e key s k))
  ]

  finish_unsubscribe_removes :
      (r : Request) (key : Str) (s : S) (removal : Removal) (t : S)
      → HasOneEach kv laws d s
      → OwnEffect kv laws d r key s (removal, t)
      → (finish_unsubscribe kv d (removal, t)).0 ≡ ok tt
      → (count_own r.source_app_id r.acting_user_id (at kv laws key s) ≡ 1)
        × ((j : Str)
            → at kv laws j (finish_unsubscribe kv d (removal, t)).1
              ≡ (if key == j then own_others r (at kv laws key s) else at kv laws j s))
  finish_unsubscribe_removes r key s (removed m) t inv effect success = (
    omega (arith, effect.1, inv key r.source_app_id r.acting_user_id),
    λ j. ground (
      arith,
      others_of_count_zero r.source_app_id r.acting_user_id m,
      effect.0,
      effect.1,
      effect.3 j,
      inv key r.source_app_id r.acting_user_id,
    ),
  )
  finish_unsubscribe_removes r key s (failed all x) t inv effect success = cc

  -- `Unsubscribe` succeeds only where the app and the user have a record for the event. It then
  -- leaves the records of the others there, in their order, and all other events as they were.
  pub unsubscribe_removes :
      (r r' : Request) (e : Event) (key : Str) (s : S)
      → HasOneEach kv laws d s
      → check_unsubscribe d r e ≡ ok r'
      → subs_key e ≡ ok key
      → (unsubscribe kv d r e s).0 ≡ ok tt
      → (count_own r'.source_app_id r'.acting_user_id (at kv laws key s) ≡ 1)
        × ((j : Str)
            → at kv laws j (unsubscribe kv d r e s).1
              ≡ (if key == j then own_others r' (at kv laws key s) else at kv laws j s))
  unsubscribe_removes r r' e key s inv h k success =
      let after = unsubscribe_owner kv d r' r'.acting_user_id e s in
      rw (unsubscribe_checked r r' e s h) (
        finish_unsubscribe_removes r' key s after.0 after.1 inv
          (unsubscribe_owner_effect kv laws d r' r'.acting_user_id e key s k)
          (rw (unsubscribe_checked r r' e s h) at success))
