-- ===== src/Services/Subscribe/Outcomes.antt =====
-- What subscribing and unsubscribing do, on every branch.
use mathlib.Core.Path.{subst⁻¹}
use mathlib.Core.List.{append-nil}
use mattermost_plugin_apps.Base.{
  Str, ◌≡◌, ◌≤◌, refl, true, List, [], ◌∷◌, ◌++◌, ok, err, Result, Error, not_found, arith,
  Result-cases, inl, inr, if◌then◌else◌, ◌==◌, eq_iff,
}
use mattermost_plugin_apps.Apps.Event
use mattermost_plugin_apps.Apps.Event.{Event}
use mattermost_plugin_apps.Incoming.{Request, Directory}
use mattermost_plugin_apps.Store.AppMaps.{AppMaps}
use mattermost_plugin_apps.Store.Kv.{Kv, KvLaws}
use mattermost_plugin_apps.Store.Subscriptions.{Subscription, Stored, subs_key}
use mattermost_plugin_apps.Services.Subscribe.{
  check_subscribe, subscribe, unsubscribe_owner, finish_subscribe, removed, failed, Removal, is_own,
}
use mattermost_plugin_apps.Services.Subscribe.Checked.{key_of_check_subscribe}
use mattermost_plugin_apps.Services.Subscribe.Effects.{
  at, RemovalEffect, save_effect, unsubscribe_owner_effect,
}
use mattermost_plugin_apps.Services.Subscribe.Records.{
  others, count_own, is_own_self, others-append, others_of_count_zero, count_own-append_own,
}

-- The record that `Subscribe` adds.
abbrev pub new_record : Request → Event.Subscription → Subscription
new_record r sub = record {
  call = sub.call;
  app_id = r.source_app_id;
  owner_user_id = r.acting_user_id;
}

abbrev pub own_others : Request → List Subscription → List Subscription
own_others r all = others r.source_app_id r.acting_user_id all

new_record-is_own :
    (r : Request) (sub : Event.Subscription)
    → is_own r.source_app_id r.acting_user_id (new_record r sub) ≡ true
new_record-is_own r sub = is_own_self r.source_app_id r.acting_user_id (new_record r sub) refl refl

own_others-append :
    (r : Request) (sub : Event.Subscription) (all : List Subscription)
    → own_others r (all ++ new_record r sub ∷ []) ≡ own_others r all
unfolding others
own_others-append r sub all =
    rw (others-append, new_record-is_own r sub) (append-nil (own_others r all))

module _ {S : Type 0} (kv : Kv S Stored) (laws : KvLaws kv) (d : Directory) where
  -- The invariant: for each event, an app and a user have one record at most.
  abbrev pub HasOneEach : S → Type 0
  HasOneEach s = (key app owner : Str) → count_own app owner (at kv laws key s) ≤ 1

  -- A refused request changes nothing.
  pub subscribe_refused :
      (apps : AppMaps) (r : Request) (sub : Event.Subscription) (s : S) (e : Error)
      → check_subscribe d apps r sub ≡ err e
      → subscribe kv d apps r sub s ≡ (err e, s)
  unfolding subscribe
  subscribe_refused apps r sub s e h = rw (h, subscribe)

  subscribe_checked :
      (apps : AppMaps) (r r' : Request) (sub : Event.Subscription) (s : S)
      → check_subscribe d apps r sub ≡ ok r'
      → subscribe kv d apps r sub s
        ≡ finish_subscribe kv d r' sub (unsubscribe_owner kv d r' r'.acting_user_id sub.event s)
  unfolding subscribe
  subscribe_checked apps r r' sub s h = rw (h, subscribe)

  abbrev pub OwnEffect : Request → Str → S → Removal × S → Type 0
  OwnEffect r key s p = RemovalEffect kv laws r.source_app_id r.acting_user_id key s p

  finish_subscribe-others :
      (r : Request) (sub : Event.Subscription) (key : Str) (s : S) (removal : Removal) (t : S)
      → subs_key sub.event ≡ ok key
      → OwnEffect r key s (removal, t)
      → (j : Str)
      → own_others r (at kv laws j (finish_subscribe kv d r sub (removal, t)).1)
        ≡ own_others r (at kv laws j s)
  finish_subscribe-others r sub key s (removed m) t h effect j = ground (
    arith,
    save_effect kv laws sub.event key (m ++ new_record r sub ∷ []) t j h,
    own_others-append r sub m,
    effect.3 j,
    eq_iff key j,
  )
  finish_subscribe-others r sub key s (failed all not_found) t h effect j = ground (
    arith,
    save_effect kv laws sub.event key (all ++ new_record r sub ∷ []) t j h,
    own_others-append r sub all,
    effect.1 j,
    effect.0 refl,
    eq_iff key j,
  )
  finish_subscribe-others r sub key s (failed all _) t h effect j = rw (effect.1 j)

  -- Whatever comes of `Subscribe`, the records of other apps and users stay, for every event.
  pub subscribe-others :
      (apps : AppMaps) (r r' : Request) (sub : Event.Subscription) (s : S)
      → check_subscribe d apps r sub ≡ ok r'
      → (j : Str)
      → own_others r' (at kv laws j (subscribe kv d apps r sub s).1)
        ≡ own_others r' (at kv laws j s)
  subscribe-others apps r r' sub s h j =
      let (key, k) = key_of_check_subscribe d apps r r' sub h in
      let after = unsubscribe_owner kv d r' r'.acting_user_id sub.event s in
      rw (subscribe_checked apps r r' sub s h) (
        finish_subscribe-others r' sub key s after.0 after.1 k
          (unsubscribe_owner_effect kv laws d r' r'.acting_user_id sub.event key s k) j)

  finish_subscribe-HasOneEach :
      (r : Request) (sub : Event.Subscription) (key : Str) (s : S) (removal : Removal) (t : S)
      → subs_key sub.event ≡ ok key
      → HasOneEach s
      → OwnEffect r key s (removal, t)
      → HasOneEach (finish_subscribe kv d r sub (removal, t)).1
  finish_subscribe-HasOneEach r sub key s (removed m) t h inv effect j a o = ground (
    arith,
    save_effect kv laws sub.event key (m ++ new_record r sub ∷ []) t j h,
    count_own-append_own r.source_app_id r.acting_user_id a o m (new_record r sub)
        (new_record-is_own r sub),
    effect.1,
    effect.2 a o,
    effect.3 j,
    inv key a o,
    inv j a o,
    inv key r.source_app_id r.acting_user_id,
  )
  finish_subscribe-HasOneEach r sub key s (failed all not_found) t h inv effect j a o = ground (
    arith,
    save_effect kv laws sub.event key (all ++ new_record r sub ∷ []) t j h,
    count_own-append_own r.source_app_id r.acting_user_id a o all (new_record r sub)
        (new_record-is_own r sub),
    effect.0 refl,
    effect.1 j,
    inv key a o,
    inv j a o,
  )
  finish_subscribe-HasOneEach r sub key s (failed all _) t h inv effect j a o =
      rw (effect.1 j) (inv j a o)

  -- `Subscribe` keeps the invariant, whatever comes of it.
  pub subscribe-HasOneEach :
      (apps : AppMaps) (r : Request) (sub : Event.Subscription) (s : S)
      → HasOneEach s
      → HasOneEach (subscribe kv d apps r sub s).1
  subscribe-HasOneEach apps r sub s inv = elim (Result-cases (check_subscribe d apps r sub)) [
    | inr (e, h) ↦
        subst⁻¹ (λ (p : Result (Unit {0}) × S). HasOneEach p.1) (subscribe_refused apps r sub s e h)
          inv
    | inl (r', h) ↦
        let (key, k) = key_of_check_subscribe d apps r r' sub h in
        let after = unsubscribe_owner kv d r' r'.acting_user_id sub.event s in
        subst⁻¹ (λ (p : Result (Unit {0}) × S). HasOneEach p.1)
          (subscribe_checked apps r r' sub s h)
          (finish_subscribe-HasOneEach r' sub key s after.0 after.1 k inv
            (unsubscribe_owner_effect kv laws d r' r'.acting_user_id sub.event key s k))
  ]

  finish_subscribe_stored :
      (r : Request) (sub : Event.Subscription) (key : Str) (s : S) (removal : Removal) (t : S)
      → subs_key sub.event ≡ ok key
      → HasOneEach s
      → OwnEffect r key s (removal, t)
      → (finish_subscribe kv d r sub (removal, t)).0 ≡ ok tt
      → (j : Str)
      → at kv laws j (finish_subscribe kv d r sub (removal, t)).1 ≡ (
          if key == j
          then own_others r (at kv laws key s) ++ new_record r sub ∷ []
          else at kv laws j s)
  finish_subscribe_stored r sub key s (removed m) t h inv effect success j = ground (
    arith,
    save_effect kv laws sub.event key (m ++ new_record r sub ∷ []) t j h,
    others_of_count_zero r.source_app_id r.acting_user_id m,
    effect.0,
    effect.1,
    effect.3 j,
    inv key r.source_app_id r.acting_user_id,
  )
  finish_subscribe_stored r sub key s (failed all not_found) t h inv effect success j = ground (
    arith,
    save_effect kv laws sub.event key (all ++ new_record r sub ∷ []) t j h,
    others_of_count_zero r.source_app_id r.acting_user_id all,
    effect.0 refl,
    effect.1 j,
  )
  finish_subscribe_stored r sub key s (failed all _) t h inv effect success j = cc

  -- After a successful `Subscribe` the event's record holds the records of the other apps and
  -- users, in their order, and then the new one; the records of other events are as before.
  pub subscribe_stored :
      (apps : AppMaps) (r r' : Request) (sub : Event.Subscription) (key : Str) (s : S)
      → HasOneEach s
      → check_subscribe d apps r sub ≡ ok r'
      → subs_key sub.event ≡ ok key
      → (subscribe kv d apps r sub s).0 ≡ ok tt
      → (j : Str)
      → at kv laws j (subscribe kv d apps r sub s).1 ≡ (
          if key == j
          then own_others r' (at kv laws key s) ++ new_record r' sub ∷ []
          else at kv laws j s)
  subscribe_stored apps r r' sub key s inv h k success j =
      let after = unsubscribe_owner kv d r' r'.acting_user_id sub.event s in
      rw (subscribe_checked apps r r' sub s h) (
        finish_subscribe_stored r' sub key s after.0 after.1 k inv
          (unsubscribe_owner_effect kv laws d r' r'.acting_user_id sub.event key s k)
          (rw (subscribe_checked apps r r' sub s h) at success) j)
