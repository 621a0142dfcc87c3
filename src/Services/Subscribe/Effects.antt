-- ===== src/Services/Subscribe/Effects.antt =====
-- What saving, removing and adding a subscription do to the records of every event.
use mathlib.Core.Path.{subst⁻¹}
use mattermost_plugin_apps.Base.{
  Str, suc, ◌≡◌, ◌≤◌, refl, sym, List, [], ◌∷◌, Option, none, some, arith, ok, err, Error, other,
  not_found, if◌then◌else◌, ◌==◌, succeeds, Result-cases, Option-cases, Bool-cases, inl, inr,
}
use mattermost_plugin_apps.Incoming.{Request, Directory}
use mattermost_plugin_apps.Apps.Event.{Event}
use mattermost_plugin_apps.Store.Kv.{Kv, KvLaws}
use mattermost_plugin_apps.Store.Subscriptions.{
  Subscription, Stored, null, stored, subs_key, get, save,
}
use mattermost_plugin_apps.Services.Subscribe.{
  take_own, Removal, removed, failed, after_save, may_remove, remove_found, unsubscribe_owner,
}
use mattermost_plugin_apps.Services.Subscribe.Records.{
  others, count_own, take_own_lem, count_own_of_take_none, count_own-take_le,
}

-- The subscriptions of a record; no record and the JSON null hold none.
abbrev pub subscriptions : Option Stored → List Subscription
subscriptions none = []
subscriptions (some null) = []
subscriptions (some (stored e subs)) = subs

module _ {S : Type 0} (kv : Kv S Stored) (laws : KvLaws kv) where
  -- The subscriptions that are stored under a key.
  abbrev pub at : Str → S → List Subscription
  at key s = subscriptions (laws.read key s)

  -- Saving a list changes the record of its event, or nothing if it fails.
  pub save_effect :
      (e : Event) (key : Str) (subs : List Subscription) (s : S) (j : Str)
      → subs_key e ≡ ok key
      → at j (save kv e subs s).1
        ≡ (if succeeds (save kv e subs s).0 then (if key == j then subs else at j s) else at j s)
  unfolding save
  save_effect e key [] s j h = elim (Result-cases (kv.delete key s).0) [
    | inl (u, k) ↦ ground (arith, laws.delete_ok key j s k)
    | inr (x, k) ↦ ground (arith, laws.delete_err key j s x k)
  ]
  save_effect e key (sub ∷ subs) s j h =
      elim (Result-cases (kv.set key (stored e (sub ∷ subs)) s).0) [
        | inl (u, k) ↦ ground (arith, laws.set_ok key j (stored e (sub ∷ subs)) s u k)
        | inr (x, k) ↦ ground (arith, laws.set_err key j (stored e (sub ∷ subs)) s x k)
      ]

  save_err :
      (e : Event) (key : Str) (subs : List Subscription) (s : S) (x : Error)
      → subs_key e ≡ ok key
      → (save kv e subs s).0 ≡ err x
      → x ≡ other
  unfolding save
  save_err e key [] s x h k = elim (Result-cases (kv.delete key s).0) [
    | inl (u, m) ↦ ground arith
    | inr (y, m) ↦ ground (arith, laws.delete_err key key s y m)
  ]
  save_err e key (sub ∷ subs) s x h k =
      elim (Result-cases (kv.set key (stored e (sub ∷ subs)) s).0) [
        | inl (u, m) ↦ ground arith
        | inr (y, m) ↦ ground (arith, laws.set_err key key (stored e (sub ∷ subs)) s y m)
      ]

  get_ok :
      (e : Event) (key : Str) (s : S) (all : List Subscription)
      → subs_key e ≡ ok key
      → get kv e s ≡ ok all
      → all ≡ at key s
  unfolding get
  get_ok e key s all h k = elim (Result-cases (kv.get key s)) [
    | inl (o, m) ↦ ground (arith, laws.get_ok key s o m)
    | inr (x, m) ↦ ground arith
  ]

  -- Where the store answers that it found nothing, nothing is stored.
  get_not_found :
      (e : Event) (key : Str) (s : S)
      → subs_key e ≡ ok key
      → get kv e s ≡ err not_found
      → at key s ≡ []
  unfolding get
  get_not_found e key s h k = elim (Result-cases (kv.get key s)) [
    | inl (o, m) ↦ ground (arith, laws.get_ok key s o m)
    | inr (x, m) ↦ ground (arith, laws.get_err key s x m)
  ]

  -- What a removal leaves behind. If a record was removed, it was an own one, the list that is
  -- returned is stored, and no other key is touched; a failure touches nothing, and one with the
  -- cause `not_found` returns what is stored, in which there is no own record.
  abbrev pub RemovalEffect : Str → Str → Str → S → Removal × S → Type 0
  RemovalEffect app owner key s (removed m, s') =
      (others app owner m ≡ others app owner (at key s))
      × (count_own app owner (at key s) ≡ suc (count_own app owner m))
      × ((a o : Str) → count_own a o m ≤ count_own a o (at key s))
      × ((j : Str) → at j s' ≡ (if key == j then m else at j s))
  RemovalEffect app owner key s (failed all x, s') =
      (x ≡ not_found → (all ≡ at key s) × (count_own app owner all ≡ 0))
      × ((j : Str) → at j s' ≡ at j s)

  after_save_effect :
      (app owner : Str) (d : Directory) (e : Event) (key : Str) (m : List Subscription) (s : S)
      → subs_key e ≡ ok key
      → others app owner m ≡ others app owner (at key s)
      → count_own app owner (at key s) ≡ suc (count_own app owner m)
      → ((a o : Str) → count_own a o m ≤ count_own a o (at key s))
      → RemovalEffect app owner key s (after_save kv d m (save kv e m s))
  after_save_effect app owner d e key m s h same less le = elim (Result-cases (save kv e m s).0) [
    | inl (u, k) ↦ rw k (same, less, le, λ j. ground (arith, save_effect e key m s j h))
    | inr (x, k) ↦ rw k (
      (λ n. absurd (ground (arith, save_err e key m s x h k))),
      λ j. ground (arith, save_effect e key m s j h),
    )
  ]

  remove_found_effect :
      (d : Directory) (r : Request) (owner : Str) (e : Event) (key : Str) (all : List Subscription)
      (s : S)
      → subs_key e ≡ ok key
      → all ≡ at key s
      → RemovalEffect r.source_app_id owner key s
          (remove_found kv d r e all (take_own r.source_app_id owner all) s)
  remove_found_effect d r owner e key all s h same_list =
      elim (Option-cases (take_own r.source_app_id owner all)) [
        | inl k ↦
            rw k ((λ n. (same_list, count_own_of_take_none r.source_app_id owner all k)), λ j. refl)
        | inr (p, k) ↦ elim (Bool-cases (may_remove kv d r p.0)) [
          | inr refused ↦ rw (k, refused) ((λ n. absurd (ground arith)), λ j. refl)
          | inl may ↦
              let (own, same, less) = take_own_lem r.source_app_id owner all p.0 p.1 k in
              rw (k, may)
                (after_save_effect r.source_app_id owner d e key p.1 s h (rw (← same_list) same)
                  (rw (← same_list) less)
                  (λ a o.
                    rw (← same_list) (count_own-take_le r.source_app_id owner a o all p.0 p.1 k)))
        ]
      ]

  unsubscribe_owner_found :
      (d : Directory) (r : Request) (owner : Str) (e : Event) (s : S) (all : List Subscription)
      → get kv e s ≡ ok all
      → unsubscribe_owner kv d r owner e s
        ≡ remove_found kv d r e all (take_own r.source_app_id owner all) s
  unfolding unsubscribe_owner
  unsubscribe_owner_found d r owner e s all k = rw (k, unsubscribe_owner)

  unsubscribe_owner_failed :
      (d : Directory) (r : Request) (owner : Str) (e : Event) (s : S) (x : Error)
      → get kv e s ≡ err x
      → unsubscribe_owner kv d r owner e s ≡ (failed [] x, s)
  unfolding unsubscribe_owner
  unsubscribe_owner_failed d r owner e s x k = rw (k, unsubscribe_owner)

  pub unsubscribe_owner_effect :
      (d : Directory) (r : Request) (owner : Str) (e : Event) (key : Str) (s : S)
      → subs_key e ≡ ok key
      → RemovalEffect r.source_app_id owner key s (unsubscribe_owner kv d r owner e s)
  unfolding count_own
  unsubscribe_owner_effect d r owner e key s h = elim (Result-cases (get kv e s)) [
    | inl (all, k) ↦
        subst⁻¹ (RemovalEffect r.source_app_id owner key s)
          (unsubscribe_owner_found d r owner e s all k)
          (remove_found_effect d r owner e key all s h (get_ok e key s all h k))
    | inr (x, k) ↦
        subst⁻¹ (RemovalEffect r.source_app_id owner key s)
          (unsubscribe_owner_failed d r owner e s x k)
          ((λ n. (sym (get_not_found e key s h (rw n at k)), refl)), λ j. refl)
  ]
