-- ===== src/Store/Manifests/Getting.antt =====
-- Which manifest `Get` gives.
use mattermost_plugin_apps.Base.{
  Str, Bool, ◌≡◌, refl, ◌∙◌, [], ◌∷◌, Result, ok, err, Option, none, some, if◌then◌else◌, ◌==◌,
  Bool-cases, inl, inr,
}
use mattermost_plugin_apps.Base.Assoc.{Assoc, lookup, insert, remove, lookup-insert, lookup-remove}
use mattermost_plugin_apps.Apps.App.{Manifest}
use mattermost_plugin_apps.Store.Kv.{Kv}
use mattermost_plugin_apps.Store.Manifests.{
  LocalConfig, Manifests, State, Codec, get, or_global, put_each, as_map, store_local,
  store_encoded, after_set, versioned, delete_local, after_delete,
}

-- The first of two optional manifests.
abbrev or_second : Option Manifest → Option Manifest → Option Manifest
or_second (some m) second = some m
or_second none second = second

lookup-put_each :
    (id : Str) (m out : Assoc Manifest)
    → lookup id (put_each m out) ≡ or_second (lookup id m) (lookup id out)
unfolding put_each lookup
lookup-put_each id [] out = refl
lookup-put_each id ((j, x) ∷ m) out = elim (Bool-cases (j == id)) [
  | inl e ↦ rw (lookup-insert j id x (put_each m out), e) refl
  | inr e ↦ rw (lookup-insert j id x (put_each m out), e) (lookup-put_each id m out)
]

abbrev listed : Result Manifest → Option Manifest
listed (ok m) = some m
listed (err e) = none

-- The map of all manifests has for an ID what `Get` gives for it: a local one hides that of the
-- marketplace.
pub lookup-as_map : (id : Str) (m : Manifests) → lookup id (as_map m) ≡ listed (get id m)
unfolding as_map get lookup
lookup-as_map id m =
    lookup-put_each id m.local (put_each m.global [])
    ∙ rw (lookup-put_each id m.global []) (by_cases (lookup id m.local) (lookup id m.global))
  where
    by_cases : (a b : Option Manifest) → or_second a (or_second b none) ≡ listed (or_global a b)
    by_cases none none = refl
    by_cases none (some b) = refl
    by_cases (some a) b = refl

module _ {S : Type 0} (kv : Kv S Str) (conf : LocalConfig S) (codec : Codec) where
  after_set_inversion :
      (m : Manifest) (sha : Str) (st : State S) (p : Result Bool × S)
      → (after_set kv conf codec m sha st p).0 ≡ ok tt
      → (after_set kv conf codec m sha st p).1.manifests
        ≡ record st.manifests { local = insert m.app_id m (remove m.app_id st.manifests.local) }
  after_set_inversion m sha st (err e, s) h = absurd (cc h)
  after_set_inversion m sha st (ok b, s) h = refl

  store_inversion :
      (m : Manifest) (text : Result Str) (st : State S)
      → (store_encoded kv conf codec m text st).0 ≡ ok tt
      → (store_encoded kv conf codec m text st).1.manifests
        ≡ record st.manifests { local = insert m.app_id m (remove m.app_id st.manifests.local) }
  store_inversion m (err e) st h = absurd (cc h)
  store_inversion m (ok text) st h = after_set_inversion m (codec.sha text) st _ h

  delete_inversion :
      (id : Str) (st : State S) (p : Result (Unit {0}) × S)
      → (after_delete kv conf codec id st p).0 ≡ ok tt
      → (after_delete kv conf codec id st p).1.manifests
        ≡ record st.manifests { local = remove id st.manifests.local }
  delete_inversion id st (err e, s) h = absurd (cc h)
  delete_inversion id st (ok t, s) h = refl

  lookup-replaced :
      (m : Manifest) (id : Str) (local : Assoc Manifest)
      → lookup id (insert m.app_id m (remove m.app_id local))
        ≡ (if m.app_id == id then some m else lookup id local)
  lookup-replaced m id local = elim (Bool-cases (m.app_id == id)) [
    | inl e ↦ rw (lookup-insert m.app_id id m (remove m.app_id local), e) refl
    | inr e ↦
        rw (lookup-insert m.app_id id m (remove m.app_id local), lookup-remove m.app_id id local, e)
          refl
  ]

  -- After a `StoreLocal` that succeeds `Get` gives the manifest, with the version of the plugin as its
  -- schema version, and the other manifests as before.
  pub get-store_local :
      (version : Str) (given : Manifest) (id : Str) (st : State S)
      → (store_local kv conf codec version given st).0 ≡ ok tt
      → get id (store_local kv conf codec version given st).1.manifests ≡ (
          if given.app_id == id
          then ok (versioned kv conf codec version given)
          else get id st.manifests)
  unfolding get store_local
  get-store_local version given id st h =
      let m = versioned kv conf codec version given in
      elim (Bool-cases (given.app_id == id)) [
        | inl e ↦ rw (store_inversion _ _ st h, lookup-replaced m id st.manifests.local, e) refl
        | inr e ↦ rw (store_inversion _ _ st h, lookup-replaced m id st.manifests.local, e) refl
      ]

  -- After a `DeleteLocal` that succeeds `Get` gives the manifest of the marketplace for the app, if
  -- there is one, and the others as before.
  pub get-delete_local :
      (deleted id : Str) (st : State S)
      → (delete_local kv conf codec deleted st).0 ≡ ok tt
      → get id (delete_local kv conf codec deleted st).1.manifests
        ≡ or_global
            (if deleted == id then none else lookup id st.manifests.local)
            (lookup id st.manifests.global)
  unfolding get delete_local
  get-delete_local deleted id st h =
      rw (delete_inversion deleted st _ h, lookup-remove deleted id st.manifests.local) refl
