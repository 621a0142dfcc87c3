-- ===== src/Proxy/Lifecycle/Stored.antt =====
-- The app store (server/store/apps.go) is what the life cycle of apps takes it for.
use mattermost_plugin_apps.Base.{
  Str, true, false, ◌≡◌, refl, sym, ◌∙◌, ok, some, Option-cases, Result-cases, inl, inr,
}
use mattermost_plugin_apps.Base.Assoc.{Assoc, lookup}
use mattermost_plugin_apps.Apps.App.{App}
use mattermost_plugin_apps.Apps.Deploy.{same, builtin}
use mattermost_plugin_apps.Store.AppMaps
use mattermost_plugin_apps.Store.AppMaps.{AppMaps}
use mattermost_plugin_apps.Store.Kv.{Kv, KvLaws}
use mattermost_plugin_apps.Store.Apps
use mattermost_plugin_apps.Store.Apps.{State, InstalledConfig}
use mattermost_plugin_apps.Store.Apps.Coherence.{ConfigLaws, HashLaws, IsCoherent, recorded}
use mattermost_plugin_apps.Store.Apps.Saving.{save-IsCoherent, versioned}
use mattermost_plugin_apps.Store.Apps.Deleting.{delete-IsCoherent}
use mattermost_plugin_apps.Proxy.Lifecycle.{AppStore}
use mattermost_plugin_apps.Proxy.Lifecycle.Steps.{AppStoreLaws}

module _ {S : Type 0} (kv : Kv S App) (laws : KvLaws kv) (conf : InstalledConfig S)
    (config_laws : ConfigLaws kv laws conf) (hash : App → Str) (hash_laws : HashLaws hash)
    (version : Str) where
  abbrev pub app_store : AppStore (State S)
  app_store = record {
    get = λ id st. AppMaps.get st.maps id;
    save = λ app st. Apps.save kv conf hash version app st;
    delete = λ id st. Apps.delete kv conf id st;
  }

  -- The apps in the map of builtin apps are builtin.
  abbrev pub AreBuiltin : Assoc App → Type 0
  AreBuiltin m =
      (id : Str) (app : App) → lookup id m ≡ some app → same app.deploy_type builtin ≡ true

  abbrev pub IsValidState : State S → Type 0
  IsValidState st = IsCoherent kv laws conf hash st × AreBuiltin st.maps.builtin_installed

  pub save-builtin_installed :
      (app : App) (st : State S)
      → (Apps.save kv conf hash version app st).1.maps.builtin_installed ≡ st.maps.builtin_installed
  unfolding Apps.save
  save-builtin_installed given st =
      let app = versioned kv laws conf config_laws hash hash_laws version given in
      elim (Result-cases (kv.set (Apps.app_key (hash app)) app st.server).0) [
        | inr (x, e) ↦ rw (e, Apps.save) refl
        | inl (b, e) ↦ rw (e, Apps.save) refl
      ]

  pub delete-builtin_installed :
      (id : Str) (st : State S)
      → (Apps.delete kv conf id st).1.maps.builtin_installed ≡ st.maps.builtin_installed
  unfolding Apps.delete
  delete-builtin_installed id st = elim (Option-cases (lookup id st.maps.installed)) [
    | inl e ↦ rw (e, Apps.delete) refl
    | inr (app, e) ↦ elim (Option-cases (lookup id (conf.installed_apps st.server))) [
      | inl k ↦ rw (e, k, Apps.delete) refl
      | inr (sha, k) ↦ elim (Result-cases (kv.delete (Apps.app_key sha) st.server).0) [
        | inr (x, j) ↦ rw (e, k, j, Apps.delete) refl
        | inl (t, j) ↦ rw (e, k, j, Apps.delete) refl
      ]
    ]
  ]

  installed_id :
      (id : Str) (st : State S) (app : App)
      → IsCoherent kv laws conf hash st
      → lookup id st.maps.installed ≡ some app
      → app.app_id ≡ id
  unfolding recorded
  installed_id id st app coherent h =
      let k = sym (coherent.in_memory id) ∙ h in
      elim (Option-cases (lookup id (conf.installed_apps st.server))) [
        | inl e ↦ let no = rw (recorded, e) at k in absurd (cc no)
        | inr (sha, e) ↦
            let (a, ra, ia, ha) = coherent.hashed id sha e in
            let k' = rw (recorded, e) at k in
            let same_app : app ≡ a = cc (sym k' ∙ ra) in rw same_app ia
      ]

  pub get_installed :
      (id : Str) (st : State S) (app : App)
      → IsValidState st
      → AppMaps.get st.maps id ≡ ok app
      → same app.deploy_type builtin ≡ false
      → (lookup id st.maps.installed ≡ some app) × (app.app_id ≡ id)
  unfolding AppMaps.get
  get_installed id st app (coherent, builtins) h k =
      elim (Option-cases (lookup id st.maps.builtin_installed)) [
        | inr (a, e) ↦
            let found = rw (AppMaps.get, e) at h in
            let same_app : a ≡ app = cc found in
            let yes = builtins id a e in let no = rw (same_app, k) at yes in absurd (cc no)
        | inl e ↦ elim (Option-cases (lookup id st.maps.installed)) [
          | inl j ↦ let no = rw (AppMaps.get, e, j) at h in absurd (cc no)
          | inr (a, j) ↦
              let found = rw (AppMaps.get, e, j) at h in
              let same_app : a ≡ app = cc found in
              let at_id = rw same_app at j in (at_id, installed_id id st app coherent at_id)
        ]
      ]

  abbrev pub app_store_laws : AppStoreLaws app_store
  app_store_laws = record {
    IsValid = IsValidState;
    view = λ id st. lookup id st.maps.installed;
    stored_as = versioned kv laws conf config_laws hash hash_laws version;
    get_ok = λ id st app v h k. get_installed id st app v h k;
    save_ok = λ app st v h.
        let (coherent, records) =
          save-IsCoherent kv laws conf config_laws hash hash_laws version app st v.0 h in
        ((coherent, rw (save-builtin_installed app st) v.1), records);
    delete_ok = λ id st v h.
        let (coherent, records) =
          delete-IsCoherent kv laws conf config_laws hash hash_laws id st v.0 h in
        ((coherent, rw (delete-builtin_installed id st) v.1), records);
  }
