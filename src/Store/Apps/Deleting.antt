-- ===== src/Store/Apps/Deleting.antt =====
-- Deleting an app keeps memory, configuration and key-value store in agreement.
use mathlib.Core.Path.{subst⁻¹}
use mattermost_plugin_apps.Base.{
  Str, false, ◌≡◌, refl, sym, ◌∙◌, ok, none, some, if◌then◌else◌, ◌==◌, eq_comm, Bool-cases,
  Option-cases, Result-cases, inl, inr,
}
use mattermost_plugin_apps.Base.Assoc.{Assoc, lookup, remove, lookup-remove}
use mattermost_plugin_apps.Apps.App.{App}
use mattermost_plugin_apps.Store.Kv.{Kv, KvLaws}
use mattermost_plugin_apps.Store.Apps.{State, InstalledConfig, app_key, delete}
use mattermost_plugin_apps.Store.Apps.Coherence.{ConfigLaws, HashLaws, IsCoherent, recorded}
use mattermost_plugin_apps.Store.Apps.Apart.{hashes_apart}
use mattermost_plugin_apps.Store.Apps.Saving.{read-delete}

module _ {S : Type 0} (kv : Kv S App) (laws : KvLaws kv) (conf : InstalledConfig S)
    (config_laws : ConfigLaws kv laws conf) (hash : App → Str) (hash_laws : HashLaws hash) where
  abbrev remaining : Str → State S → Assoc Str
  remaining id st = remove id (conf.installed_apps st.server)

  abbrev after_delete : Str → Str → State S → S
  after_delete id sha st = (conf.store (remaining id st) (kv.delete (app_key sha) st.server).1).1

  delete_inversion :
      (id : Str) (st : State S)
      → (delete kv conf id st).0 ≡ ok tt
      → (sha : Str) × (lookup id (conf.installed_apps st.server) ≡ some sha)
        × ((conf.store (remaining id st) (kv.delete (app_key sha) st.server).1).0 ≡ ok tt)
        × ((delete kv conf id st).1 ≡ record {
          maps = record st.maps { installed = remove id st.maps.installed };
          server = after_delete id sha st;
        })
  unfolding delete
  delete_inversion id st h = elim (Option-cases (lookup id st.maps.installed)) [
    | inl e ↦ cc (rw (e, delete) at h)
    | inr (app, e) ↦ elim (Option-cases (lookup id (conf.installed_apps st.server))) [
      | inl k ↦ cc (rw (e, k, delete) at h)
      | inr (sha, k) ↦ elim (Result-cases (kv.delete (app_key sha) st.server).0) [
        | inr (x, d) ↦ cc (rw (e, k, d, delete) at h)
        | inl (t, d) ↦ (sha, k, rw (e, k, d, delete) at h, rw (e, k, d, delete) refl)
      ]
    ]
  ]

  module _ (id sha : Str) (st : State S) (coherent : IsCoherent kv laws conf hash st)
      (found : lookup id (conf.installed_apps st.server) ≡ some sha)
      (stored : (conf.store (remaining id st) (kv.delete (app_key sha) st.server).1).0
        ≡ ok tt) where
    installed_after : conf.installed_apps (after_delete id sha st) ≡ remaining id st
    installed_after =
        config_laws.store_ok (remaining id st) (kv.delete (app_key sha) st.server).1 stored

    lookup_after :
        (j : Str)
        → lookup j (conf.installed_apps (after_delete id sha st))
          ≡ (if id == j then none else lookup j (conf.installed_apps st.server))
    lookup_after j = rw installed_after (lookup-remove id j (conf.installed_apps st.server))

    read_other :
        (j sha' : Str)
        → (id == j) ≡ false
        → lookup j (conf.installed_apps st.server) ≡ some sha'
        → laws.read (app_key sha') (after_delete id sha st) ≡ laws.read (app_key sha') st.server
    read_other j sha' e k =
        config_laws.store_keeps (remaining id st) (app_key sha')
          (kv.delete (app_key sha) st.server).1
        ∙ read-delete kv laws conf config_laws hash hash_laws sha sha' st.server (
            eq_comm sha sha'
            ∙ hashes_apart kv laws conf hash hash_laws st id j sha sha' coherent found k e)

    recorded_after :
        (j : Str)
        → recorded kv laws conf j (after_delete id sha st)
          ≡ (if id == j then none else recorded kv laws conf j st.server)
    unfolding recorded
    recorded_after j = elim (Bool-cases (id == j)) [
      | inl e ↦ rw (lookup_after j, e) refl
      | inr e ↦ elim (Option-cases (lookup j (conf.installed_apps st.server))) [
        | inl k ↦ rw (lookup_after j, e, k) refl
        | inr (sha', k) ↦ rw (lookup_after j, e, k) (read_other j sha' e k)
      ]
    ]

    hashed_after :
        (j sha' : Str)
        → lookup j (conf.installed_apps (after_delete id sha st)) ≡ some sha'
        → (a : App) × (laws.read (app_key sha') (after_delete id sha st) ≡ some a)
          × (a.app_id ≡ j)
          × (hash a ≡ sha')
    hashed_after j sha' h = elim (Bool-cases (id == j)) [
      | inl e ↦ let gone = rw (lookup_after j, e) at h in absurd (cc gone)
      | inr e ↦
          let k = rw (lookup_after j, e) at h in
          let (a, ra, ia, ha) = coherent.hashed j sha' k in (a, read_other j sha' e k ∙ ra, ia, ha)
    ]

  -- If memory, configuration and key-value store agree, apps with different IDs never have the same
  -- SHA-1, and `Delete` succeeds, then they agree afterwards: in all three the record of the app is gone, and those of all other apps are as
  -- before.
  pub delete-IsCoherent :
      (id : Str) (st : State S)
      → IsCoherent kv laws conf hash st
      → (delete kv conf id st).0 ≡ ok tt
      → let st' = (delete kv conf id st).1 in
        IsCoherent kv laws conf hash st'
        × ((j : Str)
            → lookup j st'.maps.installed ≡ (if id == j then none else lookup j st.maps.installed))
  delete-IsCoherent id st coherent h =
      let (sha, found, stored, end) = delete_inversion id st h in
      subst⁻¹
        (λ (st' : State S).
          IsCoherent kv laws conf hash st'
          × ((j : Str)
              → lookup j st'.maps.installed
                ≡ (if id == j then none else lookup j st.maps.installed)))
        end
        (
          record {
            in_memory = λ j.
                lookup-remove id j st.maps.installed
                ∙ rw (coherent.in_memory j)
                    (sym (recorded_after id sha st coherent found stored j));
            hashed = hashed_after id sha st coherent found stored;
          },
          λ j. lookup-remove id j st.maps.installed,
        )
