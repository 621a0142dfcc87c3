-- ===== src/Store/Apps/Saving.antt =====
-- Saving an app keeps memory, configuration and key-value store in agreement.
use mathlib.Core.Path.{subst, subst⁻¹}
use mattermost_plugin_apps.Base.{
  Str, Bool, true, false, ◌≡◌, ◌⊎◌, refl, sym, ◌∙◌, ok, some, if◌then◌else◌, ◌==◌, eq_refl,
  eq_sound, eq_comm, Bool-cases, Option-cases, Result-cases, inl, inr,
}
use mattermost_plugin_apps.Base.Assoc.{Assoc, lookup, insert, remove, lookup-insert, lookup-remove}
use mattermost_plugin_apps.Apps.App.{App}
use mattermost_plugin_apps.Store.Kv.{Kv, KvLaws}
use mattermost_plugin_apps.Store.Apps.{
  State, InstalledConfig, app_key, skip_value, save, drop_previous, or_empty, with_app,
}
use mattermost_plugin_apps.Store.Apps.Coherence.{
  ConfigLaws, HashLaws, IsCoherent, recorded, lookup-skip_value, app_key_eq,
}
use mattermost_plugin_apps.Store.Apps.Apart.{hash_apart, prev_apart}

module _ {S : Type 0} (kv : Kv S App) (laws : KvLaws kv) (conf : InstalledConfig S)
    (config_laws : ConfigLaws kv laws conf) (hash : App → Str) (hash_laws : HashLaws hash) where
  -- Deleting a record leaves those under other hashes.
  pub read-delete :
      (sha v : Str) (s : S)
      → (sha == v) ≡ false
      → laws.read (app_key v) (kv.delete (app_key sha) s).1 ≡ laws.read (app_key v) s
  read-delete sha v s h = elim (Result-cases (kv.delete (app_key sha) s).0) [
    | inl (t, e) ↦ laws.delete_ok (app_key sha) (app_key v) s e ∙ rw (app_key_eq sha v, h) refl
    | inr (x, e) ↦ (laws.delete_err (app_key sha) (app_key v) s x e).1
  ]

  read-drop_previous :
      (sha prev v : Str) (s : S)
      → (prev == v) ≡ false ⊎ (sha == v) ≡ true
      → laws.read (app_key v) (drop_previous kv conf sha prev s) ≡ laws.read (app_key v) s
  read-drop_previous sha prev v s h = elim (Bool-cases (sha == prev)) [
    | inl e ↦ rw e refl
    | inr e ↦ rw e (read-delete prev v s (other v h e))
  ]
    where
      other :
          (w : Str)
          → ((prev == w) ≡ false ⊎ (sha == w) ≡ true)
          → (sha == prev) ≡ false
          → (prev == w) ≡ false
      other w (inl k) e = k
      other w (inr k) e = rw (← eq_sound sha w k) (eq_comm prev sha ∙ e)

  installed-drop_previous :
      (sha prev : Str) (s : S)
      → conf.installed_apps (drop_previous kv conf sha prev s) ≡ conf.installed_apps s
  installed-drop_previous sha prev s = elim (Bool-cases (sha == prev)) [
    | inl e ↦ rw e refl
    | inr e ↦ rw e (config_laws.delete_keeps (app_key prev) s)
  ]

  abbrev pub versioned : Str → App → App
  versioned version given = record given {
    manifest = record given.manifest { schema_version = version };
  }

  -- The record that `Save` replaces, the configuration that it stores, and the states of the server
  -- after its steps.
  abbrev prev_of : App → State S → Str
  prev_of app st = or_empty (lookup app.app_id (conf.installed_apps st.server))

  abbrev updated_of : App → State S → Assoc Str
  updated_of app st =
      insert app.app_id (hash app) (skip_value (prev_of app st) (conf.installed_apps st.server))

  abbrev after_set : App → State S → S
  after_set app st = (kv.set (app_key (hash app)) app st.server).1

  abbrev after_store : App → State S → S
  after_store app st = (conf.store (updated_of app st) (after_set app st)).1

  abbrev after_save : App → State S → S
  after_save app st = drop_previous kv conf (hash app) (prev_of app st) (after_store app st)

  -- A `Save` that succeeds has come through its steps.
  save_inversion :
      (version : Str) (given : App) (st : State S)
      → (save kv conf hash version given st).0 ≡ ok tt
      → let app = versioned version given in
        (b : Bool) × ((kv.set (app_key (hash app)) app st.server).0 ≡ ok b)
        × ((conf.store (updated_of app st) (after_set app st)).0 ≡ ok tt)
        × ((save kv conf hash version given st).1
            ≡ record { maps = with_app kv conf app st.maps; server = after_save app st })
  unfolding save
  save_inversion version given st h =
      let app = versioned version given in
      elim (Result-cases (kv.set (app_key (hash app)) app st.server).0) [
        | inr (x, e) ↦ cc (rw (e, save) at h)
        | inl (b, e) ↦ elim (Result-cases (conf.store (updated_of app st) (after_set app st)).0) [
          | inr (x, k) ↦ cc (rw (e, k, save) at h)
          | inl (t, k) ↦ (b, e, k, rw (e, k, save) refl)
        ]
      ]

  module _ (st : State S) (app : App) (coherent : IsCoherent kv laws conf hash st) (b : Bool)
      (set : (kv.set (app_key (hash app)) app st.server).0 ≡ ok b)
      (stored : (conf.store (updated_of app st) (after_set app st)).0 ≡ ok tt) where
    installed_after : conf.installed_apps (after_save app st) ≡ updated_of app st
    installed_after =
        installed-drop_previous (hash app) (prev_of app st) (after_store app st)
        ∙ config_laws.store_ok (updated_of app st) (after_set app st) stored

    read_after :
        (v : Str)
        → (prev_of app st == v) ≡ false ⊎ (hash app == v) ≡ true
        → laws.read (app_key v) (after_save app st)
          ≡ (if hash app == v then some app else laws.read (app_key v) st.server)
    read_after v h =
        read-drop_previous (hash app) (prev_of app st) v (after_store app st) h
        ∙ config_laws.store_keeps (updated_of app st) (app_key v) (after_set app st)
        ∙ laws.set_ok (app_key (hash app)) (app_key v) app st.server b set
        ∙ rw (app_key_eq (hash app) v) refl

    -- The record of another app is where it was.
    lookup_other :
        (id : Str)
        → (app.app_id == id) ≡ false
        → lookup id (updated_of app st) ≡ lookup id (conf.installed_apps st.server)
    lookup_other id apart =
        lookup-insert app.app_id id (hash app)
          (skip_value (prev_of app st) (conf.installed_apps st.server))
        ∙ rw apart (
            lookup-skip_value (prev_of app st) id (conf.installed_apps st.server)
              (λ sha h. prev_apart kv laws conf hash hash_laws st app id sha coherent apart h))

    read_other :
        (id sha : Str)
        → (app.app_id == id) ≡ false
        → lookup id (conf.installed_apps st.server) ≡ some sha
        → laws.read (app_key sha) (after_save app st) ≡ laws.read (app_key sha) st.server
    read_other id sha apart h =
        read_after sha (
          inl (
            eq_comm (prev_of app st) sha
            ∙ prev_apart kv laws conf hash hash_laws st app id sha coherent apart h))
        ∙ rw (hash_apart kv laws conf hash hash_laws st app id sha coherent h apart) refl

    read_own : laws.read (app_key (hash app)) (after_save app st) ≡ some app
    read_own = read_after (hash app) (inr (eq_refl (hash app))) ∙ rw (eq_refl (hash app)) refl

    lookup_own : lookup app.app_id (updated_of app st) ≡ some (hash app)
    lookup_own =
        lookup-insert app.app_id app.app_id (hash app)
          (skip_value (prev_of app st) (conf.installed_apps st.server))
        ∙ rw (eq_refl app.app_id) refl

    recorded_own : recorded kv laws conf app.app_id (after_save app st) ≡ some app
    unfolding recorded
    recorded_own = rw (installed_after, lookup_own) read_own

    recorded_after :
        (id : Str)
        → recorded kv laws conf id (after_save app st)
          ≡ (if app.app_id == id then some app else recorded kv laws conf id st.server)
    unfolding recorded
    recorded_after id = elim (Bool-cases (app.app_id == id)) [
      | inl e ↦ rw e (
          subst (λ j. recorded kv laws conf j (after_save app st) ≡ some app)
            (eq_sound app.app_id id e) recorded_own)
      | inr e ↦ elim (Option-cases (lookup id (conf.installed_apps st.server))) [
        | inl k ↦ rw (installed_after, lookup_other id e, k, e) refl
        | inr (sha, k) ↦ rw (installed_after, lookup_other id e, k, e) (read_other id sha e k)
      ]
    ]

    in_memory_after :
        (id : Str)
        → lookup id (with_app kv conf app st.maps).installed
          ≡ (if app.app_id == id then some app else lookup id st.maps.installed)
    in_memory_after id =
        lookup-insert app.app_id id app (remove app.app_id st.maps.installed)
        ∙ elim (Bool-cases (app.app_id == id))
            as (λ x.
              (if app.app_id == id
                then some app
                else lookup id (remove app.app_id st.maps.installed))
              ≡ (if app.app_id == id then some app else lookup id st.maps.installed)) [
                | inl e ↦ rw e refl
                | inr e ↦ rw (lookup-remove app.app_id id st.maps.installed, e) refl
              ]

    hashed_after :
        (id sha : Str)
        → lookup id (conf.installed_apps (after_save app st)) ≡ some sha
        → (a : App) × (laws.read (app_key sha) (after_save app st) ≡ some a)
          × (a.app_id ≡ id)
          × (hash a ≡ sha)
    hashed_after id sha h = elim (Bool-cases (app.app_id == id)) [
      | inl e ↦
          let ids = eq_sound app.app_id id e in
          let found : some (hash app) ≡ some sha =
            sym lookup_own
            ∙ subst⁻¹ (λ j. lookup j (updated_of app st) ≡ some sha) ids
                (rw installed_after at h) in
          let same : hash app ≡ sha = cc found in (app, rw (← same) read_own, ids, same)
      | inr e ↦
          let found = sym (lookup_other id e) ∙ (rw installed_after at h) in
          let (a, ra, ia, ha) = coherent.hashed id sha found in
          (a, read_other id sha e found ∙ ra, ia, ha)
    ]

  -- If memory, configuration and key-value store agree, apps with different IDs never have the same
  -- SHA-1, and `Save` succeeds, then they agree afterwards: in all three the app, with the version of the plugin as its schema version, replaces
  -- the record of its ID, and the records of all other apps are as before.
  pub save-IsCoherent :
      (version : Str) (given : App) (st : State S)
      → IsCoherent kv laws conf hash st
      → (save kv conf hash version given st).0 ≡ ok tt
      → let app = versioned version given in
        let st' = (save kv conf hash version given st).1 in
        IsCoherent kv laws conf hash st'
        × ((id : Str)
            → lookup id st'.maps.installed
              ≡ (if given.app_id == id then some app else lookup id st.maps.installed))
  save-IsCoherent version given st coherent h =
      let app = versioned version given in
      let (b, set, stored, end) = save_inversion version given st h in
      subst⁻¹
        (λ (st' : State S).
          IsCoherent kv laws conf hash st'
          × ((id : Str)
              → lookup id st'.maps.installed
                ≡ (if given.app_id == id then some app else lookup id st.maps.installed)))
        end
        (
          record {
            in_memory = λ id.
                in_memory_after st app coherent b set stored id
                ∙ rw (coherent.in_memory id) (sym (recorded_after st app coherent b set stored id));
            hashed = hashed_after st app coherent b set stored;
          },
          in_memory_after st app coherent b set stored,
        )
