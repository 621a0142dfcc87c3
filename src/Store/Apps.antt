-- ===== src/Store/Apps.antt =====
-- The app store (server/store/apps.go): the records of the installed apps are kept in the key-value
-- store under their hashes, the hashes in the configuration, and the records in memory too.
pub mod Coherence
pub mod Apart
pub mod Saving
pub mod Deleting
pub mod Listing
pub mod Sample
mod Tests
use mattermost_plugin_apps.Base.{
  Str, bytes, Bool, true, false, not, List, [], ◌∷◌, ◌++◌, Result, ok, err, not_found, Option, none,
  some, if◌then◌else◌, ◌==◌, ◌||◌,
}
use mattermost_plugin_apps.Base.Action.{Action}
use mattermost_plugin_apps.Base.Assoc.{Assoc, lookup, insert, remove}
use mattermost_plugin_apps.Apps.App.{App, Manifest}
use mattermost_plugin_apps.Apps.Deploy
use mattermost_plugin_apps.Apps.Deploy.{DeployType}
use mattermost_plugin_apps.Store.AppMaps
use mattermost_plugin_apps.Store.AppMaps.{AppMaps}
use mattermost_plugin_apps.Store.Kv.{Kv}

-- What the store uses of the configuration service: `InstalledApps`, and `StoreConfig` with another
-- value of it.
pub record InstalledConfig (S : Type 0) : Type 0 where
  pub installed_apps : S → Assoc Str
  pub store : Assoc Str → Action S (Unit {0})

-- The maps in memory, and the state of the server with its configuration.
pub record State (S : Type 0) : Type 0 where
  pub maps : AppMaps
  pub server : S

abbrev pub kv_installed_app_prefix : Str
kv_installed_app_prefix = bytes "app."

abbrev pub app_key : Str → Str
app_key sha = kv_installed_app_prefix ++ sha

abbrev pub or_empty : Option Str → Str
or_empty none = []
or_empty (some s) = s

-- The loop that "deletes prevSHA from the list by skipping".
unfoldable pub skip_value : Str → Assoc Str → Assoc Str
skip_value prev [] = []
skip_value prev ((id, sha) ∷ m) =
    let rest = skip_value prev m in if sha == prev then rest else (id, sha) ∷ rest

-- `InitBuiltin`.
unfoldable pub init_builtin : List App → AppMaps → AppMaps
init_builtin [] m = m
init_builtin (app ∷ more) m = init_builtin more (record m {
  builtin_installed =
      insert app.app_id (record app { deploy_type = DeployType.builtin }) m.builtin_installed;
})

-- The filter of `AsMap`: all apps, or those that are not disabled.
unfoldable pub enabled_only : Bool → Assoc App → Assoc App
enabled_only all [] = []
enabled_only all ((id, app) ∷ m) =
    let rest = enabled_only all m in if all || not app.disabled then (id, app) ∷ rest else rest

-- `out[appID] = app` for each entry.
unfoldable pub put_all : Assoc App → Assoc App → Assoc App
put_all [] out = out
put_all ((id, app) ∷ m) out = insert id app (put_all m out)

-- `AsMap`.
unfoldable pub as_map : Bool → AppMaps → Assoc App
as_map all m =
    put_all (enabled_only all m.builtin_installed) (put_all (enabled_only all m.installed) [])

module _ {S : Type 0} (kv : Kv S App) (conf : InstalledConfig S) where
  -- One round of `Configure`: a record that cannot be read or decoded is passed over.
  abbrev loaded : Str → Result (Option App) → Assoc App → Assoc App
  loaded id (ok (some app)) m = insert id app m
  loaded id (ok none) m = m
  loaded id (err e) m = m

  unfoldable pub load : Assoc Str → S → Assoc App
  load [] s = []
  load ((id, sha) ∷ m) s = loaded id (kv.get (app_key sha) s) (load m s)

  -- `Configure`.
  unfoldable pub configure : State S → State S
  configure st = record st {
    maps = record st.maps { installed = load (conf.installed_apps st.server) st.server };
  }

  -- The end of `Save`: the previous record goes. A failure of this is only logged.
  abbrev pub drop_previous : Str → Str → S → S
  drop_previous sha prev s = if sha == prev then s else (kv.delete (app_key prev) s).1

  abbrev pub after_store : Str → Str → Result (Unit {0}) → S → Result (Unit {0}) × S
  after_store sha prev (err e) s = (err e, s)
  after_store sha prev (ok t) s = (ok tt, drop_previous sha prev s)

  abbrev pub with_app : App → AppMaps → AppMaps
  with_app app m = record m { installed = insert app.app_id app (remove app.app_id m.installed) }

  abbrev pub after_set : App → Str → State S → Result Bool → S → Result (Unit {0}) × State S
  after_set app sha st (err e) s = (err e, record st { server = s })
  after_set app sha st (ok b) s =
      let prev = or_empty (lookup app.app_id (conf.installed_apps st.server)) in
      let updated = insert app.app_id sha (skip_value prev (conf.installed_apps st.server)) in
      let done = conf.store updated s in
      let end = after_store sha prev done.0 done.1 in
      (end.0, record { maps = with_app app st.maps; server = end.1 })

  -- `Save`; `hash` is the SHA-1 of the JSON of an app, `version` the version of the plugin.
  unfoldable pub save : (App → Str) → Str → App → State S → Result (Unit {0}) × State S
  save hash version given st =
      let app = record given { manifest = record given.manifest { schema_version = version } } in
      let done = kv.set (app_key (hash app)) app st.server in
      after_set app (hash app) st done.0 done.1

  abbrev pub after_delete : Str → State S → Result (Unit {0}) → S → Result (Unit {0}) × State S
  after_delete id st (err e) s = (err e, record st { server = s })
  after_delete id st (ok t) s =
      let done = conf.store (remove id (conf.installed_apps st.server)) s in
      (
        done.0,
        record {
          maps = record st.maps { installed = remove id st.maps.installed };
          server = done.1;
        },
      )

  abbrev pub delete_at : Str → Option Str → State S → Result (Unit {0}) × State S
  delete_at id none st = (err not_found, st)
  delete_at id (some sha) st =
      let done = kv.delete (app_key sha) st.server in after_delete id st done.0 done.1

  -- `Delete`.
  unfoldable pub delete : Str → State S → Result (Unit {0}) × State S
  delete id st = elim (lookup id st.maps.installed) [
    | none ↦ (err not_found, st)
    | some app ↦ delete_at id (lookup id (conf.installed_apps st.server)) st
  ]
