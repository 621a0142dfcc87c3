-- ===== src/Store/Manifests.antt =====
-- The manifest store (server/store/manifest.go): the manifests of the marketplace, and the local ones,
-- which are kept in the key-value store under their hashes, the hashes in the configuration.
pub mod Getting
mod Tests
use mattermost_plugin_apps.Base.{
  Str, bytes, Bool, true, false, not, List, [], ◌∷◌, ◌++◌, Result, ok, err, not_found, Option, none,
  some, if◌then◌else◌, ◌==◌, is_empty,
}
use mattermost_plugin_apps.Base.Action.{Action}
use mattermost_plugin_apps.Base.Assoc.{Assoc, lookup, insert, remove}
use mattermost_plugin_apps.Apps.App.{Manifest}
use mattermost_plugin_apps.Store.Apps.{or_empty}
use mattermost_plugin_apps.Store.Kv.{Kv}

-- What the store uses of the configuration service: `LocalManifests`, and `StoreConfig` with another
-- value of it.
pub record LocalConfig (S : Type 0) : Type 0 where
  pub local_manifests : S → Assoc Str
  pub store : Assoc Str → Action S (Unit {0})

pub record Manifests : Type 0 where
  pub global : Assoc Manifest
  pub local : Assoc Manifest

pub record State (S : Type 0) : Type 0 where
  pub manifests : Manifests
  pub server : S

-- The JSON text of a manifest, `DecodeCompatibleManifest`, and the SHA-1 of a text.
pub record Codec : Type 0 where
  pub json : Manifest → Result Str
  pub decode : Str → Result Manifest
  pub sha : Str → Str

abbrev pub kv_local_manifest_prefix : Str
kv_local_manifest_prefix = bytes "man."

abbrev pub manifest_key : Str → Str
manifest_key sha = kv_local_manifest_prefix ++ sha

-- `Get`.
abbrev pub or_global : Option Manifest → Option Manifest → Result Manifest
or_global (some m) global = ok m
or_global none (some m) = ok m
or_global none none = err not_found

unfoldable pub get : Str → Manifests → Result Manifest
get id m = or_global (lookup id m.local) (lookup id m.global)

unfoldable pub put_each : Assoc Manifest → Assoc Manifest → Assoc Manifest
put_each [] out = out
put_each ((id, m) ∷ rest) out = insert id m (put_each rest out)

-- `AsMap`.
unfoldable pub as_map : Manifests → Assoc Manifest
as_map m = put_each m.local (put_each m.global [])

-- `InitGlobal`, of the data that was found at each location of the list: what cannot be read, or is of
-- another app, is passed over.
abbrev pub if_of : Str → Result Manifest → Assoc Manifest → Assoc Manifest
if_of id (err e) global = global
if_of id (ok m) global = if m.app_id == id then insert id m global else global

abbrev pub decoded : Codec → Result Str → Result Manifest
decoded codec (err e) = err e
decoded codec (ok text) = codec.decode text

unfoldable pub init_global : Codec → Assoc (Result Str) → Assoc Manifest
init_global codec [] = []
init_global codec ((id, text) ∷ found) = if_of id (decoded codec text) (init_global codec found)

module _ {S : Type 0} (kv : Kv S Str) (conf : LocalConfig S) (codec : Codec) where
  -- A round of `Configure`.
  abbrev pub or_skip : Str → Result Manifest → Assoc Manifest → Assoc Manifest
  or_skip id (ok m) out = insert id m out
  or_skip id (err e) out = out

  abbrev pub with_loaded : Str → Result (Option Str) → Assoc Manifest → Assoc Manifest
  with_loaded id (err e) out = out
  with_loaded id (ok text) out =
      if is_empty (or_empty text) then out else or_skip id (codec.decode (or_empty text)) out

  unfoldable pub load : Assoc Str → S → Assoc Manifest
  load [] s = []
  load ((id, sha) ∷ m) s = with_loaded id (kv.get (manifest_key sha) s) (load m s)

  -- `Configure`.
  unfoldable pub configure : State S → State S
  configure st = record st {
    manifests = record st.manifests { local = load (conf.local_manifests st.server) st.server };
  }

  -- The end of `StoreLocal`; that the previous record cannot be deleted is only logged.
  abbrev pub drop_previous : Str → Str → Result (Unit {0}) × S → Result (Unit {0}) × S
  drop_previous sha prev (err e, s) = (err e, s)
  drop_previous sha prev (ok t, s) =
      (ok tt, if sha == prev then s else (kv.delete (manifest_key prev) s).1)

  abbrev pub after_set : Manifest → Str → State S → Result Bool × S → Result (Unit {0}) × State S
  after_set m sha st (err e, s) = (err e, record st { server = s })
  after_set m sha st (ok b, s) =
      let hashes = conf.local_manifests st.server in
      let end =
        drop_previous sha (or_empty (lookup m.app_id hashes))
          (conf.store (insert m.app_id sha hashes) s) in
      (
        end.0,
        record {
          manifests = record st.manifests {
            local = insert m.app_id m (remove m.app_id st.manifests.local);
          };
          server = end.1;
        },
      )

  abbrev pub store_encoded : Manifest → Result Str → State S → Result (Unit {0}) × State S
  store_encoded m (err e) st = (err e, st)
  store_encoded m (ok text) st =
      after_set m (codec.sha text) st (kv.set (manifest_key (codec.sha text)) text st.server)

  abbrev pub versioned : Str → Manifest → Manifest
  versioned version m = record m { schema_version = version }

  -- `StoreLocal`; `version` is that of the plugin.
  unfoldable pub store_local : Str → Manifest → State S → Result (Unit {0}) × State S
  store_local version given st =
      store_encoded (versioned version given) (codec.json (versioned version given)) st

  abbrev pub after_delete : Str → State S → Result (Unit {0}) × S → Result (Unit {0}) × State S
  after_delete id st (err e, s) = (err e, record st { server = s })
  after_delete id st (ok t, s) =
      let end = conf.store (remove id (conf.local_manifests st.server)) s in
      (
        end.0,
        record {
          manifests = record st.manifests { local = remove id st.manifests.local };
          server = end.1;
        },
      )

  -- `DeleteLocal`, also of an app that has no local manifest, whose hash is empty.
  unfoldable pub delete_local : Str → State S → Result (Unit {0}) × State S
  delete_local id st =
      after_delete id st
        (kv.delete (manifest_key (or_empty (lookup id (conf.local_manifests st.server)))) st.server)
