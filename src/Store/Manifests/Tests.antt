-- ===== src/Store/Manifests/Tests.antt =====
-- A manifest that is stored locally.
use mattermost_plugin_apps.Base.{
  Str, bytes, false, ◌≡◌, refl, ok, err, other, [], if◌then◌else◌, ◌==◌,
}
use mattermost_plugin_apps.Base.Assoc.{Assoc, lookup, insert}
use mattermost_plugin_apps.Store.Apps.Sample
use mattermost_plugin_apps.Store.Kv.{Kv}
use mattermost_plugin_apps.Store.Kv.Memory.{Memory, memory}
use mattermost_plugin_apps.Store.Manifests.{LocalConfig, State, Codec, get, store_local, versioned}
use mattermost_plugin_apps.Store.Manifests.Getting.{get-store_local}

abbrev Server : Type 0
Server = Memory Str × Assoc Str

abbrev kv : Kv Server Str
kv = record {
  get = λ k s. memory.get k s.0;
  set = λ k v s. ((memory.set k v s.0).0, ((memory.set k v s.0).1, s.1));
  delete = λ k s. ((memory.delete k s.0).0, ((memory.delete k s.0).1, s.1));
}

abbrev conf : LocalConfig Server
conf = record { local_manifests = λ s. s.1; store = λ m s. (ok tt, (s.0, m)) }

abbrev codec : Codec
codec = record { json = λ m. ok m.app_id; decode = λ text. err other; sha = λ text. text }

abbrev empty : State Server
empty = record { manifests = record { global = []; local = [] }; server = ((false, []), []) }

stored : (store_local kv conf codec (bytes "v2") Sample.manifest empty).0 ≡ ok tt
unfolding store_local lookup insert
stored = refl

get-store_local_example :
    get (bytes "app1") (store_local kv conf codec (bytes "v2") Sample.manifest empty).1.manifests
    ≡ (if Sample.manifest.app_id == bytes "app1"
        then ok (versioned kv conf codec (bytes "v2") Sample.manifest)
        else get (bytes "app1") empty.manifests)
get-store_local_example =
    get-store_local kv conf codec (bytes "v2") Sample.manifest (bytes "app1") empty stored
