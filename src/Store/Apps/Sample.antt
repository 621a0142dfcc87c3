-- ===== src/Store/Apps/Sample.antt =====
-- A server with its configuration in memory, and an app store on it, empty and with one app.
use mattermost_plugin_apps.Base.{Str, bytes, false, [], ◌∷◌, ◌≡◌, refl, ok, none}
use mattermost_plugin_apps.Base.Assoc.{Assoc, lookup, insert}
use mattermost_plugin_apps.Apps.App.{App, Manifest, RemoteWebhookAuthType}
use mattermost_plugin_apps.Apps.Deploy.{DeployType}
use mattermost_plugin_apps.Store.Kv.{Kv, KvLaws}
use mattermost_plugin_apps.Store.Kv.Memory.{Memory, memory, memory_laws}
use mattermost_plugin_apps.Store.Apps.{State, InstalledConfig, save, skip_value}
use mattermost_plugin_apps.Store.Apps.Coherence.{ConfigLaws, HashLaws, IsCoherent, recorded}
use mattermost_plugin_apps.Store.Apps.Saving.{save-IsCoherent}

abbrev pub Server : Type 0
Server = Memory App × Assoc Str

abbrev pub kv : Kv Server App
kv = record {
  get = λ k s. memory.get k s.0;
  set = λ k v s. ((memory.set k v s.0).0, ((memory.set k v s.0).1, s.1));
  delete = λ k s. ((memory.delete k s.0).0, ((memory.delete k s.0).1, s.1));
}

abbrev pub laws : KvLaws kv
laws = record {
  read = λ k s. memory_laws.read k s.0;
  get_ok = λ k s o h. memory_laws.get_ok k s.0 o h;
  get_err = λ k s e h. memory_laws.get_err k s.0 e h;
  set_ok = λ k j v s b h. memory_laws.set_ok k j v s.0 b h;
  set_err = λ k j v s e h. memory_laws.set_err k j v s.0 e h;
  delete_ok = λ k j s h. memory_laws.delete_ok k j s.0 h;
  delete_err = λ k j s e h. memory_laws.delete_err k j s.0 e h;
}

abbrev pub conf : InstalledConfig Server
conf = record { installed_apps = λ s. s.1; store = λ m s. (ok tt, (s.0, m)) }

abbrev pub config_laws : ConfigLaws kv laws conf
config_laws = record {
  store_ok = λ m s h. refl;
  store_keeps = λ m k s. refl;
  set_keeps = λ k app s. refl;
  delete_keeps = λ k s. refl;
}

abbrev pub hash : App → Str
hash app = b'x' ∷ app.app_id

abbrev pub hash_laws : HashLaws hash
hash_laws = record { apart = λ a b h. cc h; given = λ a. refl }

abbrev pub manifest : Manifest
manifest = record {
  schema_version = [];
  app_id = bytes "app1";
  version = bytes "v1";
  homepage_url = [];
  display_name = bytes "App";
  description = [];
  icon = [];
  bindings = none;
  on_install = none;
  on_version_changed = none;
  on_uninstall = none;
  on_enable = none;
  on_disable = none;
  get_oauth2_connect_url = none;
  on_oauth2_complete = none;
  on_remote_webhook = none;
  requested_permissions = [];
  remote_webhook_auth_type = RemoteWebhookAuthType.unset;
  requested_locations = [];
  deploy = record { http = none; open_faas = none; plugin = none };
}

abbrev pub sample : App
sample = record {
  manifest = manifest;
  deploy_type = DeployType.http;
  disabled = false;
  secret = [];
  webhook_secret = [];
  bot_user_id = [];
  bot_username = [];
  mattermost_oauth2 = none;
  remote_oauth2 = [];
  granted_permissions = [];
  granted_locations = [];
}

abbrev pub empty : State Server
empty = record {
  maps = record { installed = []; builtin_installed = [] };
  server = ((false, []), []);
}

pub empty-IsCoherent : IsCoherent kv laws conf hash empty
unfolding recorded lookup
empty-IsCoherent = record { in_memory = λ id. refl; hashed = λ id sha h. absurd (cc h) }

pub saved : (save kv conf hash (bytes "v2") sample empty).0 ≡ ok tt
unfolding save insert skip_value lookup
saved = refl

abbrev pub full : State Server
full = (save kv conf hash (bytes "v2") sample empty).1

pub full-IsCoherent : IsCoherent kv laws conf hash full
full-IsCoherent =
    (save-IsCoherent kv laws conf config_laws hash hash_laws (bytes "v2") sample empty
      empty-IsCoherent saved).0
