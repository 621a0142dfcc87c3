-- ===== src/Proxy/Lifecycle/Tests.antt =====
-- The life cycle of an app on an app store in memory.
use mattermost_plugin_apps.Base.{
  Str, bytes, Result-cases, inl, inr, Bool, true, false, ◌≡◌, ◌↔◌, refl, ok, err, other, Option,
  none, some, if◌then◌else◌, ◌==◌, Result, [],
}
use mattermost_plugin_apps.Base.Assoc.{lookup, insert, remove}
use mattermost_plugin_apps.Apps.App.{App}
use mattermost_plugin_apps.Apps.Deploy.{same, builtin}
use mattermost_plugin_apps.Incoming.{
  Request, Directory, require_sysadmin_or_plugin, require_acting_user,
}
use mattermost_plugin_apps.Store.AppMaps
use mattermost_plugin_apps.Store.Apps
use mattermost_plugin_apps.Store.Apps.{State, skip_value}
use mattermost_plugin_apps.Store.Apps.Sample.{
  Server, kv, laws, conf, config_laws, hash, hash_laws, sample, full, full-IsCoherent,
}
use mattermost_plugin_apps.Proxy.Lifecycle.{
  Effects, ResponseType, enable_app, disable_app, uninstall_app, get_installed_app,
  call_on_uninstall,
}
use mattermost_plugin_apps.Proxy.Lifecycle.Steps.{EffectsLaws, Keeps-refl}
use mattermost_plugin_apps.Proxy.Lifecycle.Enabling.{disable_app_lem, switched, before_disabling}
use mattermost_plugin_apps.Proxy.Lifecycle.Uninstalling.{uninstall_app_lem}
use mattermost_plugin_apps.Proxy.Lifecycle.Failing.{uninstall_app-Fails, Fails}
use mattermost_plugin_apps.Proxy.Lifecycle.Access.{get_installed_app_iff, reachable}
use mattermost_plugin_apps.Proxy.Lifecycle.Stored.{app_store, app_store_laws, IsValidState}
use mattermost_plugin_apps.Proxy.Lifecycle.{AppStore}
use mattermost_plugin_apps.Proxy.Lifecycle.Steps.{AppStoreLaws}

abbrev pub store : AppStore (State Server)
store = app_store kv laws conf config_laws hash hash_laws (bytes "v2")

abbrev store_laws : AppStoreLaws store
store_laws = app_store_laws kv laws conf config_laws hash hash_laws (bytes "v2")

-- A server that switches bots as told, and one that does not switch them off.
abbrev pub effects_with : (Bool → Result (Unit {0})) → Effects (State Server)
effects_with switch = record {
  call = λ app c s. (record { type = ResponseType.ok_type; text = bytes "done" }, s);
  update_bot = λ id b s. (switch b, s);
  delete_oauth_app = λ id s. (ok tt, s);
  delete_sessions = λ id s. (ok tt, s);
  remove_data = λ id s. (ok tt, s);
  unsubscribe_app = λ r id s. (ok tt, s);
  is_listed = λ id s. true;
}

effects_laws : (switch : Bool → Result (Unit {0})) → EffectsLaws store_laws (effects_with switch)
effects_laws switch = record {
  call_valid = λ app c s v. v;
  update_bot_keeps = λ id b s. Keeps-refl store_laws s;
  delete_oauth_app_keeps = λ id s. Keeps-refl store_laws s;
  delete_sessions_keeps = λ id s. Keeps-refl store_laws s;
  remove_data_keeps = λ id s. Keeps-refl store_laws s;
  unsubscribe_app_keeps = λ r id s. Keeps-refl store_laws s;
}

abbrev pub willing : Bool → Result (Unit {0})
willing b = ok tt

abbrev unwilling : Bool → Result (Unit {0})
unwilling b = if b then ok tt else err other

abbrev pub admin : Directory
admin = record {
  can_manage_system = λ id. true;
  can_view_members = λ id. true;
  can_read_channel = λ id c. true;
  can_view_team = λ id t. true;
  can_list_team_channels = λ id t. true;
  user = λ id. err other;
  session_app_id = λ id. err other;
}

abbrev pub request : Request
request = record {
  acting_user_id = bytes "root";
  destination = [];
  session_id = [];
  source_app_id = [];
  source_plugin_id = [];
  acting_user = none;
}

abbrev id : Str
id = bytes "app1"

valid : IsValidState kv laws conf config_laws hash hash_laws (bytes "v2") full
unfolding Apps.save lookup
valid = (full-IsCoherent, λ i app h. absurd (cc h))

-- The app as it is stored.
abbrev app : App
app = record sample { manifest = record sample.manifest { schema_version = bytes "v2" } }

found : store.get id full ≡ ok app
unfolding AppMaps.get Apps.save insert remove skip_value lookup ◌==◌
found = refl

http_app : same app.deploy_type builtin ≡ false
unfolding same
http_app = refl

abbrev off : State Server
off = (disable_app store (effects_with willing) admin request id full).1

disabled :
    (disable_app store (effects_with willing) admin request id full).0 ≡ ok (bytes "Disabled App")
unfolding disable_app require_sysadmin_or_plugin AppMaps.get Apps.save insert remove skip_value
    lookup ◌==◌
disabled = refl

-- A server on which an app that is called stores its OAuth2 data, as with `StoreOAuth2App`.
abbrev stored_by : Result (Unit {0}) × State Server → State Server → State Server
stored_by p s = elim p.0 [ ok t ↦ p.1 | err e ↦ s ]

abbrev storing : Effects (State Server)
storing = record (effects_with willing) {
  call = λ app c s. (
    record { type = ResponseType.ok_type; text = bytes "done" },
    stored_by (store.save (record app { remote_oauth2 = bytes "data" }) s) s,
  );
}

stored_by-IsValid :
    (app : App) (s : State Server)
    → store_laws.IsValid s
    → store_laws.IsValid (stored_by (store.save app s) s)
stored_by-IsValid app s v = elim (Result-cases (store.save app s).0) [
  | inl (t, e) ↦ rw e (store_laws.save_ok app s v e).0
  | inr (x, e) ↦ rw e v
]

storing_laws : EffectsLaws store_laws storing
storing_laws = record {
  call_valid = λ app c s v. stored_by-IsValid (record app { remote_oauth2 = bytes "data" }) s v;
  update_bot_keeps = λ id b s. Keeps-refl store_laws s;
  delete_oauth_app_keeps = λ id s. Keeps-refl store_laws s;
  delete_sessions_keeps = λ id s. Keeps-refl store_laws s;
  remove_data_keeps = λ id s. Keeps-refl store_laws s;
  unsubscribe_app_keeps = λ r id s. Keeps-refl store_laws s;
}

-- An app that is called when it is disabled.
abbrev called : App
called = record app {
  manifest = record app.manifest {
    on_disable = some (record { path = bytes "/off"; expand = none; state = none });
  };
}

abbrev with_called : State Server
with_called = (store.save called full).1

with_called-IsValid : store_laws.IsValid with_called
unfolding Apps.save lookup insert remove skip_value ◌==◌
with_called-IsValid = (store_laws.save_ok called full valid refl).0

found_called : store.get id with_called ≡ ok called
unfolding AppMaps.get Apps.save insert remove skip_value lookup ◌==◌
found_called = refl

abbrev called_off : State Server
called_off = (disable_app store storing admin request id with_called).1

disabled_called : (disable_app store storing admin request id with_called).0 ≡ ok (bytes "done")
unfolding disable_app require_sysadmin_or_plugin AppMaps.get Apps.save insert remove skip_value
    lookup ◌==◌
disabled_called = refl

disable_app_example :
    store_laws.IsValid called_off
    × ((j : Str)
        → store_laws.view j called_off
          ≡ switched store_laws storing_laws admin true id called
              (before_disabling store_laws storing_laws admin called with_called)
              j)
disable_app_example =
    disable_app_lem store_laws storing_laws admin request id with_called called (bytes "done")
      with_called-IsValid found_called http_app disabled_called

abbrev app_off : App
app_off = record app { disabled = true }

abbrev on : State Server
on = (enable_app store (effects_with willing) admin request id off).1

uninstalled :
    (uninstall_app store (effects_with willing) admin request id false full).0
    ≡ ok (bytes "Uninstalled App")
unfolding uninstall_app require_acting_user require_sysadmin_or_plugin AppMaps.get Apps.save
    Apps.delete insert remove skip_value lookup ◌==◌
uninstalled = refl

uninstall_app_example :
    let s' = (uninstall_app store (effects_with willing) admin request id false full).1 in
    store_laws.IsValid s'
    × ((j : Str)
        → store_laws.view j s' ≡ (
            if id == j
            then none
            else store_laws.view j
                (call_on_uninstall store
                  (effects_with willing)
                  admin
                  false
                  app
                  app.on_uninstall
                  full).1))
uninstall_app_example =
    uninstall_app_lem store_laws (effects_laws willing) admin request id false full app
      (bytes "Uninstalled App") valid found http_app uninstalled

-- The app has a record, and is enabled.
abbrev IsOn : (Str → Option App) → Type 0
IsOn records = (a : App) × (records id ≡ some a) × (a.disabled ≡ false)

full-IsOn : IsOn (λ j. store_laws.view j full)
unfolding Apps.save lookup insert remove ◌==◌
full-IsOn = (app, refl, refl)

uninstall_app-Fails_example :
    let p = uninstall_app store (effects_with unwilling) admin request id true full in
    Fails p.0 × (IsOn (λ j. store_laws.view j full) → IsOn (λ j. store_laws.view j p.1))
uninstall_app-Fails_example =
    uninstall_app-Fails store_laws IsOn (effects_laws unwilling) admin (λ app c s on. on)
      (λ i s. (other, refl)) request id true full

get_installed_app_example :
    (get_installed_app store (effects_with willing) admin id true full ≡ ok app) ↔ (
      (store.get id full ≡ ok app) × (reachable store (effects_with willing) admin app full ≡ true))
get_installed_app_example = get_installed_app_iff store (effects_with willing) admin id app full
