-- ===== src/Proxy/Install/Tests.antt =====
-- The installation of an app by a system administrator, on a server without the app and its bot.
use mattermost_plugin_apps.Base.{
  bytes, true, false, ◌≡◌, refl, ok, err, other, not_found, none, some, [], ◌∷◌,
}
use mattermost_plugin_apps.Apps.App.{App, Manifest, empty_app}
use mattermost_plugin_apps.Apps.Deploy
use mattermost_plugin_apps.Apps.Deploy.{DeployType}
use mattermost_plugin_apps.Apps.Permission
use mattermost_plugin_apps.Apps.Permission.{act_as_bot}
use mattermost_plugin_apps.Incoming.{require_acting_user, require_sysadmin_or_plugin}
use mattermost_plugin_apps.Store.Apps.Sample
use mattermost_plugin_apps.Proxy.Lifecycle.{AppStore, ResponseType}
use mattermost_plugin_apps.Proxy.Lifecycle.Tests.{admin, request}
use mattermost_plugin_apps.Proxy.Install.{
  Effects, install_app, prepare, provide, store_and_tell, ensure_bot, ensure_bot_named,
  create_and_validate_bot, validate_bot, ensure_oauth_app, get_app_icon,
}
use mattermost_plugin_apps.Proxy.Install.Granting.{IsOf, install_app-IsOf}

abbrev manifest : Manifest
manifest = record Sample.manifest {
  requested_permissions = act_as_bot ∷ [];
  deploy = record {
    http = none;
    open_faas = none;
    plugin = some (record { plugin_id = bytes "p" });
  };
}

abbrev store : AppStore (Unit {0})
store = record {
  get = λ id s. err not_found;
  save = λ app s. (ok tt, s);
  delete = λ id s. (ok tt, s);
}

abbrev effects : Effects (Unit {0})
effects = record {
  manifest = λ id s. ok manifest;
  can_deploy = λ t s. ok tt;
  new_id = λ s. (ok (bytes "hook"), s);
  ping = λ app s. (ok tt, s);
  get_static = λ app path s. (ok (path, 200), s);
  to_lower = λ s. s;
  user_named = λ name s. none;
  create_bot = λ bot s. (ok (record bot { user_id = bytes "bot" }), s);
  get_bot = λ id deleted s. (ok (record { user_id = id; username = []; display_name = [] }), s);
  activate_bot = λ id s. (err other, s);
  patch_bot = λ bot s. (ok bot, s);
  set_profile_image = λ id icon s. (ok tt, s);
  create_oauth_app = λ app trusted id s. (ok (bytes "oauth"), s);
  call = λ app c s. (record { type = ResponseType.ok_type; text = [] }, s);
}

abbrev installed : App
installed = record empty_app {
  manifest = manifest;
  deploy_type = DeployType.plugin;
  webhook_secret = bytes "hook";
  bot_user_id = bytes "bot";
  bot_username = bytes "app1";
  mattermost_oauth2 = some (bytes "oauth");
  granted_permissions = act_as_bot ∷ [];
}

run :
    (install_app store effects admin request (bytes "app1") DeployType.plugin false [] tt).0
    ≡ ok (installed, bytes "Installed app `app1`: App.")
unfolding install_app prepare provide store_and_tell ensure_bot ensure_bot_named
    create_and_validate_bot validate_bot get_app_icon ensure_oauth_app require_acting_user
    require_sysadmin_or_plugin Deploy.contains Permission.contains Permission.same
run = refl

install_app-IsOf_example :
    (require_acting_user request ≡ ok tt)
    × (require_sysadmin_or_plugin admin request ≡ ok tt)
    × (m : Manifest) × (effects.manifest (bytes "app1") tt ≡ ok m)
    × (Deploy.contains m.deploy DeployType.plugin ≡ true)
    × (effects.can_deploy DeployType.plugin tt ≡ ok tt)
    × IsOf m DeployType.plugin installed
    × ((s' : Unit {0}) × ((store.save installed s').0 ≡ ok tt))
install_app-IsOf_example =
    install_app-IsOf store effects admin request (bytes "app1") DeployType.plugin false [] tt
      installed (bytes "Installed app `app1`: App.") run
