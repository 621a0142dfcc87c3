-- ===== src/Apps/App.antt =====
-- Manifests and installed apps (apps/manifest.go, apps/app.go).
use mattermost_plugin_apps.Base.{Str, Bool, false, Option, none, some, List, []}
use mattermost_plugin_apps.Apps.ExpandLevel.{ExpandLevel}
use mattermost_plugin_apps.Apps.Call.{Call}
use mattermost_plugin_apps.Apps.Deploy.{Deploy, DeployType}
use mattermost_plugin_apps.Apps.Location.{Location}
use mattermost_plugin_apps.Apps.Permission.{Permission}

-- `type RemoteWebhookAuthType string`; `unset` is the empty text.
pub data RemoteWebhookAuthType : Type 0 where
  unset no_auth secret_auth jwt_auth : RemoteWebhookAuthType
  unknown : Str → RemoteWebhookAuthType

pub record Manifest : Type 0 where
  pub schema_version : Str
  pub app_id : Str
  pub version : Str
  pub homepage_url : Str
  pub display_name : Str
  pub description : Str
  pub icon : Str
  pub bindings : Option Call
  pub on_install : Option Call
  pub on_version_changed : Option Call
  pub on_uninstall : Option Call
  pub on_enable : Option Call
  pub on_disable : Option Call
  pub get_oauth2_connect_url : Option Call
  pub on_oauth2_complete : Option Call
  pub on_remote_webhook : Option Call
  pub requested_permissions : List Permission
  pub remote_webhook_auth_type : RemoteWebhookAuthType
  pub requested_locations : List Location
  pub deploy : Deploy

-- `App` embeds `Manifest`. The OAuth2 application is kept by its ID, the remote one by its text.
pub record App : Type 0 where
  pub manifest : Manifest
  pub open manifest use *
  pub deploy_type : DeployType
  pub disabled : Bool
  pub secret : Str
  pub webhook_secret : Str
  pub bot_user_id : Str
  pub bot_username : Str
  pub mattermost_oauth2 : Option Str
  pub remote_oauth2 : Str
  pub granted_permissions : List Permission
  pub granted_locations : List Location

abbrev pub empty_manifest : Manifest
empty_manifest = record {
  schema_version = [];
  app_id = [];
  version = [];
  homepage_url = [];
  display_name = [];
  description = [];
  icon = [];
  bindings = none;
  on_install = none;
  on_version_changed = none;
  on_uninstall = none;
  on_enable = none;
  on_disable = none;
  get_oauth2_connect_url = none;
  on_oauth2_complete = none;
  on_remote_webhook = none;
  requested_permissions = [];
  remote_webhook_auth_type = unset;
  requested_locations = [];
  deploy = record { http = none; open_faas = none; plugin = none };
}

-- `App{}`.
abbrev pub empty_app : App
empty_app = record {
  manifest = empty_manifest;
  deploy_type = DeployType.unknown [];
  disabled = false;
  secret = [];
  webhook_secret = [];
  bot_user_id = [];
  bot_username = [];
  mattermost_oauth2 = none;
  remote_oauth2 = [];
  granted_permissions = [];
  granted_locations = [];
}

abbrev summary_of : App → App
summary_of app = record empty_app {
  manifest = record empty_manifest { app_id = app.app_id; version = app.version };
  bot_user_id = app.bot_user_id;
  bot_username = app.bot_username;
}

-- `App.Strip`.
unfoldable pub strip_app : ExpandLevel → App → Option App
strip_app ExpandLevel.summary app = some (summary_of app)
strip_app ExpandLevel.all app =
    some (record (summary_of app) {
      deploy_type = app.deploy_type;
      webhook_secret = app.webhook_secret;
    })
strip_app ExpandLevel.id app = none
strip_app ExpandLevel.none app = none
