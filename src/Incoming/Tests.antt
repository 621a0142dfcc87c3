-- ===== src/Incoming/Tests.antt =====
-- A request from a session of an app.
use mattermost_plugin_apps.Base.{Str, bytes, ok, ◌≡◌, ◌⊎◌, refl, true, false, [], is_empty, none}
use mattermost_plugin_apps.Incoming.{Request, Directory, require_source_app}
use mattermost_plugin_apps.Incoming.Checks.{require_source_app_lem}

abbrev directory : Directory
directory = record {
  can_manage_system = λ u. false;
  can_view_members = λ u. true;
  can_read_channel = λ u c. true;
  can_view_team = λ u t. true;
  can_list_team_channels = λ u t. true;
  user = λ u. ok (record { id = u; is_bot = true });
  session_app_id = λ s. ok (bytes "app1");
}

abbrev request : Request
request = record {
  acting_user_id = bytes "bot";
  destination = [];
  session_id = bytes "s1";
  source_app_id = [];
  source_plugin_id = [];
  acting_user = none;
}

abbrev named : Request
named = record request { source_app_id = bytes "app1" }

session_named : require_source_app directory request ≡ ok named
unfolding require_source_app
session_named = refl

require_source_app_lem_example :
    ((is_empty request.source_app_id ≡ false) × (named ≡ request))
    ⊎ ((is_empty request.source_app_id ≡ true)
        × (app : Str) × (directory.session_app_id request.session_id ≡ ok app)
        × (is_empty app ≡ false)
        × (named ≡ record request { source_app_id = app }))
require_source_app_lem_example = require_source_app_lem directory request named session_named
