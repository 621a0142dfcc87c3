-- ===== src/Proxy/Expand/Tests.antt =====
-- An expansion of every kind of data, and one that is not permitted.
use mattermost_plugin_apps.Base.{
  bytes, true, false, ◌≡◌, refl, ok, err, other, none, some, [], ◌∷◌, ◌==◌,
}
use mattermost_plugin_apps.Apps.App.{App, strip_app, empty_app, empty_manifest}
use mattermost_plugin_apps.Apps.Call.{Expand}
use mattermost_plugin_apps.Apps.Context.{Context}
use mattermost_plugin_apps.Apps.Deploy
use mattermost_plugin_apps.Apps.Event.{unknown}
use mattermost_plugin_apps.Apps.Entities.{
  Sanitizers, empty_user, empty_channel, empty_team, strip_user, strip_channel,
}
use mattermost_plugin_apps.Apps.ExpandLevel
use mattermost_plugin_apps.Apps.Permission
use mattermost_plugin_apps.Apps.Permission.{
  Permission, act_as_bot, act_as_user, remote_oauth2, contains,
}
use mattermost_plugin_apps.Incoming.{Request, require_sysadmin_or_plugin}
use mattermost_plugin_apps.Proxy.Lifecycle.Tests.{admin, request}
use mattermost_plugin_apps.Utils.{get_locale_with_user}
use mattermost_plugin_apps.Store.Apps.Sample.{sample}
use mattermost_plugin_apps.Proxy.Expand.{
  Services, Getter, ExpandedContext, get_bot_access_token, get_acting_user_access_token,
  ensure_getter,
}
use mattermost_plugin_apps.Proxy.Expand.Fields.{
  expand_acting_user_access_token, expand_app, expand_oauth2_app, expand_locale, expand_channel,
}
use mattermost_plugin_apps.Proxy.Expand.Whole.{
  empty_expand, expand_context, expand, run_step, run_steps, fresh,
}
use mattermost_plugin_apps.Proxy.Expand.Permitted.{IsPermitted, IsGetterIf}
use mattermost_plugin_apps.Proxy.Expand.Consistency.{all_of, consistency_check}
use mattermost_plugin_apps.Proxy.Expand.Whole.{cleaned}
use mattermost_plugin_apps.Proxy.Expand.Sending.{expand_context-IsPermitted}

abbrev clean : Sanitizers
clean = record { user = λ u. u; team = λ t. t; post = λ p. p }

abbrev getter : Getter (Unit {0})
getter = record {
  get_user = λ id s. ok (record empty_user { id = id; locale = bytes "de" });
  get_channel = λ id s. ok (record empty_channel { id = id });
  get_channel_member = λ c u s. ok (record { user_id = u; channel_id = c; rest = [] });
  get_team = λ id s. ok (record empty_team { id = id });
  get_team_member = λ t u s. ok (record { user_id = u; team_id = t; rest = [] });
  get_post = λ id s. err other;
}

-- An app with every permission.
abbrev trusted : App
trusted = record sample {
  bot_user_id = bytes "bot";
  webhook_secret = bytes "hook";
  remote_oauth2 = bytes "client";
  granted_permissions = act_as_bot ∷ act_as_user ∷ remote_oauth2 ∷ [];
}

abbrev services : Services (Unit {0})
services = record {
  site_url = bytes "http://mm";
  developer_mode = false;
  app_path = λ id. id;
  connect_url = λ id. id;
  complete_url = λ id. id;
  client_locale = some (bytes "en");
  server_locale = none;
  rpc_getter = getter;
  http_getter = λ token. getter;
  get_or_create =
      λ r id s. (ok (record { id = bytes "s"; user_id = id; token = id; expires_at = 9 }), s);
  enabled_destination = λ r s. ok trusted;
  get_oauth2_user = λ r s. ok (bytes "[]");
  is_json = λ s. true;
  locale_of = λ id s. none;
}

abbrev to_app : Request
to_app = record request { destination = bytes "app1" }

abbrev asked : Expand
asked = record empty_expand {
  app = bytes "all";
  acting_user = bytes "summary";
  acting_user_access_token = bytes "+all";
  locale = bytes "all";
  channel = bytes "id";
  oauth2_app = bytes "all";
}

abbrev given : Context ExpandedContext
given = record {
  subject = unknown [];
  user_agent_context = record {
    channel_id = bytes "c";
    team_id = [];
    post_id = [];
    root_post_id = [];
    user_id = [];
    app_id = [];
    location = bytes "/command";
    user_agent = bytes "web";
    track_as_submit = true;
  };
  expanded = fresh services clean admin trusted to_app;
}

abbrev sent_context : Context ExpandedContext
sent_context = record given {
  user_agent_context = cleaned given.user_agent_context;
  expanded = record (fresh services clean admin trusted to_app) {
    bot_access_token = bytes "bot";
    app = some (record empty_app {
      manifest = record empty_manifest { app_id = trusted.app_id; version = trusted.version };
      deploy_type = trusted.deploy_type;
      webhook_secret = bytes "hook";
      bot_user_id = bytes "bot";
    });
    acting_user =
        strip_user clean ExpandLevel.summary
          (record empty_user { id = bytes "root"; locale = bytes "de" });
    channel = some (record empty_channel { id = bytes "c" });
    oauth2 = record {
      app = bytes "client";
      connect_url = trusted.app_id;
      complete_url = trusted.app_id;
      user = none;
    };
    acting_user_access_token = bytes "root";
    locale = bytes "de";
  };
}

run :
    (expand_context services clean admin trusted to_app given (some asked) none tt).0
    ≡ ok sent_context
unfolding expand_context expand run_step run_steps all_of consistency_check
    expand_acting_user_access_token expand_app expand_oauth2_app get_bot_access_token
    get_acting_user_access_token ensure_getter strip_app expand_channel contains Permission.same
    Deploy.same get_locale_with_user expand_locale ExpandLevel.parse ExpandLevel.is_required ◌==◌
    strip_user strip_channel require_sysadmin_or_plugin
run = refl

expand_context-IsPermitted_example :
    IsPermitted services clean admin trusted to_app asked none sent_context.expanded
    × (cleaned sent_context.user_agent_context ≡ sent_context.user_agent_context)
    × IsGetterIf services clean admin trusted to_app asked none
        (expand_context services clean admin trusted to_app given (some asked) none tt).1.getter
expand_context-IsPermitted_example =
    expand_context-IsPermitted services clean admin trusted to_app given (some asked) none tt
      sent_context run
