-- ===== src/Proxy/Calls/Tests.antt =====
-- Calls to an app in memory.
use mattermost_plugin_apps.Base.{Str, bytes, true, false, ◌≡◌, ◌↔◌, ok, none, [], ◌∷◌}
use mattermost_plugin_apps.Apps.App.{App, secret_auth}
use mattermost_plugin_apps.Apps.Call.{Call}
use mattermost_plugin_apps.Apps.Context.{CallRequest, UserAgentContext}
use mattermost_plugin_apps.Apps.Event.{unknown}
use mattermost_plugin_apps.Apps.Permission.{remote_webhooks, act_as_bot, contains}
use mattermost_plugin_apps.Incoming.{Request}
use mattermost_plugin_apps.Store.Apps.Sample.{Server, sample, full}
use mattermost_plugin_apps.Store.Apps.{State}
use mattermost_plugin_apps.Proxy.Lifecycle.{Response, ok_type}
use mattermost_plugin_apps.Proxy.Lifecycle.Tests.{store, effects_with, willing, admin, request}
use mattermost_plugin_apps.Proxy.Calls.{invoke_call, validate_webhook_authentication}
use mattermost_plugin_apps.Proxy.Calls.Invoking.{invoke_call_lem, Verdict}
use mattermost_plugin_apps.Proxy.Calls.Webhooks.{validate_webhook_authentication_iff, IsAuthentic}

abbrev call : Call
call = record { path = bytes "/submit"; expand = none; state = none }

abbrev user_agent_context : UserAgentContext
user_agent_context = record {
  channel_id = [];
  team_id = [];
  post_id = [];
  root_post_id = [];
  user_id = [];
  app_id = bytes "app1";
  location = [];
  user_agent = [];
  track_as_submit = false;
}

abbrev creq : CallRequest (Unit {0}) (Unit {0})
creq = record {
  call = call;
  values = tt;
  context = record { subject = unknown []; user_agent_context = user_agent_context; expanded = tt };
  raw_command = [];
  selected_field = [];
  query = [];
}

abbrev clean : Str → Str
clean p = p

abbrev call_app :
    Request → App → CallRequest (Unit {0}) (Unit {0}) → State Server → Response × State Server
call_app r app c s = (record { type = ok_type; text = c.call.path }, s)

abbrev to_app : Request
to_app = record request { destination = bytes "app1" }

invoke_call_example :
    Verdict store
      (effects_with willing)
      admin
      clean
      call_app
      to_app
      creq
      full
      (invoke_call store (effects_with willing) admin clean call_app to_app creq full)
invoke_call_example =
    invoke_call_lem store (effects_with willing) admin clean call_app to_app creq full

abbrev hooked : App
hooked = record sample {
  webhook_secret = bytes "s3";
  granted_permissions = remote_webhooks ∷ act_as_bot ∷ [];
  manifest = record sample.manifest { remote_webhook_auth_type = secret_auth };
}

validate_webhook_authentication_example :
    (validate_webhook_authentication hooked (ok (bytes "s3")) ≡ ok tt) ↔ (
      (contains hooked.granted_permissions remote_webhooks ≡ true)
      × (contains hooked.granted_permissions act_as_bot ≡ true)
      × IsAuthentic hooked.remote_webhook_auth_type hooked.webhook_secret (ok (bytes "s3")))
validate_webhook_authentication_example =
    validate_webhook_authentication_iff hooked (ok (bytes "s3"))
