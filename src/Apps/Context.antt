-- ===== src/Apps/Context.antt =====
-- The context of a call, and requests to apps (apps/context.go, apps/call_request.go).
use mattermost_plugin_apps.Base.{Str, Bool}
use mattermost_plugin_apps.Apps.Call.{Call}
use mattermost_plugin_apps.Apps.Event.{Subject}

pub record UserAgentContext : Type 0 where
  pub channel_id : Str
  pub team_id : Str
  pub post_id : Str
  pub root_post_id : Str
  pub user_id : Str
  pub app_id : Str
  pub location : Str
  pub user_agent : Str
  pub track_as_submit : Bool

-- `X` is what the call asks for to be expanded, in the types of the Mattermost server.
pub record Context (X : Type 0) : Type 0 where
  pub subject : Subject
  pub user_agent_context : UserAgentContext
  pub expanded : X

-- `V` is the map of values, of any JSON type.
pub record CallRequest (X V : Type 0) : Type 0 where
  pub call : Call
  pub values : V
  pub context : Context X
  pub raw_command : Str
  pub selected_field : Str
  pub query : Str
