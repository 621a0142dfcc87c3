-- ===== src/Proxy/Expand.antt =====
-- The expansion of the context of a call (server/proxy/expand.go).
pub mod Fields
pub mod Consistency
pub mod Whole
pub mod Permitted
pub mod Keeping
pub mod Remote
pub mod Running
pub mod Sending
mod Tests
use mattermost_plugin_apps.Base.{
  Str, bytes, Bool, true, false, not, ◌&&◌, ◌||◌, List, [], ◌∷◌, Result, ok, err, Error, other,
  forbidden, unauthorized, Option, none, some, is_empty, if◌then◌else◌, ◌==◌,
}
use mattermost_plugin_apps.Base.Action.{Action, pure, raise, reads, lift, ◌>>=◌, ◌>>◌}
use mattermost_plugin_apps.Apps.App.{App, strip_app}
use mattermost_plugin_apps.Apps.Call.{Expand}
use mattermost_plugin_apps.Apps.Context.{Context, UserAgentContext}
use mattermost_plugin_apps.Apps.Deploy
use mattermost_plugin_apps.Apps.Deploy.{builtin}
use mattermost_plugin_apps.Apps.Entities.{
  User, Channel, ChannelType, direct, group, ChannelMember, Team, TeamMember, Post, Sanitizers,
  empty_channel, empty_team, strip_user, strip_channel, strip_channel_member, strip_team,
  strip_team_member, strip_post,
}
use mattermost_plugin_apps.Apps.ExpandLevel
use mattermost_plugin_apps.Apps.ExpandLevel.{ExpandLevel}
use mattermost_plugin_apps.Apps.Permission.{
  Permission, act_as_bot, act_as_user, remote_oauth2, contains,
}
use mattermost_plugin_apps.Incoming.{
  Request, Directory, require_sysadmin_or_plugin, with_source_app_id,
}
use mattermost_plugin_apps.Store.Sessions.{Session}
use mattermost_plugin_apps.Utils.{get_locale_with_user}

-- The remote OAuth2 app is kept by its text, the data of the user by its JSON text.
pub record OAuth2Context : Type 0 where
  pub app : Str
  pub connect_url : Str
  pub complete_url : Str
  pub user : Option Str

pub record ExpandedContext : Type 0 where
  pub mattermost_site_url : Str
  pub developer_mode : Bool
  pub app_path : Str
  pub bot_user_id : Str
  pub bot_access_token : Str
  pub app : Option App
  pub acting_user : Option User
  pub acting_user_access_token : Str
  pub locale : Str
  pub channel : Option Channel
  pub channel_member : Option ChannelMember
  pub team : Option Team
  pub team_member : Option TeamMember
  pub post : Option Post
  pub root_post : Option Post
  pub user : Option User
  pub oauth2 : OAuth2Context

-- `ExpandGetter`.
pub record Getter (S : Type 0) : Type 0 where
  pub get_user : Str → S → Result User
  pub get_channel : Str → S → Result Channel
  pub get_channel_member : Str → Str → S → Result ChannelMember
  pub get_team : Str → S → Result Team
  pub get_team_member : Str → Str → S → Result TeamMember
  pub get_post : Str → S → Result Post

-- What the expansion uses of the configuration, the Mattermost server and the other components: the
-- getters that act by themselves or with a token, `GetOrCreate` of the session service,
-- `getEnabledDestination`, `GetOAuth2User`, `User.Get` for the locale of a user.
pub record Services (S : Type 0) : Type 0 where
  pub site_url : Str
  pub developer_mode : Bool
  pub app_path : Str → Str
  pub connect_url : Str → Str
  pub complete_url : Str → Str
  pub client_locale : Option Str
  pub server_locale : Option Str
  pub rpc_getter : Getter S
  pub http_getter : Str → Getter S
  pub get_or_create : Request → Str → Action S Session
  pub enabled_destination : Request → S → Result App
  pub get_oauth2_user : Request → S → Result Str
  pub is_json : Str → Bool
  pub locale_of : Str → S → Option Str

pub record Expander (S : Type 0) : Type 0 where
  pub context : Context ExpandedContext
  pub getter : Option (Getter S)
  pub bot_access_token : Str
  pub acting_user_access_token : Str
  pub server : S

abbrev pub no_oauth2 : OAuth2Context
no_oauth2 = record { app = []; connect_url = []; complete_url = []; user = none }

module _ {S : Type 0} (services : Services S) (clean : Sanitizers) (d : Directory) (app : App)
    (r : Request) where
  -- A change of the expanded part of the context.
  abbrev pub expand_by : (ExpandedContext → ExpandedContext) → Action (Expander S) (Unit {0})
  expand_by f e =
      (ok tt, record e { context = record e.context { expanded = f e.context.expanded } })

  abbrev pub with_bot_token : Result Session × S → Action (Expander S) Str
  with_bot_token (err x, s) e = (err x, record e { server = s })
  with_bot_token (ok session, s) e =
      (ok session.token, record e { server = s; bot_access_token = session.token })

  -- `getBotAccessToken`.
  unfoldable pub get_bot_access_token : Action (Expander S) Str
  get_bot_access_token e =
      if not (is_empty e.bot_access_token)
      then (ok e.bot_access_token, e)
      else with_bot_token (services.get_or_create r app.bot_user_id e.server) e

  abbrev pub with_user_token : Result Session × S → Action (Expander S) Str
  with_user_token (err x, s) e = (err x, record e { server = s })
  with_user_token (ok session, s) e =
      (ok session.token, record e { server = s; acting_user_access_token = session.token })

  -- `getActingUserAccessToken`.
  unfoldable pub get_acting_user_access_token : Action (Expander S) Str
  get_acting_user_access_token e =
      if not (is_empty e.acting_user_access_token)
      then (ok e.acting_user_access_token, e)
      else with_user_token (services.get_or_create r r.acting_user_id e.server) e

  abbrev pub with_getter : Getter S → Action (Expander S) (Unit {0})
  with_getter getter e = (ok tt, record e { getter = some getter })

  -- The switch of `ensureGetter`, on the app at the destination.
  abbrev pub make_getter : App → Action (Expander S) (Unit {0})
  make_getter to =
      if Deploy.same to.deploy_type builtin
      then with_getter services.rpc_getter
      else if contains to.granted_permissions act_as_user && not (is_empty r.acting_user_id)
      then get_acting_user_access_token >>= (λ token. with_getter (services.http_getter token))
      else if contains to.granted_permissions act_as_bot
      then get_bot_access_token >>= (λ token. with_getter (services.http_getter token))
      else raise unauthorized

  abbrev pub with_getter_or_new : Option (Getter S) → Action (Expander S) (Unit {0})
  with_getter_or_new (some getter) = pure tt
  with_getter_or_new none =
      reads (λ (e : Expander S). services.enabled_destination r e.server) >>= make_getter

  -- `ensureGetter`.
  unfoldable pub ensure_getter : Action (Expander S) (Unit {0})
  ensure_getter e = with_getter_or_new e.getter e

  -- A value that the getter gives. Steps run after `ensureGetter`.
  abbrev pub ask : {A : Type 0} → (Getter S → S → Result A) → Option (Getter S) → S → Result A
  ask f none s = err other
  ask f (some getter) s = f getter s

  abbrev pub from_getter : {A : Type 0} → (Getter S → S → Result A) → Action (Expander S) A
  from_getter f e = (ask f e.getter e.server, e)
