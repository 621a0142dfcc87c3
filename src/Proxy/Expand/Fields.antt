-- ===== src/Proxy/Expand/Fields.antt =====
-- How each field of the context is expanded (server/proxy/expand.go).
use mattermost_plugin_apps.Base.{
  Str, bytes, not, ◌||◌, [], Result, ok, err, other, forbidden, Option, none, some, is_empty,
  if◌then◌else◌, ◌==◌,
}
use mattermost_plugin_apps.Base.Action.{Action, pure, raise, reads, ◌>>=◌}
use mattermost_plugin_apps.Apps.App.{App, strip_app}
use mattermost_plugin_apps.Apps.Context.{UserAgentContext}
use mattermost_plugin_apps.Apps.Entities.{
  User, Channel, Team, Post, Sanitizers, empty_channel, empty_team, strip_user, strip_channel,
  strip_channel_member, strip_team, strip_team_member, strip_post,
}
use mattermost_plugin_apps.Apps.ExpandLevel.{ExpandLevel}
use mattermost_plugin_apps.Apps.Permission.{act_as_user, remote_oauth2, contains}
use mattermost_plugin_apps.Incoming.{
  Request, Directory, require_sysadmin_or_plugin, with_source_app_id,
}
use mattermost_plugin_apps.Utils.{get_locale_with_user}
use mattermost_plugin_apps.Proxy.Expand.{
  ExpandedContext, Services, Expander, expand_by, get_acting_user_access_token, ask, from_getter,
}

module _ {S : Type 0} (services : Services S) (clean : Sanitizers) (d : Directory) (app : App)
    (r : Request) where
  -- `expandActingUserAccessToken`.
  unfoldable pub expand_acting_user_access_token : ExpandLevel → Action (Expander S) (Unit {0})
  expand_acting_user_access_token level =
      if not (contains app.granted_permissions act_as_user)
      then raise forbidden
      else get_acting_user_access_token services clean d app r >>= (λ token.
        expand_by services clean d app r (λ x. record x { acting_user_access_token = token }))

  -- `expandUser`, given where to write the user.
  abbrev pub expand_user :
      (Option User → ExpandedContext → ExpandedContext)
      → Str
      → ExpandLevel
      → Action (Expander S) (Unit {0})
  expand_user write user_id level =
      if is_empty user_id
      then raise other
      else from_getter services clean d app r (λ g. g.get_user user_id)
        >>= (λ user. expand_by services clean d app r (write (strip_user clean level user)))

  abbrev pub expand_acting_user : ExpandLevel → Action (Expander S) (Unit {0})
  expand_acting_user = expand_user (λ u x. record x { acting_user = u }) r.acting_user_id

  -- The user of the notification.
  abbrev pub expand_subject_user : ExpandLevel → Action (Expander S) (Unit {0})
  expand_subject_user level e =
      expand_user (λ u x. record x { user = u }) e.context.user_agent_context.user_id level e

  abbrev pub shown_secret : ExpandLevel → App → Str
  shown_secret ExpandLevel.all app = elim (require_sysadmin_or_plugin d r) [
    | ok t ↦ app.webhook_secret
    | err e ↦ []
  ]
  shown_secret _ app = []

  -- `expandApp`; it runs at levels at which there is a stripped app.
  abbrev pub expand_app_to : ExpandLevel → Option App → Action (Expander S) (Unit {0})
  expand_app_to level none = raise other
  expand_app_to level (some stripped) =
      expand_by services clean d app r
        (λ x. record x { app = some (record stripped { webhook_secret = shown_secret level app }) })

  unfoldable pub expand_app : ExpandLevel → Action (Expander S) (Unit {0})
  expand_app level = expand_app_to level (strip_app level app)

  -- The user whose membership is meant: the one of the notification, or else the acting user.
  abbrev pub member_id : UserAgentContext → Str
  member_id uac = if is_empty uac.user_id then r.acting_user_id else uac.user_id

  abbrev pub expand_member_of : Str → Str → ExpandLevel → Action (Expander S) (Unit {0})
  expand_member_of user_id channel_id level =
      if is_empty user_id || is_empty channel_id
      then raise other
      else from_getter services clean d app r (λ g. g.get_channel_member channel_id user_id)
        >>= (λ member.
            expand_by services clean d app r
              (λ x. record x { channel_member = strip_channel_member level member }))

  -- `expandChannelMember`.
  unfoldable pub expand_channel_member : ExpandLevel → Action (Expander S) (Unit {0})
  expand_channel_member level e =
      let uac = e.context.user_agent_context in
      expand_member_of (member_id uac) uac.channel_id level e

  -- A channel that cannot be read is expanded to its IDs alone.
  abbrev pub channel_or_ids :
      UserAgentContext → ExpandLevel → Result Channel → Result (Option Channel)
  channel_or_ids uac level (ok channel) = ok (strip_channel level channel)
  channel_or_ids uac ExpandLevel.id (err e) =
      ok (some (record empty_channel { id = uac.channel_id; team_id = uac.team_id }))
  channel_or_ids uac _ (err e) = err other

  -- `expandChannel`.
  unfoldable pub expand_channel : ExpandLevel → Action (Expander S) (Unit {0})
  expand_channel level e =
      let uac = e.context.user_agent_context in
      (if is_empty uac.channel_id
          then raise other
          else reads (λ (e : Expander S).
            channel_or_ids uac level
              (ask services clean d app r (λ g. g.get_channel uac.channel_id) e.getter e.server))
            >>= (λ channel. expand_by services clean d app r (λ x. record x { channel = channel })))
        e

  abbrev pub team_or_id : UserAgentContext → ExpandLevel → Result Team → Result (Option Team)
  team_or_id uac level (ok team) = ok (strip_team clean level team)
  team_or_id uac ExpandLevel.id (err e) = ok (some (record empty_team { id = uac.team_id }))
  team_or_id uac _ (err e) = err other

  -- `expandTeam`.
  unfoldable pub expand_team : ExpandLevel → Action (Expander S) (Unit {0})
  expand_team level e =
      let uac = e.context.user_agent_context in
      (if is_empty uac.team_id
          then raise other
          else reads (λ (e : Expander S).
            team_or_id uac level
              (ask services clean d app r (λ g. g.get_team uac.team_id) e.getter e.server))
            >>= (λ team. expand_by services clean d app r (λ x. record x { team = team })))
        e

  abbrev pub expand_team_member_of : Str → Str → ExpandLevel → Action (Expander S) (Unit {0})
  expand_team_member_of user_id team_id level =
      if is_empty user_id || is_empty team_id
      then raise other
      else from_getter services clean d app r (λ g. g.get_team_member team_id user_id)
        >>= (λ member.
            expand_by services clean d app r
              (λ x. record x { team_member = strip_team_member level member }))

  -- `expandTeamMember`.
  unfoldable pub expand_team_member : ExpandLevel → Action (Expander S) (Unit {0})
  expand_team_member level e =
      let uac = e.context.user_agent_context in
      expand_team_member_of (member_id uac) uac.team_id level e

  -- `expandPost`, given where to write the post.
  abbrev pub expand_post :
      (Option Post → ExpandedContext → ExpandedContext)
      → Str
      → ExpandLevel
      → Action (Expander S) (Unit {0})
  expand_post write post_id level =
      if is_empty post_id
      then raise other
      else from_getter services clean d app r (λ g. g.get_post post_id)
        >>= (λ post. expand_by services clean d app r (write (strip_post clean level post)))

  abbrev pub expand_the_post : ExpandLevel → Action (Expander S) (Unit {0})
  expand_the_post level e =
      expand_post (λ p x. record x { post = p }) e.context.user_agent_context.post_id level e

  abbrev pub expand_root_post : ExpandLevel → Action (Expander S) (Unit {0})
  expand_root_post level e =
      expand_post (λ p x. record x { root_post = p }) e.context.user_agent_context.root_post_id
        level e

  -- The locale of the expanded user, or else of the acting user.
  abbrev pub user_locale : Option User → S → Option Str
  user_locale (some user) s = some user.locale
  user_locale none s = services.locale_of r.acting_user_id s

  -- `expandLocale`.
  unfoldable pub expand_locale : ExpandLevel → Action (Expander S) (Unit {0})
  expand_locale level e =
      expand_by services clean d app r
        (λ x. record x {
          locale =
              get_locale_with_user services.client_locale services.server_locale
                (user_locale x.acting_user e.server);
        })
        e

  -- The app at the destination, if it may use remote OAuth2.
  abbrev pub oauth2_destination : Action (Expander S) App
  oauth2_destination = do
    to ← reads (λ (e : Expander S). services.enabled_destination r e.server)
    if not (contains to.granted_permissions remote_oauth2) then raise forbidden else pure to

  -- `expandOAuth2App`.
  unfoldable pub expand_oauth2_app : ExpandLevel → Action (Expander S) (Unit {0})
  expand_oauth2_app level = do
    to ← oauth2_destination
    expand_by services clean d app r (λ x. record x {
      oauth2 = record x.oauth2 {
        app = to.remote_oauth2;
        connect_url = services.connect_url to.app_id;
        complete_url = services.complete_url to.app_id;
      };
    })

  -- What comes of the data of the user: where there is none, `errors.Wrap` of a nil error is nil, so
  -- the step ends without an error and without a user.
  abbrev pub with_oauth2_user : Str → Action (Expander S) (Unit {0})
  with_oauth2_user json =
      if is_empty json || json == bytes "{}"
      then pure tt
      else if not (services.is_json json)
      then raise other
      else expand_by services clean d app r
          (λ x. record x { oauth2 = record x.oauth2 { user = some json } })

  -- `expandOAuth2User`.
  unfoldable pub expand_oauth2_user : ExpandLevel → Action (Expander S) (Unit {0})
  expand_oauth2_user level =
      if is_empty r.acting_user_id
      then raise other
      else oauth2_destination >>= (λ to.
        reads (λ (e : Expander S).
          services.get_oauth2_user (with_source_app_id r r.destination) e.server)
        >>= with_oauth2_user)
