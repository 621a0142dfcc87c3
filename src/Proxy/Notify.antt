-- ===== src/Proxy/Notify.antt =====
-- Which subscriptions an event reaches (server/proxy/notify.go). The functions that expand the
-- context in a special way for some of them are left out.
pub mod Meant
mod Tests
use mattermost_plugin_apps.Base.{
  Str, Bool, true, false, List, [], ◌∷◌, ◌++◌, Result, ok, err, Option, none, some, if◌then◌else◌,
  ◌==◌, is_empty,
}
use mattermost_plugin_apps.Base.Assoc.{Assoc, lookup}
use mattermost_plugin_apps.Apps.App.{App}
use mattermost_plugin_apps.Apps.Context.{UserAgentContext}
use mattermost_plugin_apps.Apps.Event.{
  Event, Subject, user_created, user_joined_channel, user_left_channel, user_joined_team,
  user_left_team, bot_joined_channel, bot_left_channel, bot_joined_team, bot_left_team,
  channel_created,
}
use mattermost_plugin_apps.Incoming.{
  Request, Directory, User, with_destination, with_acting_user_id,
}
use mattermost_plugin_apps.Store.Subscriptions.{Subscription}
use mattermost_plugin_apps.Proxy.Lifecycle.{AppStore, Effects, get_installed_app}

-- What is read of a channel, of a member of a channel and of a member of a team.
pub record Channel : Type 0 where
  pub id : Str
  pub team_id : Str

pub record ChannelMember : Type 0 where
  pub user_id : Str
  pub channel_id : Str

pub record TeamMember : Type 0 where
  pub user_id : Str
  pub team_id : Str

-- A subscription that is notified, with the event and the context of the user agent.
pub record Notice : Type 0 where
  pub event : Event
  pub context : UserAgentContext
  pub sub : Subscription

-- What a notification reads: users and channels, the subscriptions for an event, the enabled apps.
pub record Sources : Type 0 where
  pub user : Str → Result User
  pub channel : Str → Result Channel
  pub subs : Event → Result (List Subscription)
  pub enabled_apps : Assoc App

-- `match == nil || match(sub)`.
abbrev pub matches : Option (Subscription → Bool) → Subscription → Bool
matches none sub = true
matches (some match) sub = match sub

abbrev pub context_with : Str → Str → Str → UserAgentContext
context_with channel_id team_id user_id = record {
  channel_id = channel_id;
  team_id = team_id;
  post_id = [];
  root_post_id = [];
  user_id = user_id;
  app_id = [];
  location = [];
  user_agent = [];
  track_as_submit = false;
}

abbrev pub on_channel : Subject → Str → Event
on_channel subject id = record { subject = subject; channel_id = id; team_id = [] }

abbrev pub on_team : Subject → Str → Event
on_team subject id = record { subject = subject; channel_id = []; team_id = id }

abbrev pub anywhere : Subject → Event
anywhere subject = record { subject = subject; channel_id = []; team_id = [] }

-- The loop of `notifyAll`.
unfoldable pub notices_for :
    Event → UserAgentContext → Option (Subscription → Bool) → List Subscription → List Notice
notices_for event uac match [] = []
notices_for event uac match (sub ∷ subs) =
    let rest = notices_for event uac match subs in
    if matches match sub then record { event = event; context = uac; sub = sub } ∷ rest else rest

module _ (sources : Sources) where
  -- `notifyAll`: the subscriptions whose apps are invoked, each in its own goroutine.
  unfoldable pub notify_all : Event → UserAgentContext → Option (Subscription → Bool) → List Notice
  notify_all event uac match = elim (sources.subs event) [
    | err e ↦ []
    | ok subs ↦ notices_for event uac match subs
  ]

  -- `NotifyUserCreated`.
  unfoldable pub notify_user_created : Str → List Notice
  notify_user_created user_id = notify_all (anywhere user_created) (context_with [] [] user_id) none

  abbrev pub is_of_owner : Str → Subscription → Bool
  is_of_owner user_id sub = sub.owner_user_id == user_id

  abbrev pub is_bot_of : Str → Option App → Bool
  is_bot_of user_id none = false
  is_bot_of user_id (some app) = app.bot_user_id == user_id

  abbrev pub is_of_bot : Str → Subscription → Bool
  is_of_bot user_id sub = is_bot_of user_id (lookup sub.app_id sources.enabled_apps)

  abbrev pub channel_notices : ChannelMember → Bool → User → Channel → List Notice
  channel_notices member joined user channel =
      notify_all (on_channel (if joined then user_joined_channel else user_left_channel) channel.id)
        (context_with channel.id channel.team_id user.id) none
      ++ notify_all (anywhere (if joined then user_joined_channel else user_left_channel))
          (context_with channel.id channel.team_id member.user_id)
          (some (is_of_owner member.user_id))
      ++ (if user.is_bot
          then notify_all (anywhere (if joined then bot_joined_channel else bot_left_channel))
              (context_with channel.id channel.team_id member.user_id)
              (some (is_of_bot member.user_id))
          else [])

  -- `NotifyUserChannel`.
  unfoldable pub notify_user_channel : ChannelMember → Bool → List Notice
  notify_user_channel member joined = elim (sources.user member.user_id) [
    | err e ↦ []
    | ok user ↦ elim (sources.channel member.channel_id) [
      | err e ↦ []
      | ok channel ↦ channel_notices member joined user channel
    ]
  ]

  abbrev pub team_notices : TeamMember → Bool → User → List Notice
  team_notices member joined user =
      notify_all (on_team (if joined then user_joined_team else user_left_team) member.team_id)
        (context_with [] member.team_id user.id) none
      ++ notify_all (anywhere (if joined then user_joined_team else user_left_team))
          (context_with [] member.team_id member.user_id) (some (is_of_owner member.user_id))
      ++ (if user.is_bot
          then notify_all (anywhere (if joined then bot_joined_team else bot_left_team))
              (context_with [] member.team_id user.id) (some (is_of_bot member.user_id))
          else [])

  -- `NotifyUserTeam`.
  unfoldable pub notify_user_team : TeamMember → Bool → List Notice
  notify_user_team member joined = elim (sources.user member.user_id) [
    | err e ↦ []
    | ok user ↦ team_notices member joined user
  ]

  -- `NotifyChannelCreated`.
  unfoldable pub notify_channel_created : Str → Str → List Notice
  notify_channel_created team_id channel_id =
      if is_empty team_id
      then []
      else notify_all (on_team channel_created team_id) (context_with channel_id team_id []) none
