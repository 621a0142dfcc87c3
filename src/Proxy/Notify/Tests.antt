-- ===== src/Proxy/Notify/Tests.antt =====
-- A bot joins a channel and leaves a team.
use mattermost_plugin_apps.Base.{bytes, true, [], ◌∷◌, ok, All, none}
use mattermost_plugin_apps.Store.Apps.Sample.{sample}
use mattermost_plugin_apps.Store.Subscriptions.{Subscription}
use mattermost_plugin_apps.Proxy.Notify.{
  ChannelMember, TeamMember, Sources, notify_user_channel, notify_user_team,
}
use mattermost_plugin_apps.Proxy.Notify.Meant.{notify_user-All, IsMeantInChannel, IsMeantInTeam}

abbrev sub : Subscription
sub = record {
  call = record { path = bytes "/joined"; expand = none; state = none };
  app_id = bytes "app1";
  owner_user_id = bytes "ann";
}

abbrev sources : Sources
sources = record {
  user = λ id. ok (record { id = id; is_bot = true });
  channel = λ id. ok (record { id = id; team_id = bytes "team" });
  subs = λ event. ok (sub ∷ []);
  enabled_apps = (bytes "app1", sample) ∷ [];
}

abbrev in_channel : ChannelMember
in_channel = record { user_id = bytes "ann"; channel_id = bytes "town" }

abbrev in_team : TeamMember
in_team = record { user_id = bytes "ann"; team_id = bytes "team" }

notify_user_example :
    All (IsMeantInChannel sources true in_channel) (notify_user_channel sources in_channel true)
    × All (IsMeantInTeam sources true in_team) (notify_user_team sources in_team true)
notify_user_example = notify_user-All sources true in_channel in_team
