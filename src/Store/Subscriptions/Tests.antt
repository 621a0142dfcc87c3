-- ===== src/Store/Subscriptions/Tests.antt =====
-- Keys of concrete events.
use mattermost_plugin_apps.Base.{bytes, ◌≡◌, refl, [], ok}
use mattermost_plugin_apps.Apps.Event.{Event, user_joined_team}
use mattermost_plugin_apps.Store.Subscriptions.{subs_key}
use mattermost_plugin_apps.Store.Subscriptions.Keys.{subs_key_injective}

abbrev joined : Event
joined = record { subject = user_joined_team; channel_id = []; team_id = bytes "t1" }

joined_key : subs_key joined ≡ ok (bytes "sub.user_joined_team.t1")
unfolding subs_key
joined_key = refl

subs_key_injective_example : joined ≡ joined
subs_key_injective_example =
    subs_key_injective joined joined (bytes "sub.user_joined_team.t1") joined_key joined_key
