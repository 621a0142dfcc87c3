-- ===== src/Store/Subscriptions.antt =====
-- The subscription store (server/store/subscriptions.go). The values of the key-value store are
-- decoded at `Stored`.
pub mod Keys
mod Tests
use mattermost_plugin_apps.Base.{
  Str, bytes, Bool, List, [], ◌∷◌, ◌++◌, Result, ok, err, Error, other, not_found, Option, none,
  some, is_empty, if◌then◌else◌, ◌||◌, not,
}
use mattermost_plugin_apps.Base.Action.{Action, pure, raise, reads, ◌>>=◌, ◌>>◌}
use mattermost_plugin_apps.Apps.Call.{Call}
use mattermost_plugin_apps.Apps.Event.{
  Subject, user_created, user_joined_channel, user_left_channel, user_joined_team, user_left_team,
  bot_joined_channel, bot_left_channel, bot_joined_team, bot_left_team, channel_created, unknown,
  text, Event,
}
use mattermost_plugin_apps.Store.Kv.{Kv}

pub record Subscription : Type 0 where
  pub call : Call
  pub app_id : Str
  pub owner_user_id : Str

-- `StoredSubscriptions`, or the JSON null.
pub data Stored : Type 0 where
  null : Stored
  stored : Event → List Subscription → Stored

abbrev pub kv_sub_prefix : Str
kv_sub_prefix = bytes "sub."

-- No ID in the key, and an error where one is given.
global_suffix : Str → Str → Result Str
global_suffix channel team =
    if not (is_empty team) || not (is_empty channel) then err other else ok []

-- An optional ID of one kind, and an error where one of the other kind is given.
optional_suffix : Str → Str → Result Str
optional_suffix scope extra =
    if is_empty extra then ok (if is_empty scope then [] else b'.' ∷ scope) else err other

team_suffix : Str → Str → Result Str
team_suffix channel team =
    if is_empty channel then (if is_empty team then err other else ok (b'.' ∷ team)) else err other

-- The switch of `subsKey`.
id_suffix : Subject → Str → Str → Result Str
id_suffix user_created channel team = global_suffix channel team
id_suffix bot_joined_team channel team = global_suffix channel team
id_suffix bot_left_team channel team = global_suffix channel team
id_suffix bot_joined_channel channel team = global_suffix channel team
id_suffix bot_left_channel channel team = global_suffix channel team
id_suffix user_joined_channel channel team = optional_suffix channel team
id_suffix user_left_channel channel team = optional_suffix channel team
id_suffix user_joined_team channel team = optional_suffix team channel
id_suffix user_left_team channel team = optional_suffix team channel
id_suffix channel_created channel team = team_suffix channel team
id_suffix (unknown s) channel team = err other

suffixed : Subject → Result Str → Result Str
suffixed subject (ok suffix) = ok (kv_sub_prefix ++ (text subject ++ suffix))
suffixed subject (err e) = err e

-- `subsKey`.
unfoldable pub subs_key : Event → Result Str
unfolding suffixed id_suffix global_suffix optional_suffix team_suffix
subs_key e = suffixed e.subject (id_suffix e.subject e.channel_id e.team_id)

abbrev subscriptions_of : Option Stored → Result (List Subscription)
subscriptions_of none = ok []
subscriptions_of (some null) = err not_found
subscriptions_of (some (stored e subs)) = ok subs

module _ {S : Type 0} (kv : Kv S Stored) where
  -- `subscriptionStore.Get`; an event with no record has no subscriptions.
  unfoldable pub get : Event → S → Result (List Subscription)
  get e s = elim (subs_key e) [
    | err x ↦ err x
    | ok key ↦ elim (kv.get key s) [ err x ↦ err x | ok found ↦ subscriptions_of found ]
  ]

  save_at : Str → Event → List Subscription → Action S (Unit {0})
  save_at key e [] = kv.delete key
  save_at key e (sub ∷ subs) = do kv.set key (stored e (sub ∷ subs)); pure tt

  -- `subscriptionStore.Save`; an empty list deletes the record.
  unfoldable pub save : Event → List Subscription → Action S (Unit {0})
  unfolding save_at
  save e subs s = elim (subs_key e) [ err x ↦ (err x, s) | ok key ↦ save_at key e subs s ]
