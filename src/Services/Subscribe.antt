-- ===== src/Services/Subscribe.antt =====
-- Subscribing to events and unsubscribing (server/appservices/subscriptions.go).
pub mod Records
pub mod Effects
pub mod Checked
pub mod Outcomes
pub mod Unsubscribing
mod Tests
use mattermost_plugin_apps.Base.{
  Str, Bool, true, false, ◌&&◌, List, [], ◌∷◌, ◌++◌, Result, ok, err, Error, other, forbidden,
  not_found, Option, none, some, is_empty, if◌then◌else◌, ◌==◌, eq_sound,
}
use mattermost_plugin_apps.Base.{◌>>=◌, ◌>>◌}
use mattermost_plugin_apps.Base.Action.{Action}
use mattermost_plugin_apps.Incoming.{
  Request, Directory, require_acting_user, require_source_app, require_sysadmin_or_plugin,
}
use mattermost_plugin_apps.Apps.App.{App}
use mattermost_plugin_apps.Apps.Event
use mattermost_plugin_apps.Apps.Event.{
  Event, Problems, user_created, user_joined_channel, user_left_channel, user_joined_team,
  user_left_team, bot_joined_channel, bot_left_channel, bot_joined_team, bot_left_team,
  channel_created, unknown, validate_event, validate, Subject,
}
use mattermost_plugin_apps.Store.AppMaps
use mattermost_plugin_apps.Store.AppMaps.{AppMaps}
use mattermost_plugin_apps.Store.Kv.{Kv}
use mattermost_plugin_apps.Store.Subscriptions
use mattermost_plugin_apps.Store.Subscriptions.{Subscription, Stored}

allowed : Bool → Result (Unit {0})
allowed true = ok tt
allowed false = err other

-- `r.ActingUserID() != app.BotUserID`, where the app could be read.
acts_as_bot : Request → Result App → Result (Unit {0})
acts_as_bot r (err e) = err e
acts_as_bot r (ok app) = allowed (r.acting_user_id == app.bot_user_id)

permission_for : Directory → AppMaps → Request → Subject → Str → Str → Result (Unit {0})
permission_for d apps r user_created channel team = allowed (d.can_view_members r.acting_user_id)
permission_for d apps r user_joined_channel channel team =
    if is_empty channel then ok tt else allowed (d.can_read_channel r.acting_user_id channel)
permission_for d apps r user_left_channel channel team =
    if is_empty channel then ok tt else allowed (d.can_read_channel r.acting_user_id channel)
permission_for d apps r user_joined_team channel team =
    if is_empty team then ok tt else allowed (d.can_view_team r.acting_user_id team)
permission_for d apps r user_left_team channel team =
    if is_empty team then ok tt else allowed (d.can_view_team r.acting_user_id team)
permission_for d apps r bot_joined_channel channel team =
    acts_as_bot r (AppMaps.get apps r.source_app_id)
permission_for d apps r bot_left_channel channel team =
    acts_as_bot r (AppMaps.get apps r.source_app_id)
permission_for d apps r bot_joined_team channel team =
    acts_as_bot r (AppMaps.get apps r.source_app_id)
permission_for d apps r bot_left_team channel team =
    acts_as_bot r (AppMaps.get apps r.source_app_id)
permission_for d apps r channel_created channel team =
    allowed (d.can_list_team_channels r.acting_user_id team)
permission_for d apps r (unknown s) channel team = err other

-- `hasPermissionToSubscribe`.
pub has_permission_to_subscribe : Directory → AppMaps → Request → Event → Result (Unit {0})
unfolding permission_for acts_as_bot allowed
has_permission_to_subscribe d apps r e = permission_for d apps r e.subject e.channel_id e.team_id

-- A `multierror` as the error of a check.
no_problems : Problems → Result (Unit {0})
no_problems [] = ok tt
no_problems (p ∷ ps) = err other

-- The checks of `Subscribe`; the request comes back with its source app.
pub check_subscribe : Directory → AppMaps → Request → Event.Subscription → Result Request
unfolding no_problems
check_subscribe d apps r sub = do
  require_acting_user r
  r' ← require_source_app d r
  no_problems (validate sub)
  has_permission_to_subscribe d apps r' sub.event
  ok r'

-- The checks of `Unsubscribe`.
pub check_unsubscribe : Directory → Request → Event → Result Request
unfolding no_problems
check_unsubscribe d r e = do
  require_acting_user r
  r' ← require_source_app d r
  no_problems (validate_event e [])
  ok r'

-- Whether a record belongs to the app and the user.
unfoldable pub is_own : Str → Str → Subscription → Bool
is_own app owner s = s.app_id == app && s.owner_user_id == owner

-- The loop of `unsubscribe`: the first own record, and the list without it.
unfoldable pub take_own : Str → Str → List Subscription → Option (Subscription × List Subscription)
unfolding is_own
take_own app owner [] = none
take_own app owner (s ∷ all) =
    let later = take_own app owner all in
    if is_own app owner s
    then some (s, all)
    else elim later [ none ↦ none | some (found, modified) ↦ some (found, s ∷ modified) ]

-- What `unsubscribe` returns: the remaining list, or an error beside a list (`nil`, or `all` if
-- there is nothing to remove).
pub data Removal : Type 0 where
  removed : List Subscription → Removal
  failed : List Subscription → Error → Removal

module _ {S : Type 0} (kv : Kv S Stored) (d : Directory) where
  abbrev after_save : List Subscription → Result (Unit {0}) × S → Removal × S
  after_save modified (ok u, s) = (removed modified, s)
  after_save modified (err e, s) = (failed [] e, s)

  abbrev may_remove : Request → Subscription → Bool
  may_remove r s =
      if s.owner_user_id == r.acting_user_id
      then true
      else elim (require_sysadmin_or_plugin d r) [ ok u ↦ true | err e ↦ false ]

  abbrev remove_found :
      Request
      → Event
      → List Subscription
      → Option (Subscription × List Subscription)
      → S
      → Removal × S
  remove_found r e all none s = (failed all not_found, s)
  remove_found r e all (some (found, modified)) s =
      if may_remove r found
      then after_save modified (Subscriptions.save kv e modified s)
      else (failed [] forbidden, s)

  -- `AppServices.unsubscribe`.
  pub unsubscribe_owner : Request → Str → Event → S → Removal × S
  unsubscribe_owner r owner e s = elim (Subscriptions.get kv e s) [
    | err x ↦ (failed [] x, s)
    | ok all ↦ remove_found r e all (take_own r.source_app_id owner all) s
  ]

  abbrev finish_subscribe : Request → Event.Subscription → Removal × S → Result (Unit {0}) × S
  finish_subscribe r sub (removed all, s) =
      Subscriptions.save kv sub.event
        (all
          ++ (record {
            call = sub.call;
            app_id = r.source_app_id;
            owner_user_id = r.acting_user_id;
          })
            ∷ [])
        s
  finish_subscribe r sub (failed all not_found, s) =
      Subscriptions.save kv sub.event
        (all
          ++ (record {
            call = sub.call;
            app_id = r.source_app_id;
            owner_user_id = r.acting_user_id;
          })
            ∷ [])
        s
  finish_subscribe r sub (failed all e, s) = (err e, s)

  abbrev finish_unsubscribe : Removal × S → Result (Unit {0}) × S
  finish_unsubscribe (removed all, s) = (ok tt, s)
  finish_unsubscribe (failed all e, s) = (err e, s)

  -- `AppServices.Subscribe`.
  pub subscribe : AppMaps → Request → Event.Subscription → Action S (Unit {0})
  subscribe apps r sub s = elim (check_subscribe d apps r sub) [
    | err e ↦ (err e, s)
    | ok r' ↦ finish_subscribe r' sub (unsubscribe_owner r' r'.acting_user_id sub.event s)
  ]

  -- `AppServices.Unsubscribe`.
  pub unsubscribe : Request → Event → Action S (Unit {0})
  unsubscribe r e s = elim (check_unsubscribe d r e) [
    | err x ↦ (err x, s)
    | ok r' ↦ finish_unsubscribe (unsubscribe_owner r' r'.acting_user_id e s)
  ]
