-- ===== src/Services/Subscribe/Tests.antt =====
-- Runs of the subscription service on a store in memory.
use mattermost_plugin_apps.Base.{
  Str, bytes, ◌≡◌, refl, true, false, [], ◌∷◌, ok, none, ◌==◌, ◌≤◌, ◌++◌, if◌then◌else◌, arith,
}
use mattermost_plugin_apps.Base.Assoc.{lookup, insert, remove}
use mattermost_plugin_apps.Apps.Event
use mattermost_plugin_apps.Apps.Event.{Event, channel_created, validate, validate_event}
use mattermost_plugin_apps.Apps.Call.{is_empty_call}
use mattermost_plugin_apps.Incoming.{Request, Directory, require_acting_user, require_source_app}
use mattermost_plugin_apps.Store.AppMaps.{AppMaps}
use mattermost_plugin_apps.Store.Kv.Memory.{Memory, memory, memory_laws}
use mattermost_plugin_apps.Store.Subscriptions.{Stored, subs_key, get, save}
use mattermost_plugin_apps.Services.Subscribe.{
  check_subscribe, check_unsubscribe, subscribe, unsubscribe, unsubscribe_owner,
  has_permission_to_subscribe, take_own,
}
use mattermost_plugin_apps.Services.Subscribe.Records.{count_own}
use mattermost_plugin_apps.Services.Subscribe.Effects.{at}
use mattermost_plugin_apps.Services.Subscribe.Outcomes.{
  HasOneEach, own_others, new_record, subscribe_stored, subscribe-others, subscribe-HasOneEach,
}
use mattermost_plugin_apps.Services.Subscribe.Unsubscribing.{
  unsubscribe_removes, unsubscribe-others, unsubscribe-HasOneEach,
}

abbrev directory : Directory
directory = record {
  can_manage_system = λ u. false;
  can_view_members = λ u. true;
  can_read_channel = λ u c. true;
  can_view_team = λ u t. true;
  can_list_team_channels = λ u t. true;
  user = λ u. ok (record { id = u; is_bot = false });
  session_app_id = λ s. ok (bytes "app1");
}

abbrev request : Request
request = record {
  acting_user_id = bytes "ann";
  destination = [];
  session_id = bytes "s1";
  source_app_id = [];
  source_plugin_id = [];
  acting_user = none;
}

abbrev checked : Request
checked = record request { source_app_id = bytes "app1" }

abbrev new_channels : Event
new_channels = record { subject = channel_created; channel_id = []; team_id = bytes "t1" }

abbrev subscription : Event.Subscription
subscription = record {
  event = new_channels;
  call = record { path = bytes "/created"; expand = none; state = none };
}

abbrev no_apps : AppMaps
no_apps = record { installed = []; builtin_installed = [] }

abbrev empty : Memory Stored
empty = (false, [])

abbrev key : Str
key = bytes "sub.channel_created.t1"

check_runs : check_subscribe directory no_apps request subscription ≡ ok checked
unfolding check_subscribe require_acting_user require_source_app validate validate_event
    is_empty_call has_permission_to_subscribe
check_runs = refl

check_unsubscribe_runs : check_unsubscribe directory request new_channels ≡ ok checked
unfolding check_unsubscribe require_acting_user require_source_app validate_event
check_unsubscribe_runs = refl

key_runs : subs_key new_channels ≡ ok key
unfolding subs_key
key_runs = refl

abbrev subscribed : Memory Stored
subscribed = (subscribe memory directory no_apps request subscription empty).1

subscribe_runs : (subscribe memory directory no_apps request subscription empty).0 ≡ ok tt
unfolding subscribe check_subscribe require_acting_user require_source_app validate validate_event
    is_empty_call has_permission_to_subscribe unsubscribe_owner get save subs_key lookup insert
    take_own ◌==◌
subscribe_runs = refl

unsubscribe_runs : (unsubscribe memory directory request new_channels subscribed).0 ≡ ok tt
unfolding unsubscribe subscribe check_unsubscribe check_subscribe require_acting_user
    require_source_app validate validate_event is_empty_call has_permission_to_subscribe
    unsubscribe_owner get save subs_key lookup insert remove take_own ◌==◌
unsubscribe_runs = refl

empty-HasOneEach : HasOneEach memory memory_laws directory empty
unfolding lookup count_own
empty-HasOneEach key app owner = omega arith

subscribed-HasOneEach : HasOneEach memory memory_laws directory subscribed
subscribed-HasOneEach =
    subscribe-HasOneEach memory memory_laws directory no_apps request subscription empty
      empty-HasOneEach

subscribe-HasOneEach_example :
    count_own (bytes "app1") (bytes "ann") (at memory memory_laws key subscribed) ≤ 1
subscribe-HasOneEach_example =
    subscribe-HasOneEach memory memory_laws directory no_apps request subscription empty
      empty-HasOneEach key (bytes "app1") (bytes "ann")

subscribe-others_example :
    own_others checked (at memory memory_laws key subscribed)
    ≡ own_others checked (at memory memory_laws key empty)
subscribe-others_example =
    subscribe-others memory memory_laws directory no_apps request checked subscription empty
      check_runs key

subscribe_stored_example : at memory memory_laws key subscribed ≡ (
    if key == key
    then own_others checked (at memory memory_laws key empty)
      ++ new_record checked subscription ∷ []
    else at memory memory_laws key empty)
subscribe_stored_example =
    subscribe_stored memory memory_laws directory no_apps request checked subscription key empty
      empty-HasOneEach check_runs key_runs subscribe_runs key

unsubscribe-HasOneEach_example :
    count_own
      (bytes "app1")
      (bytes "ann")
      (at memory memory_laws key (unsubscribe memory directory request new_channels subscribed).1)
    ≤ 1
unsubscribe-HasOneEach_example =
    unsubscribe-HasOneEach memory memory_laws directory request new_channels subscribed
      subscribed-HasOneEach key (bytes "app1") (bytes "ann")

unsubscribe-others_example :
    own_others checked
      (at memory memory_laws key (unsubscribe memory directory request new_channels subscribed).1)
    ≡ own_others checked (at memory memory_laws key subscribed)
unsubscribe-others_example =
    unsubscribe-others memory memory_laws directory request checked new_channels subscribed
      check_unsubscribe_runs key

unsubscribe_removes_example :
    (count_own (bytes "app1") (bytes "ann") (at memory memory_laws key subscribed) ≡ 1)
    × ((j : Str)
        → at memory memory_laws j (unsubscribe memory directory request new_channels subscribed).1
          ≡ (if key == j
              then own_others checked (at memory memory_laws key subscribed)
              else at memory memory_laws j subscribed))
unsubscribe_removes_example =
    unsubscribe_removes memory memory_laws directory request checked new_channels key subscribed
      subscribed-HasOneEach check_unsubscribe_runs key_runs unsubscribe_runs
