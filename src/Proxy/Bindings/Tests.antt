-- ===== src/Proxy/Bindings/Tests.antt =====
-- The bindings of two apps, cleaned and merged.
use mattermost_plugin_apps.Base.{
  Str, bytes, [], ◌∷◌, ◌≡◌, refl, ok, none, some, Result, ◌==◌, has_blank, has_prefix, trim_space,
}
use mattermost_plugin_apps.Apps.Call.{Call}
use mattermost_plugin_apps.Apps.Location.{is_in, is_top, sub}
use mattermost_plugin_apps.Apps.Binding.{Item, Bindings, binding, nil, cons, to_list}
use mattermost_plugin_apps.Proxy.Bindings.{
  Cleaner, is_granted, clean_location, set_app_id, clean_label, clean_item_icon, lacks_icon,
  clean_parts, clean_item, finish, keep, clean_with, clean_app_bindings, clean_app_binding,
}
use mattermost_plugin_apps.Proxy.Bindings.Clean.{AreCleanAt}
use mattermost_plugin_apps.Proxy.Bindings.Kept.{clean_app_bindings-AreCleanAt}
use mattermost_plugin_apps.Proxy.Bindings.Duplicates.{
  each_cleaned, clean_app_bindings-keeps_duplicates,
}
use mattermost_plugin_apps.Proxy.Bindings.Merge.{
  any_has_key, has_key, replace, append, put, merge, merge_under,
}
use mattermost_plugin_apps.Proxy.Bindings.Merge.Distinct.{HasDistinctKeys, merge-HasDistinctKeys}
use mattermost_plugin_apps.Proxy.Bindings.Merge.Paths.{item_at, later_of, item_at-merge}

abbrev keep_path : Str → Result Str
keep_path path = ok path

abbrev cleaner : Cleaner
cleaner = record {
  app_id = bytes "app1";
  granted_locations = bytes "/command" ∷ [];
  user_agent = bytes "webapp";
  normalize = keep_path;
}

abbrev entry : Str → Str → Str → Item
entry app location label = record {
  app_id = app;
  location = location;
  icon = [];
  label = label;
  hint = [];
  description = [];
  submit = none;
  form = none;
}

abbrev call : Call
call = record { path = bytes "/send"; expand = none; state = none }

abbrev command : Str → Str → Str → Bindings → Bindings
command app location label rest =
    cons (binding (record (entry app location label) { submit = some call }) nil) rest

-- Two commands of one location and one label, one whose label has two words, and a post menu
-- binding that is not granted.
abbrev returned : Bindings
returned =
    cons
      (binding (entry [] (bytes "/command") []) (
        command (bytes "other") (bytes "send") [] (
          command [] (bytes "send") (bytes "send")
            (command [] (bytes "both") (bytes "two words") nil))))
      (cons (binding (entry [] (bytes "/post_menu") []) (command [] (bytes "menu") [] nil)) nil)

abbrev cleaned : Bindings
cleaned =
    cons
      (binding (entry [] (bytes "/command") []) (
        command (bytes "app1") (bytes "send") (bytes "send")
          (command (bytes "app1") (bytes "send") (bytes "send") nil)))
      nil

returned-cleaned : (clean_app_bindings cleaner returned []).0 ≡ cleaned
unfolding clean_app_bindings clean_app_binding clean_with clean_item clean_location is_granted
    clean_parts set_app_id clean_label clean_item_icon lacks_icon finish keep is_in is_top sub ◌==◌
    has_blank has_prefix trim_space
returned-cleaned = refl

clean_app_bindings-AreCleanAt_example :
    AreCleanAt cleaner [] (clean_app_bindings cleaner returned []).0
clean_app_bindings-AreCleanAt_example = clean_app_bindings-AreCleanAt cleaner returned []

clean_app_bindings-keeps_duplicates_example :
    to_list (clean_app_bindings cleaner returned []).0 ≡ each_cleaned cleaner [] returned
clean_app_bindings-keeps_duplicates_example =
    clean_app_bindings-keeps_duplicates cleaner returned []

-- The bindings of one app and of another, under the common `/command`.
abbrev first : Bindings
first =
    cons (binding (entry [] (bytes "/command") []) (command (bytes "app1") (bytes "send") [] nil))
      nil

abbrev second : Bindings
second =
    cons (binding (entry [] (bytes "/command") []) (command (bytes "app2") (bytes "send") [] nil))
      nil

first_and_second :
    merge first second
    ≡ cons
        (binding
          (entry [] (bytes "/command") [])
          (command (bytes "app1") (bytes "send") [] (command (bytes "app2") (bytes "send") [] nil)))
        nil
unfolding merge put merge_under append replace any_has_key has_key ◌==◌
first_and_second = refl

first-HasDistinctKeys : HasDistinctKeys first
unfolding HasDistinctKeys any_has_key
first-HasDistinctKeys = (refl, (refl, tt, tt), tt)

second-HasDistinctKeys : HasDistinctKeys second
unfolding HasDistinctKeys any_has_key
second-HasDistinctKeys = (refl, (refl, tt, tt), tt)

merge-HasDistinctKeys_example : HasDistinctKeys (merge first second)
merge-HasDistinctKeys_example =
    merge-HasDistinctKeys first second first-HasDistinctKeys second-HasDistinctKeys

item_at-merge_example :
    item_at (([], bytes "/command") ∷ []) (bytes "app1") (bytes "send") (merge first second)
    ≡ later_of
        (item_at (([], bytes "/command") ∷ []) (bytes "app1") (bytes "send") first)
        (item_at (([], bytes "/command") ∷ []) (bytes "app1") (bytes "send") second)
item_at-merge_example =
    item_at-merge (([], bytes "/command") ∷ []) (bytes "app1") (bytes "send") first second
      second-HasDistinctKeys
