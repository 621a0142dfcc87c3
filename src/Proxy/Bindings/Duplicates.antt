-- ===== src/Proxy/Bindings/Duplicates.antt =====
-- Which bindings of a list cleaning keeps.
use mattermost_plugin_apps.Base.{List, [], ◌∷◌, ◌≡◌, refl, arith, Option, none, some}
use mattermost_plugin_apps.Apps.Event.{Problems}
use mattermost_plugin_apps.Apps.Location.{Location}
use mattermost_plugin_apps.Apps.Binding.{Binding, Bindings, nil, cons, to_list}
use mattermost_plugin_apps.Proxy.Bindings.{
  Cleaner, keep, never_used, clean_app_bindings, clean_app_binding,
}

abbrev add : Option Binding → List Binding → List Binding
add none list = list
add (some b) list = b ∷ list

-- The bindings that `cleanAppBinding` does not drop.
pub each_cleaned : Cleaner → Location → Bindings → List Binding
each_cleaned c prefix nil = []
each_cleaned c prefix (cons b bs) = add (clean_app_binding c b prefix).0 (each_cleaned c prefix bs)

keep_all :
    (prefix : Location) (p : Option Binding × Problems) (rest : Bindings × Problems)
    → to_list (keep never_used never_used prefix p rest).0 ≡ add p.0 (to_list rest.0)
unfolding keep
keep_all prefix (none, problems) (out, later) = refl
keep_all prefix (some b, problems) (out, later) = ground arith

-- Cleaning a list of bindings drops none but those that `cleanAppBinding` drops on its own, and
-- keeps their order: two bindings of one location, or two commands of one label, both stay.
pub clean_app_bindings-keeps_duplicates :
    (c : Cleaner) (bs : Bindings) (prefix : Location)
    → to_list (clean_app_bindings c bs prefix).0 ≡ each_cleaned c prefix bs
unfolding clean_app_bindings each_cleaned
clean_app_bindings-keeps_duplicates c nil prefix = refl
clean_app_bindings-keeps_duplicates c (cons b bs) prefix =
    rw
      (
        keep_all prefix (clean_app_binding c b prefix) (clean_app_bindings c bs prefix),
        clean_app_bindings-keeps_duplicates c bs prefix,
      )
      refl
