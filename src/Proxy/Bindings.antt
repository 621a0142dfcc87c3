-- ===== src/Proxy/Bindings.antt =====
-- Cleaning the bindings that an app returns (server/proxy/invoke_bindings.go).
pub mod Clean
pub mod Kept
pub mod Duplicates
pub mod Merge
mod Tests
use mattermost_plugin_apps.Base.{
  Str, bytes, Bool, true, false, not, ◌&&◌, ◌||◌, List, [], ◌∷◌, ◌++◌, Error, other, forbidden,
  Option, none, some, is_empty, is_some, if◌then◌else◌, ◌==◌, has_blank, trim_space, Result, ok,
  err,
}
use mattermost_plugin_apps.Apps.Event.{Problems}
use mattermost_plugin_apps.Apps.Form.{Form}
use mattermost_plugin_apps.Apps.Location.{
  Location, is_in, is_top, sub, location_command, location_channel_header,
}
use mattermost_plugin_apps.Apps.Binding.{
  Item, Binding, Bindings, binding, nil, cons, item, is_given,
}
use mattermost_plugin_apps.Proxy.Form.{clean_form}

-- What cleaning reads of the app and of the configuration.
pub record Cleaner : Type 0 where
  pub app_id : Str
  pub granted_locations : List Location
  pub user_agent : Str
  -- `normalizeStaticPath` for the app.
  pub normalize : Str → Result Str

-- The loop over the granted locations.
unfoldable pub is_granted : List Location → Location → Bool
is_granted [] fql = false
is_granted (granted ∷ list) fql = is_in fql granted || is_granted list fql

-- A default for the location, without white space around it.
unfoldable pub clean_location : Item → Item × Problems
clean_location b =
    let location = if is_empty b.location then b.label else b.location in
    let trimmed = trim_space location in
    (record b { location = trimmed }, if trimmed == location then [] else other ∷ [])

-- "Ensure all bindings except the top-level have the AppID set, forcefully."
unfoldable pub set_app_id : Cleaner → Location → Item → Item
set_app_id c fql b = if is_top fql then b else record b { app_id = c.app_id }

-- The label of a command binding: a default, no white space around it, one word. `none` stands
-- for `return nil`.
unfoldable pub clean_label : Location → Item → Option Item × Problems
clean_label fql b =
    if not (fql == location_command) && is_in fql location_command
    then (let label = if is_empty b.label then b.location else b.label in
        let trimmed = trim_space label in
        let problems : Problems = if trimmed == label then [] else other ∷ [] in
        if has_blank trimmed
        then (none, problems ++ other ∷ [])
        else (some (record b { label = trimmed }), problems))
    else (some b, [])

unfoldable pub clean_item_icon : Cleaner → Item → Item × Problems
clean_item_icon c b = if is_empty b.icon then (b, []) else elim (c.normalize b.icon) [
  | ok icon ↦ (record b { icon = icon }, [])
  | err e ↦ (record b { icon = [] }, other ∷ [])
]

-- A channel header binding must have an icon, in the web application.
unfoldable pub lacks_icon : Cleaner → Location → Item → Bool
lacks_icon c fql b =
    fql == sub location_channel_header b.location
    && is_empty b.icon
    && c.user_agent == bytes "webapp"

-- `cleanAppBinding` up to its final switch, after the location is cleaned and granted.
unfoldable pub clean_parts : Cleaner → Location → Item → Option Item × Problems
unfolding clean_label clean_item_icon lacks_icon
clean_parts c fql b =
    let (labelled, label_problems) = clean_label fql (set_app_id c fql b) in
    elim labelled [
      | none ↦ (none, label_problems)
      | some l ↦
          let (clean, icon_problems) = clean_item_icon c l in
          if lacks_icon c fql clean
          then (none, label_problems ++ (icon_problems ++ other ∷ []))
          else (some clean, label_problems ++ icon_problems)
    ]

-- `cleanAppBinding` up to its final switch: the cleaned fields, or `none` for `return nil`.
unfoldable pub clean_item : Cleaner → Location → Item → Option Item × Problems
clean_item c prefix b =
    if is_empty b.location && is_empty b.label
    then (none, other ∷ [])
    else (let (located, location_problems) = clean_location b in
        let fql = sub prefix located.location in
        if is_granted c.granted_locations fql
        then (let (clean, problems) = clean_parts c fql located in
            (clean, location_problems ++ problems))
        else (none, location_problems ++ forbidden ∷ []))

-- The final switch: (only) one of the sub-bindings, a form and a submit call. The cleaned
-- sub-bindings and their problems are passed in.
unfoldable pub finish : Cleaner → Item → Bindings → Bindings × Problems → Option Binding × Problems
finish c b bs (clean_bs, problems) =
    if is_given bs && not (is_some b.form) && not (is_some b.submit)
    then (if is_given clean_bs then (some (binding b clean_bs), problems) else (none, problems))
    else if is_some b.form && not (is_some b.submit) && not (is_given bs)
    then elim b.form [
      | none ↦ (none, [])
      | some f ↦
          let (clean, form_problems) = clean_form c.normalize f in
          (some (binding (record b { form = some clean }) bs), form_problems)
    ]
    else if is_some b.submit && not (is_given bs) && not (is_some b.form)
    then (some (binding b bs), [])
    else (none, other ∷ [])

-- One round of `cleanAppBindings`. The two maps of used locations and labels are passed in.
unfoldable pub keep :
    (Location → Bool)
    → (Str → Bool)
    → Location
    → Option Binding × Problems
    → Bindings × Problems
    → Bindings × Problems
keep used_locations used_labels prefix (none, problems) (out, later) = (out, problems ++ later)
keep used_locations used_labels prefix (some b, problems) (out, later) =
    let fql = sub prefix (item b).location in
    if used_locations (item b).location
    then (out, problems ++ (other ∷ later))
    else if is_in fql location_command && used_labels (item b).label
    then (out, problems ++ (other ∷ later))
    else (cons b out, problems ++ later)

-- `cleanAppBinding` after `clean_item`; the cleaning of the sub-bindings is passed in.
unfoldable pub clean_with :
    Cleaner
    → Location
    → Bindings
    → (Location → Bindings × Problems)
    → Option Item × Problems
    → Option Binding × Problems
clean_with c prefix bs clean_subs (none, problems) = (none, problems)
clean_with c prefix bs clean_subs (some b, problems) =
    let done = finish c b bs (clean_subs (sub prefix b.location)) in (done.0, problems ++ done.1)

-- The code declares maps of the used locations and command labels, and never writes to them: in
-- every round both are empty.
abbrev pub never_used : Str → Bool
never_used s = false

unfoldable mutual
  -- `cleanAppBindings`.
  pub clean_app_bindings : Cleaner → Bindings → Location → Bindings × Problems
  clean_app_bindings c nil prefix = (nil, [])
  clean_app_bindings c (cons b bs) prefix =
      keep never_used never_used prefix (clean_app_binding c b prefix)
        (clean_app_bindings c bs prefix)

  -- `cleanAppBinding`.
  pub clean_app_binding : Cleaner → Binding → Location → Option Binding × Problems
  clean_app_binding c (binding b bs) prefix =
      clean_with c prefix bs (clean_app_bindings c bs) (clean_item c prefix b)
