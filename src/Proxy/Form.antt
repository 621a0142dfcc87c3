-- ===== src/Proxy/Form.antt =====
-- Cleaning the forms that apps return (server/proxy/form.go). A problem is an error of the
-- `multierror` that is returned beside the cleaned form.
pub mod Options
pub mod Clean
mod Tests
use mattermost_plugin_apps.Base.{
  Str, Bool, true, false, ◌&&◌, ◌||◌, List, [], ◌∷◌, ◌++◌, Error, other, Option, none, some,
  is_empty, is_some, is_nil, if◌then◌else◌, ◌==◌, has_blank, replace_byte, Result, ok, err,
}
use mattermost_plugin_apps.Apps.Event.{Problems}
use mattermost_plugin_apps.Apps.Form.{
  SelectOption, Field, Form, FieldType, static_select, dynamic_select,
}

-- A set of used texts: a map to `true`.
unfoldable pub is_used : Str → List Str → Bool
is_used s [] = false
is_used s (t ∷ used) = t == s || is_used s used

-- The label of an option, by default its value.
abbrev pub option_label : SelectOption → Str
option_label o = if is_empty o.label then o.value else o.label

-- The tests of one round of `cleanStaticSelect`.
unfoldable pub accepts_option : List Str → List Str → SelectOption → Bool
accepts_option labels values o =
    if is_empty (option_label o)
    then false
    else if is_used (option_label o) labels
    then false
    else if is_used o.value values
    then false
    else true

-- The loop of `cleanStaticSelect`: the options that stay, and the problems.
unfoldable pub clean_options :
    List Str → List Str → List SelectOption → List SelectOption × Problems
clean_options labels values [] = ([], [])
clean_options labels values (o ∷ os) =
    let kept = clean_options (option_label o ∷ labels) (o.value ∷ values) os in
    let skipped = clean_options labels values os in
    if accepts_option labels values o then (o ∷ kept.0, kept.1) else (skipped.0, other ∷ skipped.1)

-- `cleanStaticSelect`.
unfoldable pub clean_static_select : Field → Field × Problems
clean_static_select f =
    let (options, problems) = clean_options [] [] f.select_static_options in
    (record f { select_static_options = options }, problems)

-- The end of a round of `cleanForm`, by the type of the field: what is added, and the problems.
clean_by_type : FieldType → Field → Option Field × Problems
clean_by_type static_select f =
    let (clean, problems) = clean_static_select f in
    if is_nil clean.select_static_options
    then (none, problems ++ other ∷ [])
    else (some clean, problems)
clean_by_type dynamic_select f =
    if is_some f.select_dynamic_lookup then (some f, []) else (none, other ∷ [])
clean_by_type _ f = (some f, [])

-- The default of a label: the name, with dashes for underscores.
abbrev pub default_label : Field → Str
default_label f = if is_empty f.label then replace_byte b'_' b'-' f.name else f.label

-- One round of `cleanForm`; `none` is a `continue`.
unfoldable pub clean_field : List Str → Field → Option Field × Problems
unfolding clean_by_type
clean_field used f =
    if is_empty f.name
    then (none, other ∷ [])
    else if has_blank f.name
    then (none, other ∷ [])
    else if has_blank (default_label f)
    then (none, other ∷ [])
    else if is_used (default_label f) used
    then (none, other ∷ [])
    else clean_by_type f.type (record f { label = default_label f })

-- The loop of `cleanForm`.
unfoldable pub clean_fields : List Str → List Field → List Field × Problems
clean_fields used [] = ([], [])
clean_fields used (f ∷ fs) =
    let (kept, problems) = clean_field used f in
    elim kept [
      | none ↦ let rest = clean_fields used fs in (rest.0, problems ++ rest.1)
      | some clean ↦
          let rest = clean_fields (clean.label ∷ used) fs in (clean ∷ rest.0, problems ++ rest.1)
    ]

-- The icon of a form; `normalize` is `normalizeStaticPath` for the app.
unfoldable pub clean_icon : (Str → Result Str) → Str → Str × Problems
clean_icon normalize icon =
    if is_empty icon
    then ([], [])
    else elim (normalize icon) [ ok clean ↦ (clean, []) | err e ↦ ([], other ∷ []) ]

-- `cleanForm`.
unfoldable pub clean_form : (Str → Result Str) → Form → Form × Problems
clean_form normalize f =
    let (icon, icon_problems) = clean_icon normalize f.icon in
    let (fields, field_problems) = clean_fields [] f.fields in
    let call_problems : Problems =
      if is_some f.submit || is_some f.source then [] else other ∷ [] in
    (record f { icon = icon; fields = fields }, icon_problems ++ (call_problems ++ field_problems))
