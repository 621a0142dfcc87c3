-- ===== src/Proxy/Form/Tests.antt =====
-- A form that an app returns, cleaned.
use mattermost_plugin_apps.Base.{
  Str, bytes, false, [], ◌∷◌, ◌≡◌, refl, ok, none, some, Result, List, map, has_blank, replace_byte,
  ◌==◌,
}
use mattermost_plugin_apps.Apps.Form.{SelectOption, Field, Form, FieldType, text, static_select}
use mattermost_plugin_apps.Proxy.Form.{
  is_used, clean_options, clean_field, clean_fields, clean_static_select, accepts_option,
  clean_form,
}
use mattermost_plugin_apps.Proxy.Form.Clean.{AreCleanFields, clean_form-AreCleanFields}

-- `normalizeStaticPath` of an app whose paths are all acceptable.
abbrev pub keep_path : Str → Result Str
keep_path path = ok path

abbrev option : Str → Str → SelectOption
option label value = record { label = label; value = value; icon_data = [] }

abbrev field : Str → Str → FieldType → List SelectOption → Field
field name label type options = record {
  name = name;
  type = type;
  is_required = false;
  read_only = false;
  value = none;
  description = [];
  label = label;
  autocomplete_hint = [];
  autocomplete_position = [];
  modal_label = [];
  select_is_multi = false;
  select_refresh = false;
  select_static_options = options;
  select_dynamic_lookup = none;
  text_subtype = [];
  text_min_length = [];
  text_max_length = [];
}

-- Two fields of one label, the second after its default, and a select with a repeated option.
abbrev pub form : Form
form = record {
  source = none;
  title = bytes "New";
  header = [];
  footer = [];
  icon = [];
  submit = some (record { path = bytes "/send"; expand = none; state = none });
  submit_buttons = [];
  fields =
      field (bytes "a_b") [] text []
      ∷ field (bytes "x") (bytes "a-b") text []
      ∷ field (bytes "two words") [] text []
      ∷ field (bytes "kind") [] static_select (
          option (bytes "One") (bytes "1")
          ∷ option (bytes "One") (bytes "2")
          ∷ option [] (bytes "3")
          ∷ [])
      ∷ [];
}

abbrev cleaned : Form
cleaned = (clean_form keep_path form).0

cleaned_names : map (λ (f : Field). f.name) cleaned.fields ≡ bytes "a_b" ∷ bytes "kind" ∷ []
unfolding clean_form clean_fields clean_field clean_options is_used has_blank replace_byte ◌==◌
    clean_static_select accepts_option
cleaned_names = refl

clean_form-AreCleanFields_example : AreCleanFields cleaned.fields
clean_form-AreCleanFields_example = clean_form-AreCleanFields keep_path form
