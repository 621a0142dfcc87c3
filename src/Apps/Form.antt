-- ===== src/Apps/Form.antt =====
-- Forms and their fields (apps/form.go, apps/field.go).
use mattermost_plugin_apps.Base.{Str, Bool, Option, List}
use mattermost_plugin_apps.Apps.Call.{Call}

-- `type FieldType string`; `unknown` is any other text.
pub data FieldType : Type 0 where
  text static_select dynamic_select bool user channel markdown : FieldType
  unknown : Str → FieldType

pub record SelectOption : Type 0 where
  pub label : Str
  pub value : Str
  pub icon_data : Str

-- Custom values and numbers are kept as their texts.
pub record Field : Type 0 where
  pub name : Str
  pub type : FieldType
  pub is_required : Bool
  pub read_only : Bool
  pub value : Option Str
  pub description : Str
  pub label : Str
  pub autocomplete_hint : Str
  pub autocomplete_position : Str
  pub modal_label : Str
  pub select_is_multi : Bool
  pub select_refresh : Bool
  pub select_static_options : List SelectOption
  pub select_dynamic_lookup : Option Call
  pub text_subtype : Str
  pub text_min_length : Str
  pub text_max_length : Str

pub record Form : Type 0 where
  pub source : Option Call
  pub title : Str
  pub header : Str
  pub footer : Str
  pub icon : Str
  pub submit : Option Call
  pub submit_buttons : Str
  pub fields : List Field
