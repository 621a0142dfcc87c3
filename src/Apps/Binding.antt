-- ===== src/Apps/Binding.antt =====
-- Bindings of apps to locations, a tree (apps/binding.go).
use mattermost_plugin_apps.Base.{Str, Option, List, [], ◌∷◌, Bool, true, false}
use mattermost_plugin_apps.Apps.Call.{Call}
use mattermost_plugin_apps.Apps.Form.{Form}
use mattermost_plugin_apps.Apps.Location.{Location}

-- The fields of a `Binding` but its sub-bindings.
pub record Item : Type 0 where
  pub app_id : Str
  pub location : Location
  pub icon : Str
  pub label : Str
  pub hint : Str
  pub description : Str
  pub submit : Option Call
  pub form : Option Form

mutual
  pub data Binding : Type 0 where
    binding : Item → Bindings → Binding

  pub data Bindings : Type 0 where
    nil : Bindings
    cons : Binding → Bindings → Bindings

abbrev pub item : Binding → Item
item (binding i bs) = i

abbrev pub subs : Binding → Bindings
subs (binding i bs) = bs

-- `len(bindings) > 0`.
abbrev pub is_given : Bindings → Bool
is_given nil = false
is_given (cons b bs) = true

abbrev pub to_list : Bindings → List Binding
to_list nil = []
to_list (cons b bs) = b ∷ to_list bs
