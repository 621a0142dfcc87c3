-- ===== src/Apps/Call.antt =====
-- Calls (apps/call.go), and the clause of a call that says what to expand (apps/expand.go).
use mattermost_plugin_apps.Base.{
  Str, Bool, true, false, ◌&&◌, Option, none, some, is_empty, if◌then◌else◌,
}

-- Levels are kept as they are written; Apps.ExpandLevel parses them.
pub record Expand : Type 0 where
  pub app : Str
  pub acting_user : Str
  pub acting_user_access_token : Str
  pub locale : Str
  pub channel : Str
  pub channel_member : Str
  pub team : Str
  pub team_member : Str
  pub post : Str
  pub root_post : Str
  pub user : Str
  pub oauth2_app : Str
  pub oauth2_user : Str

-- `State` is custom data: the model keeps its JSON text. A nil pointer is `none`.
pub record Call : Type 0 where
  pub path : Str
  pub expand : Option Expand
  pub state : Option Str

is_nil {ℓ} : {A : Type ℓ} → Option A → Bool
is_nil none = true
is_nil (some a) = false

-- `call == Call{}`.
unfoldable pub is_empty_call : Call → Bool
unfolding is_nil
is_empty_call c = is_empty c.path && is_nil c.expand && is_nil c.state

abbrev or_else {ℓ} : {A : Type ℓ} → Option A → Option A → Option A
or_else none default = default
or_else (some a) default = some a

-- `Call.WithDefault`; copies are the same values here (`PartialCopy`).
unfoldable pub with_default : Option Call → Call → Call
with_default none default = default
with_default (some c) default = record {
  path = if is_empty c.path then default.path else c.path;
  expand = or_else c.expand default.expand;
  state = or_else c.state default.state;
}
