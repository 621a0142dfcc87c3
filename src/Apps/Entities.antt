-- ===== src/Apps/Entities.antt =====
-- What is read of the entities of the Mattermost server, and how they are stripped to an expand level
-- (apps/expand.go). The other fields of an entity are kept as one, `rest`; an entity without them has
-- the empty text there.
use mattermost_plugin_apps.Base.{Str, ℕ, Bool, false, [], Option, none, some}
use mattermost_plugin_apps.Apps.ExpandLevel.{ExpandLevel}

pub record User : Type 0 where
  pub id : Str
  pub bot_description : Str
  pub delete_at : ℕ
  pub email : Str
  pub first_name : Str
  pub is_bot : Bool
  pub last_name : Str
  pub locale : Str
  pub nickname : Str
  pub position : Str
  pub roles : Str
  pub timezone : Str
  pub username : Str
  pub auth_data : Option Str
  pub rest : Str

-- `model.ChannelTypeDirect`, `model.ChannelTypeGroup` and any other type.
pub data ChannelType : Type 0 where
  direct group other_type : ChannelType

pub record Channel : Type 0 where
  pub id : Str
  pub delete_at : ℕ
  pub team_id : Str
  pub type : ChannelType
  pub display_name : Str
  pub name : Str
  pub rest : Str

pub record ChannelMember : Type 0 where
  pub user_id : Str
  pub channel_id : Str
  pub rest : Str

pub record Team : Type 0 where
  pub id : Str
  pub display_name : Str
  pub name : Str
  pub description : Str
  pub email : Str
  pub type : Str
  pub rest : Str

pub record TeamMember : Type 0 where
  pub user_id : Str
  pub team_id : Str
  pub rest : Str

pub record Post : Type 0 where
  pub id : Str
  pub type : Str
  pub user_id : Str
  pub channel_id : Str
  pub root_id : Str
  pub message : Str
  pub rest : Str

-- `User.Sanitize` (with the email and the full name kept), `Team.Sanitize` and `Post.SanitizeProps`.
pub record Sanitizers : Type 0 where
  pub user : User → User
  pub team : Team → Team
  pub post : Post → Post

abbrev pub empty_user : User
empty_user = record {
  id = [];
  bot_description = [];
  delete_at = 0;
  email = [];
  first_name = [];
  is_bot = false;
  last_name = [];
  locale = [];
  nickname = [];
  position = [];
  roles = [];
  timezone = [];
  username = [];
  auth_data = none;
  rest = [];
}

abbrev pub empty_channel : Channel
empty_channel = record {
  id = [];
  delete_at = 0;
  team_id = [];
  type = other_type;
  display_name = [];
  name = [];
  rest = [];
}

abbrev pub empty_team : Team
empty_team = record {
  id = [];
  display_name = [];
  name = [];
  description = [];
  email = [];
  type = [];
  rest = [];
}

abbrev pub empty_post : Post
empty_post = record {
  id = [];
  type = [];
  user_id = [];
  channel_id = [];
  root_id = [];
  message = [];
  rest = [];
}

module _ (clean : Sanitizers) where
  -- `StripUser`.
  unfoldable pub strip_user : ExpandLevel → User → Option User
  strip_user ExpandLevel.id user = some (record empty_user { id = user.id })
  strip_user ExpandLevel.summary user = some (record user { auth_data = none; rest = [] })
  strip_user ExpandLevel.all user = some (record (clean.user user) { auth_data = none })
  strip_user ExpandLevel.none user = none

  -- `StripTeam`.
  unfoldable pub strip_team : ExpandLevel → Team → Option Team
  strip_team ExpandLevel.id team = some (record empty_team { id = team.id })
  strip_team ExpandLevel.summary team = some (record team { rest = [] })
  strip_team ExpandLevel.all team = some (clean.team team)
  strip_team ExpandLevel.none team = none

  -- `StripPost`.
  unfoldable pub strip_post : ExpandLevel → Post → Option Post
  strip_post ExpandLevel.id post = some (record empty_post { id = post.id })
  strip_post ExpandLevel.summary post = some (record post { rest = [] })
  strip_post ExpandLevel.all post = some (clean.post post)
  strip_post ExpandLevel.none post = none

-- `StripChannel`.
unfoldable pub strip_channel : ExpandLevel → Channel → Option Channel
strip_channel ExpandLevel.id channel =
    some (record empty_channel { id = channel.id; team_id = channel.team_id })
strip_channel ExpandLevel.summary channel = some (record channel { rest = [] })
strip_channel ExpandLevel.all channel = some channel
strip_channel ExpandLevel.none channel = none

-- `StripChannelMember`.
unfoldable pub strip_channel_member : ExpandLevel → ChannelMember → Option ChannelMember
strip_channel_member ExpandLevel.id member = some (record member { rest = [] })
strip_channel_member ExpandLevel.summary member = some member
strip_channel_member ExpandLevel.all member = some member
strip_channel_member ExpandLevel.none member = none

-- `StripTeamMember`.
unfoldable pub strip_team_member : ExpandLevel → TeamMember → Option TeamMember
strip_team_member ExpandLevel.id member = some (record member { rest = [] })
strip_team_member ExpandLevel.summary member = some member
strip_team_member ExpandLevel.all member = some member
strip_team_member ExpandLevel.none member = none
