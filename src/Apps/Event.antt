-- ===== src/Apps/Event.antt =====
-- Events to which apps subscribe, and their validation (apps/subscription.go).
use mattermost_plugin_apps.Base.{
  Str, bytes, List, [], ◌∷◌, ◌++◌, Error, invalid, is_empty, if◌then◌else◌,
}
use mattermost_plugin_apps.Apps.Call.{Call, is_empty_call}

-- `type Subject string`; `unknown` is any other text, the empty one included.
pub data Subject : Type 0 where
  user_created user_joined_channel user_left_channel user_joined_team user_left_team : Subject
  bot_joined_channel bot_left_channel bot_joined_team bot_left_team channel_created : Subject
  unknown : Str → Subject

abbrev pub text : Subject → Str
text user_created = bytes "user_created"
text user_joined_channel = bytes "user_joined_channel"
text user_left_channel = bytes "user_left_channel"
text user_joined_team = bytes "user_joined_team"
text user_left_team = bytes "user_left_team"
text bot_joined_channel = bytes "bot_joined_channel"
text bot_left_channel = bytes "bot_left_channel"
text bot_joined_team = bytes "bot_joined_team"
text bot_left_team = bytes "bot_left_team"
text channel_created = bytes "channel_created"
text (unknown s) = s

pub record Event : Type 0 where
  pub subject : Subject
  pub channel_id : Str
  pub team_id : Str

pub record Subscription : Type 0 where
  pub event : Event
  pub call : Call

-- A `multierror`: the list of the errors collected; the empty list is `nil`.
abbrev pub Problems : Type 0
Problems = List Error

unless_empty : Str → Problems → Problems
unless_empty s problems = if is_empty s then problems else problems ++ invalid ∷ []

unless_given : Str → Problems → Problems
unless_given s problems = if is_empty s then problems ++ invalid ∷ [] else problems

-- The switch of `Event.validate`.
check_scope : Subject → Str → Str → Problems → Problems
check_scope user_created channel team problems = unless_empty channel (unless_empty team problems)
check_scope bot_joined_team channel team problems =
    unless_empty channel (unless_empty team problems)
check_scope bot_left_team channel team problems = unless_empty channel (unless_empty team problems)
check_scope bot_joined_channel channel team problems =
    unless_empty channel (unless_empty team problems)
check_scope bot_left_channel channel team problems =
    unless_empty channel (unless_empty team problems)
check_scope channel_created channel team problems =
    unless_empty channel (unless_given team problems)
check_scope user_joined_team channel team problems = unless_empty channel problems
check_scope user_left_team channel team problems = unless_empty channel problems
check_scope user_joined_channel channel team problems = unless_empty team problems
check_scope user_left_channel channel team problems = unless_empty team problems
check_scope (unknown s) channel team problems = problems ++ invalid ∷ []

-- `Event.validate(appendTo)`.
unfoldable pub validate_event : Event → Problems → Problems
unfolding check_scope unless_empty unless_given
validate_event e problems =
    check_scope e.subject e.channel_id e.team_id (unless_given (text e.subject) problems)

-- `Subscription.Validate`.
unfoldable pub validate : Subscription → Problems
validate s = validate_event s.event (if is_empty_call s.call then invalid ∷ [] else [])
