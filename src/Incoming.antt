-- ===== src/Incoming.antt =====
-- Requests to the plugin, and the checks on who sends them (server/incoming/request.go).
pub mod Checks
mod Tests
use mattermost_plugin_apps.Base.{
  Str, bytes, Result, ok, err, unauthorized, invalid, is_empty, if◌then◌else◌, Bool, not, Option,
  none, some, List, [], ◌∷◌, ◌>>=◌, ◌>>◌,
}

-- What the checks read of a user.
pub record User : Type 0 where
  pub id : Str
  pub is_bot : Bool

-- The identity part of a `Request`; the logger, the context and the access token are left out.
-- The acting user is read ahead, if it is there.
pub record Request : Type 0 where
  pub acting_user_id : Str
  pub destination : Str
  pub session_id : Str
  pub source_app_id : Str
  pub source_plugin_id : Str
  pub acting_user : Option User

-- What the Mattermost server answers about users and sessions.
pub record Directory : Type 0 where
  pub can_manage_system : Str → Bool
  pub can_view_members : Str → Bool
  pub can_read_channel : Str → Str → Bool
  pub can_view_team : Str → Str → Bool
  pub can_list_team_channels : Str → Str → Bool
  pub user : Str → Result User
  -- The app ID in the properties of a session (empty if there is none).
  pub session_app_id : Str → Result Str

-- `Request.RequireActingUser`.
unfoldable pub require_acting_user : Request → Result (Unit {0})
require_acting_user r = if is_empty r.acting_user_id then err unauthorized else ok tt

-- `Request.GetActingUser`.
unfoldable pub get_acting_user : Directory → Request → Result User
get_acting_user d r = elim r.acting_user [
  | some u ↦ ok u
  | none ↦ if is_empty r.acting_user_id then err invalid else d.user r.acting_user_id
]

-- `Request.RequireActingUserIsNotBot`.
unfoldable pub require_not_bot : Directory → Request → Result (Unit {0})
require_not_bot d r = do
  require_acting_user r
  u ← get_acting_user d r
  if u.is_bot then err unauthorized else ok tt

-- `Request.RequireActingUserIsBot`.
unfoldable pub require_bot : Directory → Request → Result (Unit {0})
require_bot d r = do
  require_acting_user r
  u ← get_acting_user d r
  if not u.is_bot then err unauthorized else ok tt

-- `Request.Check`, of checks that may change the request.
unfoldable pub check : List (Request → Result Request) → Request → Result Request
check [] r = ok r
check (f ∷ fs) r = f r >>= λ r'. check fs r'

-- `Request.RequireSysadminOrPlugin`.
unfoldable pub require_sysadmin_or_plugin : Directory → Request → Result (Unit {0})
require_sysadmin_or_plugin d r =
    if d.can_manage_system r.acting_user_id
    then ok tt
    else if is_empty r.source_plugin_id
    then err unauthorized
    else ok tt

-- The end of `Request.RequireSourceApp`: the app ID of the session becomes the source.
with_session_app : Request → Result Str → Result Request
with_session_app r (err e) = err unauthorized
with_session_app r (ok app_id) =
    if is_empty app_id then err unauthorized else ok (record r { source_app_id = app_id })

-- `Request.RequireSourceApp`; it may set the source app ID of the request.
unfoldable pub require_source_app : Directory → Request → Result Request
unfolding with_session_app
require_source_app d r =
    if is_empty r.source_app_id
    then (if is_empty r.session_id
        then err unauthorized
        else with_session_app r (d.session_app_id r.session_id))
    else ok r

-- `Request.WithDestination`, `WithSourceAppID`, `WithSourcePluginID`, `WithActingUserID`.
unfoldable pub with_destination : Request → Str → Request
with_destination r id = record r { destination = id }

unfoldable pub with_source_app_id : Request → Str → Request
with_source_app_id r id = record r { source_app_id = id }

unfoldable pub with_source_plugin_id : Request → Str → Request
with_source_plugin_id r id = record r { source_plugin_id = id }

unfoldable pub with_acting_user_id : Request → Str → Request
with_acting_user_id r id = record r { acting_user_id = id; acting_user = none }
