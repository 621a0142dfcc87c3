-- ===== src/SessionService.antt =====
-- The sessions that apps have for users: reuse, extension, creation (server/session/session.go).
-- Times are nanoseconds since the epoch, expiries milliseconds.
pub mod Validity
mod Tests
use mattermost_plugin_apps.Base.{
  Str, Bool, true, false, not, ℕ, ◌+◌, ◌*◌, ◌/◌, Result, ok, err, Error, not_found, other, Option,
  none, some, if◌then◌else◌, ◌==◌, ltb,
}
use mattermost_plugin_apps.Base.Action.{Action, pure, raise, reads, ◌>>=◌, ◌>>◌}
use mattermost_plugin_apps.Apps.App.{App}
use mattermost_plugin_apps.Apps.Deploy.{same, builtin}
use mattermost_plugin_apps.Incoming.{Request, Directory, User, get_acting_user}
use mattermost_plugin_apps.Store.Kv.{Kv}
use mattermost_plugin_apps.Store.Sessions
use mattermost_plugin_apps.Store.Sessions.{Session}

-- A session before the server has created it. Of its properties the model keeps those that name the
-- app and its OAuth2 app.
pub record NewSession : Type 0 where
  pub user_id : Str
  pub roles : Str
  pub expires_at : ℕ
  pub app_id : Str
  pub oauth_app_id : Option Str

-- What is used of the Mattermost server: its clock, `User.Roles`, `Session.IsExpired`,
-- `Session.Create` and `Session.ExtendExpiry`.
pub record SessionServer (S : Type 0) : Type 0 where
  pub now : S → ℕ
  pub roles : User → Str
  pub is_expired : Session → S → Bool
  pub create : NewSession → Action S Session
  pub extend_expiry : Str → ℕ → Action S (Unit {0})

-- In nanoseconds.
abbrev pub session_length : ℕ
session_length = 600000000000

abbrev pub min_session_length : ℕ
min_session_length = 300000000000

-- `time.UnixMilli`, as nanoseconds, and `Time.UnixMilli`.
abbrev pub of_milli : ℕ → ℕ
of_milli t = t * 1000000

abbrev pub to_milli : ℕ → ℕ
to_milli t = t / 1000000

abbrev is_not_found : Error → Bool
is_not_found not_found = true
is_not_found _ = false

module _ {S : Type 0} (kv : Kv S Session) (server : SessionServer S) (d : Directory)
    (get_app : Str → S → Result App) where
  -- `remaining > MinSessionLength`, with the terms moved so that none is negative.
  abbrev pub lasts : Session → S → Bool
  lasts session s = ltb (server.now s + min_session_length) (of_milli session.expires_at)

  abbrev pub new_expiry : S → ℕ
  new_expiry s = to_milli (server.now s + session_length)

  abbrev pub extend : Str → Str → Session → ℕ → Action S Session
  extend app_id user_id session expiry = do
    server.extend_expiry session.id expiry
    Sessions.save kv app_id user_id (record session { expires_at = expiry })
    pure (record session { expires_at = expiry })

  -- `extendSessionExpiryIfNeeded`, with the session that it has changed.
  unfoldable pub extend_if_needed : Str → Str → Session → Action S Session
  extend_if_needed app_id user_id session s =
      if lasts session s then (ok session, s) else extend app_id user_id session (new_expiry s) s

  abbrev pub user_of : Request → Str → Result User
  user_of r user_id = if user_id == r.acting_user_id then get_acting_user d r else d.user user_id

  abbrev pub create_for : Str → Str → User → App → Action S Session
  create_for app_id user_id user app s =
      (do
        session ← server.create (record {
          user_id = user_id;
          roles = server.roles user;
          expires_at = new_expiry s;
          app_id = app_id;
          oauth_app_id = app.mattermost_oauth2;
        })
        Sessions.save kv app_id user_id session
        pure session)
        s

  -- `createSession`.
  unfoldable pub create_session : Request → Str → Str → Action S Session
  create_session r app_id user_id = do
    user ← reads (λ s. user_of r user_id)
    app ← reads (get_app app_id)
    if same app.deploy_type builtin then raise other else create_for app_id user_id user app

  abbrev pub reuse_or_create : Request → Str → Str → Result Session → Action S Session
  reuse_or_create r app_id user_id (ok session) s =
      if not (server.is_expired session s)
      then extend_if_needed app_id user_id session s
      else create_session r app_id user_id s
  reuse_or_create r app_id user_id (err e) s =
      if not (is_not_found e) then (err e, s) else create_session r app_id user_id s

  -- `GetOrCreate`.
  unfoldable pub get_or_create : Request → Str → Action S Session
  get_or_create r user_id s =
      reuse_or_create r r.destination user_id (Sessions.get kv r.destination user_id s) s
