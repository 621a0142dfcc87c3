-- ===== src/Proxy/Calls.antt =====
-- Calls to apps by users, and the webhooks of apps (server/proxy/invoke_call.go, invoke_webhook.go).
pub mod Paths
pub mod Invoking
pub mod Webhooks
mod Tests
use mattermost_plugin_apps.Base.{
  Str, bytes, Bool, true, false, not, ℕ, List, [], ◌∷◌, Result, ok, err, Error, invalid, forbidden,
  other, Option, none, some, is_empty, if◌then◌else◌, ◌==◌, eqb, ◌>>=◌, ◌>>◌,
}
use mattermost_plugin_apps.Apps.App.{
  App, Manifest, RemoteWebhookAuthType, unset, no_auth, secret_auth,
}
use mattermost_plugin_apps.Apps.Call.{Call}
use mattermost_plugin_apps.Apps.Context.{Context, CallRequest}
use mattermost_plugin_apps.Apps.Permission.{Permission, remote_webhooks, act_as_bot, contains}
use mattermost_plugin_apps.Incoming.{Request, Directory, require_acting_user, with_destination}
use mattermost_plugin_apps.Utils.{clean_path}
use mattermost_plugin_apps.Proxy.Lifecycle.{
  AppStore, Effects, Response, error_type, get_installed_app,
}

-- The paths of `DefaultPing`, `DefaultBindings`, `DefaultGetOAuth2ConnectURL`,
-- `DefaultOnOAuth2Complete` and `DefaultOnRemoteWebhook`.
abbrev pub default_ping : Str
default_ping = bytes "/ping"

abbrev pub default_bindings : Str
default_bindings = bytes "/bindings"

abbrev pub default_connect : Str
default_connect = bytes "/oauth2/connect"

abbrev pub default_complete : Str
default_complete = bytes "/oauth2/complete"

abbrev pub default_webhook : Str
default_webhook = bytes "/webhook"

-- `isBindingPath`.
unfoldable pub is_binding_path : App → Str → Bool
is_binding_path app path = elim app.bindings [
  | some call ↦ path == call.path
  | none ↦ path == default_bindings
]

-- `matchesCallPath`; of the default call, only the path is read.
abbrev pub matches_call_path : Option Call → Option Str → Str → Bool
matches_call_path (some call) default path = call.path == path
matches_call_path none (some default) path = default == path
matches_call_path none none path = false

abbrev refuse_if : Bool → Result (Unit {0})
refuse_if true = err other
refuse_if false = ok tt

-- `checkForForbiddenPath`.
unfoldable pub check_for_forbidden_path : App → Str → Result (Unit {0})
check_for_forbidden_path app path = do
  refuse_if (matches_call_path none (some default_ping) path)
  refuse_if (matches_call_path app.on_install none path)
  refuse_if (matches_call_path app.on_uninstall none path)
  refuse_if (matches_call_path app.on_version_changed none path)
  refuse_if (matches_call_path app.on_enable none path)
  refuse_if (matches_call_path app.on_disable none path)
  refuse_if (matches_call_path app.get_oauth2_connect_url (some default_connect) path)
  refuse_if (matches_call_path app.on_oauth2_complete (some default_complete) path)
  refuse_if (matches_call_path app.on_remote_webhook (some default_webhook) path)
  ok tt

-- What `InvokeCall` ends in: a response, with the app if it was found; or a panic, since
-- `creq.Path[0]` is read without a test that there is one.
pub data Outcome : Type 0 where
  panics : Outcome
  responds : Option App → Response → Outcome

-- `NewErrorResponse`, without the text.
abbrev pub error_response : Error → Response
error_response e = record { type = error_type; text = [] }

abbrev pub first_byte : Str → Option ℕ
first_byte [] = none
first_byte (c ∷ s) = some c

module _ {S X V : Type 0} (store : AppStore S) (effects : Effects S) (d : Directory)
    (clean : Str → Str) (call_app : Request → App → CallRequest X V → S → Response × S) where
  abbrev pub with_path : Str → CallRequest X V → CallRequest X V
  with_path p creq = record creq { call = record creq.call { path = p } }

  abbrev pub refused : Option App → Error → S → Outcome × S
  refused app e s = (responds app (error_response e), s)

  -- The call itself, at a path that may be called.
  abbrev pub call_at : Request → App → CallRequest X V → Result Str → S → Outcome × S
  call_at r app creq (err e) s = refused (some app) e s
  call_at r app creq (ok p) s =
      let (response, s') = call_app (with_destination r app.app_id) app (with_path p creq) s in
      (responds (some app) response, s')

  -- The cleaned path, if it is not forbidden.
  abbrev pub checked_path : App → Str → Result Str
  checked_path app path = do p ← clean_path clean path; check_for_forbidden_path app p; ok p

  abbrev pub invoke_from : Request → App → CallRequest X V → Option ℕ → S → Outcome × S
  invoke_from r app creq none s = (panics, s)
  invoke_from r app creq (some c) s =
      if not (eqb c b'/')
      then refused (some app) invalid s
      else call_at r app creq (checked_path app creq.call.path) s

  abbrev pub invoke_on : Request → CallRequest X V → Result App → S → Outcome × S
  invoke_on r creq (err e) s = refused none e s
  invoke_on r creq (ok app) s =
      if not (creq.context.user_agent_context.app_id == app.app_id)
      then refused none invalid s
      else invoke_from r app creq (first_byte creq.call.path) s

  -- `InvokeCall`; the destination is looked up by `getEnabledDestination`.
  unfoldable pub invoke_call : Request → CallRequest X V → S → Outcome × S
  invoke_call r creq s = elim (require_acting_user r) [
    | err e ↦ refused none e s
    | ok t ↦ invoke_on r creq (get_installed_app store effects d r.destination true s) s
  ]

-- What `validateWebhookAuthentication` reads of the query: `q.Get("secret")`, or that it cannot be
-- parsed.
abbrev pub check_secret : Str → Result Str → Result (Unit {0})
check_secret expected (err e) = err forbidden
check_secret expected (ok secret) =
    if is_empty secret then err invalid else if secret == expected then ok tt else err invalid

abbrev pub check_auth_type : RemoteWebhookAuthType → Str → Result Str → Result (Unit {0})
check_auth_type no_auth expected secret = ok tt
check_auth_type unset expected secret = check_secret expected secret
check_auth_type secret_auth expected secret = check_secret expected secret
check_auth_type _ expected secret = err other

-- `validateWebhookAuthentication`.
unfoldable pub validate_webhook_authentication : App → Result Str → Result (Unit {0})
validate_webhook_authentication app secret =
    if not (contains app.granted_permissions remote_webhooks)
    then err forbidden
    else if not (contains app.granted_permissions act_as_bot)
    then err forbidden
    else check_auth_type app.remote_webhook_auth_type app.webhook_secret secret
