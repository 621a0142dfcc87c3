-- ===== src/Proxy/Lifecycle.antt =====
-- The life cycle of an installed app: enabling and disabling (server/proxy/enable.go),
-- uninstalling (server/proxy/uninstall.go), and access to apps (server/proxy/list.go).
pub mod Steps
pub mod Enabling
pub mod Uninstalling
pub mod Failing
pub mod Access
pub mod Stored
pub mod Tests
use mattermost_plugin_apps.Base.{
  Str, bytes, Bool, true, false, not, List, [], ◌∷◌, ◌++◌, Result, ok, err, Error, other, forbidden,
  not_found, Option, none, some, if◌then◌else◌, is_empty, ◌≡◌, ◌==◌, is_some,
}
use mattermost_plugin_apps.Base.Action.{Action, pure, raise, reads, lift, ◌>>=◌, ◌>>◌}
use mattermost_plugin_apps.Apps.App.{App, Manifest}
use mattermost_plugin_apps.Apps.Call.{Call}
use mattermost_plugin_apps.Apps.Deploy.{DeployType, same, builtin}
use mattermost_plugin_apps.Incoming.{
  Request, Directory, require_acting_user, require_sysadmin_or_plugin,
}

-- The type and the text of a response. `other_type` stands for forms, navigation and any other.
pub data ResponseType : Type 0 where
  ok_type error_type other_type : ResponseType

pub record Response : Type 0 where
  pub type : ResponseType
  pub text : Str

-- The app store, as the proxy uses it.
pub record AppStore (S : Type 0) : Type 0 where
  pub get : Str → S → Result App
  pub save : App → Action S (Unit {0})
  pub delete : Str → Action S (Unit {0})

-- What the life cycle uses of the Mattermost server and of the plugin's other components: a call to
-- the app, `Bot.UpdateActive`, `OAuth.Delete`, the session store, the key-value store and the
-- subscription service; and the manifests that are listed.
pub record Effects (S : Type 0) : Type 0 where
  pub call : App → Call → S → Response × S
  pub update_bot : Str → Bool → Action S (Unit {0})
  pub delete_oauth_app : Str → Action S (Unit {0})
  pub delete_sessions : Str → Action S (Unit {0})
  pub remove_data : Str → Action S (Unit {0})
  pub unsubscribe_app : Request → Str → Action S (Unit {0})
  pub is_listed : Str → S → Bool

-- The text of a response, unless it is an error.
abbrev pub text_of : ResponseType → Str → Str
text_of error_type text = []
text_of _ text = text

abbrev or_default : Str → Str → Str
or_default message default = if is_empty message then default else message

module _ {S : Type 0} (store : AppStore S) (effects : Effects S) (d : Directory) where
  -- `ensureEnabled`.
  unfoldable pub ensure_enabled : App → S → Result (Unit {0})
  ensure_enabled app s =
      if same app.deploy_type builtin
      then ok tt
      else if app.disabled
      then err forbidden
      else if effects.is_listed app.app_id s
      then ok tt
      else err forbidden

  -- `GetInstalledApp`.
  unfoldable pub get_installed_app : Str → Bool → S → Result App
  get_installed_app id check_enabled s = elim (store.get id s) [
    | err e ↦ err e
    | ok app ↦ elim (if check_enabled then ensure_enabled app s else ok tt) [
      | ok t ↦ ok app
      | err e ↦ err e
    ]
  ]

  -- An optional call; an error in the response is only logged. The text comes back.
  abbrev pub call_if : App → Option Call → S → Result Str × S
  call_if app none s = (ok [], s)
  call_if app (some c) s =
      let (response, s') = effects.call app c s in (ok (text_of response.type response.text), s')

  -- `EnableApp`, of an app that was found disabled.
  abbrev pub switch_on : App → Action S Str
  switch_on app = do
    effects.update_bot app.bot_user_id true
    store.save (record app { disabled = false })
    text ← call_if (record app { disabled = false }) app.on_enable
    pure (or_default text (bytes "Enabled " ++ app.display_name))

  -- `EnableApp`.
  unfoldable pub enable_app : Request → Str → Action S Str
  enable_app r id = do
    lift (require_sysadmin_or_plugin d r)
    app ← reads (get_installed_app id false)
    if not app.disabled
        then pure (app.display_name ++ bytes " is already enabled")
        else switch_on app

  -- `DisableApp`, of an app that was found enabled.
  abbrev pub switch_off : App → Action S Str
  switch_off app = do
    text ← call_if app app.on_disable
    effects.update_bot app.bot_user_id false
    effects.delete_sessions app.app_id
    store.save (record app { disabled = true })
    pure (or_default text (bytes "Disabled " ++ app.display_name))

  -- `DisableApp`.
  unfoldable pub disable_app : Request → Str → Action S Str
  disable_app r id = do
    lift (require_sysadmin_or_plugin d r)
    app ← reads (store.get id)
    if app.disabled then pure (bytes "Already disabled") else switch_off app

  -- What is left of an app for users who are not system administrators.
  abbrev pub sanitized : App → App
  sanitized app = record app { webhook_secret = []; mattermost_oauth2 = none; remote_oauth2 = [] }

  -- `GetApp`.
  unfoldable pub get_app : Request → S → Result App
  get_app r s = elim (require_acting_user r) [
    | err e ↦ err e
    | ok t ↦ elim (store.get r.destination s) [
      | err e ↦ err e
      | ok app ↦ elim (require_sysadmin_or_plugin d r) [
        | ok u ↦ ok app
        | err e ↦ ok (sanitized app)
      ]
    ]
  ]

  abbrev pub delete_oauth_if : Option Str → Action S (Unit {0})
  delete_oauth_if none s = (ok tt, s)
  delete_oauth_if (some id) s = effects.delete_oauth_app id s

  -- The part of `UninstallApp` that is followed by `DisableApp` if it fails.
  abbrev pub clean_up : Request → Str → App → Action S (Unit {0})
  clean_up r id app = do
    effects.delete_sessions app.app_id
    delete_oauth_if app.mattermost_oauth2
    effects.update_bot app.bot_user_id false
    effects.remove_data id
    effects.unsubscribe_app r id
    store.delete app.app_id

  -- The deferred function of `UninstallApp`. An error of `DisableApp` is only logged.
  abbrev pub or_disable : Request → Str → Str → Result (Unit {0}) × S → Result Str × S
  or_disable r id message (ok t, s) = (ok message, s)
  or_disable r id message (err e, s) = (err e, (disable_app r id s).1)

  -- What the response to the uninstall call means: the message, or an error.
  abbrev pub uninstall_message : Bool → App → ResponseType → Str → Result Str
  uninstall_message force app error_type text =
      if force
      then ok (bytes "Force-uninstalled " ++ app.display_name ++ bytes ", despite error: " ++ text)
      else err other
  uninstall_message force app ok_type text =
      ok (bytes "Uninstalled " ++ app.display_name ++ bytes ", with message: " ++ text)
  uninstall_message force app other_type text = ok (bytes "Uninstalled " ++ app.display_name)

  abbrev pub call_on_uninstall : Bool → App → Option Call → Action S Str
  call_on_uninstall force app none s = (ok (bytes "Uninstalled " ++ app.display_name), s)
  call_on_uninstall force app (some c) s =
      let (response, s') = effects.call app c s in
      (uninstall_message force app response.type response.text, s')

  -- `UninstallApp`.
  unfoldable pub uninstall_app : Request → Str → Bool → Action S Str
  uninstall_app r id force = do
    lift (require_acting_user r)
    lift (require_sysadmin_or_plugin d r)
    app ← reads (store.get id)
    message ← call_on_uninstall force app app.on_uninstall
    λ s. or_disable r id message (clean_up r id app s)
