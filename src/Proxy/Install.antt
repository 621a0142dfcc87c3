-- ===== src/Proxy/Install.antt =====
-- The installation of an app: `InstallApp` (server/proxy/install.go).
pub mod Granting
mod Tests
use mattermost_plugin_apps.Base.{
  Str, ℕ, zero, suc, bytes, Bool, true, false, not, ◌&&◌, ◌||◌, List, [], ◌∷◌, ◌++◌, Result, ok,
  err, Error, other, already_exists, not_found, Option, none, some, if◌then◌else◌, is_empty, is_nil,
  ◌==◌, eqb,
}
use mattermost_plugin_apps.Base.Action.{Action, pure, raise, reads, lift, ◌>>=◌, ◌>>◌}
use mattermost_plugin_apps.Apps.App.{App, Manifest, RemoteWebhookAuthType, empty_app}
use mattermost_plugin_apps.Apps.Call.{Call, with_default}
use mattermost_plugin_apps.Apps.Deploy
use mattermost_plugin_apps.Apps.Deploy.{DeployType}
use mattermost_plugin_apps.Apps.Permission.{remote_webhooks, contains}
use mattermost_plugin_apps.Incoming.{
  Request, Directory, require_acting_user, require_sysadmin_or_plugin,
}
use mattermost_plugin_apps.Proxy.Calls.{default_bindings}
use mattermost_plugin_apps.Proxy.Lifecycle.{AppStore, Response, ResponseType}

-- The description of a bot is made of its display name.
pub record Bot : Type 0 where
  pub user_id : Str
  pub username : Str
  pub display_name : Str

-- What is read of a user who has the name of a bot.
pub record NamedUser : Type 0 where
  pub id : Str
  pub username : Str
  pub is_bot : Bool
  pub is_deleted : Bool
  pub full_name : Str

-- What an installation uses of the Mattermost server and of the plugin's other components: `Get` of the
-- manifest store, `CanDeploy`, `NewId`, `pingApp`, `getStatic` with its status, the API of users,
-- bots and OAuth2 apps, and calls to the app. `to_lower` is `strings.ToLower`.
pub record Effects (S : Type 0) : Type 0 where
  pub manifest : Str → S → Result Manifest
  pub can_deploy : DeployType → S → Result (Unit {0})
  pub new_id : Action S Str
  pub ping : App → Action S (Unit {0})
  pub get_static : App → Str → Action S (Str × ℕ)
  pub to_lower : Str → Str
  pub user_named : Str → S → Option NamedUser
  pub create_bot : Bot → Action S Bot
  pub get_bot : Str → Bool → Action S Bot
  pub activate_bot : Str → Action S Bot
  pub patch_bot : Bot → Action S Bot
  pub set_profile_image : Str → Str → Action S (Unit {0})
  pub create_oauth_app : App → Bool → Str → Action S Str
  pub call : App → Call → S → Response × S

abbrev pub try_count : ℕ
try_count = 5

abbrev pub supports : Manifest → DeployType → Result (Unit {0})
supports m deploy_type = if not (Deploy.contains m.deploy deploy_type) then err other else ok tt

-- The app as the manifest has it, over what was installed before.
abbrev pub configured : DeployType → Manifest → Str → App → App
configured deploy_type m secret app = record app {
  deploy_type = deploy_type;
  manifest = m;
  disabled = false;
  granted_permissions = m.requested_permissions;
  granted_locations = m.requested_locations;
  secret = if not (is_empty secret) then secret else app.secret;
}

abbrev pub is_secret_auth : RemoteWebhookAuthType → Bool
is_secret_auth RemoteWebhookAuthType.secret_auth = true
is_secret_auth _ = false

abbrev pub is_unset : RemoteWebhookAuthType → Bool
is_unset RemoteWebhookAuthType.unset = true
is_unset _ = false

-- The test before a new secret for webhooks, as Go reads it.
abbrev pub needs_webhook_secret : App → Bool
needs_webhook_secret app =
    contains app.granted_permissions remote_webhooks && is_secret_auth app.remote_webhook_auth_type
    || is_unset app.remote_webhook_auth_type

abbrev pub bindings_call : Call
bindings_call = record { path = default_bindings; expand = none; state = none }

-- What the response of the app adds to the message.
abbrev pub said : Str → ResponseType → Str → Str
said failure ResponseType.error_type text = failure ++ text
said failure _ text = if is_empty text then [] else bytes "\n\n" ++ text

abbrev pub only_failure : Str → ResponseType → Str → Str
only_failure failure ResponseType.error_type text = failure ++ text
only_failure failure _ text = []

module _ {S : Type 0} (store : AppStore S) (effects : Effects S) (d : Directory) where
  -- The loop of `createAndValidateBot`, by the number of tries that are left.
  abbrev pub or_retry : (S → Result (Unit {0}) × S) → Result Bot × S → Result (Unit {0}) × S
  or_retry retry (ok bot, s) = (ok tt, s)
  or_retry retry (err e, s) = retry s

  unfoldable pub validate_bot : Str → ℕ → Action S (Unit {0})
  validate_bot id zero s = (ok tt, s)
  validate_bot id (suc zero) s = (effects.get_bot id false >> pure tt) s
  validate_bot id (suc (suc n)) s = or_retry (validate_bot id (suc n)) (effects.get_bot id false s)

  -- `createAndValidateBot`.
  unfoldable pub create_and_validate_bot : Bot → Action S Bot
  create_and_validate_bot given = do
    bot ← effects.create_bot given
    validate_bot bot.user_id try_count
    pure bot

  -- The record of an existing bot, with the display name of the app.
  abbrev pub patched : App → NamedUser → Bot → Action S Bot
  patched app user bot =
      if not (user.full_name == app.display_name)
      then effects.patch_bot
          (record { user_id = user.id; username = user.username; display_name = app.display_name })
      else pure (record bot { user_id = user.id; username = user.username })

  abbrev pub or_create : App → NamedUser → Bot → Result Bot × S → Result Bot × S
  or_create app user bot (ok found, s) = patched app user bot s
  or_create app user bot (err e, s) = create_and_validate_bot bot s

  abbrev pub reuse_bot : App → NamedUser → Bot → Action S Bot
  reuse_bot app user bot =
      if not user.is_bot
      then raise already_exists
      else (if user.is_deleted then effects.activate_bot user.id else pure bot)
        >>= (λ bot s. or_create app user bot (effects.get_bot user.id true s))

  abbrev pub existing_or_new : App → Bot → Option NamedUser → Action S Bot
  existing_or_new app bot none = create_and_validate_bot bot
  existing_or_new app bot (some user) = reuse_bot app user bot

  abbrev pub show_icon : Option Str → Bot → Action S Bot
  show_icon none bot s = (ok bot, s)
  show_icon (some icon) bot s = (ok bot, (effects.set_profile_image bot.user_id icon s).1)

  -- `ensureBotNamed`, which gives the bot.
  unfoldable pub ensure_bot_named : App → Option Str → Str → Action S Bot
  ensure_bot_named app icon username s =
      (existing_or_new app
            (record { user_id = []; username = username; display_name = app.display_name })
            (effects.user_named username s)
          >>= show_icon icon)
        s

  abbrev pub or_other_name : App → Option Str → Str → Result Bot × S → Result Bot × S
  or_other_name app icon username (err already_exists, s) =
      ensure_bot_named app icon (username ++ bytes "-app") s
  or_other_name app icon username (r, s) = (r, s)

  -- `ensureBot`.
  unfoldable pub ensure_bot : App → Option Str → Action S Bot
  ensure_bot app icon s =
      let username = effects.to_lower app.app_id in
      or_other_name app icon username (ensure_bot_named app icon username s)

  -- `ensureOAuthApp`, which gives the OAuth2 app.
  abbrev pub ensure_oauth_app_of : App → Bool → Str → Option Str → Action S (Option Str)
  ensure_oauth_app_of app trusted acting_user_id (some existing) = pure (some existing)
  ensure_oauth_app_of app trusted acting_user_id none =
      effects.create_oauth_app app trusted acting_user_id >>= (λ created. pure (some created))

  unfoldable pub ensure_oauth_app : App → Bool → Str → Action S (Option Str)
  ensure_oauth_app app trusted acting_user_id =
      ensure_oauth_app_of app trusted acting_user_id app.mattermost_oauth2

  abbrev pub with_status : Str × ℕ → Action S (Option Str)
  with_status (icon, status) = if not (eqb status 200) then raise other else pure (some icon)

  -- `getAppIcon`.
  unfoldable pub get_app_icon : App → Action S (Option Str)
  get_app_icon app =
      if is_empty app.icon then pure none else effects.get_static app app.icon >>= with_status

  -- The previous installation, or an app that is empty.
  abbrev pub or_new_app : Result App → Result App
  or_new_app (ok app) = ok app
  or_new_app (err not_found) = ok empty_app
  or_new_app (err e) = err e

  abbrev pub with_webhook_secret : App → Action S App
  with_webhook_secret app =
      if needs_webhook_secret app
      then effects.new_id >>= (λ id. pure (record app { webhook_secret = id }))
      else pure app

  -- The calls after the app is stored; their failure is only told.
  abbrev pub tell_app : App → Option Call → S → Result Str × S
  tell_app app (some on_install) s =
      let (response, s') = effects.call app on_install s in
      (ok (said (bytes ", despite on_install failure: ") response.type response.text), s')
  tell_app app none s =
      if is_nil app.granted_locations
      then (ok [], s)
      else (let (response, s') = effects.call app (with_default app.bindings bindings_call) s in
          (
            ok (only_failure (bytes ", despite bindings failure: ") response.type response.text),
            s',
          ))

  -- The first part of `InstallApp`: the checks, and the app as it is to be.
  unfoldable pub prepare : Request → Str → DeployType → Str → Action S App
  prepare r id deploy_type secret = do
    lift (require_acting_user r)
    lift (require_sysadmin_or_plugin d r)
    m ← reads (effects.manifest id)
    lift (supports m deploy_type)
    reads (effects.can_deploy deploy_type)
    previous ← reads (λ s. or_new_app (store.get id s))
    with_webhook_secret (configured deploy_type m secret previous)

  -- The second part: the app answers, and has its bot and its OAuth2 app.
  unfoldable pub provide : Request → Bool → App → Action S App
  provide r trusted app = do
    effects.ping app
    icon ← get_app_icon app
    bot ← ensure_bot app icon
    oauth2 ← ensure_oauth_app app trusted r.acting_user_id
    pure (record app {
      bot_user_id = bot.user_id;
      bot_username = bot.username;
      mattermost_oauth2 = oauth2;
    })

  -- The last part: the app is stored and told, and the message is made.
  unfoldable pub store_and_tell : App → Action S (App × Str)
  store_and_tell app = do
    store.save app
    told ← tell_app app app.on_install
    pure (
      app,
      bytes "Installed app `" ++ app.app_id ++ bytes "`: " ++ app.display_name ++ bytes "." ++ told,
    )

  -- `InstallApp`.
  unfoldable pub install_app : Request → Str → DeployType → Bool → Str → Action S (App × Str)
  install_app r id deploy_type trusted secret =
      prepare r id deploy_type secret >>= (λ app. provide r trusted app >>= store_and_tell)
