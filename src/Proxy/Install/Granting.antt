-- ===== src/Proxy/Install/Granting.antt =====
-- What an installation that succeeds has checked and stored.
use mathlib.Core.Path.{subst}
use mattermost_plugin_apps.Base.{
  Str, Bool, true, false, ◌≡◌, refl, ap, Result, ok, err, Bool-cases, inl, inr,
}
use mattermost_plugin_apps.Base.Action.{reads, lift, chain_inversion}
use mattermost_plugin_apps.Apps.App.{App, Manifest}
use mattermost_plugin_apps.Apps.Deploy
use mattermost_plugin_apps.Apps.Deploy.{DeployType}
use mattermost_plugin_apps.Incoming.{
  Request, Directory, require_acting_user, require_sysadmin_or_plugin,
}
use mattermost_plugin_apps.Proxy.Lifecycle.{AppStore}
use mattermost_plugin_apps.Proxy.Install.{
  Effects, configured, needs_webhook_secret, with_webhook_secret, or_new_app, get_app_icon,
  ensure_bot, ensure_oauth_app, tell_app, install_app, supports, prepare, provide, store_and_tell,
}

-- The app is enabled, of the manifest, and granted what the manifest requests.
pub record IsOf (m : Manifest) (chosen : DeployType) (app : App) : Type 0 where
  pub manifest : app.manifest ≡ m
  pub deploy_type : app.deploy_type ≡ chosen
  pub enabled : app.disabled ≡ false
  pub permissions : app.granted_permissions ≡ m.requested_permissions
  pub locations : app.granted_locations ≡ m.requested_locations

abbrev app_in : App → Result App → App
app_in app (ok given) = given
app_in app (err e) = app

abbrev first_of : Result (App × Str) → Result App
first_of (ok p) = ok p.0
first_of (err e) = err e

supports_inversion :
    (m : Manifest) (deploy_type : DeployType)
    → supports m deploy_type ≡ ok tt
    → Deploy.contains m.deploy deploy_type ≡ true
supports_inversion m deploy_type h = elim (Bool-cases (Deploy.contains m.deploy deploy_type)) [
  | inl e ↦ e
  | inr e ↦ let never = rw e at h in absurd (cc never)
]

module _ {S : Type 0} (store : AppStore S) (effects : Effects S) (d : Directory) where
  configured-IsOf :
      (deploy_type : DeployType) (m : Manifest) (secret : Str) (previous app : App) (s : S)
      → (with_webhook_secret store effects d (configured deploy_type m secret previous) s).0
        ≡ ok app
      → IsOf m deploy_type app
  configured-IsOf deploy_type m secret previous app s h =
      elim (Bool-cases (needs_webhook_secret (configured deploy_type m secret previous))) [
        | inl e ↦
            let h' = rw e at h in
            let (id, _, given, _) = chain_inversion effects.new_id _ s app h' in
            let same : record (configured deploy_type m secret previous) { webhook_secret = id }
                ≡ app =
              cc given in
            subst (IsOf m deploy_type) same (record {
              manifest = refl;
              deploy_type = refl;
              enabled = refl;
              permissions = refl;
              locations = refl;
            })
        | inr e ↦
            let h' = rw e at h in
            let same : configured deploy_type m secret previous ≡ app = cc h' in
            subst (IsOf m deploy_type) same (record {
              manifest = refl;
              deploy_type = refl;
              enabled = refl;
              permissions = refl;
              locations = refl;
            })
      ]

  prepare_inversion :
      (r : Request) (id : Str) (deploy_type : DeployType) (secret : Str) (s : S) (app : App)
      → (prepare store effects d r id deploy_type secret s).0 ≡ ok app
      → (require_acting_user r ≡ ok tt)
        × (require_sysadmin_or_plugin d r ≡ ok tt)
        × (m : Manifest) × (effects.manifest id s ≡ ok m)
        × (Deploy.contains m.deploy deploy_type ≡ true)
        × (effects.can_deploy deploy_type s ≡ ok tt)
        × IsOf m deploy_type app
  unfolding prepare
  prepare_inversion r id deploy_type secret s app h =
      let (_, acting, h1, _) = chain_inversion (lift (require_acting_user r)) _ s _ h in
      let (_, admin, h2, _) = chain_inversion (lift (require_sysadmin_or_plugin d r)) _ s _ h1 in
      let (m, found, h3, _) = chain_inversion (reads (effects.manifest id)) _ s _ h2 in
      let (_, contained, h4, _) = chain_inversion (lift (supports m deploy_type)) _ s _ h3 in
      let (_, deployable, h5, _) =
        chain_inversion (reads (effects.can_deploy deploy_type)) _ s _ h4 in
      let (previous, _, h6, _) =
        chain_inversion (reads (λ s. or_new_app store effects d (store.get id s))) _ s _ h5 in
      (
        acting,
        admin,
        m,
        found,
        supports_inversion m deploy_type contained,
        deployable,
        configured-IsOf deploy_type m secret previous app s h6,
      )

  provide-IsOf :
      (r : Request) (trusted : Bool) (m : Manifest) (deploy_type : DeployType) (app provided : App)
      (s : S)
      → IsOf m deploy_type app
      → (provide store effects d r trusted app s).0 ≡ ok provided
      → IsOf m deploy_type provided
  unfolding provide
  provide-IsOf r trusted m deploy_type app provided s granted h =
      let (_, _, h1, _) = chain_inversion (effects.ping app) _ s _ h in
      let (icon, _, h2, _) = chain_inversion (get_app_icon store effects d app) _ _ _ h1 in
      let (bot, _, h3, _) = chain_inversion (ensure_bot store effects d app icon) _ _ _ h2 in
      let (oauth2, _, h4, _) =
        chain_inversion (ensure_oauth_app store effects d app trusted r.acting_user_id) _ _ _ h3 in
      let given = record app {
        bot_user_id = bot.user_id;
        bot_username = bot.username;
        mattermost_oauth2 = oauth2;
      } in
      let same : given ≡ provided = ap (app_in given) h4 in
      subst (IsOf m deploy_type) same (record {
        manifest = granted.manifest;
        deploy_type = granted.deploy_type;
        enabled = granted.enabled;
        permissions = granted.permissions;
        locations = granted.locations;
      })

  store_and_tell_inversion :
      (app installed : App) (message : Str) (s : S)
      → (store_and_tell store effects d app s).0 ≡ ok (installed, message)
      → (app ≡ installed) × ((store.save app s).0 ≡ ok tt)
  unfolding store_and_tell
  store_and_tell_inversion app installed message s h =
      let (_, saved, h1, _) = chain_inversion (store.save app) _ s _ h in
      let (_, _, h2, _) = chain_inversion (tell_app store effects d app app.on_install) _ _ _ h1 in
      (ap (λ r. app_in app (first_of r)) h2, saved)

  -- An installation that succeeds is of an acting user who is a system administrator or comes with a
  -- plugin; its manifest is in the store and supports the type of deployment, which can be used; and
  -- the app that was saved is enabled, has the manifest and this type, and is granted the permissions
  -- and locations that the manifest requests.
  pub install_app-IsOf :
      (r : Request) (id : Str) (deploy_type : DeployType) (trusted : Bool) (secret : Str) (s : S)
      → (installed : App) (message : Str)
      → (install_app store effects d r id deploy_type trusted secret s).0 ≡ ok (installed, message)
      → (require_acting_user r ≡ ok tt)
        × (require_sysadmin_or_plugin d r ≡ ok tt)
        × (m : Manifest) × (effects.manifest id s ≡ ok m)
        × (Deploy.contains m.deploy deploy_type ≡ true)
        × (effects.can_deploy deploy_type s ≡ ok tt)
        × IsOf m deploy_type installed
        × ((s' : S) × ((store.save installed s').0 ≡ ok tt))
  unfolding install_app
  install_app-IsOf r id deploy_type trusted secret s installed message h =
      let (app, prepared, h1, _) =
        chain_inversion (prepare store effects d r id deploy_type secret) _ s _ h in
      let (given, provided, h2, _) =
        chain_inversion (provide store effects d r trusted app) _ _ _ h1 in
      let (acting, admin, m, found, contained, deployable, granted) =
        prepare_inversion r id deploy_type secret s app prepared in
      let (same, saved) = store_and_tell_inversion given installed message _ h2 in
      (
        acting,
        admin,
        m,
        found,
        contained,
        deployable,
        subst (IsOf m deploy_type) same
            (provide-IsOf r trusted m deploy_type app given _ granted provided),
        subst (λ a. (s' : S) × ((store.save a s').0 ≡ ok tt)) same (_, saved),
      )
