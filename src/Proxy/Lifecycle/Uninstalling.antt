-- ===== src/Proxy/Lifecycle/Uninstalling.antt =====
-- What uninstalling does to the records of the apps if it succeeds.
use mathlib.Core.Path.{subst, subst⁻¹}
use mattermost_plugin_apps.Base.{
  Str, Bool, false, ◌≡◌, refl, sym, ap, ◌∙◌, Result, ok, err, none, if◌then◌else◌, ◌==◌,
}
use mattermost_plugin_apps.Base.Action.{chain_inversion, reads, lift}
use mattermost_plugin_apps.Apps.App.{App}
use mattermost_plugin_apps.Apps.Deploy.{same, builtin}
use mattermost_plugin_apps.Incoming.{
  Request, Directory, require_sysadmin_or_plugin, require_acting_user,
}
use mattermost_plugin_apps.Proxy.Lifecycle.{
  AppStore, Effects, delete_oauth_if, clean_up, or_disable, call_on_uninstall, uninstall_app,
}
use mattermost_plugin_apps.Proxy.Lifecycle.Steps.{
  AppStoreLaws, EffectsLaws, Keeps, Keeps-trans, delete_oauth_if-Keeps, call_on_uninstall-IsValid,
}
use mattermost_plugin_apps.Proxy.Lifecycle.Enabling.{Replaces}

module _ {S : Type 0} {store : AppStore S} (laws : AppStoreLaws store) {effects : Effects S}
    (effects_laws : EffectsLaws laws effects) (d : Directory) where
  delete-Replaces :
      (id : Str) (s t : S)
      → laws.IsValid s
      → Keeps laws s t
      → (store.delete id t).0 ≡ ok tt
      → Replaces laws id none s (store.delete id t).1
  delete-Replaces id s t v before h =
      let (valid, records) = laws.delete_ok id t (before.valid v) h in
      record { valid = valid; records = λ j. records j ∙ rw (before.records j) refl }

  -- The clean-up, up to the deletion of the record.
  clean_up-Replaces :
      (r : Request) (id : Str) (app : App) (s : S)
      → laws.IsValid s
      → (clean_up store effects d r id app s).0 ≡ ok tt
      → Replaces laws app.app_id none s (clean_up store effects d r id app s).1
  clean_up-Replaces r id app s v h =
      let (a, k1, h1, e1) = chain_inversion (effects.delete_sessions app.app_id) _ s tt h in
      let s1 = (effects.delete_sessions app.app_id s).1 in
      let (b, k2, h2, e2) =
        chain_inversion (delete_oauth_if store effects d app.mattermost_oauth2) _ s1 tt h1 in
      let s2 = (delete_oauth_if store effects d app.mattermost_oauth2 s1).1 in
      let (c, k3, h3, e3) = chain_inversion (effects.update_bot app.bot_user_id false) _ s2 tt h2 in
      let s3 = (effects.update_bot app.bot_user_id false s2).1 in
      let (e, k4, h4, e4) = chain_inversion (effects.remove_data id) _ s3 tt h3 in
      let s4 = (effects.remove_data id s3).1 in
      let (f, k5, h5, e5) = chain_inversion (effects.unsubscribe_app r id) _ s4 tt h4 in
      let s5 = (effects.unsubscribe_app r id s4).1 in
      let before = Keeps-trans laws s s1 s5 (effects_laws.delete_sessions_keeps app.app_id s) (
        Keeps-trans laws s1 s2 s5
          (delete_oauth_if-Keeps laws effects_laws d app.mattermost_oauth2 s1)
          (Keeps-trans laws s2 s3 s5 (effects_laws.update_bot_keeps app.bot_user_id false s2) (
            Keeps-trans laws s3 s4 s5 (effects_laws.remove_data_keeps id s3)
              (effects_laws.unsubscribe_app_keeps r id s4)))) in
      subst⁻¹ (λ (p : Result (Unit {0}) × S). Replaces laws app.app_id none s p.1)
        (e1 ∙ e2 ∙ e3 ∙ e4 ∙ e5) (delete-Replaces app.app_id s s5 v before h5)

  -- The deferred function does nothing after a clean-up that succeeds.
  or_disable_inversion :
      (r : Request) (id message text : Str) (p : Result (Unit {0}) × S)
      → (or_disable store effects d r id message p).0 ≡ ok text
      → (p.0 ≡ ok tt) × ((or_disable store effects d r id message p).1 ≡ p.1)
  or_disable_inversion r id message text (ok t, s) h = (refl, refl)
  or_disable_inversion r id message text (err e, s) h = absurd (cc h)

  -- If an app that is not builtin is found and `UninstallApp` succeeds, forced or not, then the record
  -- of the app is gone, and the records of all other apps are those that the call of `on_uninstall`
  -- has left, or as before if there is no such call.
  pub uninstall_app_lem :
      (r : Request) (id : Str) (force : Bool) (s : S) (app : App) (text : Str)
      → laws.IsValid s
      → store.get id s ≡ ok app
      → same app.deploy_type builtin ≡ false
      → (uninstall_app store effects d r id force s).0 ≡ ok text
      → let s' = (uninstall_app store effects d r id force s).1 in
        let called = (call_on_uninstall store effects d force app app.on_uninstall s).1 in
        laws.IsValid s'
        × ((j : Str) → laws.view j s' ≡ (if id == j then none else laws.view j called))
  unfolding uninstall_app
  uninstall_app_lem r id force s app text v found installed h =
      let (a, k1, h1, e1) = chain_inversion (lift (require_acting_user r)) _ s text h in
      let (b, k2, h2, e2) = chain_inversion (lift (require_sysadmin_or_plugin d r)) _ s text h1 in
      let (app', k3, h3, e3) = chain_inversion (reads (store.get id)) _ s text h2 in
      let (message, k4, h4, e4) =
        chain_inversion (call_on_uninstall store effects d force app' app'.on_uninstall) _ s text
          h3 in
      let s1 = (call_on_uninstall store effects d force app' app'.on_uninstall s).1 in
      let (cleaned, e5) =
        or_disable_inversion r id message text (clean_up store effects d r id app' s1) h4 in
      let valid = call_on_uninstall-IsValid laws effects_laws d force app' app'.on_uninstall s v in
      let done = clean_up-Replaces r id app' s1 valid cleaned in
      let same_app : app ≡ app' = cc (sym found ∙ k3) in
      let (kept, is_id) =
        laws.get_ok id s app' v k3
          (subst (λ (x : App). same x.deploy_type builtin ≡ false) same_app installed) in
      subst⁻¹
        (λ (s' : S).
          laws.IsValid s'
          × ((j : Str)
              → laws.view j s' ≡ (
                  if id == j
                  then none
                  else laws.view j
                      (call_on_uninstall store effects d force app app.on_uninstall s).1)))
        (ap (λ (p : Result Str × S). p.1) (e1 ∙ e2 ∙ e3 ∙ e4) ∙ e5)
        (done.valid, λ j. done.records j ∙ rw (is_id, same_app) refl)
