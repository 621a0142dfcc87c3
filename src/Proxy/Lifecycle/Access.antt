-- ===== src/Proxy/Lifecycle/Access.antt =====
-- Which apps a user can reach.
use mattermost_plugin_apps.Base.{
  Str, Bool, true, not, ◌&&◌, ◌||◌, ◌≡◌, ◌↔◌, sym, ◌∙◌, ok, Result-cases, inl, inr, arith,
}
use mattermost_plugin_apps.Apps.App.{App}
use mattermost_plugin_apps.Apps.Deploy.{same, builtin}
use mattermost_plugin_apps.Incoming.{Directory}
use mattermost_plugin_apps.Proxy.Lifecycle.{AppStore, Effects, ensure_enabled, get_installed_app}

module _ {S : Type 0} (store : AppStore S) (effects : Effects S) (d : Directory) where
  -- Builtin apps can be reached; others if they are enabled and listed.
  abbrev pub reachable : App → S → Bool
  reachable app s =
      same app.deploy_type builtin || not app.disabled && effects.is_listed app.app_id s

  ensure_enabled_iff :
      (app : App) (s : S)
      → (ensure_enabled store effects d app s ≡ ok tt) ↔ (reachable app s ≡ true)
  unfolding ensure_enabled
  ensure_enabled_iff app s = ground arith

  -- `GetInstalledApp` with the check finds exactly the apps of the store that are builtin, or enabled
  -- and listed.
  pub get_installed_app_iff :
      (id : Str) (app : App) (s : S)
      → (get_installed_app store effects d id true s ≡ ok app)
        ↔ ((store.get id s ≡ ok app) × (reachable app s ≡ true))
  unfolding get_installed_app
  get_installed_app_iff id app s = elim (Result-cases (store.get id s)) [
    | inr (x, e) ↦ rw (e, get_installed_app) ((λ h. absurd (cc h)), λ (h, k). absurd (cc h))
    | inl (a, e) ↦ elim (Result-cases (ensure_enabled store effects d a s)) [
      | inl (t, k) ↦
          let may = (ensure_enabled_iff a s).0 k in
          rw (e, get_installed_app, k)
            ((λ h. let same_app : a ≡ app = cc h in (h, rw (← same_app) may)), λ (h, _). h)
      | inr (x, k) ↦
          rw (e, get_installed_app, k)
            (
              (λ h. absurd (cc h)),
              λ (h, may).
                  let same_app : a ≡ app = cc h in
                  let never = (ensure_enabled_iff a s).1 (rw same_app may) in
                  absurd (cc (sym k ∙ never)),
            )
    ]
  ]
