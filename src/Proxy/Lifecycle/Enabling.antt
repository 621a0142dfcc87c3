-- ===== src/Proxy/Lifecycle/Enabling.antt =====
-- What enabling and disabling do to the records of the apps, before `on_enable` is called and after
-- `on_disable` has been.
use mathlib.Core.Path.{subst⁻¹}
use mattermost_plugin_apps.Base.{
  Str, Bool, true, false, not, ◌≡◌, refl, sym, ◌∙◌, Result, ok, Option, some, if◌then◌else◌, ◌==◌,
  Bool-cases, if_false, ap, bytes, Result-cases, inl, inr,
}
use mattermost_plugin_apps.Base.Action.{Action, chain_inversion, pure}
use mattermost_plugin_apps.Apps.App.{App}
use mattermost_plugin_apps.Apps.Deploy.{same, builtin}
use mattermost_plugin_apps.Incoming.{Request, Directory, require_sysadmin_or_plugin}
use mattermost_plugin_apps.Proxy.Lifecycle.{AppStore, Effects, switch_off, call_if, disable_app}
use mattermost_plugin_apps.Proxy.Lifecycle.Steps.{
  AppStoreLaws, EffectsLaws, Keeps, Keeps-trans, call_if-IsValid,
}

module _ {S : Type 0} {store : AppStore S} (laws : AppStoreLaws store) where
  -- Whether two Booleans are one.
  abbrev pub same_bool : Bool → Bool → Bool
  same_bool true b = b
  same_bool false b = not b

  abbrev pub with_disabled : Bool → App → App
  with_disabled b app = record app { disabled = b }

  -- The store stays valid; one record changes and the others stay.
  pub record Replaces (id : Str) (app : Option App) (s s' : S) : Type 0 where
    pub valid : laws.IsValid s'
    pub records : (j : Str) → laws.view j s' ≡ (if id == j then app else laws.view j s)

  pub save-Replaces :
      (app : App) (s t : S)
      → laws.IsValid s
      → Keeps laws s t
      → (store.save app t).0 ≡ ok tt
      → Replaces app.app_id (some (laws.stored_as app)) s (store.save app t).1
  save-Replaces app s t v before h =
      let (valid, records) = laws.save_ok app t (before.valid v) h in
      record { valid = valid; records = λ j. records j ∙ rw (before.records j) refl }

  module _ {effects : Effects S} (effects_laws : EffectsLaws laws effects) (d : Directory) where
    switch_off-Replaces :
        (app : App) (s : S) (text : Str)
        → laws.IsValid s
        → (switch_off store effects d app s).0 ≡ ok text
        → Replaces app.app_id
            (some (laws.stored_as (with_disabled true app)))
            (call_if store effects d app app.on_disable s).1
            (switch_off store effects d app s).1
    switch_off-Replaces app s text v h =
        let off = with_disabled true app in
        let (c, k1, h1, e1) =
          chain_inversion (call_if store effects d app app.on_disable) _ s text h in
        let s1 = (call_if store effects d app app.on_disable s).1 in
        let (a, k2, h2, e2) =
          chain_inversion (effects.update_bot app.bot_user_id false) _ s1 text h1 in
        let s2 = (effects.update_bot app.bot_user_id false s1).1 in
        let (b, k3, h3, e3) = chain_inversion (effects.delete_sessions app.app_id) _ s2 text h2 in
        let s3 = (effects.delete_sessions app.app_id s2).1 in
        let (x, k4, h4, e4) = chain_inversion (store.save off) _ s3 text h3 in
        let before =
          Keeps-trans laws s1 s2 s3 (effects_laws.update_bot_keeps app.bot_user_id false s1)
            (effects_laws.delete_sessions_keeps app.app_id s2) in
        let valid = call_if-IsValid laws effects_laws d app app.on_disable s v in
        subst⁻¹ (λ (p : Result Str × S). Replaces app.app_id (some (laws.stored_as off)) s1 p.1)
          (e1 ∙ e2 ∙ e3 ∙ e4) (save-Replaces off s1 s3 valid before k4)

    pub disable_enabled :
        (r : Request) (id : Str) (s : S) (app : App)
        → require_sysadmin_or_plugin d r ≡ ok tt
        → store.get id s ≡ ok app
        → app.disabled ≡ false
        → disable_app store effects d r id s ≡ switch_off store effects d app s
    unfolding disable_app
    disable_enabled r id s app e found k =
        path ∙ ap (λ (f : Action S Str). f s) (if_false already _ app.disabled k)
      where
        already : Action S Str
        already = pure (bytes "Already disabled")

        path :
            disable_app store effects d r id s
            ≡ (if app.disabled then already else switch_off store effects d app) s
        path = rw (e, disable_app, found) refl

    -- What is left of a record after a call that switches an app on or off: that of the app, as
    -- `target` wants it, and those of the others.
    abbrev pub switched : Bool → Str → App → S → Str → Option App
    switched target id app s j =
        if same_bool target app.disabled
        then laws.view j s
        else if id == j
        then some (laws.stored_as (with_disabled target app))
        else laws.view j s

    switched_now :
        (target : Bool) (id : Str) (app : App) (s : S) (j : Str)
        → same_bool target app.disabled ≡ false
        → app.app_id ≡ id
        → switched target id app s j ≡ (
            if app.app_id == j
            then some (laws.stored_as (with_disabled target app))
            else laws.view j s)
    switched_now target id app s j h is_id =
        if_false _ _ (same_bool target app.disabled) h
        ∙ ap
            (λ (i : Str).
              if i == j then some (laws.stored_as (with_disabled target app)) else laws.view j s)
            (sym is_id)

    -- The state that `EnableApp` ends in, where `saved` is the state after the record is saved.
    abbrev pub after_enabling : App → S → S → S
    after_enabling app s saved =
        if app.disabled
        then (call_if store effects d (with_disabled false app) app.on_enable saved).1
        else s

    -- The state that `DisableApp` saves the record in: an enabled app has been called.
    abbrev pub before_disabling : App → S → S
    before_disabling app s =
        if app.disabled then s else (call_if store effects d app app.on_disable s).1

    -- If an app that is not builtin is found and `DisableApp` succeeds, then it changes no record if
    -- the app was disabled; if it was enabled, then the record of the app has become that of a
    -- disabled app, as it was found before the call of `on_disable`, whatever the call has stored in
    -- it, and the records of all other apps are those that the call has left, or as before if there is
    -- no such call.
    pub disable_app_lem :
        (r : Request) (id : Str) (s : S) (app : App) (text : Str)
        → laws.IsValid s
        → store.get id s ≡ ok app
        → same app.deploy_type builtin ≡ false
        → (disable_app store effects d r id s).0 ≡ ok text
        → let s' = (disable_app store effects d r id s).1 in
          laws.IsValid s'
          × ((j : Str) → laws.view j s' ≡ switched true id app (before_disabling app s) j)
    unfolding disable_app
    disable_app_lem r id s app text v found installed h =
        elim (Result-cases (require_sysadmin_or_plugin d r)) [
          | inr (x, e) ↦ let no = rw (e, disable_app) at h in absurd (cc no)
          | inl (t, e) ↦ elim (Bool-cases app.disabled) [
            | inl k ↦ rw (e, disable_app, found, k) (v, λ j. refl)
            | inr k ↦
                let (kept, is_id) = laws.get_ok id s app v found installed in
                let run = disable_enabled r id s app e found k in
                let done = switch_off-Replaces app s text v (sym (ap (λ p. p.0) run) ∙ h) in
                let called = (call_if store effects d app app.on_disable s).1 in
                let before : before_disabling app s ≡ called = rw k refl in
                subst⁻¹
                  (λ (p : Result Str × S).
                    laws.IsValid p.1
                    × ((j : Str)
                        → laws.view j p.1 ≡ switched true id app (before_disabling app s) j))
                  run
                  (
                    done.valid,
                    λ j.
                        done.records j
                        ∙ sym (switched_now true id app called j k is_id)
                        ∙ sym (ap (λ (u : S). switched true id app u j) before),
                  )
          ]
        ]
