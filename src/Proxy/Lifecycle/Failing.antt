-- ===== src/Proxy/Lifecycle/Failing.antt =====
-- Uninstalling where the server refuses to switch the bots of apps off.
use mathlib.Core.Path.{subst}
use mattermost_plugin_apps.Base.{
  Str, Bool, true, false, ◌≡◌, refl, sym, Option, none, some, Result, ok, err, Error, if◌then◌else◌,
  Result-cases, inl, inr,
}
use mattermost_plugin_apps.Base.Action.{Action, ◌>>=◌, reads, lift}
use mattermost_plugin_apps.Apps.App.{App}
use mattermost_plugin_apps.Apps.Call.{Call}
use mattermost_plugin_apps.Incoming.{
  Request, Directory, require_sysadmin_or_plugin, require_acting_user,
}
use mattermost_plugin_apps.Proxy.Lifecycle.{
  AppStore, Effects, call_if, delete_oauth_if, clean_up, or_disable, call_on_uninstall,
  uninstall_app, disable_app, switch_off,
}
use mattermost_plugin_apps.Proxy.Lifecycle.Steps.{
  AppStoreLaws, EffectsLaws, Keeps, delete_oauth_if-Keeps,
}

abbrev pub Fails : {A : Type 0} → Result A → Type 0
Fails r = (e : Error) × (r ≡ err e)

module _ {S : Type 0} {store : AppStore S} (laws : AppStoreLaws store)
    (Holds : (Str → Option App) → Type 0) where
  -- What holds of the records still holds of them.
  abbrev pub Stays : S → S → Type 0
  Stays s s' = Holds (λ j. laws.view j s) → Holds (λ j. laws.view j s')

  stay_both : (s t u : S) → Stays s t → Stays t u → Stays s u
  stay_both s t u h k x = k (h x)

  still : (s t : S) → Keeps laws s t → Stays s t
  still s t kept = subst Holds (λ i j. (sym (kept.records j)) i)

  -- A chain keeps the records if its steps do, as far as they are taken.
  chain-Stays :
      {A B : Type 0} (m : Action S A) (f : A → Action S B) (s : S)
      → Stays s (m s).1
      → ((a : A) → Stays (m s).1 (f a (m s).1).1)
      → Stays s ((m >>= f) s).1
  chain-Stays m f s h k = elim (Result-cases (m s).0) [
    | inl (a, e) ↦ rw e (stay_both s (m s).1 _ h (k a))
    | inr (x, e) ↦ rw e h
  ]

  chain-Fails :
      {A B : Type 0} (m : Action S A) (f : A → Action S B) (s : S)
      → ((a : A) → Fails (f a (m s).1).0)
      → Fails ((m >>= f) s).0
  chain-Fails m f s h = elim (Result-cases (m s).0) [
    | inl (a, e) ↦ rw e (h a)
    | inr (x, e) ↦ rw e (x, refl)
  ]

  chain_stops :
      {A B : Type 0} (m : Action S A) (f : A → Action S B) (s : S)
      → Fails (m s).0
      → (Fails ((m >>= f) s).0 × (((m >>= f) s).1 ≡ (m s).1))
  chain_stops m f s (x, e) = rw e ((x, refl), refl)

  if_Stays :
      {A : Type 0} (b : Bool) (m n : Action S A) (s : S)
      → Stays s (m s).1
      → Stays s (n s).1
      → Stays s ((if b then m else n) s).1
  if_Stays true m n s h k = h
  if_Stays false m n s h k = k

  module _ {effects : Effects S} (effects_laws : EffectsLaws laws effects) (d : Directory)
      (calls : (app : App) (c : Call) (s : S) → Stays s (effects.call app c s).1)
      (no_switch : (id : Str) (s : S) → Fails (effects.update_bot id false s).0) where
    abbrev stuck_from : App → S → S
    stuck_from app s = (effects.update_bot app.bot_user_id false s).1

    call_if-Stays :
        (app : App) (c : Option Call) (s : S) → Stays s (call_if store effects d app c s).1
    call_if-Stays app none s x = x
    call_if-Stays app (some c) s x = calls app c s x

    call_on_uninstall-Stays :
        (force : Bool) (app : App) (c : Option Call) (s : S)
        → Stays s (call_on_uninstall store effects d force app c s).1
    call_on_uninstall-Stays force app none s x = x
    call_on_uninstall-Stays force app (some c) s x = calls app c s x

    stuck-Stays :
        {A : Type 0} (app : App) (f : Unit {0} → Action S A) (s : S)
        → Stays s ((effects.update_bot app.bot_user_id false >>= f) s).1
    stuck-Stays app f s =
        let (failed, e) =
          chain_stops (effects.update_bot app.bot_user_id false) f s
            (no_switch app.bot_user_id s) in
        rw e (still s _ (effects_laws.update_bot_keeps app.bot_user_id false s))

    switch_off-Stays : (app : App) (s : S) → Stays s (switch_off store effects d app s).1
    switch_off-Stays app s =
        chain-Stays (call_if store effects d app app.on_disable) _ s
          (call_if-Stays app app.on_disable s)
          (λ text. stuck-Stays app _ (call_if store effects d app app.on_disable s).1)

    disable_app-Stays :
        (r : Request) (id : Str) (s : S) → Stays s (disable_app store effects d r id s).1
    unfolding disable_app
    disable_app-Stays r id s =
        chain-Stays (lift (require_sysadmin_or_plugin d r)) _ s (λ x. x)
          (λ t.
            chain-Stays (reads (store.get id)) _ s (λ x. x)
              (λ app.
                if_Stays app.disabled _ (switch_off store effects d app) s (λ x. x)
                  (switch_off-Stays app s)))

    clean_up-Stays :
        (r : Request) (id : Str) (app : App) (s : S)
        → Stays s (clean_up store effects d r id app s).1
    clean_up-Stays r id app s =
        chain-Stays (effects.delete_sessions app.app_id) _ s
          (still s _ (effects_laws.delete_sessions_keeps app.app_id s))
          (λ a.
            let s1 = (effects.delete_sessions app.app_id s).1 in
            chain-Stays (delete_oauth_if store effects d app.mattermost_oauth2) _ s1
              (still s1 _ (delete_oauth_if-Keeps laws effects_laws d app.mattermost_oauth2 s1))
              (λ b. stuck-Stays app _ (delete_oauth_if store effects d app.mattermost_oauth2 s1).1))

    clean_up-Fails :
        (r : Request) (id : Str) (app : App) (s : S) → Fails (clean_up store effects d r id app s).0
    clean_up-Fails r id app s = chain-Fails (effects.delete_sessions app.app_id) _ s (λ a.
        let s1 = (effects.delete_sessions app.app_id s).1 in
        chain-Fails (delete_oauth_if store effects d app.mattermost_oauth2) _ s1 (λ b.
          let s2 = (delete_oauth_if store effects d app.mattermost_oauth2 s1).1 in
          (chain_stops (effects.update_bot app.bot_user_id false) _ s2
            (no_switch app.bot_user_id s2)).0))

    or_disable-Fails :
        (r : Request) (id message : Str) (p : Result (Unit {0}) × S)
        → Fails p.0
        → Fails (or_disable store effects d r id message p).0
          × Stays p.1 (or_disable store effects d r id message p).1
    or_disable-Fails r id message (ok t, s) (x, e) = absurd (cc e)
    or_disable-Fails r id message (err e, s) f = ((e, refl), disable_app-Stays r id s)

    -- If the server refuses to switch bots off, then `UninstallApp` fails. Whatever holds of the records
    -- of the apps, and goes on to hold in every call to an app, holds in the end: if no call to an app
    -- disables or removes apps, then an app that was enabled is left enabled.
    pub uninstall_app-Fails :
        (r : Request) (id : Str) (force : Bool) (s : S)
        → Fails (uninstall_app store effects d r id force s).0
          × (Holds (λ j. laws.view j s)
              → Holds (λ j. laws.view j (uninstall_app store effects d r id force s).1))
    unfolding uninstall_app
    uninstall_app-Fails r id force s = (
      chain-Fails (lift (require_acting_user r)) _ s (λ a.
          chain-Fails (lift (require_sysadmin_or_plugin d r)) _ s (λ b.
            chain-Fails (reads (store.get id)) _ s (λ app.
              let s1 = (call_on_uninstall store effects d force app app.on_uninstall s).1 in
              chain-Fails (call_on_uninstall store effects d force app app.on_uninstall) _ s
                (λ message. (or_disable-Fails r id message _ (clean_up-Fails r id app s1)).0)))),
      (chain-Stays (lift (require_acting_user r)) _ s (λ x. x)
          (λ a.
            chain-Stays (lift (require_sysadmin_or_plugin d r)) _ s (λ x. x)
              (λ b.
                chain-Stays (reads (store.get id)) _ s (λ x. x)
                  (λ app.
                    let s1 = (call_on_uninstall store effects d force app app.on_uninstall s).1 in
                    chain-Stays (call_on_uninstall store effects d force app app.on_uninstall) _ s
                      (call_on_uninstall-Stays force app app.on_uninstall s)
                      (λ message.
                        stay_both s1 _ _ (clean_up-Stays r id app s1)
                          (or_disable-Fails r id message _ (clean_up-Fails r id app s1)).1))))),
    )
