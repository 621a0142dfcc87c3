-- ===== src/Proxy/Lifecycle/Steps.antt =====
-- What the life cycle of apps relies on: the store keeps a record per app, and the effects on the
-- server and on other components leave these records. A call to an app may change them, as an app
-- stores its OAuth2 data with `StoreOAuth2App` (apps/app.go).
use mattermost_plugin_apps.Base.{
  Str, Bool, false, ◌≡◌, refl, ok, Option, none, some, if◌then◌else◌, ◌==◌,
}
use mattermost_plugin_apps.Apps.App.{App}
use mattermost_plugin_apps.Apps.Call.{Call}
use mattermost_plugin_apps.Apps.Deploy.{same, builtin}
use mattermost_plugin_apps.Incoming.{Request, Directory}
use mattermost_plugin_apps.Proxy.Lifecycle.{
  AppStore, Effects, call_if, delete_oauth_if, call_on_uninstall,
}

-- The app store as its clients see it: a record per app that is not builtin. `stored_as` is what
-- saving makes of an app.
pub record AppStoreLaws {S : Type 0} (store : AppStore S) : Type 1 where
  pub IsValid : S → Type 0
  pub view : Str → S → Option App
  pub stored_as : App → App
  pub get_ok :
      (id : Str) (s : S) (app : App)
      → IsValid s
      → store.get id s ≡ ok app
      → same app.deploy_type builtin ≡ false
      → (view id s ≡ some app) × (app.app_id ≡ id)
  pub save_ok :
      (app : App) (s : S)
      → IsValid s
      → (store.save app s).0 ≡ ok tt
      → IsValid (store.save app s).1
        × ((id : Str)
            → view id (store.save app s).1
              ≡ (if app.app_id == id then some (stored_as app) else view id s))
  pub delete_ok :
      (id : Str) (s : S)
      → IsValid s
      → (store.delete id s).0 ≡ ok tt
      → IsValid (store.delete id s).1
        × ((j : Str) → view j (store.delete id s).1 ≡ (if id == j then none else view j s))

module _ {S : Type 0} {store : AppStore S} (laws : AppStoreLaws store) where
  -- The store stays valid, and keeps its records.
  pub record Keeps (s s' : S) : Type 0 where
    pub valid : laws.IsValid s → laws.IsValid s'
    pub records : (id : Str) → laws.view id s' ≡ laws.view id s

  pub Keeps-refl : (s : S) → Keeps s s
  Keeps-refl s = record { valid = λ v. v; records = λ id. refl }

  pub Keeps-trans : (s t u : S) → Keeps s t → Keeps t u → Keeps s u
  Keeps-trans s t u h k = record {
    valid = λ v. k.valid (h.valid v);
    records = λ id. rw (k.records id) (h.records id);
  }

  -- None of the effects touches the records of the apps, but for the calls to the apps, which leave
  -- the store valid, whatever they change.
  pub record EffectsLaws (effects : Effects S) : Type 0 where
    pub call_valid :
        (app : App) (c : Call) (s : S) → laws.IsValid s → laws.IsValid (effects.call app c s).1
    pub update_bot_keeps : (id : Str) (b : Bool) (s : S) → Keeps s (effects.update_bot id b s).1
    pub delete_oauth_app_keeps : (id : Str) (s : S) → Keeps s (effects.delete_oauth_app id s).1
    pub delete_sessions_keeps : (id : Str) (s : S) → Keeps s (effects.delete_sessions id s).1
    pub remove_data_keeps : (id : Str) (s : S) → Keeps s (effects.remove_data id s).1
    pub unsubscribe_app_keeps :
        (r : Request) (id : Str) (s : S) → Keeps s (effects.unsubscribe_app r id s).1

  module _ {effects : Effects S} (effects_laws : EffectsLaws effects) (d : Directory) where
    pub call_if-IsValid :
        (app : App) (c : Option Call) (s : S)
        → laws.IsValid s
        → laws.IsValid (call_if store effects d app c s).1
    call_if-IsValid app none s v = v
    call_if-IsValid app (some c) s v = effects_laws.call_valid app c s v

    pub delete_oauth_if-Keeps :
        (id : Option Str) (s : S) → Keeps s (delete_oauth_if store effects d id s).1
    delete_oauth_if-Keeps none s = Keeps-refl s
    delete_oauth_if-Keeps (some id) s = effects_laws.delete_oauth_app_keeps id s

    pub call_on_uninstall-IsValid :
        (force : Bool) (app : App) (c : Option Call) (s : S)
        → laws.IsValid s
        → laws.IsValid (call_on_uninstall store effects d force app c s).1
    call_on_uninstall-IsValid force app none s v = v
    call_on_uninstall-IsValid force app (some c) s v = effects_laws.call_valid app c s v
