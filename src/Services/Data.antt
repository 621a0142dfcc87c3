-- ===== src/Services/Data.antt =====
-- The data that apps and their OAuth2 users keep, behind the checks on requests
-- (server/appservices/kv.go, server/appservices/oauth2.go).
pub mod Reading
mod Tests
use mattermost_plugin_apps.Base.{
  Str, bytes, Bool, true, false, not, Result, ok, err, invalid, not_found, unauthorized, [],
  is_empty, if◌then◌else◌, ◌==◌, ◌∷◌,
}
use mattermost_plugin_apps.Base.Action.{Action, raise, lift, reads, pure, ◌>>=◌, ◌>>◌}
use mattermost_plugin_apps.Apps.App.{App}
use mattermost_plugin_apps.Apps.Permission.{remote_oauth2, contains}
use mattermost_plugin_apps.Incoming.{
  Request, Directory, require_acting_user, require_not_bot, require_source_app,
}
use mattermost_plugin_apps.Store.AppKv
use mattermost_plugin_apps.Store.Kv.{Kv}
use mattermost_plugin_apps.Store.OAuth2.{get_user, save_user}

-- The checks of the key-value calls: an acting user and a source app.
abbrev pub if_acting : Directory → Request → Result (Unit {0}) → Result Request
if_acting d r (ok t) = require_source_app d r
if_acting d r (err e) = err e

abbrev pub app_checks : Directory → Request → Result Request
app_checks d r = if_acting d r (require_acting_user r)

abbrev pub braces : Str
braces = bytes "{}"

-- Valid JSON, also where no data is set.
abbrev pub or_braces : Result Str → Result Str
or_braces (ok value) = ok (if is_empty value then braces else value)
or_braces (err not_found) = ok braces
or_braces (err e) = err e

abbrev pub or_nothing : Result Str → Result Str
or_nothing (ok value) = ok value
or_nothing (err not_found) = ok []
or_nothing (err e) = err e

module _ {S : Type 0} (kv : Kv S Str) (digest : Str → Str) (is_json : Str → Bool)
    (d : Directory) where
  -- `KVSet`.
  unfoldable pub kv_set : Request → Str → Str → Str → Action S Bool
  kv_set r prefix id value = do
    r' ← lift (app_checks d r)
    if not (is_json value) then raise invalid else AppKv.set kv digest r' prefix id value

  -- `KVGet`.
  unfoldable pub kv_get : Request → Str → Str → Action S Str
  kv_get r prefix id = do
    r' ← lift (app_checks d r)
    reads (λ s. or_braces (AppKv.get kv digest r' prefix id s))

  -- `KVDelete`.
  unfoldable pub kv_delete : Request → Str → Str → Action S (Unit {0})
  kv_delete r prefix id = lift (app_checks d r) >>= (λ r'. AppKv.delete kv digest r' prefix id)

  -- An app that may use remote OAuth2; `app_of` is `Get` of the app store.
  abbrev pub oauth2_app : (Str → S → Result App) → Request → Action S App
  oauth2_app app_of r = do
    app ← reads (app_of r.source_app_id)
    if not (contains app.granted_permissions remote_oauth2) then raise unauthorized else pure app

  -- `GetOAuth2User`.
  unfoldable pub get_oauth2_user : (Str → S → Result App) → Request → Action S Str
  get_oauth2_user app_of r = do
    lift (require_acting_user r)
    lift (require_not_bot d r)
    r' ← lift (require_source_app d r)
    oauth2_app app_of r'
    reads (λ s. or_nothing (get_user kv digest r'.source_app_id r'.acting_user_id s))

  -- The end of `StoreOAuth2User`: bindings are refreshed after it, an event that is left out.
  abbrev pub save_if_new : Request → Str → Str → Action S (Unit {0})
  save_if_new r value old =
      if value == old
      then pure tt
      else save_user kv digest r.source_app_id r.acting_user_id value >> pure tt

  -- `StoreOAuth2User`.
  unfoldable pub store_oauth2_user : (Str → S → Result App) → Request → Str → Action S (Unit {0})
  store_oauth2_user app_of r value = do
    r' ← lift (app_checks d r)
    lift (require_not_bot d r')
    if not (is_json value) then raise invalid else oauth2_app app_of r'
    old ← reads (get_user kv digest r'.source_app_id r'.acting_user_id)
    save_if_new r' value old

  -- What a new OAuth2 app is stored with, or nothing where it is the one that is there; `save` is
  -- `Save` of the app store, `json` the JSON text of the stored one.
  abbrev pub save_oauth2_if_new :
      (App → Action S (Unit {0})) → (Str → Str) → Str → Str → App → Action S (Unit {0})
  save_oauth2_if_new save json text parsed app =
      if json app.remote_oauth2 == text
      then pure tt
      else save (record app { remote_oauth2 = parsed })

  -- `StoreOAuth2App`; the parser answers an invalid error for text that is not JSON.
  unfoldable pub store_oauth2_app :
      (Str → S → Result App)
      → (App → Action S (Unit {0}))
      → (Str → Str)
      → (Str → Result Str)
      → Request
      → Str
      → Action S (Unit {0})
  store_oauth2_app app_of save json parse r text = do
    lift (require_acting_user r)
    (if not (d.can_manage_system r.acting_user_id) then raise unauthorized else pure tt)
    r' ← lift (require_source_app d r)
    parsed ← lift (parse text)
    app ← oauth2_app app_of r'
    save_oauth2_if_new save json text parsed app
