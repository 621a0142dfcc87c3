-- ===== src/Store/AppKv.antt =====
-- The data that apps keep (server/store/appkv.go).
pub mod Isolation
use mattermost_plugin_apps.Base.{
  Str, bytes, Bool, true, false, ◌||◌, Result, ok, err, invalid, Option, none, some, [], is_empty,
  if◌then◌else◌,
}
use mattermost_plugin_apps.Base.Action.{Action, raise, lift, ◌>>=◌}
use mattermost_plugin_apps.Incoming.{Request}
use mattermost_plugin_apps.Store.HashKeys.{hash_key}
use mattermost_plugin_apps.Store.Kv.{Kv}

abbrev pub kv_app_prefix : Str
kv_app_prefix = bytes ".k"

-- The bytes that a get leaves: none where nothing is stored.
abbrev pub data_of : Result (Option Str) → Result Str
data_of (err e) = err e
data_of (ok none) = ok []
data_of (ok (some value)) = ok value

module _ {S : Type 0} (kv : Kv S Str) (digest : Str → Str) where
  abbrev pub key_of : Request → Str → Str → Result Str
  key_of r prefix id = hash_key digest kv_app_prefix r.source_app_id r.acting_user_id prefix id

  -- `Set`.
  unfoldable pub set : Request → Str → Str → Str → Action S Bool
  set r prefix id value =
      if is_empty r.source_app_id || is_empty r.acting_user_id
      then raise invalid
      else lift (key_of r prefix id) >>= (λ key. kv.set key value)

  abbrev pub get_at : Result Str → S → Result Str
  get_at (err e) s = err e
  get_at (ok key) s = data_of (kv.get key s)

  -- `Get`.
  unfoldable pub get : Request → Str → Str → S → Result Str
  get r prefix id s = get_at (key_of r prefix id) s

  -- `Delete`.
  unfoldable pub delete : Request → Str → Str → Action S (Unit {0})
  delete r prefix id = lift (key_of r prefix id) >>= kv.delete
