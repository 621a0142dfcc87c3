-- ===== src/Store/HashKeys/Distinct.antt =====
-- Keys of different apps, users and namespaces are different.
use mattermost_plugin_apps.Base.{Str, true, false, ◌≡◌, sym, ◌∙◌, ok, is_empty}
use mattermost_plugin_apps.Base.Trimming.{is_visible}
use mattermost_plugin_apps.Store.HashKeys.{hash_key}
use mattermost_plugin_apps.Store.HashKeys.RoundTrip.{
  parse_hash_key-hash_key, parse_hash_key-trimmed,
}

-- An ID of an app that can stand in a key.
pub record IsAppId (a : Str) : Type 0 where
  pub visible : is_visible a ≡ true
  pub given : is_empty a ≡ false

-- Keys that are equal are of the same app, user and namespace, and of app keys with one digest.
pub hash_key_injective :
    (digest : Str → Str) (g g' a a' u u' n n' k k' key : Str)
    → IsAppId a
    → IsAppId a'
    → is_visible n ≡ true
    → is_visible n' ≡ true
    → hash_key digest g a u n k ≡ ok key
    → hash_key digest g' a' u' n' k' ≡ ok key
    → (g ≡ g') × (a ≡ a') × (u ≡ u') × (n ≡ n') × (digest k ≡ digest k')
hash_key_injective digest g g' a a' u u' n n' k k' key app app' vn vn' h h' =
    let same =
      sym (parse_hash_key-hash_key digest g a u n k key app.visible app.given vn h)
      ∙ parse_hash_key-hash_key digest g' a' u' n' k' key app'.visible app'.given vn' h' in
    (cc same, cc same, cc same, cc same, cc same)

-- The owner of a key is known whatever the namespace.
pub hash_key_owner :
    (digest : Str → Str) (g g' a a' u u' n n' k k' key : Str)
    → IsAppId a
    → IsAppId a'
    → hash_key digest g a u n k ≡ ok key
    → hash_key digest g' a' u' n' k' ≡ ok key
    → (g ≡ g') × (a ≡ a') × (u ≡ u')
hash_key_owner digest g g' a a' u u' n n' k k' key app app' h h' =
    let same =
      sym (parse_hash_key-trimmed digest g a u n k key app.visible app.given h)
      ∙ parse_hash_key-trimmed digest g' a' u' n' k' key app'.visible app'.given h' in
    (cc same, cc same, cc same)
