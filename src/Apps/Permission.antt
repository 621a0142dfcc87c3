-- ===== src/Apps/Permission.antt =====
-- Permissions that an app requests and is granted (apps/permissions.go).
pub mod Dependencies
use mattermost_plugin_apps.Base.{
  Str, Bool, true, false, not, ◌&&◌, ◌||◌, List, [], ◌∷◌, Result, ok, err, invalid, ◌==◌,
  if◌then◌else◌,
}

-- `type Permission string`; `unknown` is any other text.
pub data Permission : Type 0 where
  user_joined_channel_notification act_as_bot act_as_user : Permission
  remote_oauth2 remote_webhooks : Permission
  unknown : Str → Permission

unfoldable pub same : Permission → Permission → Bool
same user_joined_channel_notification user_joined_channel_notification = true
same act_as_bot act_as_bot = true
same act_as_user act_as_user = true
same remote_oauth2 remote_oauth2 = true
same remote_webhooks remote_webhooks = true
same (unknown s) (unknown t) = s == t
same _ _ = false

-- `Permissions.Contains`.
unfoldable pub contains : List Permission → Permission → Bool
unfolding same
contains [] p = false
contains (current ∷ list) p = same current p || contains list p

-- The table of `Permissions.Validate`: the first of a row requires the others.
abbrev pub dependencies : List (Permission × List Permission)
dependencies =
    (remote_webhooks, act_as_bot ∷ [])
    ∷ (remote_oauth2, act_as_user ∷ [])
    ∷ (user_joined_channel_notification, act_as_bot ∷ [])
    ∷ []

-- The inner loop: every dependency of a row must be listed.
all_listed : List Permission → List Permission → Bool
all_listed list [] = true
all_listed list (d ∷ ds) = contains list d && all_listed list ds

-- The outer loop; a row whose first permission is not listed is passed over.
check_rows : List Permission → List (Permission × List Permission) → Result (Unit {0})
check_rows list [] = ok tt
check_rows list ((p, ds) ∷ rows) =
    let rest = check_rows list rows in
    if not (contains list p) then rest else if all_listed list ds then rest else err invalid

-- `Permissions.Validate`.
unfoldable pub validate : List Permission → Result (Unit {0})
unfolding check_rows all_listed
validate [] = ok tt
validate (p ∷ list) = check_rows (p ∷ list) dependencies
