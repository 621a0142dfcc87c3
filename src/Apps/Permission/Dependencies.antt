-- ===== src/Apps/Permission/Dependencies.antt =====
-- The dependencies between permissions.
use mattermost_plugin_apps.Base.{true, List, [], ◌∷◌, ◌≡◌, ◌↔◌, arith, ok}
use mattermost_plugin_apps.Apps.Permission.{
  Permission, contains, validate, check_rows, all_listed, remote_webhooks, remote_oauth2,
  act_as_bot, act_as_user, user_joined_channel_notification,
}

-- The first permission needs the second.
abbrev pub Needs : List Permission → Permission → Permission → Type 0
Needs list p d = contains list p ≡ true → contains list d ≡ true

-- A list of permissions is valid exactly if remote webhooks and notifications about users who join
-- channels come with the permission to act as a bot, and remote OAuth2 with that to act as a user.
pub validate_iff :
    (list : List Permission)
    → (validate list ≡ ok tt) ↔ (
        Needs list remote_webhooks act_as_bot
        × Needs list remote_oauth2 act_as_user
        × Needs list user_joined_channel_notification act_as_bot)
unfolding validate contains check_rows all_listed
validate_iff [] = ground arith
validate_iff (p ∷ list) = ground arith
