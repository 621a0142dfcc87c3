-- ===== src/Store/Sessions.antt =====
-- The session store: the keys of the sessions that apps have for users, reading and saving
-- (server/store/session.go). Of a session the model keeps what the plugin reads.
pub mod Keys
pub mod Reading
pub mod Pages
pub mod Selecting
pub mod Listing
mod Tests
use mattermost_plugin_apps.Base.{
  Str, ℕ, bytes, Bool, List, [], ◌∷◌, ◌++◌, Result, ok, err, not_found, other, Option, none, some,
  is_empty, if◌then◌else◌, ◌==◌, eqb, has_prefix, true, false,
}
use mattermost_plugin_apps.Base.Action.{Action, pure, ◌>>=◌, ◌>>◌}
use mattermost_plugin_apps.Store.Kv.{Kv}

-- `strings.Split(s, "x")` for a single byte.
prepend : ℕ → List Str → List Str
prepend c [] = (c ∷ []) ∷ []
prepend c (word ∷ words) = (c ∷ word) ∷ words

unfoldable pub split : ℕ → Str → List Str
unfolding prepend
split x [] = [] ∷ []
split x (c ∷ s) = let words = split x s in if eqb c x then [] ∷ words else prepend c words

abbrev pub kv_token_prefix : Str
kv_token_prefix = bytes ".t"

-- `appKey`.
abbrev pub app_key : Str → Str
app_key app_id = kv_token_prefix ++ (b'_' ∷ app_id)

-- `sessionKey`.
abbrev pub session_key : Str → Str → Str
session_key app_id user_id = app_key app_id ++ (b'_' ∷ user_id)

-- The parts of a key: there must be three, the first the prefix.
abbrev ids_of : List Str → Result (Str × Str)
ids_of (prefix ∷ app_id ∷ user_id ∷ []) =
    if prefix == kv_token_prefix then ok (app_id, user_id) else err other
ids_of _ = err other

-- `parseSessionKey`.
unfoldable pub parse_session_key : Str → Result (Str × Str)
parse_session_key key = ids_of (split b'_' key)

-- The inner loop of `listKeysForApp`, over a page of keys.
unfoldable pub keys_for_app : Str → List Str → List Str
keys_for_app app_id [] = []
keys_for_app app_id (key ∷ keys) =
    let rest = keys_for_app app_id keys in
    if has_prefix key (app_key app_id) then key ∷ rest else rest

abbrev pub is_of_user : Str → Result (Str × Str) → Bool
is_of_user user_id (ok (app_id, key_user_id)) = key_user_id == user_id
is_of_user user_id (err e) = false

-- The inner loop of `listKeysForUser`.
unfoldable pub keys_for_user : Str → List Str → List Str
keys_for_user user_id [] = []
keys_for_user user_id (key ∷ keys) =
    let rest = keys_for_user user_id keys in
    if is_of_user user_id (parse_session_key key) then key ∷ rest else rest

pub record Session : Type 0 where
  pub id : Str
  pub user_id : Str
  pub token : Str
  pub expires_at : ℕ

abbrev pub session_of : Option Session → Result Session
session_of none = err not_found
session_of (some found) = if is_empty found.id then err not_found else ok found

module _ {S : Type 0} (kv : Kv S Session) where
  -- `sessionStore.Get`; a key without a value reads as a session without an ID.
  unfoldable pub get : Str → Str → S → Result Session
  get app_id user_id s = elim (kv.get (session_key app_id user_id) s) [
    | err e ↦ err e
    | ok found ↦ session_of found
  ]

  -- `sessionStore.Save`.
  unfoldable pub save : Str → Str → Session → Action S (Unit {0})
  save app_id user_id session = do kv.set (session_key app_id user_id) session; pure tt
