-- ===== src/Store/Sessions/Pages.antt =====
-- Listing the sessions of an app or of a user, page by page (server/store/session.go). A loop over
-- pages runs on fuel; Store.Sessions.Listing shows how much is enough.
use mattermost_plugin_apps.Base.{
  Str, ℕ, zero, suc, List, [], ◌∷◌, ◌++◌, Result, ok, err, Option, none, some, ◌>>=◌,
}
use mattermost_plugin_apps.Store.Kv.{Kv}
use mattermost_plugin_apps.Store.Sessions.{Session, session_of, keys_for_app, keys_for_user}

abbrev pub list_keys_per_page : ℕ
list_keys_per_page = 1000

-- The loop over the pages of keys, of which `select` takes what is wanted; `none` if the fuel runs
-- out.
module _ {A : Type 0} (list_page : ℕ → Result (List Str)) (select : List Str → List A) where
  abbrev pub continue_with :
      (List A → Option (Result (List A))) → List A → Result (List Str) → Option (Result (List A))
  continue_with rest ret (err e) = some (err e)
  continue_with rest ret (ok []) = some (ok ret)
  continue_with rest ret (ok (key ∷ keys)) = rest (ret ++ select (key ∷ keys))

  unfoldable pub list_from : ℕ → ℕ → List A → Option (Result (List A))
  list_from zero page ret = none
  list_from (suc fuel) page ret = continue_with (list_from fuel (suc page)) ret (list_page page)

-- Listing keys is a function of the key-value API: the page, and how many keys there are on a page.
module _ {S : Type 0} (kv : Kv S Session) (list_keys : ℕ → ℕ → S → Result (List Str)) where
  abbrev pub page_of : S → ℕ → Result (List Str)
  page_of s page = list_keys page list_keys_per_page s

  -- `listKeysForApp`.
  unfoldable pub list_keys_for_app : ℕ → Str → S → Option (Result (List Str))
  list_keys_for_app fuel app_id s = list_from (page_of s) (keys_for_app app_id) fuel 0 []

  -- `listKeysForUser`.
  unfoldable pub list_keys_for_user : ℕ → Str → S → Option (Result (List Str))
  list_keys_for_user fuel user_id s = list_from (page_of s) (keys_for_user user_id) fuel 0 []

  -- `sessionStore.get`.
  abbrev pub get_key : Str → S → Result Session
  get_key key s = kv.get key s >>= session_of

  -- The loop of `ListForApp` over the keys: the first failure ends it.
  unfoldable pub get_all : List Str → S → Result (List Session)
  get_all [] s = ok []
  get_all (key ∷ keys) s = do
    session ← get_key key s
    sessions ← get_all keys s
    ok (session ∷ sessions)

  abbrev map_option : {A B : Type 0} → (A → B) → Option A → Option B
  map_option f none = none
  map_option f (some a) = some (f a)

  -- `ListForApp`.
  unfoldable pub list_for_app : ℕ → Str → S → Option (Result (List Session))
  list_for_app fuel app_id s =
      map_option (λ keys. keys >>= λ ks. get_all ks s) (list_keys_for_app fuel app_id s)

  -- `DeleteAllForApp`, of the keys that were listed: a failure is only logged.
  unfoldable pub delete_keys : List Str → S → S
  delete_keys [] s = s
  delete_keys (key ∷ keys) s = delete_keys keys (kv.delete key s).1
