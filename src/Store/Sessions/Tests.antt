-- ===== src/Store/Sessions/Tests.antt =====
-- Keys and records of sessions.
use mattermost_plugin_apps.Store.Sessions.Pages.{list_keys_for_app, list_keys_for_user, page_of}
use mattermost_plugin_apps.Store.Sessions.Selecting.{IsAppKey, IsUserKey}
use mattermost_plugin_apps.Store.Sessions.Listing.{list_keys_lem, page_at, IsListing}
use mattermost_plugin_apps.Base.{
  ℕ, List, Result, some, arith, ◌==◌, Str, bytes, false, ◌≡◌, ◌↔◌, ◌⊎◌, refl, ok, other, err, [],
  ◌∷◌,
}
use mattermost_plugin_apps.Base.Assoc.{lookup, insert}
use mattermost_plugin_apps.Store.Kv.Memory.{Memory, memory, memory_laws}
use mattermost_plugin_apps.Store.Sessions.{
  Session, session_key, parse_session_key, keys_for_app, get, save,
}
use mattermost_plugin_apps.Store.Sessions.Keys.{
  has_byte, parse_session_key_iff, keys_for_app-session_key,
}
use mattermost_plugin_apps.Store.Sessions.Reading.{get-save}

abbrev key : Str
key = session_key (bytes "foo") (bytes "ann")

parse_session_key_iff_example : (parse_session_key key ≡ ok (bytes "foo", bytes "ann")) ↔ (
    (key ≡ session_key (bytes "foo") (bytes "ann"))
    × (has_byte b'_' (bytes "foo") ≡ false)
    × (has_byte b'_' (bytes "ann") ≡ false))
parse_session_key_iff_example = parse_session_key_iff key (bytes "foo") (bytes "ann")

keys_for_app-session_key_example :
    keys_for_app (bytes "foo") (session_key (bytes "foobar") (bytes "ann") ∷ [])
    ≡ session_key (bytes "foobar") (bytes "ann") ∷ keys_for_app (bytes "foo") []
keys_for_app-session_key_example =
    keys_for_app-session_key (bytes "foo") (bytes "bar") (bytes "ann") []

abbrev session : Session
session = record { id = bytes "s1"; user_id = bytes "ann"; token = bytes "t"; expires_at = 5 }

abbrev empty : Memory Session
empty = (false, [])

abbrev full : Memory Session
full = (save memory (bytes "foo") (bytes "ann") session empty).1

saved : (save memory (bytes "foo") (bytes "ann") session empty).0 ≡ ok tt
unfolding save
saved = refl

read_back : get memory (bytes "foo") (bytes "ann") full ≡ ok session
unfolding get save lookup insert ◌==◌
read_back = refl

get-save_example :
    (get memory (bytes "foo") (bytes "ann") full ≡ ok session)
    ⊎ (get memory (bytes "foo") (bytes "ann") full ≡ err other)
get-save_example = get-save memory memory_laws (bytes "foo") (bytes "ann") session empty refl saved

-- A server with one key, on one page.
abbrev one_key : List Str
one_key = session_key (bytes "foo") (bytes "ann") ∷ []

abbrev list_one : ℕ → ℕ → Memory Session → Result (List Str)
list_one page n s = ok (page_at n page one_key)

pages :
    (page n : ℕ) (s : Memory Session) (keys : List Str)
    → list_one page n s ≡ ok keys
    → keys ≡ page_at n page one_key
pages page n s keys h = cc h

list_keys_lem_example :
    ((r : Result (List Str)) × (list_keys_for_app memory list_one 2 (bytes "foo") full ≡ some r)
      × IsListing (IsAppKey (bytes "foo")) (page_of memory list_one full) one_key r)
    × ((r : Result (List Str)) × (list_keys_for_user memory list_one 2 (bytes "ann") full ≡ some r)
        × IsListing (IsUserKey (bytes "ann")) (page_of memory list_one full) one_key r)
list_keys_lem_example =
    list_keys_lem memory list_one (λ s. one_key) pages 2 (bytes "foo") (bytes "ann") full
      (omega arith)
