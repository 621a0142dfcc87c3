-- ===== src/Store/OAuth2.antt =====
-- The states of OAuth2 flows and the data of their users (server/store/oauth2.go).
pub mod Once
pub mod Accepted
use mattermost_plugin_apps.Base.{
  Str, ℕ, bytes, Bool, true, false, not, ◌||◌, List, [], ◌∷◌, ◌++◌, Result, ok, err, invalid,
  forbidden, Option, none, some, is_empty, if◌then◌else◌, eqb, ◌==◌,
}
use mattermost_plugin_apps.Base.Action.{Action, raise, lift, ◌>>=◌, ◌>>◌, pure}
use mattermost_plugin_apps.Store.AppKv.{data_of}
use mattermost_plugin_apps.Store.HashKeys.{hash_key}
use mattermost_plugin_apps.Store.Kv.{Kv}

abbrev pub kv_oauth2_state_prefix : Str
kv_oauth2_state_prefix = bytes ".o"

abbrev pub kv_user_prefix : Str
kv_user_prefix = bytes ".u"

abbrev pub kv_user_key : Str
kv_user_key = bytes "oauth2_user"

abbrev pub state_key : Str → Str
state_key state = kv_oauth2_state_prefix ++ state

abbrev pub onto_first : ℕ → List Str → List Str
onto_first c [] = []
onto_first c (part ∷ parts) = (c ∷ part) ∷ parts

-- `strings.Split(s, ".")`.
unfoldable pub split_at_dots : Str → List Str
split_at_dots [] = [] ∷ []
split_at_dots (c ∷ s) =
    let parts = split_at_dots s in if eqb c b'.' then [] ∷ parts else onto_first c parts

-- Two parts, the second of them the ID of the user.
abbrev pub is_state_of : Str → List Str → Bool
is_state_of user_id (random ∷ owner ∷ []) = owner == user_id
is_state_of user_id _ = false

-- `random` is the text of 15 random bytes. The server forgets a state after 15 minutes.
abbrev pub new_state : Str → Str → Str
new_state random acting_user_id = random ++ (b'.' ∷ acting_user_id)

module _ {S : Type 0} (kv : Kv S Str) where
  -- `CreateState`.
  unfoldable pub create_state : Str → Str → Action S Str
  create_state random acting_user_id =
      let state = new_state random acting_user_id in kv.set (state_key state) state >> pure state

  -- The test of what was stored, the empty text where there was nothing.
  abbrev pub match_state : Str → Result Str → Result (Unit {0})
  match_state url_state (err e) = err e
  match_state url_state (ok stored) = if not (stored == url_state) then err forbidden else ok tt

  -- `ValidateStateOnce`; that the deletion fails is ignored.
  unfoldable pub validate_state_once : Str → Str → Action S (Unit {0})
  validate_state_once url_state acting_user_id s =
      if not (is_state_of acting_user_id (split_at_dots url_state)) then (err forbidden, s) else (
        match_state url_state (data_of (kv.get (state_key url_state) s)),
        (kv.delete (state_key url_state) s).1,
      )

module _ {S : Type 0} (kv : Kv S Str) (digest : Str → Str) where
  abbrev pub user_key : Str → Str → Result Str
  user_key app_id user_id = hash_key digest kv_user_prefix app_id user_id [] kv_user_key

  -- `SaveUser`.
  unfoldable pub save_user : Str → Str → Str → Action S Bool
  save_user app_id acting_user_id value =
      if is_empty app_id || is_empty acting_user_id
      then raise invalid
      else lift (user_key app_id acting_user_id) >>= (λ key. kv.set key value)

  abbrev pub user_at : Result Str → S → Result Str
  user_at (err e) s = err e
  user_at (ok key) s = data_of (kv.get key s)

  -- `GetUser`.
  unfoldable pub get_user : Str → Str → S → Result Str
  get_user app_id acting_user_id s =
      if is_empty app_id || is_empty acting_user_id
      then err invalid
      else user_at (user_key app_id acting_user_id) s
