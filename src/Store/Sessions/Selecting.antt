-- ===== src/Store/Sessions/Selecting.antt =====
-- Which keys the loops of `listKeysForApp` and `listKeysForUser` take from a page, by what the keys
-- look like.
use mattermost_plugin_apps.Base.{
  Str, true, false, List, [], ◌∷◌, ◌++◌, ◌≡◌, ◌⊎◌, refl, arith, inl, inr, Bool-cases, Result-cases,
  has_prefix, has_prefix-append, eqb, eq_sound, eq_refl,
}
use mattermost_plugin_apps.Store.Sessions.{
  session_key, keys_for_app, keys_for_user, app_key, is_of_user, parse_session_key,
}
use mattermost_plugin_apps.Store.Sessions.Keys.{has_byte, parse_session_key_iff}

-- The second list is the first without the elements that have not the property.
abbrev pub Selects : (Str → Type 0) → List Str → List Str → Type 0
Selects P [] ys = ys ≡ []
Selects P (x ∷ xs) ys =
    (P x × ((rest : List Str) × (ys ≡ x ∷ rest) × Selects P xs rest)) ⊎ ((¬ P x) × Selects P xs ys)

-- A key that begins as the keys of the app do.
abbrev pub IsAppKey : Str → Str → Type 0
IsAppKey app_id key = (rest : Str) × (key ≡ app_key app_id ++ rest)

-- A session key of the user for some app, where neither ID has an underscore.
abbrev pub IsUserKey : Str → Str → Type 0
IsUserKey user_id key =
    (app_id : Str) × (key ≡ session_key app_id user_id)
    × (has_byte b'_' app_id ≡ false)
    × (has_byte b'_' user_id ≡ false)

has_prefix-rest : (s p : Str) → has_prefix s p ≡ true → (rest : Str) × (s ≡ p ++ rest)
unfolding has_prefix
has_prefix-rest s [] h = (s, refl)
has_prefix-rest [] (c ∷ p) h = absurd (cc h)
has_prefix-rest (x ∷ s) (c ∷ p) h =
    let first : eqb x c ≡ true = ground (arith, h) in
    let later : has_prefix s p ≡ true = ground (arith, h) in
    let (rest, e) = has_prefix-rest s p later in (rest, ground (arith, first, e))

-- `keys_for_app` takes the keys that begin as the keys of the app do.
pub keys_for_app-Selects :
    (app_id : Str) (keys : List Str) → Selects (IsAppKey app_id) keys (keys_for_app app_id keys)
unfolding keys_for_app
keys_for_app-Selects app_id [] = refl
keys_for_app-Selects app_id (key ∷ keys) = elim (Bool-cases (has_prefix key (app_key app_id))) [
  | inl e ↦ rw e (
      inl (
        has_prefix-rest key (app_key app_id) e,
        (keys_for_app app_id keys, refl, keys_for_app-Selects app_id keys),
      ))
  | inr e ↦ rw e (inr (no e, keys_for_app-Selects app_id keys))
]
  where
    no : has_prefix key (app_key app_id) ≡ false → ¬ IsAppKey app_id key
    no e (rest, k) =
        let is_prefix = has_prefix-append (app_key app_id) rest in
        let is_not = rw k at e in absurd (cc (is_prefix, is_not))

is_of_user-IsUserKey :
    (user_id key : Str) → is_of_user user_id (parse_session_key key) ≡ true → IsUserKey user_id key
is_of_user-IsUserKey user_id key h = elim (Result-cases (parse_session_key key)) [
  | inr (x, e) ↦ let never = rw e at h in absurd (cc never)
  | inl ((app_id, found), e) ↦
      let same = eq_sound found user_id (rw e at h) in
      let (is_key, h_app, h_user) = (parse_session_key_iff key app_id user_id).0 (rw same at e) in
      (app_id, is_key, h_app, h_user)
]

-- `keys_for_user` takes the session keys of the user that can be parsed.
pub keys_for_user-Selects :
    (user_id : Str) (keys : List Str)
    → Selects (IsUserKey user_id) keys (keys_for_user user_id keys)
unfolding keys_for_user
keys_for_user-Selects user_id [] = refl
keys_for_user-Selects user_id (key ∷ keys) =
    elim (Bool-cases (is_of_user user_id (parse_session_key key))) [
      | inl e ↦ rw e (
          inl (
            is_of_user-IsUserKey user_id key e,
            (keys_for_user user_id keys, refl, keys_for_user-Selects user_id keys),
          ))
      | inr e ↦ rw e (inr (no e, keys_for_user-Selects user_id keys))
    ]
  where
    no : is_of_user user_id (parse_session_key key) ≡ false → ¬ IsUserKey user_id key
    no e (app_id, is_key, h_app, h_user) =
        let parsed = (parse_session_key_iff key app_id user_id).1 (is_key, h_app, h_user) in
        let wrong = rw (parsed, eq_refl user_id) at e in absurd (cc wrong)
