-- ===== src/Store/HashKeys.antt =====
-- The keys under which data of apps and users are stored: `Hashkey` and `ParseHashkey`
-- (server/store/service.go).
pub mod RoundTrip
pub mod Distinct
use mattermost_plugin_apps.Base.{
  Str, ℕ, zero, suc, Bool, true, false, not, ◌||◌, ◌-◌, List, [], ◌∷◌, ◌++◌, Result, ok, err, other,
  is_empty, length, take, drop, if◌then◌else◌, eqb, ltb, trim_space,
}

-- Right-filled with spaces to a length.
unfoldable pub fill : ℕ → Str → Str
fill zero s = s
fill (suc n) [] = b' ' ∷ fill n []
fill (suc n) (c ∷ s) = c ∷ fill n s

abbrev pub hash_key_length : ℕ
hash_key_length = 82

abbrev pub begins_with_dot : Str → Bool
begins_with_dot [] = false
begins_with_dot (c ∷ s) = eqb c b'.'

-- A namespace of an app has two bytes at most.
abbrev pub is_long : Str → Bool
is_long (a ∷ b ∷ c ∷ s) = true
is_long _ = false

-- `hashkey`; `digest` is the ascii85 text of the SHAKE128 sum of a key.
abbrev pub joined : (Str → Str) → Str → Str → Str → Str → Str → Str
joined digest global_namespace app_id user_id app_namespace key =
    global_namespace ++ (app_id ++ (user_id ++ (app_namespace ++ digest key)))

abbrev pub of_length : Str → Result Str
of_length hashed = if not (eqb (length hashed) hash_key_length) then err other else ok hashed

-- `Hashkey`.
unfoldable pub hash_key : (Str → Str) → Str → Str → Str → Str → Str → Result Str
hash_key digest global_namespace app_id user_id app_namespace key =
    if is_long app_namespace
    then err other
    else if is_empty key
    then err other
    else if not (eqb (length (fill 32 app_id)) 32)
    then err other
    else if not (eqb (length user_id) 26)
    then err other
    else if not (eqb (length global_namespace) 2) || not (begins_with_dot global_namespace)
    then err other
    else of_length
        (joined digest global_namespace (fill 32 app_id) user_id (fill 2 app_namespace) key)

-- `s[i:j]`.
abbrev pub slice : ℕ → ℕ → Str → Str
slice i j s = take (j - i) (drop i s)

pub record HashKey : Type 0 where
  pub global_namespace : Str
  pub app_id : Str
  pub user_id : Str
  pub app_namespace : Str
  pub id_hash : Str

-- `ParseHashkey`.
unfoldable pub parse_hash_key : Str → Result HashKey
parse_hash_key key =
    if not (eqb (length key) hash_key_length)
    then err other
    else ok (record {
      global_namespace = slice 0 2 key;
      app_id = trim_space (slice 2 34 key);
      user_id = slice 34 60 key;
      app_namespace = trim_space (slice 60 62 key);
      id_hash = slice 62 82 key;
    })
