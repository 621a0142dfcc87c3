-- ===== src/Store/Sessions/Keys.antt =====
-- The keys of sessions.
use mathlib.Core.Path.{subst}
use mattermost_plugin_apps.Base.{
  Str, ℕ, Bool, true, false, List, [], ◌∷◌, ◌++◌, ◌≡◌, ◌↔◌, refl, sym, arith, ok, All, eqb, ◌==◌,
  eq_iff, has_prefix, ◌||◌, Bool-cases, inl, inr,
}
use mattermost_plugin_apps.Store.Sessions.{
  split, prepend, session_key, kv_token_prefix, ids_of, parse_session_key, keys_for_app,
}

-- Whether a byte stands in a text.
unfoldable pub has_byte : ℕ → Str → Bool
has_byte x [] = false
has_byte x (c ∷ s) = eqb c x || has_byte x s

join : ℕ → List Str → Str
join x [] = []
join x (word ∷ []) = word
join x (word ∷ next ∷ words) = word ++ (x ∷ join x (next ∷ words))

join-prepend : (x c : ℕ) (words : List Str) → join x (prepend c words) ≡ c ∷ join x words
unfolding join prepend
join-prepend x c [] = refl
join-prepend x c (word ∷ []) = refl
join-prepend x c (word ∷ next ∷ words) = refl

split_given : (x : ℕ) (s : Str) → (word : Str) × (words : List Str) × (split x s ≡ word ∷ words)
unfolding split prepend
split_given x [] = ([], [], refl)
split_given x (c ∷ s) =
    let (word, words, e) = split_given x s in
    elim (Bool-cases (eqb c x)) [
      | inl h ↦ ([], split x s, rw h refl)
      | inr h ↦ (c ∷ word, words, rw (h, e) refl)
    ]

join_nil : (x : ℕ) (s : Str) → join x ([] ∷ split x s) ≡ x ∷ join x (split x s)
unfolding join
join_nil x s = let (word, words, e) = split_given x s in rw e refl

join-split : (x : ℕ) (s : Str) → join x (split x s) ≡ s
unfolding split join
join-split x [] = refl
join-split x (c ∷ s) = elim (Bool-cases (eqb c x)) [
  | inl e ↦ rw (e, join_nil x s, join-split x s) (ground arith)
  | inr e ↦ rw (e, join-prepend x c (split x s), join-split x s) refl
]

free-prepend :
    (x c : ℕ) (words : List Str)
    → eqb c x ≡ false
    → All (λ w. has_byte x w ≡ false) words
    → All (λ w. has_byte x w ≡ false) (prepend c words)
unfolding prepend has_byte
free-prepend x c [] h k = (ground arith, tt)
free-prepend x c (word ∷ words) h (k, ks) = (ground arith, ks)

split_free : (x : ℕ) (s : Str) → All (λ w. has_byte x w ≡ false) (split x s)
unfolding split has_byte
split_free x [] = (refl, tt)
split_free x (c ∷ s) = elim (Bool-cases (eqb c x)) [
  | inl e ↦ rw e (refl, split_free x s)
  | inr e ↦ rw e (free-prepend x c (split x s) e (split_free x s))
]

split_one : (x : ℕ) (s : Str) → has_byte x s ≡ false → split x s ≡ s ∷ []
unfolding split prepend has_byte
split_one x [] h = refl
split_one x (c ∷ s) h = ground (arith, split_one x s)

split-append : (x : ℕ) (s t : Str) → has_byte x s ≡ false → split x (s ++ (x ∷ t)) ≡ s ∷ split x t
unfolding split prepend has_byte
split-append x [] t h = ground arith
split-append x (c ∷ s) t h = ground (arith, split-append x s t)

ids_of_sound :
    (words : List Str) (app_id user_id : Str)
    → ids_of words ≡ ok (app_id, user_id)
    → words ≡ kv_token_prefix ∷ app_id ∷ user_id ∷ []
ids_of_sound [] app_id user_id h = cc h
ids_of_sound (a ∷ []) app_id user_id h = cc h
ids_of_sound (a ∷ b ∷ []) app_id user_id h = cc h
ids_of_sound (a ∷ b ∷ c ∷ []) app_id user_id h = ground (arith, eq_iff a kv_token_prefix)
ids_of_sound (a ∷ b ∷ c ∷ d ∷ words) app_id user_id h = cc h

parse_session_key_sound :
    (key app_id user_id : Str)
    → parse_session_key key ≡ ok (app_id, user_id)
    → (key ≡ session_key app_id user_id)
      × (has_byte b'_' app_id ≡ false)
      × (has_byte b'_' user_id ≡ false)
unfolding parse_session_key join
parse_session_key_sound key app_id user_id h =
    let words = ids_of_sound (split b'_' key) app_id user_id h in
    let (_, (free_app, (free_user, _))) =
      subst (λ ws. All (λ w. has_byte b'_' w ≡ false) ws) words (split_free b'_' key) in
    let joined = rw words at (join-split b'_' key) in (sym joined, free_app, free_user)

parse-session_key :
    (app_id user_id : Str)
    → has_byte b'_' app_id ≡ false
    → has_byte b'_' user_id ≡ false
    → parse_session_key (session_key app_id user_id) ≡ ok (app_id, user_id)
unfolding parse_session_key split prepend ◌==◌
parse-session_key app_id user_id h k =
    rw (split-append b'_' app_id user_id h, split_one b'_' user_id k) refl

-- A key is parsed as that of an app and a user exactly if it is their key and neither ID has an
-- underscore.
pub parse_session_key_iff :
    (key app_id user_id : Str)
    → (parse_session_key key ≡ ok (app_id, user_id)) ↔ (
        (key ≡ session_key app_id user_id)
        × (has_byte b'_' app_id ≡ false)
        × (has_byte b'_' user_id ≡ false))
parse_session_key_iff key app_id user_id = (
  parse_session_key_sound key app_id user_id,
  λ (e, h, k). rw e (parse-session_key app_id user_id h k),
)

has_prefix-twice : (s t u : Str) → has_prefix ((s ++ t) ++ u) s ≡ true
unfolding has_prefix
has_prefix-twice [] t u = refl
has_prefix-twice (c ∷ s) t u = ground (arith, has_prefix-twice s t u)

-- Where the keys of an app are listed, the key of any app whose ID begins with the ID of the app is
-- listed too.
pub keys_for_app-session_key :
    (app_id more user_id : Str) (keys : List Str)
    → keys_for_app app_id (session_key (app_id ++ more) user_id ∷ keys)
      ≡ session_key (app_id ++ more) user_id ∷ keys_for_app app_id keys
unfolding keys_for_app has_prefix
keys_for_app-session_key app_id more user_id keys =
    rw (has_prefix-twice app_id more (b'_' ∷ user_id)) refl
