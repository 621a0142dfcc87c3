-- ===== src/Services/Data/Tests.antt =====
-- Data of two users of one app in a key-value store in memory.
use mattermost_plugin_apps.Base.{
  Str, bytes, Bool, true, false, ◌≡◌, ◌⊎◌, inr, refl, sym, ap, ◌∙◌, eq_refl, ok, err, Error, other,
  some, [], ◌∷◌, take, ◌==◌,
}
use mattermost_plugin_apps.Base.Trimming.{is_visible}
use mattermost_plugin_apps.Base.Assoc.{lookup, insert, remove}
use mattermost_plugin_apps.Incoming.{Request, require_acting_user, require_source_app}
use mattermost_plugin_apps.Proxy.Lifecycle.Tests.{admin, request}
use mattermost_plugin_apps.Store.AppKv
use mattermost_plugin_apps.Store.AppKv.Isolation.{stored, AreApart, app_kv-Isolated}
use mattermost_plugin_apps.Store.HashKeys.{fill, hash_key, parse_hash_key}
use mattermost_plugin_apps.Store.HashKeys.RoundTrip.{parse_hash_key-hash_key}
use mattermost_plugin_apps.Store.Kv.Memory.{Memory, memory, memory_laws}
use mattermost_plugin_apps.Store.OAuth2.{
  create_state, validate_state_once, split_at_dots, state_key,
}
use mattermost_plugin_apps.Store.OAuth2.Once.{validate_state_once-Once}
use mattermost_plugin_apps.Store.OAuth2.Accepted.{validate_state_once-create_state, has_no_dot}
use mattermost_plugin_apps.Services.Data.{kv_set, kv_get}
use mattermost_plugin_apps.Services.Data.Reading.{kv_get-kv_set}

abbrev digest : Str → Str
digest key = take 20 (fill 20 key)

abbrev first_user : Str
first_user = bytes "abcdefghijklmnopqrstuvwxyz"

abbrev second_user : Str
second_user = bytes "zyxwvutsrqponmlkjihgfedcba"

abbrev of_user : Str → Request
of_user user_id = record request { acting_user_id = user_id; source_app_id = bytes "app1" }

abbrev empty : Memory Str
empty = (false, [])

abbrev key : Str
key = bytes ".kapp1                            abcdefghijklmnopqrstuvwxyzp key                 "

made : hash_key digest (bytes ".k") (bytes "app1") first_user (bytes "p") (bytes "key") ≡ ok key
unfolding hash_key fill
made = refl

visible : (is_visible (bytes "app1") ≡ true) × (is_visible (bytes "p") ≡ true)
unfolding is_visible
visible = (refl, refl)

parse_hash_key-hash_key_example :
    parse_hash_key key
    ≡ ok (record {
      global_namespace = bytes ".k";
      app_id = bytes "app1";
      user_id = first_user;
      app_namespace = bytes "p";
      id_hash = digest (bytes "key");
    })
parse_hash_key-hash_key_example =
    parse_hash_key-hash_key digest (bytes ".k") (bytes "app1") first_user (bytes "p") (bytes "key")
      key visible.0 refl visible.1 made

users_differ : (first_user == second_user) ≡ false
unfolding ◌==◌
users_differ = refl

apart : AreApart memory memory_laws digest (of_user first_user) (of_user second_user)
apart = (
  record { visible = visible.0; given = refl },
  record { visible = visible.0; given = refl },
  inr (λ h.
      let never : true ≡ false =
        sym (eq_refl first_user) ∙ ap (λ u. first_user == u) h ∙ users_differ in
      absurd (cc never)),
)

app_kv-Isolated_example :
    (stored memory memory_laws digest
        (of_user second_user)
        []
        (bytes "key")
        (AppKv.set memory digest (of_user first_user) [] (bytes "key") (bytes "1") empty).1
      ≡ stored memory memory_laws digest (of_user second_user) [] (bytes "key") empty)
    × (stored memory memory_laws digest
          (of_user second_user)
          []
          (bytes "key")
          (AppKv.delete memory digest (of_user first_user) [] (bytes "key") empty).1
        ≡ stored memory memory_laws digest (of_user second_user) [] (bytes "key") empty)
app_kv-Isolated_example =
    app_kv-Isolated memory memory_laws digest (of_user first_user) (of_user second_user) [] []
      (bytes "key") (bytes "key") (bytes "1") empty apart

abbrev any_json : Str → Bool
any_json value = true

abbrev with_one : Memory Str
with_one =
    (kv_set memory digest any_json admin (of_user first_user) [] (bytes "key") (bytes "1") empty).1

set :
    (kv_set memory digest any_json admin (of_user first_user) [] (bytes "key") (bytes "1") empty).0
    ≡ ok true
unfolding kv_set AppKv.set hash_key fill require_acting_user require_source_app
set = refl

kv_get-kv_set_example :
    ((kv_get memory digest any_json admin (of_user first_user) [] (bytes "key") with_one).0
      ≡ ok (bytes "1"))
    ⊎ ((kv_get memory digest any_json admin (of_user first_user) [] (bytes "key") with_one).0
        ≡ err other)
kv_get-kv_set_example =
    kv_get-kv_set memory memory_laws digest any_json admin (of_user first_user) [] (bytes "key")
      (bytes "1") empty true refl set

abbrev with_state : Memory Str
with_state = (create_state memory (bytes "r") first_user empty).1

abbrev state : Str
state = bytes "r.abcdefghijklmnopqrstuvwxyz"

created : (create_state memory (bytes "r") first_user empty).0 ≡ ok state
unfolding create_state
created = refl

no_dots : (has_no_dot (bytes "r") ≡ true) × (has_no_dot first_user ≡ true)
unfolding has_no_dot
no_dots = (refl, refl)

validate_state_once-create_state_example :
    ((validate_state_once memory state first_user with_state).0 ≡ ok tt)
    ⊎ ((validate_state_once memory state first_user with_state).0 ≡ err other)
validate_state_once-create_state_example =
    validate_state_once-create_state memory memory_laws (bytes "r") first_user state empty no_dots.0
      no_dots.1 created

accepted : (validate_state_once memory state first_user with_state).0 ≡ ok tt
unfolding validate_state_once create_state split_at_dots insert lookup remove ◌==◌
accepted = refl

validate_state_once-Once_example :
    ((random : Str) × (split_at_dots state ≡ random ∷ first_user ∷ []))
    × (memory_laws.read (state_key state) with_state ≡ some state)
    × (((e : Error) × ((memory.delete (state_key state) with_state).0 ≡ err e))
        ⊎ ((other_id : Str)
            → (e : Error) × ((validate_state_once memory state other_id
                  (validate_state_once memory state first_user with_state).1).0
                ≡ err e)))
validate_state_once-Once_example =
    validate_state_once-Once memory memory_laws state first_user with_state accepted
