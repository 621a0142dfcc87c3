-- ===== src/Store/AppKv/Isolation.antt =====
-- Apps and users do not reach each other's data.
use mattermost_plugin_apps.Base.{
  Str, false, ◌||◌, ◌≡◌, ◌≢◌, ◌⊎◌, ◌==◌, inl, inr, refl, ◌∙◌, ap, Result, ok, err, Option, none,
  is_empty, Result-cases, Bool-cases, eq_sound,
}
use mattermost_plugin_apps.Base.Action.{Action, lift, ◌>>=◌, chain_rule}
use mattermost_plugin_apps.Incoming.{Request}
use mattermost_plugin_apps.Store.HashKeys.Distinct.{IsAppId, hash_key_owner}
use mattermost_plugin_apps.Store.Kv.{Kv, KvLaws, read-set_other, read-delete_other}
use mattermost_plugin_apps.Store.AppKv.{kv_app_prefix, key_of, set, delete}

module _ {S : Type 0} (kv : Kv S Str) (laws : KvLaws kv) (digest : Str → Str) where
  abbrev stored_at : Result Str → S → Option Str
  stored_at (err e) s = none
  stored_at (ok key) s = laws.read key s

  -- What is stored for the app and the user of a request.
  unfoldable pub stored : Request → Str → Str → S → Option Str
  stored r prefix id s = stored_at (key_of kv digest r prefix id) s

  -- Requests of two apps, or for two users.
  abbrev pub AreApart : Request → Request → Type 0
  AreApart r r' =
      IsAppId r.source_app_id
      × IsAppId r'.source_app_id
      × ((r.source_app_id ≢ r'.source_app_id) ⊎ (r.acting_user_id ≢ r'.acting_user_id))

  keys_apart :
      (r r' : Request) (prefix prefix' id id' key key' : Str)
      → AreApart r r'
      → key_of kv digest r prefix id ≡ ok key
      → key_of kv digest r' prefix' id' ≡ ok key'
      → (key == key') ≡ false
  keys_apart r r' prefix prefix' id id' key key' (app, app', differ) h h' =
      elim (Bool-cases (key == key')) [
        | inr e ↦ e
        | inl e ↦
            let (_, apps, users) =
              hash_key_owner digest kv_app_prefix kv_app_prefix r.source_app_id r'.source_app_id
                r.acting_user_id r'.acting_user_id prefix prefix' id id' key' app app'
                (h ∙ ap ok (eq_sound key key' e)) h' in
            absurd (elim differ [ inl other ↦ other apps | inr other ↦ other users ])
      ]

  -- An action on a key of one request leaves what is stored for another.
  leaves_stored :
      {A : Type 0} (f : Str → Action S A)
      → ((k j : Str) (s : S) → (k == j) ≡ false → laws.read j (f k s).1 ≡ laws.read j s)
      → (r r' : Request) (prefix prefix' id id' : Str) (s : S) → AreApart r r'
      → stored r' prefix' id' ((lift (key_of kv digest r prefix id) >>= f) s).1
        ≡ stored r' prefix' id' s
  unfolding stored
  leaves_stored f leaves r r' prefix prefix' id id' s apart =
      elim (Result-cases (key_of kv digest r' prefix' id')) [
        | inr (x, e) ↦ rw e refl
        | inl (key', e) ↦ rw e (
            chain_rule (λ t. laws.read key' t ≡ laws.read key' s)
              (lift (key_of kv digest r prefix id)) f s refl
              (λ key h.
                leaves key key' s (keys_apart r r' prefix prefix' id id' key key' apart h e)))
      ]

  -- What an app stores or deletes for a user, whether this succeeds or not, leaves what is stored for
  -- other apps, and for the other users of the app.
  pub app_kv-Isolated :
      (r r' : Request) (prefix prefix' id id' value : Str) (s : S)
      → AreApart r r'
      → (stored r' prefix' id' (set kv digest r prefix id value s).1 ≡ stored r' prefix' id' s)
        × (stored r' prefix' id' (delete kv digest r prefix id s).1 ≡ stored r' prefix' id' s)
  unfolding set delete
  app_kv-Isolated r r' prefix prefix' id id' value s apart = (
    elim (Bool-cases (is_empty r.source_app_id || is_empty r.acting_user_id)) [
      | inl e ↦ rw e refl
      | inr e ↦ rw e (
          leaves_stored (λ key. kv.set key value) (λ k j t h. read-set_other kv laws k j t h value)
            r r' prefix prefix' id id' s apart)
    ],
    leaves_stored kv.delete (λ k j t h. read-delete_other kv laws k j t h) r r' prefix prefix' id
        id' s apart,
  )
