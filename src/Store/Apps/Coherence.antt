-- ===== src/Store/Apps/Coherence.antt =====
-- When the maps in memory, the configuration and the key-value store agree.
use mattermost_plugin_apps.Base.{
  Str, false, [], ◌∷◌, ◌≡◌, refl, ok, Option, none, some, is_empty, ◌==◌, Bool-cases, inl, inr,
}
use mattermost_plugin_apps.Base.Assoc.{Assoc, lookup}
use mattermost_plugin_apps.Apps.App.{App}
use mattermost_plugin_apps.Store.Kv.{Kv, KvLaws}
use mattermost_plugin_apps.Store.Apps.{State, InstalledConfig, app_key, skip_value}

-- The configuration and the key-value store lie apart: changing one leaves the other. A stored
-- configuration is read back.
pub record ConfigLaws {S : Type 0} (kv : Kv S App) (laws : KvLaws kv) (conf : InstalledConfig S)
    : Type 0 where
  pub store_ok :
      (m : Assoc Str) (s : S)
      → (conf.store m s).0 ≡ ok tt
      → conf.installed_apps (conf.store m s).1 ≡ m
  pub store_keeps :
      (m : Assoc Str) (k : Str) (s : S) → laws.read k (conf.store m s).1 ≡ laws.read k s
  pub set_keeps :
      (k : Str) (app : App) (s : S) → conf.installed_apps (kv.set k app s).1 ≡ conf.installed_apps s
  pub delete_keeps :
      (k : Str) (s : S) → conf.installed_apps (kv.delete k s).1 ≡ conf.installed_apps s

-- Apps with different IDs have different hashes; a hash is not empty.
pub record HashLaws (hash : App → Str) : Type 0 where
  pub apart : (a b : App) → hash a ≡ hash b → a.app_id ≡ b.app_id
  pub given : (a : App) → is_empty (hash a) ≡ false

module _ {S : Type 0} (kv : Kv S App) (laws : KvLaws kv) (conf : InstalledConfig S) where
  abbrev pub recorded_at : Option Str → S → Option App
  recorded_at none s = none
  recorded_at (some sha) s = laws.read (app_key sha) s

  -- The record of an app, as the configuration and the key-value store have it.
  unfoldable pub recorded : Str → S → Option App
  recorded id s = recorded_at (lookup id (conf.installed_apps s)) s

  -- What is in memory is what is recorded, and every record stands under its hash and its app's ID.
  pub record IsCoherent (hash : App → Str) (st : State S) : Type 0 where
    pub in_memory : (id : Str) → lookup id st.maps.installed ≡ recorded id st.server
    pub hashed :
        (id sha : Str)
        → lookup id (conf.installed_apps st.server) ≡ some sha
        → (app : App) × (laws.read (app_key sha) st.server ≡ some app)
          × (app.app_id ≡ id)
          × (hash app ≡ sha)

-- Another value is not skipped.
pub lookup-skip_value :
    (prev id : Str) (m : Assoc Str)
    → ((sha : Str) → lookup id m ≡ some sha → (sha == prev) ≡ false)
    → lookup id (skip_value prev m) ≡ lookup id m
unfolding lookup skip_value
lookup-skip_value prev id [] h = refl
lookup-skip_value prev id ((j, sha) ∷ m) h = elim (Bool-cases (j == id)) [
  | inl e ↦ let kept = h sha (rw e refl) in rw (kept, e) refl
  | inr e ↦
      let rest = lookup-skip_value prev id m (λ t k. h t (rw e k)) in
      elim (Bool-cases (sha == prev)) [ inl s ↦ rw (s, e) rest | inr s ↦ rw (s, e) rest ]
]

pub app_key_eq : (a b : Str) → (app_key a == app_key b) ≡ (a == b)
unfolding ◌==◌
app_key_eq a b = refl
