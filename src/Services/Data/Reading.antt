-- ===== src/Services/Data/Reading.antt =====
-- What is stored through the services is read back.
use mattermost_plugin_apps.Base.{
  Str, Bool, false, ◌||◌, ◌≡◌, ◌⊎◌, inl, inr, refl, ◌∙◌, Result, ok, err, Error, other, Option,
  none, some, is_empty, Bool-cases, eq_refl,
}
use mattermost_plugin_apps.Base.Action.{lift, chain_inversion}
use mattermost_plugin_apps.Incoming.{Request, Directory}
use mattermost_plugin_apps.Store.AppKv
use mattermost_plugin_apps.Store.AppKv.{key_of, data_of}
use mattermost_plugin_apps.Store.Kv.{Kv, KvLaws}
use mattermost_plugin_apps.Services.Data.{kv_set, kv_get, app_checks, or_braces}

module _ {S : Type 0} (kv : Kv S Str) (laws : KvLaws kv) (digest : Str → Str) (is_json : Str → Bool)
    (d : Directory) where
  set_inversion :
      (r : Request) (prefix id value : Str) (s : S) (b : Bool)
      → (AppKv.set kv digest r prefix id value s).0 ≡ ok b
      → (key : Str) × (key_of kv digest r prefix id ≡ ok key)
        × (laws.read key (AppKv.set kv digest r prefix id value s).1 ≡ some value)
  unfolding AppKv.set
  set_inversion r prefix id value s b h =
      elim (Bool-cases (is_empty r.source_app_id || is_empty r.acting_user_id)) [
        | inl e ↦ let never = rw e at h in absurd (cc never)
        | inr e ↦
            let h' = rw e at h in
            let (key, made, set, end) =
              chain_inversion (lift (key_of kv digest r prefix id)) (λ key. kv.set key value) s b
                h' in
            (key, made, rw (e, end) (laws.set_ok key key value s b set ∙ rw (eq_refl key) refl))
      ]

  read_back :
      (value : Str) (r : Result (Option Str))
      → is_empty value ≡ false
      → ((o : Option Str) → r ≡ ok o → o ≡ some value)
      → ((e : Error) → r ≡ err e → e ≡ other)
      → (or_braces (data_of r) ≡ ok value) ⊎ (or_braces (data_of r) ≡ err other)
  read_back value (err e) given stored fails = let same = fails e refl in inr (rw same refl)
  read_back value (ok none) given stored fails = absurd (cc (stored none refl))
  read_back value (ok (some t)) given stored fails =
      let same : t ≡ value = cc (stored (some t) refl) in inl (rw (same, given) refl)

  -- What an app has stored for a user it gets back, unless it cannot be read.
  pub kv_get-kv_set :
      (r : Request) (prefix id value : Str) (s : S) (b : Bool)
      → is_empty value ≡ false
      → (kv_set kv digest is_json d r prefix id value s).0 ≡ ok b
      → let s' = (kv_set kv digest is_json d r prefix id value s).1 in
        ((kv_get kv digest is_json d r prefix id s').0 ≡ ok value)
        ⊎ ((kv_get kv digest is_json d r prefix id s').0 ≡ err other)
  unfolding kv_set kv_get AppKv.get
  kv_get-kv_set r prefix id value s b given h =
      let (r', checked, set, end) = chain_inversion (lift (app_checks d r)) _ s b h in
      elim (Bool-cases (is_json value)) [
        | inr e ↦ let never = rw e at set in absurd (cc never)
        | inl e ↦
            let set' = rw e at set in
            let (key, made, stored) = set_inversion r' prefix id value s b set' in
            rw (checked, e, made)
              (read_back value (kv.get key (AppKv.set kv digest r' prefix id value s).1) given
                (λ o k. laws.get_ok key _ o k ∙ stored) (λ x k. laws.get_err key _ x k))
      ]
