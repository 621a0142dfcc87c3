-- ===== src/Store/Apps/Apart.antt =====
-- Records of different apps stand under different hashes.
use mattermost_plugin_apps.Base.{
  Str, false, [], ◌∷◌, ◌≡◌, refl, sym, ◌∙◌, ap, some, is_empty, ◌==◌, eq_refl, eq_sound, Bool-cases,
  Option-cases, inl, inr,
}
use mattermost_plugin_apps.Base.Assoc.{lookup}
use mattermost_plugin_apps.Apps.App.{App}
use mattermost_plugin_apps.Store.Kv.{Kv, KvLaws}
use mattermost_plugin_apps.Store.Apps.{State, InstalledConfig, or_empty}
use mattermost_plugin_apps.Store.Apps.Coherence.{HashLaws, IsCoherent}

module _ {S : Type 0} (kv : Kv S App) (laws : KvLaws kv) (conf : InstalledConfig S)
    (hash : App → Str) (hash_laws : HashLaws hash) where
  -- Two apps are not recorded under one hash.
  pub hashes_apart :
      (st : State S) (id id' sha sha' : Str)
      → IsCoherent kv laws conf hash st
      → lookup id (conf.installed_apps st.server) ≡ some sha
      → lookup id' (conf.installed_apps st.server) ≡ some sha'
      → (id == id') ≡ false
      → (sha' == sha) ≡ false
  hashes_apart st id id' sha sha' c h h' apart = elim (Bool-cases (sha' == sha)) [
    | inr e ↦ e
    | inl e ↦
        let (a, ra, ia, _) = c.hashed id sha h in
        let (b, rb, ib, _) = c.hashed id' sha' h' in
        let rb' = rw (eq_sound sha' sha e) at rb in
        let same : a ≡ b = cc (ra, rb') in
        let ids : id ≡ id' = sym ia ∙ ap (λ (x : App). x.app_id) same ∙ ib in
        cc (rw (ids, eq_refl id') at apart)
  ]

  -- Another app's record is not under the hash of this one.
  pub hash_apart :
      (st : State S) (app : App) (id sha : Str)
      → IsCoherent kv laws conf hash st
      → lookup id (conf.installed_apps st.server) ≡ some sha
      → (app.app_id == id) ≡ false
      → (hash app == sha) ≡ false
  hash_apart st app id sha c h apart = elim (Bool-cases (hash app == sha)) [
    | inr e ↦ e
    | inl e ↦
        let (a, ra, ia, ha) = c.hashed id sha h in
        let ids : app.app_id ≡ id =
          hash_laws.apart app a (eq_sound (hash app) sha e ∙ sym ha) ∙ ia in
        cc (rw (ids, eq_refl id) at apart)
  ]

  -- What is skipped is not the record of another app.
  pub prev_apart :
      (st : State S) (app : App) (id sha : Str)
      → IsCoherent kv laws conf hash st
      → (app.app_id == id) ≡ false
      → lookup id (conf.installed_apps st.server) ≡ some sha
      → (sha == or_empty (lookup app.app_id (conf.installed_apps st.server))) ≡ false
  unfolding ◌==◌
  prev_apart st app id sha c apart h =
      elim (Option-cases (lookup app.app_id (conf.installed_apps st.server))) [
        | inl e ↦
            let (a, _, _, ha) = c.hashed id sha h in
            let given : is_empty sha ≡ false = rw (← ha) (hash_laws.given a) in
            rw e (not_empty sha given)
        | inr (p, e) ↦ rw e (hashes_apart st app.app_id id p sha c e h apart)
      ]
    where
      not_empty : (s : Str) → is_empty s ≡ false → (s == []) ≡ false
      not_empty [] k = cc
      not_empty (b ∷ s) k = refl
