-- ===== src/Store/Sessions/Reading.antt =====
-- Reading the sessions that are saved.
use mattermost_plugin_apps.Base.{
  Str, false, ◌≡◌, refl, ◌∙◌, ok, err, other, some, is_empty, Result-cases, inl, inr, eq_refl, ◌⊎◌,
}
use mattermost_plugin_apps.Store.Kv.{Kv, KvLaws}
use mattermost_plugin_apps.Store.Sessions.{Session, session_key, get, save}

-- After a session with an ID has been saved, reading it gives that session, or fails with an error
-- of the server: it is not missing, and no other session is read.
pub get-save :
    {S : Type 0} (kv : Kv S Session) (laws : KvLaws kv) (app_id user_id : Str) (session : Session)
    (s : S)
    → is_empty session.id ≡ false
    → (save kv app_id user_id session s).0 ≡ ok tt
    → (get kv app_id user_id (save kv app_id user_id session s).1 ≡ ok session)
      ⊎ (get kv app_id user_id (save kv app_id user_id session s).1 ≡ err other)
unfolding get save
get-save kv laws app_id user_id session s given saved =
    let key = session_key app_id user_id in
    elim (Result-cases (kv.set key session s).0) [
      | inr (x, e) ↦ cc (rw (e, save) at saved)
      | inl (b, e) ↦
          let after = (kv.set key session s).1 in
          let same : (save kv app_id user_id session s).1 ≡ after = rw (e, save) refl in
          rw same (elim (Result-cases (kv.get key after)) [
            | inr (x, k) ↦ let plain = laws.get_err key after x k in inr (rw (k, plain, get) refl)
            | inl (o, k) ↦
                let held : o ≡ some session =
                  laws.get_ok key after o k
                  ∙ laws.set_ok key key session s b e
                  ∙ rw (eq_refl key) refl in
                inl (rw (k, held, given, get) refl)
          ])
    ]
