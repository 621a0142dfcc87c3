-- ===== src/SessionService/Validity.antt =====
-- The sessions that apps are given are stored, and last.
use mathlib.Core.Path.{subst, subst⁻¹}
use mattermost_plugin_apps.Base.{
  Str, Bool, true, false, not, ℕ, ◌+◌, ◌<◌, ◌≡◌, refl, sym, ap, ◌∙◌, Result, ok, err, Error, other,
  Option, none, some, arith, if◌then◌else◌, is_empty, eq_refl, Bool-cases, Result-cases, inl, inr,
}
use mattermost_plugin_apps.Base.Action.{pure, raise, reads, ◌>>◌, chain_inversion}
use mattermost_plugin_apps.Apps.App.{App}
use mattermost_plugin_apps.Apps.Deploy.{same, builtin}
use mattermost_plugin_apps.Incoming.{Request, Directory, User}
use mattermost_plugin_apps.Store.Kv.{Kv, KvLaws}
use mattermost_plugin_apps.Store.Sessions
use mattermost_plugin_apps.Store.Sessions.{Session, session_key, session_of}
use mattermost_plugin_apps.SessionService.{
  SessionServer, NewSession, get_or_create, extend_if_needed, create_session, lasts, new_expiry,
  min_session_length, of_milli, is_not_found, create_for, user_of,
}

module _ {S : Type 0} (kv : Kv S Session) (laws : KvLaws kv) (server : SessionServer S)
    (d : Directory) (get_app : Str → S → Result App)
    (create_keeps_expiry : (new : NewSession) (s : S) (session : Session)
      → (server.create new s).0 ≡ ok session
      → session.expires_at ≡ new.expires_at) where
  -- The session is stored in the second state, and is valid for more than the shortest time from the
  -- first state on.
  pub record IsGood (app_id user_id : Str) (session : Session) (s s' : S) : Type 0 where
    pub stored : laws.read (session_key app_id user_id) s' ≡ some session
    pub valid : server.now s + min_session_length < of_milli session.expires_at

  new_expiry_valid :
      (s : S) → server.now s + min_session_length < of_milli (new_expiry kv server d get_app s)
  new_expiry_valid s = omega arith

  save_stored :
      (app_id user_id : Str) (session : Session) (s : S)
      → (Sessions.save kv app_id user_id session s).0 ≡ ok tt
      → laws.read (session_key app_id user_id) (Sessions.save kv app_id user_id session s).1
        ≡ some session
  unfolding Sessions.save
  save_stored app_id user_id session s h =
      let key = session_key app_id user_id in
      let (b, k, h1, e) = chain_inversion (kv.set key session) _ s tt h in
      ap (λ (p : Result (Unit {0}) × S). laws.read key p.1) e
      ∙ laws.set_ok key key session s b k
      ∙ rw (eq_refl key) refl

  get_stored :
      (app_id user_id : Str) (session : Session) (s : S)
      → Sessions.get kv app_id user_id s ≡ ok session
      → laws.read (session_key app_id user_id) s ≡ some session
  unfolding Sessions.get
  get_stored app_id user_id session s h =
      let key = session_key app_id user_id in
      elim (Result-cases (kv.get key s)) [
        | inr (x, e) ↦ let never = rw (e, Sessions.get) at h in absurd (cc never)
        | inl (o, e) ↦
            let found : session_of o ≡ ok session = rw (e, Sessions.get) at h in
            sym (laws.get_ok key s o e) ∙ of_session o found
      ]
    where
      of_session : (o : Option Session) → session_of o ≡ ok session → o ≡ some session
      of_session none k = absurd (cc k)
      of_session (some found) k = elim (Bool-cases (is_empty found.id)) [
        | inl e ↦ let never = rw e at k in absurd (cc never)
        | inr e ↦ let kept = rw e at k in cc kept
      ]

  -- Saving a session that lasts.
  save-IsGood :
      (app_id user_id : Str) (session : Session) (s t : S) (found : Session)
      → server.now s + min_session_length < of_milli session.expires_at
      → ((Sessions.save kv app_id user_id session >> pure session) t).0 ≡ ok found
      → IsGood app_id user_id found s
          ((Sessions.save kv app_id user_id session >> pure session) t).1
  save-IsGood app_id user_id session s t found v h =
      let (a, k, h1, e) = chain_inversion (Sessions.save kv app_id user_id session) _ t found h in
      let same_session : session ≡ found = cc h1 in
      subst⁻¹ (λ (p : Result Session × S). IsGood app_id user_id found s p.1) e
        (subst
          (λ (x : Session). IsGood app_id user_id x s (Sessions.save kv app_id user_id session t).1)
          same_session (record { stored = save_stored app_id user_id session t k; valid = v }))

  lasts_valid :
      (session : Session) (s : S)
      → lasts kv server d get_app session s ≡ true
      → server.now s + min_session_length < of_milli session.expires_at
  lasts_valid session s h = ground arith

  extend-IsGood :
      (app_id user_id : Str) (session found : Session) (s : S)
      → Sessions.get kv app_id user_id s ≡ ok session
      → (extend_if_needed kv server d get_app app_id user_id session s).0 ≡ ok found
      → IsGood app_id user_id found s
          (extend_if_needed kv server d get_app app_id user_id session s).1
  unfolding extend_if_needed
  extend-IsGood app_id user_id session found s held h =
      elim (Bool-cases (lasts kv server d get_app session s)) [
        | inl e ↦
            let same_session : session ≡ found = cc (rw (extend_if_needed, e) at h) in
            rw (extend_if_needed, e)
              (subst (λ (x : Session). IsGood app_id user_id x s s) same_session
                (record {
                  stored = get_stored app_id user_id session s held;
                  valid = lasts_valid session s e;
                }))
        | inr e ↦
            let expiry = new_expiry kv server d get_app s in
            let h' = rw (extend_if_needed, e) at h in
            let (a, k, h1, p) =
              chain_inversion (server.extend_expiry session.id expiry) _ s found h' in
            rw (extend_if_needed, e)
              (subst⁻¹ (λ (p : Result Session × S). IsGood app_id user_id found s p.1) p
                (save-IsGood app_id user_id (record session { expires_at = expiry }) s
                  (server.extend_expiry session.id expiry s).1 found (new_expiry_valid s) h1))
      ]

  create_for-IsGood :
      (app_id user_id : Str) (user : User) (app : App) (found : Session) (s : S)
      → (create_for kv server d get_app app_id user_id user app s).0 ≡ ok found
      → IsGood app_id user_id found s (create_for kv server d get_app app_id user_id user app s).1
  create_for-IsGood app_id user_id user app found s h =
      let new : NewSession = record {
        user_id = user_id;
        roles = server.roles user;
        expires_at = new_expiry kv server d get_app s;
        app_id = app_id;
        oauth_app_id = app.mattermost_oauth2;
      } in
      let (session, k, h1, p) = chain_inversion (server.create new) _ s found h in
      subst⁻¹ (λ (p : Result Session × S). IsGood app_id user_id found s p.1) p
        (save-IsGood app_id user_id session s (server.create new s).1 found
          (subst⁻¹ (λ (t : ℕ). server.now s + min_session_length < of_milli t)
            (create_keeps_expiry new s session k) (new_expiry_valid s))
          h1)

  create-IsGood :
      (r : Request) (app_id user_id : Str) (found : Session) (s : S)
      → (create_session kv server d get_app r app_id user_id s).0 ≡ ok found
      → IsGood app_id user_id found s (create_session kv server d get_app r app_id user_id s).1
  unfolding create_session
  create-IsGood r app_id user_id found s h =
      let (user, k1, h1, e1) =
        chain_inversion (reads (λ s. user_of kv server d get_app r user_id)) _ s found h in
      let (app, k2, h2, e2) = chain_inversion (reads (get_app app_id)) _ s found h1 in
      subst⁻¹ (λ (p : Result Session × S). IsGood app_id user_id found s p.1) (e1 ∙ e2)
        (unless_builtin (same app.deploy_type builtin) app_id user_id user app found s h2)
    where
      unless_builtin :
          (b : Bool) (app_id user_id : Str) (user : User) (app : App) (found : Session) (s : S)
          → ((if b then raise other else create_for kv server d get_app app_id user_id user app)
              s).0
            ≡ ok found
          → IsGood app_id user_id found s
              ((if b then raise other else create_for kv server d get_app app_id user_id user app)
                s).1
      unless_builtin true app_id user_id user app found s h = absurd (cc h)
      unless_builtin false app_id user_id user app found s h =
          create_for-IsGood app_id user_id user app found s h

  -- Where `GetOrCreate` gives a session, it is the one that is stored for the app and the user
  -- afterwards, and from the start of the call it is valid for more than `MinSessionLength`.
  pub get_or_create-IsGood :
      (r : Request) (user_id : Str) (found : Session) (s : S)
      → (get_or_create kv server d get_app r user_id s).0 ≡ ok found
      → IsGood r.destination user_id found s (get_or_create kv server d get_app r user_id s).1
  unfolding get_or_create
  get_or_create-IsGood r user_id found s h =
      elim (Result-cases (Sessions.get kv r.destination user_id s)) [
        | inl (session, e) ↦
            rw (get_or_create, e)
              (from_session (not (server.is_expired session s)) session e
                (rw (get_or_create, e) at h))
        | inr (x, e) ↦
            rw (get_or_create, e) (from_error x (not (is_not_found x)) (rw (get_or_create, e) at h))
      ]
    where
      from_session :
          (b : Bool) (session : Session)
          → Sessions.get kv r.destination user_id s ≡ ok session
          → (if b
              then extend_if_needed kv server d get_app r.destination user_id session s
              else create_session kv server d get_app r r.destination user_id s).0
            ≡ ok found
          → IsGood r.destination user_id found s
              (if b
                then extend_if_needed kv server d get_app r.destination user_id session s
                else create_session kv server d get_app r r.destination user_id s).1
      from_session true session e k = extend-IsGood r.destination user_id session found s e k
      from_session false session e k = create-IsGood r r.destination user_id found s k

      from_error :
          (x : Error) (b : Bool)
          → (if b
              then (err x, s)
              else create_session kv server d get_app r r.destination user_id s).0
            ≡ ok found
          → IsGood r.destination user_id found s
              (if b
                then (err x, s)
                else create_session kv server d get_app r r.destination user_id s).1
      from_error x true k = absurd (cc k)
      from_error x false k = create-IsGood r r.destination user_id found s k
