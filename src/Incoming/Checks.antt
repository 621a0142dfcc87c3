-- ===== src/Incoming/Checks.antt =====
-- What the checks on a request guarantee.
use mattermost_plugin_apps.Base.{
  Str, ok, ◌≡◌, ◌⊎◌, refl, true, false, ◌&&◌, ◌||◌, is_empty, arith, succeeds, Result-cases,
  Bool-cases, inl, inr, ◌>>◌,
}
use mattermost_plugin_apps.Incoming.{
  Request, Directory, require_acting_user, require_not_bot, require_bot, get_acting_user,
  require_source_app, with_session_app,
}

-- No request passes both the check for a bot and the check for no bot; it passes one of them
-- exactly if it names an acting user who can be read.
pub bot_or_not :
    (d : Directory) (r : Request)
    → ((succeeds (require_bot d r) && succeeds (require_not_bot d r)) ≡ false)
      × ((succeeds (require_bot d r) || succeeds (require_not_bot d r))
          ≡ succeeds (require_acting_user r >> get_acting_user d r))
unfolding require_bot require_not_bot
bot_or_not d r = elim (Result-cases (require_acting_user r)) [
  | inr (x, e) ↦ rw e (refl, refl)
  | inl (t, e) ↦ elim (Result-cases (get_acting_user d r)) [
    | inr (x, k) ↦ rw (e, k) (refl, refl)
    | inl (u, k) ↦ rw (e, k) (ground arith)
  ]
]

-- A request that passes the check for a source app is unchanged if it names an app; if not, it now
-- names the app of its session, which names one.
pub require_source_app_lem :
    (d : Directory) (r r' : Request)
    → require_source_app d r ≡ ok r'
    → ((is_empty r.source_app_id ≡ false) × (r' ≡ r))
      ⊎ ((is_empty r.source_app_id ≡ true)
          × (app : Str) × (d.session_app_id r.session_id ≡ ok app)
          × (is_empty app ≡ false)
          × (r' ≡ record r { source_app_id = app }))
unfolding require_source_app with_session_app
require_source_app_lem d r r' h = elim (Bool-cases (is_empty r.source_app_id)) [
  | inr e ↦ inl (e, ground (arith, rw (e, require_source_app) at h))
  | inl e ↦ elim (Bool-cases (is_empty r.session_id)) [
    | inl s ↦ cc (rw (e, s, require_source_app) at h)
    | inr s ↦ elim (Result-cases (d.session_app_id r.session_id)) [
      | inr (x, k) ↦ cc (rw (e, s, k, require_source_app) at h)
      | inl (app, k) ↦ elim (Bool-cases (is_empty app)) [
        | inl a ↦ cc (rw (e, s, k, a, require_source_app) at h)
        | inr a ↦ inr (e, app, k, a, ground (arith, rw (e, s, k, a, require_source_app) at h))
      ]
    ]
  ]
]
