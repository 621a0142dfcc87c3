-- ===== src/Proxy/Calls/Webhooks.antt =====
-- Which webhook requests are let through to an app.
use mattermost_plugin_apps.Base.{
  Str, true, false, ◌≡◌, ◌↔◌, refl, sym, ◌∙◌, Result, ok, err, is_empty, ◌==◌, eq_iff, eq_sound,
  Bool-cases, inl, inr,
}
use mattermost_plugin_apps.Apps.App.{
  App, RemoteWebhookAuthType, unset, no_auth, secret_auth, jwt_auth, unknown,
}
use mattermost_plugin_apps.Apps.Permission.{remote_webhooks, act_as_bot, contains}
use mattermost_plugin_apps.Proxy.Calls.{
  validate_webhook_authentication, check_auth_type, check_secret,
}

-- Without authentication every request is authentic; with a secret, those that give the app's, which
-- must not be empty; none is by any other type of authentication, JWT included.
abbrev pub IsAuthentic : RemoteWebhookAuthType → Str → Result Str → Type 0
IsAuthentic no_auth expected secret = Unit
IsAuthentic unset expected secret = (secret ≡ ok expected) × (is_empty expected ≡ false)
IsAuthentic secret_auth expected secret = (secret ≡ ok expected) × (is_empty expected ≡ false)
IsAuthentic jwt_auth expected secret = ⊥
IsAuthentic (unknown t) expected secret = ⊥

check_secret_iff :
    (expected : Str) (secret : Result Str)
    → (check_secret expected secret ≡ ok tt)
      ↔ ((secret ≡ ok expected) × (is_empty expected ≡ false))
check_secret_iff expected (err e) = ((λ h. absurd (cc h)), λ (h, k). absurd (cc h))
check_secret_iff expected (ok secret) = elim (Bool-cases (is_empty secret)) [
  | inl e ↦ rw e (
    (λ h. absurd (cc h)),
    λ (h, k).
        let same_secret : secret ≡ expected = cc h in absurd (cc (sym (rw same_secret at e) ∙ k)),
  )
  | inr e ↦ elim (Bool-cases (secret == expected)) [
    | inl k ↦
        let same_secret = eq_sound secret expected k in
        rw (e, k) ((λ h. (rw same_secret refl, rw (← same_secret) e)), λ h. refl)
    | inr k ↦
        rw (e, k)
          (
            (λ h. absurd (cc h)),
            λ (h, _).
                let same_secret : secret ≡ expected = cc h in
                absurd (cc (sym k ∙ (eq_iff secret expected).1 same_secret)),
          )
  ]
]

check_auth_type_iff :
    (type : RemoteWebhookAuthType) (expected : Str) (secret : Result Str)
    → (check_auth_type type expected secret ≡ ok tt) ↔ IsAuthentic type expected secret
check_auth_type_iff no_auth expected secret = ((λ h. tt), λ h. refl)
check_auth_type_iff unset expected secret = check_secret_iff expected secret
check_auth_type_iff secret_auth expected secret = check_secret_iff expected secret
check_auth_type_iff jwt_auth expected secret = ((λ h. absurd (cc h)), λ h. absurd h)
check_auth_type_iff (unknown t) expected secret = ((λ h. absurd (cc h)), λ h. absurd h)

-- A webhook request is let through exactly if the app has been granted the permissions for remote
-- webhooks and to act as a bot and the request is authentic: it needs no secret where the manifest
-- asks for no authentication; where it asks for a secret, or for nothing, the request must give the
-- app's secret, which must not be empty; with any other type none is let through.
pub validate_webhook_authentication_iff :
    (app : App) (secret : Result Str)
    → (validate_webhook_authentication app secret ≡ ok tt) ↔ (
        (contains app.granted_permissions remote_webhooks ≡ true)
        × (contains app.granted_permissions act_as_bot ≡ true)
        × IsAuthentic app.remote_webhook_auth_type app.webhook_secret secret)
unfolding validate_webhook_authentication
validate_webhook_authentication_iff app secret =
    elim (Bool-cases (contains app.granted_permissions remote_webhooks)) [
      | inr e ↦
          rw (validate_webhook_authentication, e) ((λ h. absurd (cc h)), λ (h, _, _). absurd (cc h))
      | inl e ↦ elim (Bool-cases (contains app.granted_permissions act_as_bot)) [
        | inr k ↦
            rw (validate_webhook_authentication, e, k)
              ((λ h. absurd (cc h)), λ (_, h, _). absurd (cc h))
        | inl k ↦
            let authentic =
              check_auth_type_iff app.remote_webhook_auth_type app.webhook_secret secret in
            rw (validate_webhook_authentication, e, k)
              ((λ h. (refl, refl, authentic.0 h)), λ (_, _, h). authentic.1 h)
      ]
    ]
