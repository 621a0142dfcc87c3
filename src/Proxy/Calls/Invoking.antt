-- ===== src/Proxy/Calls/Invoking.antt =====
-- Which calls of users reach an app.
use mathlib.Core.Path.{subst}
use mattermost_plugin_apps.Base.{
  Str, bytes, true, false, ◌||◌, ℕ, [], ◌∷◌, ◌≡◌, ◌≢◌, ◌⊎◌, refl, sym, ◌∙◌, ok, err, Error, Option,
  none, some, ◌==◌, eqb, is_empty, has_prefix, inl, inr, Bool-cases, Result-cases, arith, eq_iff,
  eq_sound, ap, invalid,
}
use mattermost_plugin_apps.Apps.App.{App}
use mattermost_plugin_apps.Apps.Context.{CallRequest}
use mattermost_plugin_apps.Incoming.{Request, Directory, require_acting_user, with_destination}
use mattermost_plugin_apps.Utils.{clean_path}
use mattermost_plugin_apps.Proxy.Lifecycle.{
  AppStore, Effects, Response, error_type, get_installed_app,
}
use mattermost_plugin_apps.Proxy.Calls.{
  invoke_call, Outcome, panics, responds, with_path, call_at, invoke_from, invoke_on, first_byte,
  check_for_forbidden_path, checked_path,
}
use mattermost_plugin_apps.Proxy.Calls.Paths.{IsOpen, check_for_forbidden_path_iff}

no_bytes : (p : Str) → first_byte p ≡ none → p ≡ []
no_bytes [] h = refl
no_bytes (c ∷ p) h = absurd (cc h)

same_byte : (c : ℕ) → eqb c b'/' ≡ true → c ≡ b'/'
same_byte c h = ground arith

not_slash : (c : ℕ) → eqb c b'/' ≡ false → c ≢ b'/'
not_slash c h = ground arith

module _ {S X V : Type 0} (store : AppStore S) (effects : Effects S) (d : Directory)
    (clean : Str → Str) (call_app : Request → App → CallRequest X V → S → Response × S) where
  -- What a request must have for its call to reach an app: an acting user, an app at its destination
  -- that may be reached and is the one that the context names, and a path that begins with a slash,
  -- stays in its directory when it is cleaned, and is then open to users.
  pub record IsCallable (r : Request) (creq : CallRequest X V) (s : S) (app : App) : Type 0 where
    pub user : is_empty r.acting_user_id ≡ false
    pub destination : get_installed_app store effects d r.destination true s ≡ ok app
    pub named : creq.context.user_agent_context.app_id ≡ app.app_id
    pub slash : first_byte creq.call.path ≡ some b'/'
    pub inside :
        (clean creq.call.path == bytes "." || has_prefix (clean creq.call.path) (bytes "../"))
        ≡ false
    pub is_open : IsOpen app (clean creq.call.path)

  abbrev pub IsRefusal : Str → Outcome → Type 0
  IsRefusal path panics = path ≡ []
  IsRefusal path (responds app response) = response.type ≡ error_type

  abbrev pub called : Request → CallRequest X V → S → App → Outcome × S
  called r creq s app =
      let (response, s') =
        call_app (with_destination r app.app_id) app
          (with_path store effects d clean call_app (clean creq.call.path) creq) s in
      (responds (some app) response, s')

  -- The call is made if it may be; if not, nothing is called.
  abbrev pub Verdict : Request → CallRequest X V → S → Outcome × S → Type 0
  Verdict r creq s p =
      (((app : App) × IsCallable r creq s app × (p ≡ called r creq s app)))
      ⊎ (((app : App) → ¬ IsCallable r creq s app) × (p.1 ≡ s) × IsRefusal creq.call.path p.0)

  abbrev IsAllowed : App → Str → Type 0
  IsAllowed app p =
      ((clean p == bytes "." || has_prefix (clean p) (bytes "../")) ≡ false) × IsOpen app (clean p)

  given_path : (p : Str) (c : ℕ) → first_byte p ≡ some c → is_empty p ≡ false
  given_path [] c h = absurd (cc h)
  given_path (b ∷ p) c h = refl

  -- The path is checked as it is meant to be.
  checked_path-cases :
      (app : App) (p : Str)
      → is_empty p ≡ false
      → (IsAllowed app p × (checked_path store effects d clean call_app app p ≡ ok (clean p)))
        ⊎ ((¬ IsAllowed app p)
            × ((e : Error) × (checked_path store effects d clean call_app app p ≡ err e)))
  unfolding clean_path
  checked_path-cases app p h =
      elim (Bool-cases (clean p == bytes "." || has_prefix (clean p) (bytes "../"))) [
        | inl k ↦ inr ((λ (i, o). absurd (cc (sym i ∙ k))), (invalid, rw (clean_path, h, k) refl))
        | inr k ↦ elim (Result-cases (check_for_forbidden_path app (clean p))) [
          | inl (t, e) ↦
              inl (
                (k, (check_for_forbidden_path_iff app (clean p)).0 e),
                rw (clean_path, h, k, e) refl,
              )
          | inr (x, e) ↦ inr (
            (λ (i, o). absurd (cc (sym e ∙ (check_for_forbidden_path_iff app (clean p)).1 o))),
            (x, rw (clean_path, h, k, e) refl),
          )
        ]
      ]

  module _ (r : Request) (creq : CallRequest X V) (s : S) (app : App)
      (user : is_empty r.acting_user_id ≡ false)
      (destination : get_installed_app store effects d r.destination true s ≡ ok app) where
    only_app : (other_app : App) → IsCallable r creq s other_app → other_app ≡ app
    only_app other_app c = cc (sym destination ∙ c.destination)

    path-Verdict :
        creq.context.user_agent_context.app_id ≡ app.app_id
        → first_byte creq.call.path ≡ some b'/'
        → Verdict r creq s (
            call_at store effects d clean call_app r app creq
              (checked_path store effects d clean call_app app creq.call.path)
              s)
    path-Verdict named slash =
        elim (checked_path-cases app creq.call.path (given_path creq.call.path b'/' slash)) [
          | inl ((i, o), e) ↦ inl (
            app,
            record {
              user = user;
              destination = destination;
              named = named;
              slash = slash;
              inside = i;
              is_open = o;
            },
            rw e refl,
          )
          | inr (no_path, (x, e)) ↦ inr (
            (λ other_app c. no_path (
                subst (λ (a : App). IsAllowed a creq.call.path) (only_app other_app c)
                  (c.inside, c.is_open))),
            rw e refl,
            rw e refl,
          )
        ]

    from_Verdict :
        (p : Option ℕ)
        → first_byte creq.call.path ≡ p
        → creq.context.user_agent_context.app_id ≡ app.app_id
        → Verdict r creq s (invoke_from store effects d clean call_app r app creq p s)
    from_Verdict none e named =
        inr ((λ other_app c. absurd (cc (sym e ∙ c.slash))), refl, no_bytes creq.call.path e)
    from_Verdict (some c) e named = elim (Bool-cases (eqb c b'/')) [
      | inl k ↦ rw k (path-Verdict named (rw (← same_byte c k) e))
      | inr k ↦
          inr ((λ other_app o. absurd (not_slash c k (cc (sym e ∙ o.slash)))), rw k refl, rw k refl)
    ]

    on_Verdict : Verdict r creq s (invoke_on store effects d clean call_app r creq (ok app) s)
    on_Verdict = elim (Bool-cases (creq.context.user_agent_context.app_id == app.app_id)) [
      | inl e ↦ rw e (from_Verdict (first_byte creq.call.path) refl (eq_sound _ _ e))
      | inr e ↦ inr (
        (λ other_app c.
            let k = c.named ∙ ap (λ (a : App). a.app_id) (only_app other_app c) in
            absurd (cc (sym e ∙ (eq_iff _ _).1 k))),
        rw e refl,
        rw e refl,
      )
    ]

  -- `InvokeCall` calls the app, at the cleaned path, exactly if the request has an acting user, its
  -- destination is an app that may be reached and that the context names, and its path begins with a
  -- slash and, cleaned, stays in its directory and is that of no call which only the proxy makes. In
  -- all other cases nothing is called, and the response is an error; or the call has no path, and
  -- reading the first byte of the path panics.
  pub invoke_call_lem :
      (r : Request) (creq : CallRequest X V) (s : S)
      → Verdict r creq s (invoke_call store effects d clean call_app r creq s)
  unfolding invoke_call require_acting_user
  invoke_call_lem r creq s = elim (Bool-cases (is_empty r.acting_user_id)) [
    | inl e ↦ inr (
      (λ app c. absurd (cc (sym e ∙ c.user))),
      rw (invoke_call, require_acting_user, e) refl,
      rw (invoke_call, require_acting_user, e) refl,
    )
    | inr e ↦ elim (Result-cases (get_installed_app store effects d r.destination true s)) [
      | inr (x, k) ↦ inr (
        (λ app c. absurd (cc (sym k ∙ c.destination))),
        rw (invoke_call, require_acting_user, e, k) refl,
        rw (invoke_call, require_acting_user, e, k) refl,
      )
      | inl (app, k) ↦ rw (invoke_call, require_acting_user, e, k) (on_Verdict r creq s app e k)
    ]
  ]
