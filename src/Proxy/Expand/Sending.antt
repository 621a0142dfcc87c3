-- ===== src/Proxy/Expand/Sending.antt =====
-- What an expanded context that is sent to an app may hold (server/proxy/expand.go).
use mathlib.Core.Path.{subst⁻¹}
use mattermost_plugin_apps.Base.{◌≡◌, refl, ap, ◌∙◌, ok, Option, is_empty, inl, inr, Bool-cases}
use mattermost_plugin_apps.Base.Action.{Action, ◌>>◌, chain_inversion}
use mattermost_plugin_apps.Apps.App.{App}
use mattermost_plugin_apps.Apps.Call.{Expand}
use mattermost_plugin_apps.Apps.Context.{Context}
use mattermost_plugin_apps.Apps.Entities.{Sanitizers}
use mattermost_plugin_apps.Incoming.{Request, Directory}
use mattermost_plugin_apps.Proxy.Expand.{ExpandedContext, Services, Getter, Expander}
use mattermost_plugin_apps.Proxy.Expand.Whole.{
  run_steps, steps_of, given_expand, expand, expand_context, expand_bot_token, start, checked,
  cleaned,
}
use mattermost_plugin_apps.Proxy.Expand.Permitted.{IsSound, IsGetterIf, KeepsSound, IsPermitted}
use mattermost_plugin_apps.Proxy.Expand.Consistency.{consistency_check, all_of}
use mattermost_plugin_apps.Proxy.Expand.Running.{
  steps_of-ArePermittedSteps, run_steps-KeepsSound, expand_bot_token-KeepsSound, start-Sound,
}

module _ {S : Type 0} (services : Services S) (clean : Sanitizers) (d : Directory) (app : App)
    (r : Request) where
  abbrev asked_steps : Option Expand → Action (Expander S) (Unit {0})
  asked_steps clause =
      run_steps services clean d app r (steps_of services clean d app r (given_expand clause))

  asked_steps-KeepsSound :
      (clause : Option Expand) (special : Option (Getter S))
      → KeepsSound services clean d app r (given_expand clause) special (asked_steps clause)
  asked_steps-KeepsSound clause special =
      run_steps-KeepsSound services clean d app r (given_expand clause) special _
        (steps_of-ArePermittedSteps services clean d app r (given_expand clause) special)

  -- What `expand` gives is what the steps have written, with the context of the user agent cleaned.
  expand_inversion :
      (clause : Option Expand) (e : Expander S) (sent : Context ExpandedContext)
      → (expand services clean d app r clause e).0 ≡ ok sent
      → (all_of (
            consistency_check r.acting_user_id
              (asked_steps clause e).1.context.user_agent_context
              (asked_steps clause e).1.context.expanded)
          ≡ ok tt)
        × (sent ≡ record (asked_steps clause e).1.context {
          user_agent_context = cleaned (asked_steps clause e).1.context.user_agent_context;
        })
        × ((expand services clean d app r clause e).1 ≡ (asked_steps clause e).1)
  unfolding expand
  expand_inversion clause e sent h =
      let (t, j, k, same) = chain_inversion (asked_steps clause) _ e sent h in
      let (t', j', k', same') =
        chain_inversion (checked services clean d app r) _ (asked_steps clause e).1 sent k in
      (j', cc k', ap (λ p. p.1) (same ∙ same'))

  abbrev IsPermittedFor :
      Option Expand → Option (Getter S) → Context ExpandedContext → Expander S → Type 0
  IsPermittedFor clause special sent e =
      IsPermitted services clean d app r (given_expand clause) special sent.expanded
      × (cleaned sent.user_agent_context ≡ sent.user_agent_context)
      × IsGetterIf services clean d app r (given_expand clause) special e.getter

  sound-IsPermittedFor :
      (clause : Option Expand) (special : Option (Getter S)) (sent : Context ExpandedContext)
      (e e' : Expander S)
      → sent ≡ record e.context { user_agent_context = cleaned e.context.user_agent_context }
      → e' ≡ e
      → IsSound services clean d app r (given_expand clause) special e
      → IsPermittedFor clause special sent e'
  sound-IsPermittedFor clause special sent e e' given same (permitted, user, bot, getter) =
      subst⁻¹ (λ (p : Context ExpandedContext × Expander S). IsPermittedFor clause special p.0 p.1)
        (λ i. (given i, same i)) (permitted, refl, getter)

  given_context-IsPermitted :
      (asked : Context ExpandedContext) (clause : Option Expand) (special : Option (Getter S))
      (s : S)
      → (sent : Context ExpandedContext)
      → let m = expand_bot_token services clean d app r >> expand services clean d app r clause in
        (m (start services clean d app r asked special s)).0 ≡ ok sent
        → IsPermittedFor clause special sent (m (start services clean d app r asked special s)).1
  given_context-IsPermitted asked clause special s sent h =
      let e = start services clean d app r asked special s in
      let (t, j, k, same) = chain_inversion (expand_bot_token services clean d app r) _ e sent h in
      let (consistent, given, same') =
        expand_inversion clause (expand_bot_token services clean d app r e).1 sent k in
      sound-IsPermittedFor clause special sent _ _ given (ap (λ p. p.1) same ∙ same') (
        asked_steps-KeepsSound clause special _ (
          expand_bot_token-KeepsSound services clean d app r (given_expand clause) special e
            (start-Sound services clean d app r (given_expand clause) special asked s)))

  -- A context that is sent to an app has a token of the acting user only if the app may act as the
  -- user and the call asks for the token, and then it is the token that the session service gives
  -- for the acting user; a token of the bot only if the app may act as the bot; none of the secrets
  -- of the app, but for the webhook's, and that only for a system administrator or a plugin; data
  -- of OAuth2 only if an enabled app at the destination may use remote OAuth2. Of the context of
  -- the user agent it has the name of the user agent and the tracking flag alone. Each user,
  -- channel, team, membership and post in it is what a getter gave, stripped to some level, where a
  -- channel or a team may have IDs alone, and the acting user was asked for by the ID in the
  -- request; and this getter, as the one that is left in the end, is that of the notification, or
  -- the direct one for a builtin app at the destination, or one with the token of the acting user
  -- or of the bot where the app at the destination may act as the one or the other.
  pub expand_context-IsPermitted :
      (asked : Context ExpandedContext) (clause : Option Expand) (special : Option (Getter S))
      (s : S)
      → (sent : Context ExpandedContext)
      → (expand_context services clean d app r asked clause special s).0 ≡ ok sent
      → IsPermitted services clean d app r (given_expand clause) special sent.expanded
        × (cleaned sent.user_agent_context ≡ sent.user_agent_context)
        × IsGetterIf services clean d app r
            (given_expand clause)
            special
            (expand_context services clean d app r asked clause special s).1.getter
  unfolding expand_context
  expand_context-IsPermitted asked clause special s sent h =
      elim (Bool-cases (is_empty r.destination)) [
        | inl k ↦ let never = rw k at h in absurd (cc never)
        | inr k ↦
            let h' = rw k at h in rw k (given_context-IsPermitted asked clause special s sent h')
      ]
