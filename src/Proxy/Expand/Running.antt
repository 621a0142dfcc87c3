-- ===== src/Proxy/Expand/Running.antt =====
-- The steps in turn keep to what is permitted (server/proxy/expand.go).
use mattermost_plugin_apps.Base.{
  Str, Bool, true, false, not, ◌&&◌, ◌≡◌, refl, List, [], ◌∷◌, Result, ok, err, Option, none, some,
  is_empty, inl, inr, both_true, true_if_not,
}
use mattermost_plugin_apps.Base.Action.{Action, pure, lift, chain_rule}
use mattermost_plugin_apps.Apps.App.{App}
use mattermost_plugin_apps.Apps.Call.{Expand}
use mattermost_plugin_apps.Apps.Context.{Context}
use mattermost_plugin_apps.Apps.Entities.{Sanitizers}
use mattermost_plugin_apps.Apps.ExpandLevel
use mattermost_plugin_apps.Apps.ExpandLevel.{ExpandLevel}
use mattermost_plugin_apps.Apps.Permission.{act_as_bot, contains}
use mattermost_plugin_apps.Incoming.{Request, Directory}
use mattermost_plugin_apps.Proxy.Expand.{
  ExpandedContext, Services, Getter, Expander, ensure_getter, get_bot_access_token,
}
use mattermost_plugin_apps.Proxy.Expand.Whole.{
  Step, is_expandable, run_step, run_steps, run_at, unless_required, steps_of, expand_bot_token,
  start,
}
use mattermost_plugin_apps.Proxy.Expand.Permitted.{
  IsSound, IsGetterIf, if-KeepsSound, ensure_getter-KeepsSound, get_bot_access_token-GivesToken,
}
use mattermost_plugin_apps.Proxy.Expand.Keeping.{
  Keeps, written-Sound, expand_user-KeepsSound, expand_post-KeepsSound,
  expand_channel_member-KeepsSound, expand_team_member-KeepsSound, expand_channel-KeepsSound,
  expand_team-KeepsSound, expand_locale-KeepsSound, expand_app-KeepsSound,
  expand_acting_user_access_token-KeepsSound,
}
use mattermost_plugin_apps.Proxy.Expand.Remote.{
  expand_oauth2_app-KeepsSound, expand_oauth2_user-KeepsSound,
}

module _ {S : Type 0} (services : Services S) (clean : Sanitizers) (d : Directory) (app : App)
    (r : Request) (clause : Expand) (special : Option (Getter S)) where
  abbrev Sound : Expander S → Type 0
  Sound = IsSound services clean d app r clause special

  abbrev KeepsAll : {A : Type 0} → Action (Expander S) A → Type 0
  KeepsAll = Keeps services clean d app r clause special

  unless_required-Sound :
      (required : Bool) (p : Result (Unit {0}) × Expander S)
      → Sound p.1
      → Sound (unless_required services clean d app r required p).1
  unless_required-Sound required (ok t, e) sound = sound
  unless_required-Sound true (err x, e) sound = sound
  unless_required-Sound false (err x, e) sound = sound

  -- A step keeps to what is permitted at the levels at which it runs.
  abbrev IsPermittedStep : Step S → Type 0
  IsPermittedStep step =
      (required : Bool) (level : ExpandLevel)
      → ExpandLevel.parse step.requested_level ≡ ok (required, level)
      → is_expandable level step.expandable_as ≡ true
      → KeepsAll (step.f level)

  run_at-KeepsSound :
      (step : Step S) (required : Bool) (level : ExpandLevel)
      → (is_expandable level step.expandable_as ≡ true → KeepsAll (step.f level))
      → KeepsAll (run_at services clean d app r step (required, level))
  run_at-KeepsSound step required level keeps =
      if-KeepsSound services clean d app r clause special
        (not (is_expandable level step.expandable_as)) (pure tt) _ (λ k e sound. sound)
        (λ k e sound.
          chain_rule Sound (ensure_getter services clean d app r) _ e
            (ensure_getter-KeepsSound services clean d app r clause special e sound)
            (λ t h. unless_required-Sound required _ (
              keeps (true_if_not _ k) (ensure_getter services clean d app r e).1
                (ensure_getter-KeepsSound services clean d app r clause special e sound))))

  run_step-KeepsSound :
      (step : Step S) → IsPermittedStep step → KeepsAll (run_step services clean d app r step)
  unfolding run_step
  run_step-KeepsSound step allowed e sound =
      chain_rule Sound (lift (ExpandLevel.parse step.requested_level)) _ e sound (λ parsed h.
        run_at-KeepsSound step parsed.0 parsed.1 (λ k. allowed parsed.0 parsed.1 h k) e sound)

  abbrev ArePermittedSteps : List (Step S) → Type 0
  ArePermittedSteps [] = Unit
  ArePermittedSteps (step ∷ steps) = IsPermittedStep step × ArePermittedSteps steps

  pub run_steps-KeepsSound :
      (steps : List (Step S))
      → ArePermittedSteps steps
      → KeepsAll (run_steps services clean d app r steps)
  unfolding run_steps
  run_steps-KeepsSound [] allowed e sound = sound
  run_steps-KeepsSound (step ∷ steps) (first, rest) e sound =
      chain_rule Sound (run_step services clean d app r step) _ e
        (run_step-KeepsSound step first e sound)
        (λ t h.
          run_steps-KeepsSound steps rest (run_step services clean d app r step e).1
            (run_step-KeepsSound step first e sound))

  only_all :
      (raw : Str) (required : Bool) (level : ExpandLevel)
      → ExpandLevel.parse raw ≡ ok (required, level)
      → is_expandable level (ExpandLevel.all ∷ []) ≡ true
      → (required : Bool) × (ExpandLevel.parse raw ≡ ok (required, ExpandLevel.all))
  only_all raw required ExpandLevel.all h k = (required, h)
  only_all raw required ExpandLevel.none h k = absurd (cc k)
  only_all raw required ExpandLevel.id h k = absurd (cc k)
  only_all raw required ExpandLevel.summary h k = absurd (cc k)

  pub steps_of-ArePermittedSteps : ArePermittedSteps (steps_of services clean d app r clause)
  steps_of-ArePermittedSteps = (
    λ required level h k.
        expand_acting_user_access_token-KeepsSound services clean d app r clause special level
          (only_all _ required level h k),
    (
      λ required level h k.
          expand_user-KeepsSound services clean d app r clause special
            (λ u x. record x { acting_user = u }) r.acting_user_id
            (λ u is_read x (permitted, (a, m, c, cm, t, tm, q, root)).
              (permitted, (is_read, m, c, cm, t, tm, q, root)))
            level,
      (
        λ required level h k. expand_app-KeepsSound services clean d app r clause special level,
        (
          λ required level h k.
              expand_channel_member-KeepsSound services clean d app r clause special level,
          (
            λ required level h k.
                expand_channel-KeepsSound services clean d app r clause special level,
            (
              λ required level h k.
                  expand_locale-KeepsSound services clean d app r clause special level,
              (
                λ required level h k.
                    expand_oauth2_app-KeepsSound services clean d app r clause special level,
                (
                  λ required level h k.
                      expand_oauth2_user-KeepsSound services clean d app r clause special level,
                  (
                    λ required level h k e.
                        expand_post-KeepsSound services clean d app r clause special
                          (λ p x. record x { post = p })
                          (λ p is_read x (permitted, (a, m, c, cm, t, tm, q, root)).
                            (permitted, (a, m, c, cm, t, tm, is_read, root)))
                          e.context.user_agent_context.post_id level e,
                    (
                      λ required level h k e.
                          expand_post-KeepsSound services clean d app r clause special
                            (λ p x. record x { root_post = p })
                            (λ p is_read x (permitted, (a, m, c, cm, t, tm, q, root)).
                              (permitted, (a, m, c, cm, t, tm, q, is_read)))
                            e.context.user_agent_context.root_post_id level e,
                      (
                        λ required level h k.
                            expand_team_member-KeepsSound services clean d app r clause special
                              level,
                        (
                          λ required level h k.
                              expand_team-KeepsSound services clean d app r clause special level,
                          (
                            λ required level h k e.
                                expand_user-KeepsSound services clean d app r clause special
                                  (λ u x. record x { user = u })
                                  e.context.user_agent_context.user_id
                                  (λ u is_read x (permitted, (a, m, c, cm, t, tm, q, root)).
                                    let id = e.context.user_agent_context.user_id in
                                    (permitted, (a, (id, is_read), c, cm, t, tm, q, root)))
                                  level e,
                            tt,
                          ),
                        ),
                      ),
                    ),
                  ),
                ),
              ),
            ),
          ),
        ),
      ),
    ),
  )

  pub expand_bot_token-KeepsSound : KeepsAll (expand_bot_token services clean d app r)
  expand_bot_token-KeepsSound =
      if-KeepsSound services clean d app r clause special
        (contains app.granted_permissions act_as_bot && not (is_empty app.bot_user_id)) _ (pure tt)
        (λ k e sound.
          let (kept, given) =
            get_bot_access_token-GivesToken services clean d app r clause special e sound in
          let permitted = kept.0.0 in
          chain_rule Sound (get_bot_access_token services clean d app r) _ e kept (λ token h.
            written-Sound services clean d app r clause special
              (λ x. record x { bot_access_token = token })
              (get_bot_access_token services clean d app r e).1
              (
                record {
                  user = permitted.user;
                  bot = inr (given token h, (both_true _ _ k).0);
                  app_shown = permitted.app_shown;
                  remote = permitted.remote;
                },
                kept.0.1,
              )
              kept))
        (λ k e sound. sound)

  pub start-Sound :
      (cc : Context ExpandedContext) (s : S) → Sound (start services clean d app r cc special s)
  start-Sound cc s = (
    (
      record { user = inl refl; bot = inl refl; app_shown = tt; remote = inl refl },
      (
        inl refl,
        ([], inl refl),
        inl (inl refl),
        inl refl,
        inl (inl refl),
        inl refl,
        inl refl,
        inl refl,
      ),
    ),
    inl refl,
    inl refl,
    given special refl,
  )
    where
      given :
          (o : Option (Getter S)) → special ≡ o → IsGetterIf services clean d app r clause special o
      given none h = tt
      given (some getter) h = inl h
