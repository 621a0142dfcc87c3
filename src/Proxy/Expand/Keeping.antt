-- ===== src/Proxy/Expand/Keeping.antt =====
-- Each step of an expansion keeps to what is permitted.
use mathlib.Core.Path.{subst}
use mattermost_plugin_apps.Base.{
  Str, Bool, ◌≡◌, ◌⊎◌, refl, [], Result, ok, err, Option, none, some, is_empty, if◌then◌else◌, inl,
  inr, Bool-cases, Result-cases, other, Error,
}
use mattermost_plugin_apps.Base.Action.{Action, raise, reads, ◌>>=◌, chain_rule}
use mattermost_plugin_apps.Apps.App.{App, strip_app}
use mattermost_plugin_apps.Apps.Call.{Expand}
use mattermost_plugin_apps.Apps.Context.{UserAgentContext}
use mattermost_plugin_apps.Apps.Entities.{
  Sanitizers, User, Post, Channel, Team, strip_user, strip_post, strip_channel, strip_team,
  strip_channel_member, strip_team_member,
}
use mattermost_plugin_apps.Apps.ExpandLevel
use mattermost_plugin_apps.Apps.ExpandLevel.{ExpandLevel}
use mattermost_plugin_apps.Apps.Permission.{act_as_user, contains}
use mattermost_plugin_apps.Incoming.{Request, Directory, require_sysadmin_or_plugin}
use mattermost_plugin_apps.Proxy.Expand.{
  ExpandedContext, OAuth2Context, Services, Getter, Expander, expand_by, ask,
  get_acting_user_access_token,
}
use mattermost_plugin_apps.Proxy.Expand.Fields.{
  expand_user, expand_post, expand_channel, expand_team, expand_channel_member, expand_team_member,
  expand_locale, expand_acting_user_access_token, expand_app, shown_secret, channel_or_ids,
  team_or_id,
}
use mattermost_plugin_apps.Proxy.Expand.Permitted.{
  IsSound, KeepsSound, if-KeepsSound, IsPermitted, Permits, HidesSecrets, IsGetterIf, IsRead,
  IsReadUser, IsReadPost, IsReadChannel, IsReadTeam, get_acting_user_access_token-GivesToken,
}

module _ {S : Type 0} (services : Services S) (clean : Sanitizers) (d : Directory) (app : App)
    (r : Request) (clause : Expand) (special : Option (Getter S)) where
  abbrev pub Keeps : {A : Type 0} → Action (Expander S) A → Type 0
  Keeps = KeepsSound services clean d app r clause special

  -- A change of the other fields.
  abbrev pub KeepsGranted : (ExpandedContext → ExpandedContext) → Type 0
  KeepsGranted f =
      (x : ExpandedContext)
      → IsPermitted services clean d app r clause special x
      → IsPermitted services clean d app r clause special (f x)

  pub expand_by-KeepsSound :
      (f : ExpandedContext → ExpandedContext)
      → KeepsGranted f
      → Keeps (expand_by services clean d app r f)
  expand_by-KeepsSound f keeps e (permitted, user, bot, getter) =
      (keeps e.context.expanded permitted, user, bot, getter)

  pub written-Sound :
      (f : ExpandedContext → ExpandedContext) (e : Expander S)
      → IsPermitted services clean d app r clause special (f e.context.expanded)
      → IsSound services clean d app r clause special e
      → IsSound services clean d app r clause special (expand_by services clean d app r f e).1
  written-Sound f e allowed (permitted, user, bot, getter) = (allowed, user, bot, getter)

  -- What is read and then written.
  read_write-KeepsSound :
      {A : Type 0} (read : Expander S → Result A) (write : A → ExpandedContext → ExpandedContext)
      → ((e : Expander S)
          → IsGetterIf services clean d app r clause special e.getter
          → (a : A) → read e ≡ ok a
          → KeepsGranted (write a))
      → Keeps (reads read >>= λ a. expand_by services clean d app r (write a))
  read_write-KeepsSound read write keeps e (permitted, user, bot, getter) =
      chain_rule (IsSound services clean d app r clause special) (reads read) _ e
        (permitted, user, bot, getter)
        (λ a h.
          expand_by-KeepsSound (write a) (keeps e getter a h) e (permitted, user, bot, getter))

  -- What is given when a getter is asked, and stripped, has been read.
  ask-IsRead :
      {A B : Type 0} (get : Getter S → Str → Str → S → Result A) (i j : Str)
      (strip : ExpandLevel → A → Option B) (level : ExpandLevel) (o : Option (Getter S)) (s : S)
      (a : A)
      → IsGetterIf services clean d app r clause special o
      → ask services clean d app r (λ g. get g i j) o s ≡ ok a
      → IsRead services clean d app r clause special get strip (strip level a)
  ask-IsRead get i j strip level none s a allowed h = absurd (cc h)
  ask-IsRead get i j strip level (some getter) s a allowed h =
      inr (getter, i, j, s, level, a, allowed, h, refl)

  pub guarded-KeepsSound :
      {A : Type 0} (b : Bool) (x : Error) (m : Action (Expander S) A)
      → Keeps m
      → Keeps (if b then raise x else m)
  guarded-KeepsSound b x m keeps =
      if-KeepsSound services clean d app r clause special b (raise x) m (λ k e sound. sound)
        (λ k. keeps)

  pub expand_user-KeepsSound :
      (write : Option User → ExpandedContext → ExpandedContext)
      → (user_id : Str)
      → ((u : Option User)
          → IsReadUser services clean d app r clause special user_id u
          → KeepsGranted (write u))
      → (level : ExpandLevel) → Keeps (expand_user services clean d app r write user_id level)
  expand_user-KeepsSound write user_id keeps level = guarded-KeepsSound (is_empty user_id) other _ (
      read_write-KeepsSound _ (λ user. write (strip_user clean level user))
        (λ e allowed user h. keeps _ (
          ask-IsRead (λ g i j. g.get_user user_id) user_id [] (strip_user clean) level e.getter
            e.server user allowed h)))

  pub expand_post-KeepsSound :
      (write : Option Post → ExpandedContext → ExpandedContext)
      → ((p : Option Post)
          → IsReadPost services clean d app r clause special p
          → KeepsGranted (write p))
      → (post_id : Str) (level : ExpandLevel)
      → Keeps (expand_post services clean d app r write post_id level)
  expand_post-KeepsSound write keeps post_id level = guarded-KeepsSound (is_empty post_id) other _ (
      read_write-KeepsSound _ (λ post. write (strip_post clean level post))
        (λ e allowed post h. keeps _ (
          ask-IsRead (λ g i j. g.get_post i) post_id [] (strip_post clean) level e.getter e.server
            post allowed h)))

  pub expand_channel_member-KeepsSound :
      (level : ExpandLevel) → Keeps (expand_channel_member services clean d app r level)
  unfolding expand_channel_member
  expand_channel_member-KeepsSound level e =
      guarded-KeepsSound _ other _
        (read_write-KeepsSound _
          (λ member x. record x { channel_member = strip_channel_member level member })
          (λ e' allowed member h x (permitted, (a, u, c, m, t, tm, p, root)). (
            permitted,
            (
              a,
              u,
              c,
              ask-IsRead (λ g i j. g.get_channel_member i j) _ _ strip_channel_member level
                  e'.getter e'.server member allowed h,
              t,
              tm,
              p,
              root,
            ),
          )))
        e

  pub expand_team_member-KeepsSound :
      (level : ExpandLevel) → Keeps (expand_team_member services clean d app r level)
  unfolding expand_team_member
  expand_team_member-KeepsSound level e =
      guarded-KeepsSound _ other _
        (read_write-KeepsSound _
          (λ member x. record x { team_member = strip_team_member level member })
          (λ e' allowed member h x (permitted, (a, u, c, m, t, tm, p, root)). (
            permitted,
            (
              a,
              u,
              c,
              m,
              t,
              ask-IsRead (λ g i j. g.get_team_member i j) _ _ strip_team_member level e'.getter
                  e'.server member allowed h,
              p,
              root,
            ),
          )))
        e

  channel_or_ids-IsRead :
      (uac : UserAgentContext) (level : ExpandLevel) (o : Option (Getter S)) (s : S)
      (channel : Option Channel)
      → IsGetterIf services clean d app r clause special o
      → channel_or_ids services clean d app r uac level
          (ask services clean d app r (λ g. g.get_channel uac.channel_id) o s)
        ≡ ok channel
      → IsReadChannel services clean d app r clause special channel
  channel_or_ids-IsRead uac level o s channel allowed h =
      elim (Result-cases (ask services clean d app r (λ g. g.get_channel uac.channel_id) o s)) [
        | inl (found, k) ↦
            let same : strip_channel level found ≡ channel = cc (rw k at h) in
            inl (
              subst
                (IsRead services clean d app r clause special (λ g i j. g.get_channel i)
                  strip_channel)
                same
                (ask-IsRead (λ g i j. g.get_channel i) uac.channel_id [] strip_channel level o s
                  found allowed k))
        | inr (x, k) ↦ ids_alone x level (rw k at h)
      ]
    where
      ids_alone :
          (x : Error) (level : ExpandLevel)
          → channel_or_ids services clean d app r uac level (err x) ≡ ok channel
          → IsReadChannel services clean d app r clause special channel
      ids_alone x ExpandLevel.id h = inr (uac.channel_id, uac.team_id, cc h)
      ids_alone x ExpandLevel.none h = absurd (cc h)
      ids_alone x ExpandLevel.summary h = absurd (cc h)
      ids_alone x ExpandLevel.all h = absurd (cc h)

  team_or_id-IsRead :
      (uac : UserAgentContext) (level : ExpandLevel) (o : Option (Getter S)) (s : S)
      (team : Option Team)
      → IsGetterIf services clean d app r clause special o
      → team_or_id services clean d app r uac level
          (ask services clean d app r (λ g. g.get_team uac.team_id) o s)
        ≡ ok team
      → IsReadTeam services clean d app r clause special team
  team_or_id-IsRead uac level o s team allowed h =
      elim (Result-cases (ask services clean d app r (λ g. g.get_team uac.team_id) o s)) [
        | inl (found, k) ↦
            let same : strip_team clean level found ≡ team = cc (rw k at h) in
            inl (
              subst
                (IsRead services clean d app r clause special (λ g i j. g.get_team i)
                  (strip_team clean))
                same
                (ask-IsRead (λ g i j. g.get_team i) uac.team_id [] (strip_team clean) level o s
                  found allowed k))
        | inr (x, k) ↦ id_alone x level (rw k at h)
      ]
    where
      id_alone :
          (x : Error) (level : ExpandLevel)
          → team_or_id services clean d app r uac level (err x) ≡ ok team
          → IsReadTeam services clean d app r clause special team
      id_alone x ExpandLevel.id h = inr (uac.team_id, cc h)
      id_alone x ExpandLevel.none h = absurd (cc h)
      id_alone x ExpandLevel.summary h = absurd (cc h)
      id_alone x ExpandLevel.all h = absurd (cc h)

  pub expand_channel-KeepsSound :
      (level : ExpandLevel) → Keeps (expand_channel services clean d app r level)
  unfolding expand_channel
  expand_channel-KeepsSound level e =
      guarded-KeepsSound _ other _
        (read_write-KeepsSound _ (λ channel x. record x { channel = channel })
          (λ e' allowed channel h x (permitted, (a, u, c, m, t, tm, p, root)). (
            permitted,
            (
              a,
              u,
              channel_or_ids-IsRead e.context.user_agent_context level e'.getter e'.server channel
                  allowed h,
              m,
              t,
              tm,
              p,
              root,
            ),
          )))
        e

  pub expand_team-KeepsSound :
      (level : ExpandLevel) → Keeps (expand_team services clean d app r level)
  unfolding expand_team
  expand_team-KeepsSound level e =
      guarded-KeepsSound _ other _
        (read_write-KeepsSound _ (λ team x. record x { team = team })
          (λ e' allowed team h x (permitted, (a, u, c, m, t, tm, p, root)). (
            permitted,
            (
              a,
              u,
              c,
              m,
              team_or_id-IsRead e.context.user_agent_context level e'.getter e'.server team allowed
                  h,
              tm,
              p,
              root,
            ),
          )))
        e

  pub expand_locale-KeepsSound :
      (level : ExpandLevel) → Keeps (expand_locale services clean d app r level)
  unfolding expand_locale
  expand_locale-KeepsSound level e sound = sound

  shown_secret_lem :
      (level : ExpandLevel)
      → (shown_secret services clean d app r level app ≡ [])
        ⊎ (require_sysadmin_or_plugin d r ≡ ok tt)
  shown_secret_lem ExpandLevel.none = inl refl
  shown_secret_lem ExpandLevel.id = inl refl
  shown_secret_lem ExpandLevel.summary = inl refl
  shown_secret_lem ExpandLevel.all = elim (Result-cases (require_sysadmin_or_plugin d r)) [
    | inl (t, k) ↦ inr k
    | inr (x, k) ↦ inl (rw (shown_secret, k) refl)
  ]

  app_permitted :
      {u b : Str} {a : Option App} {o : OAuth2Context} {shown : App}
      → Permits services clean d app r clause special u b a o
      → HidesSecrets services clean d app r clause special (some shown)
      → Permits services clean d app r clause special u b (some shown) o
  app_permitted permitted hidden = record {
    user = permitted.user;
    bot = permitted.bot;
    app_shown = hidden;
    remote = permitted.remote;
  }

  pub expand_app-KeepsSound :
      (level : ExpandLevel) → Keeps (expand_app services clean d app r level)
  unfolding expand_app strip_app
  expand_app-KeepsSound ExpandLevel.none e sound = sound
  expand_app-KeepsSound ExpandLevel.id e sound = sound
  expand_app-KeepsSound ExpandLevel.summary e ((permitted, read), user, bot, getter) =
      ((app_permitted permitted (refl, refl, refl, inl refl), read), user, bot, getter)
  expand_app-KeepsSound ExpandLevel.all e ((permitted, read), user, bot, getter) = (
    (app_permitted permitted (refl, refl, refl, shown_secret_lem ExpandLevel.all), read),
    user,
    bot,
    getter,
  )

  -- The token of the acting user, at a call that asks for it.
  pub expand_acting_user_access_token-KeepsSound :
      (level : ExpandLevel)
      → ((required : Bool) × (ExpandLevel.parse clause.acting_user_access_token
            ≡ ok (required, ExpandLevel.all)))
      → Keeps (expand_acting_user_access_token services clean d app r level)
  unfolding expand_acting_user_access_token
  expand_acting_user_access_token-KeepsSound level asked =
      elim (Bool-cases (contains app.granted_permissions act_as_user)) [
        | inr k ↦ λ e sound. rw k sound
        | inl k ↦ λ e sound. rw k (
            let (kept, given) =
              get_acting_user_access_token-GivesToken services clean d app r clause special e
                sound in
            chain_rule (IsSound services clean d app r clause special)
              (get_acting_user_access_token services clean d app r) _ e kept
              (λ token h.
                let permitted = kept.0.0 in
                written-Sound (λ x. record x { acting_user_access_token = token })
                  (get_acting_user_access_token services clean d app r e).1
                  (
                    record {
                      user = inr (given token h, k, asked);
                      bot = permitted.bot;
                      app_shown = permitted.app_shown;
                      remote = permitted.remote;
                    },
                    kept.0.1,
                  )
                  kept))
      ]
