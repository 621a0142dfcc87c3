-- ===== src/Proxy/Expand/Permitted.antt =====
-- What an app may be sent: tokens, secrets and OAuth2 data by its permissions.
use mattermost_plugin_apps.Base.{
  Str, Bool, true, false, not, ◌&&◌, ◌≡◌, ◌⊎◌, refl, [], ◌∷◌, Result, ok, err, Option, none, some,
  is_empty, if◌then◌else◌, inl, inr, Bool-cases, both_true,
}
use mathlib.Core.Path.{ap, subst}
use mattermost_plugin_apps.Base.Action.{Action, reads, ◌>>=◌, chain_rule}
use mattermost_plugin_apps.Apps.App.{App}
use mattermost_plugin_apps.Apps.Call.{Expand}
use mattermost_plugin_apps.Apps.Deploy
use mattermost_plugin_apps.Apps.Deploy.{builtin}
use mattermost_plugin_apps.Apps.Entities.{
  User, Channel, ChannelMember, Team, TeamMember, Post, Sanitizers, empty_channel, empty_team,
  strip_user, strip_channel, strip_channel_member, strip_team, strip_team_member, strip_post,
}
use mattermost_plugin_apps.Apps.ExpandLevel
use mattermost_plugin_apps.Apps.ExpandLevel.{ExpandLevel}
use mattermost_plugin_apps.Apps.Permission.{
  Permission, act_as_bot, act_as_user, remote_oauth2, contains,
}
use mattermost_plugin_apps.Incoming.{Request, Directory, require_sysadmin_or_plugin}
use mattermost_plugin_apps.Store.Sessions.{Session}
use mattermost_plugin_apps.Proxy.Expand.{
  ExpandedContext, OAuth2Context, Services, Getter, Expander, no_oauth2, get_bot_access_token,
  get_acting_user_access_token, ensure_getter, make_getter, with_getter_or_new, with_getter,
  with_bot_token, with_user_token,
}

module _ {S : Type 0} (services : Services S) (clean : Sanitizers) (d : Directory) (app : App)
    (r : Request) (clause : Expand) (special : Option (Getter S)) where
  -- The session service has given the token for the user.
  abbrev pub IsTokenOf : Str → Str → Type 0
  IsTokenOf user_id token =
      (s : S) × (session : Session) × ((services.get_or_create r user_id s).0 ≡ ok session)
      × (session.token ≡ token)

  -- An enabled app at the destination of the request, with a permission.
  abbrev pub HasDestination : Permission → Type 0
  HasDestination permission =
      (to : App) × ((s : S) × (services.enabled_destination r s ≡ ok to))
      × (contains to.granted_permissions permission ≡ true)

  -- What is shown of an app: none of its secrets, but for the webhook's, and that to system
  -- administrators and plugins.
  abbrev pub HidesSecrets : Option App → Type 0
  HidesSecrets none = Unit
  HidesSecrets (some shown) =
      (shown.secret ≡ [])
      × (shown.mattermost_oauth2 ≡ none)
      × (shown.remote_oauth2 ≡ [])
      × ((shown.webhook_secret ≡ []) ⊎ (require_sysadmin_or_plugin d r ≡ ok tt))

  -- A context has a token of the acting user only if the app may act as the user and the call asks for
  -- it, a token of the bot only if the app may act as the bot, and OAuth2 data only if the app at the
  -- destination may use remote OAuth2.
  pub record Permits (user_token bot_token : Str) (shown : Option App) (oauth2 : OAuth2Context)
      : Type 0 where
    pub user :
        (user_token ≡ [])
        ⊎ (IsTokenOf r.acting_user_id user_token
            × (contains app.granted_permissions act_as_user ≡ true)
            × ((required : Bool) × (ExpandLevel.parse clause.acting_user_access_token
                  ≡ ok (required, ExpandLevel.all))))
    pub bot :
        (bot_token ≡ [])
        ⊎ (IsTokenOf app.bot_user_id bot_token
            × (contains app.granted_permissions act_as_bot ≡ true))
    pub app_shown : HidesSecrets shown
    pub remote : (oauth2 ≡ no_oauth2) ⊎ HasDestination remote_oauth2

  abbrev pub IsCached : Str → Str → Type 0
  IsCached user_id token = (token ≡ []) ⊎ IsTokenOf user_id token

  -- What entities may be read with: the special getter of a notification; directly, for a builtin app;
  -- or with a token of the acting user or of the bot, for an app that may act as the one or the other.
  abbrev pub IsGetter : Getter S → Type 0
  IsGetter getter =
      (special ≡ some getter)
      ⊎ ((to : App) × ((s : S) × (services.enabled_destination r s ≡ ok to))
          × (((Deploy.same to.deploy_type builtin ≡ true) × (getter ≡ services.rpc_getter))
              ⊎ ((token : Str) × (getter ≡ services.http_getter token)
                  × (((contains to.granted_permissions act_as_user ≡ true)
                        × IsTokenOf r.acting_user_id token)
                      ⊎ ((contains to.granted_permissions act_as_bot ≡ true)
                          × IsTokenOf app.bot_user_id token)))))

  -- An entity is left out, or it is what a getter that is allowed has given, stripped to a level.
  abbrev pub IsRead :
      {A B : Type 0}
      → (Getter S → Str → Str → S → Result A)
      → (ExpandLevel → A → Option B)
      → Option B
      → Type 0
  IsRead {A = A} get strip o =
      (o ≡ none)
      ⊎ ((getter : Getter S) × (i j : Str) × (s : S) × (level : ExpandLevel) × (a : A) × IsGetter
            getter
          × (get getter i j s ≡ ok a)
          × (o ≡ strip level a))

  abbrev pub IsReadUser : Str → Option User → Type 0
  IsReadUser user_id = IsRead (λ g i j. g.get_user user_id) (strip_user clean)

  abbrev pub IsReadPost : Option Post → Type 0
  IsReadPost = IsRead (λ g i j. g.get_post i) (strip_post clean)

  abbrev pub IsReadMember : Option ChannelMember → Type 0
  IsReadMember = IsRead (λ g i j. g.get_channel_member i j) strip_channel_member

  abbrev pub IsReadTeamMember : Option TeamMember → Type 0
  IsReadTeamMember = IsRead (λ g i j. g.get_team_member i j) strip_team_member

  -- A channel or a team that cannot be read may be there with IDs alone.
  abbrev pub IsReadChannel : Option Channel → Type 0
  IsReadChannel o =
      IsRead (λ g i j. g.get_channel i) strip_channel o
      ⊎ ((i j : Str) × (o ≡ some (record empty_channel { id = i; team_id = j })))

  abbrev pub IsReadTeam : Option Team → Type 0
  IsReadTeam o =
      IsRead (λ g i j. g.get_team i) (strip_team clean) o
      ⊎ ((i : Str) × (o ≡ some (record empty_team { id = i })))

  abbrev pub AreRead : ExpandedContext → Type 0
  AreRead x =
      IsReadUser r.acting_user_id x.acting_user
      × ((user_id : Str) × IsReadUser user_id x.user)
      × IsReadChannel x.channel
      × IsReadMember x.channel_member
      × IsReadTeam x.team
      × IsReadTeamMember x.team_member
      × IsReadPost x.post
      × IsReadPost x.root_post

  abbrev pub IsPermitted : ExpandedContext → Type 0
  IsPermitted x = Permits x.acting_user_access_token x.bot_access_token x.app x.oauth2 × AreRead x

  abbrev pub IsGetterIf : Option (Getter S) → Type 0
  IsGetterIf none = Unit
  IsGetterIf (some getter) = IsGetter getter

  -- The invariant of an expansion.
  abbrev pub IsSound : Expander S → Type 0
  IsSound e =
      IsPermitted e.context.expanded
      × IsCached r.acting_user_id e.acting_user_access_token
      × IsCached app.bot_user_id e.bot_access_token
      × IsGetterIf e.getter

  abbrev pub KeepsSound : {A : Type 0} → Action (Expander S) A → Type 0
  KeepsSound m = (e : Expander S) → IsSound e → IsSound (m e).1

  given_token :
      (user_id token : Str)
      → is_empty token ≡ false
      → IsCached user_id token
      → IsTokenOf user_id token
  given_token user_id token h (inr t) = t
  given_token user_id [] h (inl e) = absurd (cc h)
  given_token user_id (c ∷ token) h (inl e) = absurd (cc e)

  -- A token that is given is one of the user; it may be kept for later.
  abbrev pub GivesToken : Str → Action (Expander S) Str → Type 0
  GivesToken user_id m =
      (e : Expander S)
      → IsSound e
      → IsSound (m e).1 × ((token : Str) → (m e).0 ≡ ok token → IsTokenOf user_id token)

  session_given :
      (user_id : Str) (s : S) (session : Session) (t : S)
      → services.get_or_create r user_id s ≡ (ok session, t)
      → IsTokenOf user_id session.token
  session_given user_id s session t same = (s, session, ap (λ p. p.0) same, refl)

  user_token_given :
      (p : Result Session × S) (e : Expander S)
      → services.get_or_create r r.acting_user_id e.server ≡ p
      → IsSound e
      → IsSound (with_user_token services clean d app r p e).1
        × ((token : Str)
            → (with_user_token services clean d app r p e).0 ≡ ok token
            → IsTokenOf r.acting_user_id token)
  user_token_given (err x, s) e same (permitted, user, bot, getter) =
      ((permitted, user, bot, getter), λ token h. absurd (cc h))
  user_token_given (ok session, s) e same (permitted, user, bot, getter) =
      let given = session_given r.acting_user_id e.server session s same in
      (
        (permitted, inr given, bot, getter),
        λ token h. subst (IsTokenOf r.acting_user_id) (cc h) given,
      )

  bot_token_given :
      (p : Result Session × S) (e : Expander S)
      → services.get_or_create r app.bot_user_id e.server ≡ p
      → IsSound e
      → IsSound (with_bot_token services clean d app r p e).1
        × ((token : Str)
            → (with_bot_token services clean d app r p e).0 ≡ ok token
            → IsTokenOf app.bot_user_id token)
  bot_token_given (err x, s) e same (permitted, user, bot, getter) =
      ((permitted, user, bot, getter), λ token h. absurd (cc h))
  bot_token_given (ok session, s) e same (permitted, user, bot, getter) =
      let given = session_given app.bot_user_id e.server session s same in
      (
        (permitted, user, inr given, getter),
        λ token h. subst (IsTokenOf app.bot_user_id) (cc h) given,
      )

  pub get_acting_user_access_token-GivesToken :
      GivesToken r.acting_user_id (get_acting_user_access_token services clean d app r)
  unfolding get_acting_user_access_token
  get_acting_user_access_token-GivesToken e (permitted, user, bot, getter) =
      elim (Bool-cases (is_empty e.acting_user_access_token)) [
        | inr k ↦ rw k (
          (permitted, user, bot, getter),
          λ token h. subst (IsTokenOf r.acting_user_id) (cc h) (given_token _ _ k user),
        )
        | inl k ↦ rw k (user_token_given _ e refl (permitted, user, bot, getter))
      ]

  pub get_bot_access_token-GivesToken :
      GivesToken app.bot_user_id (get_bot_access_token services clean d app r)
  unfolding get_bot_access_token
  get_bot_access_token-GivesToken e (permitted, user, bot, getter) =
      elim (Bool-cases (is_empty e.bot_access_token)) [
        | inr k ↦ rw k (
          (permitted, user, bot, getter),
          λ token h. subst (IsTokenOf app.bot_user_id) (cc h) (given_token _ _ k bot),
        )
        | inl k ↦ rw k (bot_token_given _ e refl (permitted, user, bot, getter))
      ]

  with_getter-Sound :
      (e : Expander S) (getter : Getter S)
      → IsGetter getter
      → IsSound e
      → IsSound (with_getter services clean d app r getter e).1
  with_getter-Sound e getter allowed (permitted, user, bot, _) = (permitted, user, bot, allowed)

  -- A getter made with a token that is given.
  token_getter-KeepsSound :
      (user_id : Str) (m : Action (Expander S) Str)
      → GivesToken user_id m
      → ((token : Str) → IsTokenOf user_id token → IsGetter (services.http_getter token))
      → KeepsSound (m >>= λ token. with_getter services clean d app r (services.http_getter token))
  token_getter-KeepsSound user_id m gives allowed e sound =
      chain_rule IsSound m _ e (gives e sound).0 (λ token h.
        with_getter-Sound (m e).1 _ (allowed token ((gives e sound).1 token h)) (gives e sound).0)

  pub if-KeepsSound :
      {A : Type 0} (b : Bool) (m n : Action (Expander S) A)
      → (b ≡ true → KeepsSound m)
      → (b ≡ false → KeepsSound n)
      → KeepsSound (if b then m else n)
  if-KeepsSound true m n k j = k refl
  if-KeepsSound false m n k j = j refl

  -- The app at the destination makes a getter that is allowed.
  make_getter-KeepsSound :
      (to : App)
      → ((s : S) × (services.enabled_destination r s ≡ ok to))
      → KeepsSound (make_getter services clean d app r to)
  make_getter-KeepsSound to found =
      if-KeepsSound (Deploy.same to.deploy_type builtin) _ _
        (λ k e sound. with_getter-Sound e _ (inr (to, found, inl (k, refl))) sound)
        (λ k.
          if-KeepsSound
            (contains to.granted_permissions act_as_user && not (is_empty r.acting_user_id)) _ _
            (λ j.
              token_getter-KeepsSound r.acting_user_id
                (get_acting_user_access_token services clean d app r)
                get_acting_user_access_token-GivesToken
                (λ token given.
                  inr (to, found, inr (token, refl, inl ((both_true _ _ j).0, given)))))
            (λ j.
              if-KeepsSound (contains to.granted_permissions act_as_bot) _ _
                (λ i.
                  token_getter-KeepsSound app.bot_user_id
                    (get_bot_access_token services clean d app r) get_bot_access_token-GivesToken
                    (λ token given. inr (to, found, inr (token, refl, inr (i, given)))))
                (λ i e sound. sound)))

  with_getter_or_new-KeepsSound :
      (o : Option (Getter S)) → KeepsSound (with_getter_or_new services clean d app r o)
  with_getter_or_new-KeepsSound (some getter) e sound = sound
  with_getter_or_new-KeepsSound none e sound =
      chain_rule IsSound (reads (λ (e : Expander S). services.enabled_destination r e.server)) _ e
        sound (λ to found. make_getter-KeepsSound to (e.server, found) e sound)

  pub ensure_getter-KeepsSound : KeepsSound (ensure_getter services clean d app r)
  unfolding ensure_getter
  ensure_getter-KeepsSound e sound = with_getter_or_new-KeepsSound e.getter e sound
