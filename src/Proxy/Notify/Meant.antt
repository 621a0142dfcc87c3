-- ===== src/Proxy/Notify/Meant.antt =====
-- Events of members reach only the subscriptions that they are meant for, and that are stored for
-- them.
use mathlib.Core.Path.{subst⁻¹}
use mattermost_plugin_apps.Base.{
  Str, Bool, true, false, List, [], ◌∷◌, ◌++◌, ◌≡◌, ◌⊎◌, refl, sym, ap, ◌∙◌, ok, Option, none, some,
  if◌then◌else◌, All, All-append, All-map, inl, inr, Bool-cases, Result-cases, Option-cases,
  eq_sound,
}
use mattermost_plugin_apps.Base.Assoc.{lookup}
use mattermost_plugin_apps.Apps.App.{App}
use mattermost_plugin_apps.Apps.Context.{UserAgentContext}
use mattermost_plugin_apps.Apps.Event.{
  Event, user_joined_channel, user_left_channel, user_joined_team, user_left_team,
  bot_joined_channel, bot_left_channel, bot_joined_team, bot_left_team,
}
use mattermost_plugin_apps.Store.Subscriptions.{Subscription}
use mattermost_plugin_apps.Proxy.Notify.{
  Channel, ChannelMember, TeamMember, Notice, Sources, matches, notices_for, notify_all,
  is_of_owner, is_of_bot, notify_user_channel, notify_user_team, channel_notices, on_channel,
  on_team, anywhere,
}

append_one :
    (xs : List Subscription) (x : Subscription) (ys : List Subscription)
    → (xs ++ x ∷ []) ++ ys ≡ xs ++ x ∷ ys
append_one [] x ys = refl
append_one (y ∷ xs) x ys = ap (λ (l : List Subscription). y ∷ l) (append_one xs x ys)

module _ (sources : Sources) where
  -- The subscription is one of those that are stored for the event.
  abbrev pub IsStored : Event → Subscription → Type 0
  IsStored event sub =
      (before after : List Subscription) × (sources.subs event ≡ ok (before ++ sub ∷ after))

  -- The subscription is stored for the event, and this is the event of the place; or the one that
  -- names no place, and the owner is the member; or the one of bots that names no place, and the
  -- member is the bot of the app, which is enabled.
  abbrev pub IsMeantFor : Str → (Event → Type 0) → Event → Event → Notice → Type 0
  IsMeantFor user_id InPlace own bots notice =
      IsStored notice.event notice.sub
      × (InPlace notice.event
          ⊎ ((notice.event ≡ own) × (notice.sub.owner_user_id ≡ user_id))
          ⊎ ((notice.event ≡ bots)
              × ((app : App) × (lookup notice.sub.app_id sources.enabled_apps ≡ some app)
                  × (app.bot_user_id ≡ user_id))))

  -- The event of joining or leaving the channel of the member, the team of the member.
  abbrev pub IsInChannel : Bool → ChannelMember → Event → Type 0
  IsInChannel joined member event =
      (channel : Channel) × (sources.channel member.channel_id ≡ ok channel)
      × (event ≡ on_channel (if joined then user_joined_channel else user_left_channel) channel.id)

  abbrev pub IsInTeam : Bool → TeamMember → Event → Type 0
  IsInTeam joined member event =
      event ≡ on_team (if joined then user_joined_team else user_left_team) member.team_id

  abbrev pub IsMeantInChannel : Bool → ChannelMember → Notice → Type 0
  IsMeantInChannel joined member =
      IsMeantFor member.user_id (IsInChannel joined member)
        (anywhere (if joined then user_joined_channel else user_left_channel))
        (anywhere (if joined then bot_joined_channel else bot_left_channel))

  abbrev pub IsMeantInTeam : Bool → TeamMember → Notice → Type 0
  IsMeantInTeam joined member =
      IsMeantFor member.user_id (IsInTeam joined member)
        (anywhere (if joined then user_joined_team else user_left_team))
        (anywhere (if joined then bot_joined_team else bot_left_team))

  -- What is notified is for the event, stored for it, and matches.
  abbrev Fits : Event → Option (Subscription → Bool) → Notice → Type 0
  Fits event match notice =
      (notice.event ≡ event) × (matches match notice.sub ≡ true) × IsStored event notice.sub

  notices_for-All :
      (event : Event) (uac : UserAgentContext) (match : Option (Subscription → Bool))
      (before subs : List Subscription)
      → sources.subs event ≡ ok (before ++ subs)
      → All (Fits event match) (notices_for event uac match subs)
  unfolding notices_for
  notices_for-All event uac match before [] read = tt
  notices_for-All event uac match before (sub ∷ subs) read =
      let rest =
        notices_for-All event uac match (before ++ sub ∷ []) subs
          (read ∙ ap (λ (l : List Subscription). ok l) (sym (append_one before sub subs))) in
      elim (Bool-cases (matches match sub)) [
        | inl e ↦ rw (notices_for, e) ((refl, e, (before, subs, read)), rest)
        | inr e ↦ rw (notices_for, e) rest
      ]

  notify_all-All :
      (event : Event) (uac : UserAgentContext) (match : Option (Subscription → Bool))
      → All (Fits event match) (notify_all sources event uac match)
  unfolding notify_all
  notify_all-All event uac match = elim (Result-cases (sources.subs event)) [
    | inl (subs, e) ↦ rw (notify_all, e) (notices_for-All event uac match [] subs e)
    | inr (x, e) ↦ rw (notify_all, e) tt
  ]

  notify_all-All_of :
      (P : Notice → Type 0) (event : Event) (uac : UserAgentContext)
      (match : Option (Subscription → Bool))
      → ((notice : Notice) → Fits event match notice → P notice)
      → All P (notify_all sources event uac match)
  notify_all-All_of P event uac match f =
      All-map f (notify_all sources event uac match) (notify_all-All event uac match)

  owner-Fits :
      (user_id : Str) (InPlace : Event → Type 0) (event bots : Event) (notice : Notice)
      → Fits event (some (is_of_owner sources user_id)) notice
      → IsMeantFor user_id InPlace event bots notice
  owner-Fits user_id InPlace event bots notice (e, h, stored) = (
    subst⁻¹ (λ (x : Event). IsStored x notice.sub) e stored,
    inr (inl (e, eq_sound notice.sub.owner_user_id user_id h)),
  )

  bot-Fits :
      (user_id : Str) (InPlace : Event → Type 0) (own event : Event) (notice : Notice)
      → Fits event (some (is_of_bot sources user_id)) notice
      → IsMeantFor user_id InPlace own event notice
  bot-Fits user_id InPlace own event notice (e, h, stored) =
      elim (Option-cases (lookup notice.sub.app_id sources.enabled_apps)) [
        | inl k ↦ let never = rw k at h in absurd (cc never)
        | inr (app, k) ↦
            let is_bot = rw k at h in
            (
              subst⁻¹ (λ (x : Event). IsStored x notice.sub) e stored,
              inr (inr (e, (app, k, eq_sound app.bot_user_id user_id is_bot))),
            )
      ]

  -- Notices in three parts: those for the place, those for the owner, those for the bot.
  three_parts :
      (user_id : Str) (InPlace : Event → Type 0) (place own bots : Event)
      (c1 c2 c3 : UserAgentContext) (is_bot : Bool)
      → InPlace place
      → All (IsMeantFor user_id InPlace own bots) (
          notify_all sources place c1 none
          ++ notify_all sources own c2 (some (is_of_owner sources user_id))
          ++ (if is_bot then notify_all sources bots c3 (some (is_of_bot sources user_id)) else []))
  three_parts user_id InPlace place own bots c1 c2 c3 is_bot h =
      All-append (IsMeantFor user_id InPlace own bots) _ _
        (All-append (IsMeantFor user_id InPlace own bots) _ _
          (notify_all-All_of (IsMeantFor user_id InPlace own bots) place c1 none
            (λ notice (e, k, stored).
              (subst⁻¹ (λ (x : Event). IsStored x notice.sub) e stored, inl (subst⁻¹ InPlace e h))))
          (notify_all-All_of (IsMeantFor user_id InPlace own bots) own c2
            (some (is_of_owner sources user_id)) (owner-Fits user_id InPlace own bots)))
        (if_bot is_bot)
    where
      if_bot :
          (b : Bool)
          → All
              (IsMeantFor user_id InPlace own bots)
              (if b then notify_all sources bots c3 (some (is_of_bot sources user_id)) else [])
      if_bot true =
          notify_all-All_of (IsMeantFor user_id InPlace own bots) bots c3
            (some (is_of_bot sources user_id)) (bot-Fits user_id InPlace own bots)
      if_bot false = tt

  -- When a user joins or leaves a channel or a team, each subscription that is notified is one of
  -- those that are stored for the event it is notified of: the event of joining or leaving this
  -- channel or this team; or the event that names no channel and no team, and the subscription is the
  -- user's own; or the bots' event that names none, and the user is the bot of the subscription's app,
  -- which is enabled.
  pub notify_user-All :
      (joined : Bool) (in_channel : ChannelMember) (in_team : TeamMember)
      → All (IsMeantInChannel joined in_channel) (notify_user_channel sources in_channel joined)
        × All (IsMeantInTeam joined in_team) (notify_user_team sources in_team joined)
  unfolding notify_user_channel notify_user_team
  notify_user-All joined in_channel in_team = (for_channel, for_team)
    where
      for_channel :
          All (IsMeantInChannel joined in_channel) (notify_user_channel sources in_channel joined)
      for_channel = elim (Result-cases (sources.user in_channel.user_id)) [
        | inr (x, e) ↦ rw (notify_user_channel, e) tt
        | inl (user, e) ↦ elim (Result-cases (sources.channel in_channel.channel_id)) [
          | inr (x, k) ↦ rw (notify_user_channel, e, k) tt
          | inl (channel, k) ↦
              let path : notify_user_channel sources in_channel joined
                  ≡ channel_notices sources in_channel joined user channel =
                rw (notify_user_channel, e, k) refl in
              subst⁻¹ (All (IsMeantInChannel joined in_channel)) path (
                three_parts in_channel.user_id (IsInChannel joined in_channel) _ _ _ _ _ _
                  user.is_bot (channel, k, refl))
        ]
      ]

      for_team : All (IsMeantInTeam joined in_team) (notify_user_team sources in_team joined)
      for_team = elim (Result-cases (sources.user in_team.user_id)) [
        | inr (x, e) ↦ rw (notify_user_team, e) tt
        | inl (user, e) ↦
            rw (notify_user_team, e)
              (three_parts in_team.user_id (IsInTeam joined in_team) _ _ _ _ _ _ user.is_bot refl)
      ]
