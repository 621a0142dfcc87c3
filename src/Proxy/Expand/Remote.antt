-- ===== src/Proxy/Expand/Remote.antt =====
-- The steps that give data of OAuth2 keep to what is permitted (server/proxy/expand.go).
use mattermost_plugin_apps.Base.{
  Str, not, ◌||◌, ◌≡◌, ok, Option, some, is_empty, inl, inr, Bool-cases, ◌==◌, bytes, other,
  forbidden,
}
use mattermost_plugin_apps.Base.Action.{Action, pure, reads, chain_rule, chain_inversion}
use mattermost_plugin_apps.Apps.App.{App}
use mattermost_plugin_apps.Apps.Call.{Expand}
use mattermost_plugin_apps.Apps.Entities.{Sanitizers}
use mattermost_plugin_apps.Apps.ExpandLevel.{ExpandLevel}
use mattermost_plugin_apps.Apps.Permission.{remote_oauth2, contains}
use mattermost_plugin_apps.Incoming.{Request, Directory, with_source_app_id}
use mattermost_plugin_apps.Proxy.Expand.{OAuth2Context, Services, Getter, Expander, expand_by}
use mattermost_plugin_apps.Proxy.Expand.Fields.{
  expand_oauth2_app, expand_oauth2_user, oauth2_destination, with_oauth2_user,
}
use mattermost_plugin_apps.Proxy.Expand.Permitted.{IsSound, if-KeepsSound, HasDestination}
use mattermost_plugin_apps.Proxy.Expand.Keeping.{Keeps, written-Sound, guarded-KeepsSound}

module _ {S : Type 0} (services : Services S) (clean : Sanitizers) (d : Directory) (app : App)
    (r : Request) (clause : Expand) (special : Option (Getter S)) where
  abbrev Sound : Expander S → Type 0
  Sound = IsSound services clean d app r clause special

  abbrev KeepsAll : {A : Type 0} → Action (Expander S) A → Type 0
  KeepsAll = Keeps services clean d app r clause special

  oauth2_destination-KeepsSound : KeepsAll (oauth2_destination services clean d app r)
  oauth2_destination-KeepsSound e sound =
      chain_rule Sound (reads (λ (e : Expander S). services.enabled_destination r e.server)) _ e
        sound
        (λ to h.
          guarded-KeepsSound services clean d app r clause special
            (not (contains to.granted_permissions remote_oauth2)) forbidden (pure to)
            (λ e sound. sound) e sound)

  oauth2_destination-HasDestination :
      (e : Expander S) (to : App)
      → (oauth2_destination services clean d app r e).0 ≡ ok to
      → HasDestination services clean d app r clause special remote_oauth2
  oauth2_destination-HasDestination e to h =
      let (found, j, k, _) =
        chain_inversion (reads (λ (e : Expander S). services.enabled_destination r e.server)) _ e to
          h in
      elim (Bool-cases (contains found.granted_permissions remote_oauth2)) [
        | inl i ↦ (found, (e.server, j), i)
        | inr i ↦ let never = rw i at k in absurd (cc never)
      ]

  -- OAuth2 data that is written for an app that may use remote OAuth2.
  oauth2-Sound :
      (f : OAuth2Context → OAuth2Context) (e : Expander S)
      → HasDestination services clean d app r clause special remote_oauth2
      → Sound e
      → Sound (expand_by services clean d app r (λ x. record x { oauth2 = f x.oauth2 }) e).1
  oauth2-Sound f e allowed sound =
      let permitted = sound.0.0 in
      written-Sound services clean d app r clause special (λ x. record x { oauth2 = f x.oauth2 }) e
        (
          record {
            user = permitted.user;
            bot = permitted.bot;
            app_shown = permitted.app_shown;
            remote = inr allowed;
          },
          sound.0.1,
        )
        sound

  pub expand_oauth2_app-KeepsSound :
      (level : ExpandLevel) → KeepsAll (expand_oauth2_app services clean d app r level)
  unfolding expand_oauth2_app
  expand_oauth2_app-KeepsSound level e sound =
      chain_rule Sound (oauth2_destination services clean d app r) _ e
        (oauth2_destination-KeepsSound e sound)
        (λ to h.
          oauth2-Sound
            (λ o. record o {
              app = to.remote_oauth2;
              connect_url = services.connect_url to.app_id;
              complete_url = services.complete_url to.app_id;
            })
            (oauth2_destination services clean d app r e).1
            (oauth2_destination-HasDestination e to h) (oauth2_destination-KeepsSound e sound))

  with_oauth2_user-KeepsSound :
      (json : Str)
      → HasDestination services clean d app r clause special remote_oauth2
      → KeepsAll (with_oauth2_user services clean d app r json)
  with_oauth2_user-KeepsSound json allowed =
      if-KeepsSound services clean d app r clause special (is_empty json || json == bytes "{}")
        (pure tt) _ (λ k e sound. sound)
        (λ k.
          guarded-KeepsSound services clean d app r clause special (not (services.is_json json))
            other _ (λ e sound. oauth2-Sound (λ x. record x { user = some json }) e allowed sound))

  pub expand_oauth2_user-KeepsSound :
      (level : ExpandLevel) → KeepsAll (expand_oauth2_user services clean d app r level)
  unfolding expand_oauth2_user
  expand_oauth2_user-KeepsSound level =
      guarded-KeepsSound services clean d app r clause special (is_empty r.acting_user_id) other _
        (λ e sound.
          chain_rule Sound (oauth2_destination services clean d app r) _ e
            (oauth2_destination-KeepsSound e sound)
            (λ to h.
              let e' = (oauth2_destination services clean d app r e).1 in
              chain_rule Sound
                (reads (λ (e : Expander S).
                  services.get_oauth2_user (with_source_app_id r r.destination) e.server))
                _ e' (oauth2_destination-KeepsSound e sound)
                (λ json k.
                  with_oauth2_user-KeepsSound json (oauth2_destination-HasDestination e to h) e'
                    (oauth2_destination-KeepsSound e sound))))
