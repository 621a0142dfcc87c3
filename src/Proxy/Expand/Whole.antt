-- ===== src/Proxy/Expand/Whole.antt =====
-- The steps of an expansion in their order, the checks after it, and what is sent on
-- (server/proxy/expand.go).
use mattermost_plugin_apps.Base.{
  Str, Bool, true, false, not, ◌&&◌, ◌||◌, List, [], ◌∷◌, Result, ok, err, other, Option, none,
  some, is_empty, if◌then◌else◌,
}
use mattermost_plugin_apps.Base.Action.{Action, pure, reads, lift, ◌>>=◌, ◌>>◌}
use mattermost_plugin_apps.Apps.App.{App}
use mattermost_plugin_apps.Apps.Call.{Expand}
use mattermost_plugin_apps.Apps.Context.{Context, UserAgentContext}
use mattermost_plugin_apps.Apps.Entities.{Sanitizers}
use mattermost_plugin_apps.Apps.ExpandLevel
use mattermost_plugin_apps.Apps.ExpandLevel.{ExpandLevel}
use mattermost_plugin_apps.Apps.Permission.{act_as_bot, contains}
use mattermost_plugin_apps.Incoming.{Request, Directory}
use mattermost_plugin_apps.Proxy.Expand.{
  ExpandedContext, Services, Getter, Expander, no_oauth2, expand_by, get_bot_access_token,
  ensure_getter,
}
use mattermost_plugin_apps.Proxy.Expand.Fields.{
  expand_acting_user_access_token, expand_acting_user, expand_app, expand_channel_member,
  expand_channel, expand_locale, expand_oauth2_app, expand_oauth2_user, expand_the_post,
  expand_root_post, expand_team_member, expand_team, expand_subject_user,
}
use mattermost_plugin_apps.Proxy.Expand.Consistency.{consistency_check, all_of}

-- A step: the level that is asked for, the levels at which there is something to do, the function.
pub record Step (S : Type 0) : Type 0 where
  pub requested_level : Str
  pub expandable_as : List ExpandLevel
  pub f : ExpandLevel → Action (Expander S) (Unit {0})

abbrev pub same_level : ExpandLevel → ExpandLevel → Bool
same_level ExpandLevel.none ExpandLevel.none = true
same_level ExpandLevel.id ExpandLevel.id = true
same_level ExpandLevel.summary ExpandLevel.summary = true
same_level ExpandLevel.all ExpandLevel.all = true
same_level _ _ = false

-- The loop that sets `doExpand`.
abbrev pub is_expandable : ExpandLevel → List ExpandLevel → Bool
is_expandable level [] = false
is_expandable level (l ∷ levels) = same_level level l || is_expandable level levels

abbrev pub any_level : List ExpandLevel
any_level = ExpandLevel.id ∷ ExpandLevel.summary ∷ ExpandLevel.all ∷ []

abbrev pub empty_expand : Expand
empty_expand = record {
  app = [];
  acting_user = [];
  acting_user_access_token = [];
  locale = [];
  channel = [];
  channel_member = [];
  team = [];
  team_member = [];
  post = [];
  root_post = [];
  user = [];
  oauth2_app = [];
  oauth2_user = [];
}

abbrev pub given_expand : Option Expand → Expand
given_expand none = empty_expand
given_expand (some expand) = expand

-- What stays of the context of the user agent.
abbrev pub cleaned : UserAgentContext → UserAgentContext
cleaned uac = record {
  channel_id = [];
  team_id = [];
  post_id = [];
  root_post_id = [];
  user_id = [];
  app_id = [];
  location = [];
  user_agent = uac.user_agent;
  track_as_submit = uac.track_as_submit;
}

module _ {S : Type 0} (services : Services S) (clean : Sanitizers) (d : Directory) (app : App)
    (r : Request) where
  -- The end of a step: an error counts where the field is required.
  abbrev pub unless_required :
      Bool → Result (Unit {0}) × Expander S → Result (Unit {0}) × Expander S
  unless_required required (ok t, e) = (ok tt, e)
  unless_required true (err x, e) = (err x, e)
  unless_required false (err x, e) = (ok tt, e)

  abbrev pub run_at : Step S → Bool × ExpandLevel → Action (Expander S) (Unit {0})
  run_at step (required, level) =
      if not (is_expandable level step.expandable_as)
      then pure tt
      else ensure_getter services clean d app r >> (λ e. unless_required required (step.f level e))

  -- A round of the loop.
  unfoldable pub run_step : Step S → Action (Expander S) (Unit {0})
  run_step step = lift (ExpandLevel.parse step.requested_level) >>= run_at step

  unfoldable pub run_steps : List (Step S) → Action (Expander S) (Unit {0})
  run_steps [] = pure tt
  run_steps (step ∷ steps) = run_step step >> run_steps steps

  abbrev pub steps_of : Expand → List (Step S)
  steps_of expand =
      record {
        requested_level = expand.acting_user_access_token;
        expandable_as = ExpandLevel.all ∷ [];
        f = expand_acting_user_access_token services clean d app r;
      }
      ∷ record {
        requested_level = expand.acting_user;
        expandable_as = any_level;
        f = expand_acting_user services clean d app r;
      }
      ∷ record {
        requested_level = expand.app;
        expandable_as = ExpandLevel.summary ∷ ExpandLevel.all ∷ [];
        f = expand_app services clean d app r;
      }
      ∷ record {
        requested_level = expand.channel_member;
        expandable_as = any_level;
        f = expand_channel_member services clean d app r;
      }
      ∷ record {
        requested_level = expand.channel;
        expandable_as = any_level;
        f = expand_channel services clean d app r;
      }
      ∷ record {
        requested_level = expand.locale;
        expandable_as = any_level;
        f = expand_locale services clean d app r;
      }
      ∷ record {
        requested_level = expand.oauth2_app;
        expandable_as = ExpandLevel.all ∷ [];
        f = expand_oauth2_app services clean d app r;
      }
      ∷ record {
        requested_level = expand.oauth2_user;
        expandable_as = ExpandLevel.all ∷ [];
        f = expand_oauth2_user services clean d app r;
      }
      ∷ record {
        requested_level = expand.post;
        expandable_as = any_level;
        f = expand_the_post services clean d app r;
      }
      ∷ record {
        requested_level = expand.root_post;
        expandable_as = any_level;
        f = expand_root_post services clean d app r;
      }
      ∷ record {
        requested_level = expand.team_member;
        expandable_as = any_level;
        f = expand_team_member services clean d app r;
      }
      ∷ record {
        requested_level = expand.team;
        expandable_as = any_level;
        f = expand_team services clean d app r;
      }
      ∷ record {
        requested_level = expand.user;
        expandable_as = any_level;
        f = expand_subject_user services clean d app r;
      }
      ∷ []

  abbrev pub checked : Action (Expander S) (Unit {0})
  checked e = (
    all_of (consistency_check r.acting_user_id e.context.user_agent_context e.context.expanded),
    e,
  )

  -- `expand`: the context that is sent on.
  unfoldable pub expand : Option Expand → Action (Expander S) (Context ExpandedContext)
  expand clause = do
    run_steps (steps_of (given_expand clause))
    checked
    reads (λ (e : Expander S).
        ok (record e.context { user_agent_context = cleaned e.context.user_agent_context }))

  abbrev pub fresh : ExpandedContext
  fresh = record {
    mattermost_site_url = services.site_url;
    developer_mode = services.developer_mode;
    app_path = services.app_path app.app_id;
    bot_user_id = app.bot_user_id;
    bot_access_token = [];
    app = none;
    acting_user = none;
    acting_user_access_token = [];
    locale = [];
    channel = none;
    channel_member = none;
    team = none;
    team_member = none;
    post = none;
    root_post = none;
    user = none;
    oauth2 = no_oauth2;
  }

  abbrev pub start : Context ExpandedContext → Option (Getter S) → S → Expander S
  start cc special s = record {
    context = record cc { expanded = fresh };
    getter = special;
    bot_access_token = [];
    acting_user_access_token = [];
    server = s;
  }

  abbrev pub expand_bot_token : Action (Expander S) (Unit {0})
  expand_bot_token =
      if contains app.granted_permissions act_as_bot && not (is_empty app.bot_user_id)
      then get_bot_access_token services clean d app r
        >>= (λ token. expand_by services clean d app r (λ x. record x { bot_access_token = token }))
      else pure tt

  -- `expandContext`, of a context that is given; the special getter serves notifications.
  unfoldable pub expand_context :
      Context ExpandedContext
      → Option Expand
      → Option (Getter S)
      → S
      → Result (Context ExpandedContext) × Expander S
  expand_context cc clause special s =
      if is_empty r.destination
      then (err other, start cc special s)
      else (expand_bot_token >> expand clause) (start cc special s)
