-- ===== src/Proxy/Upstreams.antt =====
-- Which apps can be reached, by the way they are deployed (server/proxy/service.go).
pub mod Available
mod Tests
use mattermost_plugin_apps.Base.{
  Str, Bool, true, false, not, ◌||◌, List, [], ◌∷◌, ◌++◌, Result, ok, err, not_found, other,
  invalid, Option, none, some, if◌then◌else◌, is_some,
}
use mattermost_plugin_apps.Base.Assoc.{Assoc, lookup}
use mattermost_plugin_apps.Apps.App.{App}
use mattermost_plugin_apps.Apps.Deploy.{
  DeployType, builtin, plugin, http, open_faas, same, has_type,
}

-- What is read of the configuration.
pub record Config : Type 0 where
  pub developer_mode : Bool
  pub allow_http_apps : Bool
  pub mattermost_cloud_mode : Bool

-- The upstreams by app, for the builtin apps, and by type (a `sync.Map`).
pub record Upstreams (U : Type 0) : Type 0 where
  pub of_builtin : Assoc U
  pub of_type : DeployType → Option U

abbrev pub supported_types : Config → List DeployType
supported_types c =
    builtin ∷ plugin ∷ []
    ++ (if c.allow_http_apps then http ∷ [] else [])
    ++ (if not c.mattermost_cloud_mode then open_faas ∷ [] else [])

module _ {U : Type 0} where
  -- `canDeploy`: whether the type is allowed, and whether it is usable too.
  unfoldable pub can_deploy : Config → Upstreams U → DeployType → Bool × Bool
  can_deploy c ups t =
      if c.developer_mode
      then (true, is_some (ups.of_type t))
      else if has_type (supported_types c) t
      then (true, is_some (ups.of_type t))
      else (false, false)

  abbrev pub loaded : Option U → Result U
  loaded none = err invalid
  loaded (some u) = ok u

  abbrev pub found_builtin : Option U → Result U
  found_builtin none = err not_found
  found_builtin (some u) = ok u

  -- `upstreamForApp`.
  unfoldable pub upstream_for_app : Config → Upstreams U → App → Result U
  upstream_for_app c ups app =
      if same app.deploy_type builtin
      then found_builtin (lookup app.app_id ups.of_builtin)
      else if not (can_deploy c ups app.deploy_type).1
      then err other
      else loaded (ups.of_type app.deploy_type)

  abbrev put : DeployType → Option U → Upstreams U → Upstreams U
  put t u ups = record ups { of_type = λ t'. if same t t' then u else ups.of_type t' }

  -- The result of making an upstream: the old one stays where making one fails.
  abbrev or_old : DeployType → Result U → Upstreams U → Upstreams U
  or_old t (ok u) ups = put t (some u) ups
  or_old t (err e) ups = ups

  -- `initUpstream`.
  unfoldable pub init_upstream : DeployType → Config → Result U → Upstreams U → Upstreams U
  init_upstream t c made ups = if (can_deploy c ups t).0 then or_old t made ups else put t none ups

  -- `Configure`.
  unfoldable pub configure : Config → (DeployType → Result U) → Upstreams U → Upstreams U
  configure c make ups =
      init_upstream open_faas c (make open_faas)
        (init_upstream plugin c (make plugin) (init_upstream http c (make http) ups))
