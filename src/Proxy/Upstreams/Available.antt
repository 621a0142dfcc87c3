-- ===== src/Proxy/Upstreams/Available.antt =====
-- Which upstreams there are after the configuration has changed.
use mattermost_plugin_apps.Base.{
  Bool, true, false, not, ◌||◌, ◌&&◌, ◌≡◌, refl, Result, ok, err, other, Option, none, some,
  if◌then◌else◌, is_some, arith, ap, ◌∙◌, Bool-cases, inl, inr, if_false,
}
use mattermost_plugin_apps.Apps.App.{App}
use mattermost_plugin_apps.Apps.Deploy.{
  DeployType, builtin, plugin, http, open_faas, unknown, same, has_type,
}
use mattermost_plugin_apps.Proxy.Upstreams.{
  Config, Upstreams, can_deploy, upstream_for_app, configure, init_upstream, loaded, or_old, put,
}

-- The types that a configuration allows.
abbrev pub is_allowed : Config → DeployType → Bool
is_allowed c builtin = true
is_allowed c plugin = true
is_allowed c http = c.developer_mode || c.allow_http_apps
is_allowed c open_faas = c.developer_mode || not c.mattermost_cloud_mode
is_allowed c (unknown t) = c.developer_mode

module _ {U : Type 0} where
  can_deploy_eq :
      (c : Config) (ups : Upstreams U) (t : DeployType)
      → can_deploy c ups t ≡ (is_allowed c t, is_allowed c t && is_some (ups.of_type t))
  unfolding can_deploy has_type same
  can_deploy_eq c ups builtin = ground arith
  can_deploy_eq c ups plugin = ground arith
  can_deploy_eq c ups http = ground arith
  can_deploy_eq c ups open_faas = ground arith
  can_deploy_eq c ups (unknown t) = ground arith

  -- The upstream of a type after a change of the configuration: the one that is made, or the old one
  -- where making one fails; none where the type is not allowed.
  abbrev pub renewed : Bool → Result U → Option U → Option U
  renewed false made old = none
  renewed true (ok u) old = some u
  renewed true (err e) old = old

  -- A configuration renews the upstreams of three types and leaves the others.
  abbrev pub after_configure :
      Config → (DeployType → Result U) → Upstreams U → DeployType → Option U
  after_configure c make ups http = renewed (is_allowed c http) (make http) (ups.of_type http)
  after_configure c make ups plugin =
      renewed (is_allowed c plugin) (make plugin) (ups.of_type plugin)
  after_configure c make ups open_faas =
      renewed (is_allowed c open_faas) (make open_faas) (ups.of_type open_faas)
  after_configure c make ups builtin = ups.of_type builtin
  after_configure c make ups (unknown t) = ups.of_type (unknown t)

  or_old_lem :
      (t t' : DeployType) (b : Bool) (made : Result U) (ups : Upstreams U)
      → (if b then or_old t made ups else put t none ups).of_type t'
        ≡ (if same t t' then renewed b made (ups.of_type t') else ups.of_type t')
  or_old_lem t t' false made ups = refl
  or_old_lem t t' true (ok u) ups = refl
  or_old_lem t t' true (err e) ups = elim (Bool-cases (same t t')) [
    | inl e' ↦ rw e' refl
    | inr e' ↦ rw e' refl
  ]

  init_upstream_lem :
      (t t' : DeployType) (c : Config) (made : Result U) (ups : Upstreams U)
      → (init_upstream t c made ups).of_type t'
        ≡ (if same t t' then renewed (is_allowed c t) made (ups.of_type t') else ups.of_type t')
  unfolding init_upstream
  init_upstream_lem t t' c made ups =
      rw (init_upstream, can_deploy_eq c ups t) (or_old_lem t t' (is_allowed c t) made ups)

  -- The three steps of `Configure`, for one type.
  abbrev step : Config → (DeployType → Result U) → DeployType → DeployType → Option U → Option U
  step c make t' t old = if same t t' then renewed (is_allowed c t) (make t) old else old

  steps_lem :
      (c : Config) (make : DeployType → Result U) (ups : Upstreams U) (t : DeployType)
      → step c make t open_faas (step c make t plugin (step c make t http (ups.of_type t)))
        ≡ after_configure c make ups t
  unfolding same
  steps_lem c make ups builtin = refl
  steps_lem c make ups plugin = refl
  steps_lem c make ups http = refl
  steps_lem c make ups open_faas = refl
  steps_lem c make ups (unknown t) = refl

  of_type-configure :
      (c : Config) (make : DeployType → Result U) (ups : Upstreams U) (t : DeployType)
      → (configure c make ups).of_type t ≡ after_configure c make ups t
  unfolding configure
  of_type-configure c make ups t =
      let ups1 = init_upstream http c (make http) ups in
      let ups2 = init_upstream plugin c (make plugin) ups1 in
      init_upstream_lem open_faas t c (make open_faas) ups2
      ∙ ap (step c make t open_faas) (
          init_upstream_lem plugin t c (make plugin) ups1
          ∙ ap (step c make t plugin) (init_upstream_lem http t c (make http) ups))
      ∙ steps_lem c make ups t

  -- An upstream that is there, for a type that is allowed.
  abbrev pub available : Bool → Option U → Result U
  available true (some u) = ok u
  available true none = err other
  available false u = err other

  available_lem :
      (b : Bool) (u : Option U)
      → (if not (b && is_some u) then err other else loaded u) ≡ available b u
  available_lem true none = refl
  available_lem true (some u) = refl
  available_lem false u = refl

  -- After `Configure`, an app that is not builtin has an upstream exactly if the new configuration
  -- allows its type and the upstream of the type has been made, or was not made and was there
  -- before; it is the one that was made last.
  pub upstream_for_app-configure :
      (c : Config) (make : DeployType → Result U) (ups : Upstreams U) (app : App)
      → same app.deploy_type builtin ≡ false
      → upstream_for_app c (configure c make ups) app
        ≡ available (is_allowed c app.deploy_type) (after_configure c make ups app.deploy_type)
  unfolding upstream_for_app
  upstream_for_app-configure c make ups app h =
      let t = app.deploy_type in
      if_false _ _ (same t builtin) h
      ∙ rw (can_deploy_eq c (configure c make ups) t, of_type-configure c make ups t)
          (available_lem (is_allowed c t) (after_configure c make ups t))
