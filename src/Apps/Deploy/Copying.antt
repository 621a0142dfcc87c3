-- ===== src/Apps/Deploy/Copying.antt =====
-- Which deployments are given, chosen and copied.
use mattermost_plugin_apps.Base.{true, ◌≡◌, ◌↔◌, arith, if◌then◌else◌}
use mattermost_plugin_apps.Apps.Deploy.{
  DeployType, Deploy, same, has_type, deploy_types, must_deploy_as, contains, copy_type, listed,
}

-- Copying a deployment replaces whether that type is given, and changes no other type.
pub contains-copy_type :
    (d src : Deploy) (t u : DeployType)
    → contains (copy_type d src t) u ≡ (if same t u then contains src u else contains d u)
unfolding contains copy_type same
contains-copy_type d src DeployType.http u = ground arith
contains-copy_type d src t u = ground arith

-- The listed types are those that are given.
pub has_type-deploy_types :
    (d : Deploy) (u : DeployType) → has_type (deploy_types d) u ≡ contains d u
unfolding has_type deploy_types contains listed same
has_type-deploy_types d u = ground arith

-- A type that is given is chosen exactly if no other type is given.
pub must_deploy_as_iff :
    (d : Deploy) (t : DeployType)
    → contains d t ≡ true
    → (must_deploy_as d ≡ t) ↔ ((u : DeployType) → contains d u ≡ true → u ≡ t)
unfolding must_deploy_as deploy_types contains listed
must_deploy_as_iff d t h = (
  (λ e u k. ground arith),
  λ f.
      let no_http = f DeployType.http in
      let no_open_faas = f DeployType.open_faas in
      let no_plugin = f DeployType.plugin in
      ground (arith, f DeployType.http, f DeployType.open_faas, f DeployType.plugin),
)
