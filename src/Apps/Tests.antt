-- ===== src/Apps/Tests.antt =====
-- Permissions and expand levels.
use mattermost_plugin_apps.Base.{
  true, false, none, some, ok, Str, Result, ◌⊎◌, is_some, bytes, [], ◌≡◌, ◌↔◌,
}
use mattermost_plugin_apps.Apps.ExpandLevel
use mattermost_plugin_apps.Apps.ExpandLevel.{parse}
use mattermost_plugin_apps.Apps.ExpandLevel.RoundTrip.{marked, parse_iff}
use mattermost_plugin_apps.Apps.Deploy as Deployment
use mattermost_plugin_apps.Apps.Deploy.{
  Deploy, DeployType, Url, has_type, deploy_types, must_deploy_as, copy_type, same,
}
use mattermost_plugin_apps.Apps.Deploy.Validity.{
  IsValidHttp, IsValidOpenFaas, IsValidPlugin, validate_deploy_iff,
}

parse_iff_example :
    (parse (bytes "+id") ≡ ok (true, ExpandLevel.id)) ↔ (bytes "+id" ≡ marked true ExpandLevel.id)
parse_iff_example = parse_iff (bytes "+id") true ExpandLevel.id

abbrev over_http : Deploy
over_http = record {
  http = some (record { root_url = bytes "http://a"; use_jwt = false });
  open_faas = none;
  plugin = none;
}

abbrev as_plugin : Deploy
as_plugin = record {
  http = none;
  open_faas = none;
  plugin = some (record { plugin_id = bytes "p" });
}

abbrev parses : Str → Result Url
parses raw = ok (record { scheme = bytes "http"; host = bytes "a" })

deploy_example : (Deployment.validate parses over_http ≡ []) ↔ (
    ((is_some over_http.http ≡ true)
      ⊎ (is_some over_http.open_faas ≡ true)
      ⊎ (is_some over_http.plugin ≡ true))
    × IsValidHttp parses over_http.http
    × IsValidOpenFaas over_http.open_faas
    × IsValidPlugin over_http.plugin)
deploy_example = validate_deploy_iff parses over_http
