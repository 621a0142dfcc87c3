-- ===== src/Proxy/Upstreams/Tests.antt =====
-- A server that stops to allow apps over HTTP.
use mattermost_plugin_apps.Base.{true, false, [], ◌≡◌, refl, ok, err, other, some, ℕ, Result}
use mattermost_plugin_apps.Apps.Deploy.{DeployType, same, builtin}
use mattermost_plugin_apps.Store.Apps.Sample.{sample}
use mattermost_plugin_apps.Proxy.Upstreams.{Config, Upstreams, upstream_for_app, configure}
use mattermost_plugin_apps.Proxy.Upstreams.Available.{upstream_for_app-configure}

abbrev config : Config
config = record { developer_mode = false; allow_http_apps = false; mattermost_cloud_mode = true }

abbrev before : Upstreams ℕ
before = record { of_builtin = []; of_type = λ t. some 1 }

abbrev make : DeployType → Result ℕ
make t = ok 2

not_builtin : same sample.deploy_type builtin ≡ false
unfolding same
not_builtin = refl

upstream_for_app-configure_example :
    upstream_for_app config (configure config make before) sample ≡ err other
upstream_for_app-configure_example =
    upstream_for_app-configure config make before sample not_builtin
