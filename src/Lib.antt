-- ===== src/Lib.antt =====
-- The Mattermost Apps plugin, a server plugin that installs apps, keeps their records, fetches
-- their bindings, expands the context of the calls to them and passes calls on. The development
-- models the data model (apps), the checks on incoming requests (server/incoming), the stores
-- (server/store), the services that apps use (server/appservices) and the proxy (server/proxy).
--
-- Base holds the shared helpers. A Go string is its list of bytes (Base.Text); an error is its
-- class, one of utils/errors.go or any other (Base.Errors); a method that changes the state of the
-- server returns the new state beside its result, also when it fails (Base.Action). A nil pointer
-- is `none`, a `multierror` is the list of its errors.
--
-- Apps.Location, Apps.Permission, Apps.ExpandLevel, Apps.Call, Apps.Event, Apps.Deploy and
-- Apps.App model apps/locations.go, permissions.go, expand.go, call.go, subscription.go, deploy.go
-- (with deploy_http.go, deploy_openfaas.go and deploy_plugin.go), app.go and manifest.go. Incoming
-- models server/incoming/request.go; what the Mattermost server answers about users and sessions
-- is its parameter `Directory`. Store.Kv is the key-value API of the server, a parameter with its
-- documented laws, which Store.Kv.Memory shows can be met. Store.Subscriptions models
-- server/store/subscriptions.go, Store.Sessions server/store/session.go, Services.Subscribe
-- server/appservices/subscriptions.go.
--
-- Logging, metrics and time spent are left out. Texts of errors are left out too.
--
-- Proxy.Form models server/proxy/form.go (cleanForm, cleanStaticSelect), Proxy.Bindings
-- server/proxy/invoke_bindings.go (cleanAppBindings, cleanAppBinding) and Proxy.Bindings.Merge
-- mergeBindings of server/proxy/bindings.go; the trees of bindings and the forms are in
-- Apps.Binding and Apps.Form. The normalisation of icon paths is a parameter there. Both
-- recursions on trees of bindings are structural, so nothing in them needs fuel; trimming white
-- space (Base.Text) runs on the length of the string, since each round removes a byte.
--
-- Store.Apps models server/store/apps.go: the records of the installed apps in the key-value
-- store, their hashes in the configuration (the interface InstalledConfig) and the maps in memory.
-- Proxy.Lifecycle models EnableApp, DisableApp, UninstallApp, GetInstalledApp and GetApp of
-- server/proxy/enable.go, uninstall.go and list.go over two interfaces: AppStore, which
-- Proxy.Lifecycle.Stored fills by Store.Apps, and Effects, which stands for the Mattermost server
-- and the other components, none of which changes the records of apps, but for the calls to the
-- apps: an app may change records while it is called, as with StoreOAuth2App, and all that is
-- taken of a call is that the store stays valid.
--
-- Proxy.Upstreams models canDeploy, upstreamForApp, initUpstream and Configure of
-- server/proxy/service.go; an upstream is of any type, and making one is a parameter. Proxy.Calls
-- models InvokeCall and checkForForbiddenPath of server/proxy/invoke_call.go, with the call to the
-- app as a parameter, and validateWebhookAuthentication of invoke_webhook.go; the function
-- path.Clean of Go is a parameter (Utils). A read beyond the end of a path is an outcome of its
-- own. SessionService models GetOrCreate of server/session/session.go; the clock and the sessions
-- of the Mattermost server are a parameter, and that a session which the server creates keeps the
-- expiry is a hypothesis. Times are natural numbers, without the limits of 64 bits.
--
-- Apps.Context and Apps.Timer model apps/context.go, call_request.go and timer.go; what a context
-- is expanded with is a parameter. Store.Sessions.Pages models the loops over pages of keys of
-- server/store/session.go, on fuel; more fuel than there are keys is enough, since each page but
-- the last takes a key at least. Proxy.Notify models server/proxy/notify.go as the list of the
-- subscriptions that each event reaches.
--
-- Apps.Entities models the Strip functions of apps/expand.go; of users, channels, teams and posts
-- it keeps the fields that the plugin reads, and the others as one. Proxy.Expand models
-- server/proxy/expand.go: its state is the record Expander, its surroundings (the session service,
-- the app at the destination, the getters of the Mattermost server) are the record Services.
-- Fields has the function of each field, Whole the table of steps and their run, Consistency the
-- check after them.
--
-- Store.HashKeys models Hashkey and ParseHashkey of server/store/service.go, Store.AppKv the data
-- of apps in server/store/appkv.go, Store.OAuth2 server/store/oauth2.go, and Services.Data the
-- calls of server/appservices/kv.go and oauth2.go in front of them. The digest of a key and the
-- random part of a state are parameters.
--
-- Proxy.Install models server/proxy/install.go in three parts (prepare, provide, store_and_tell);
-- what comes of the Mattermost server is the record Effects there. The waits between the tries of
-- createAndValidateBot are left out, their number is that of the source.
--
-- Store.Manifests models server/store/manifest.go; the JSON of manifests, its decoding and its
-- SHA-1 are a parameter (Codec).
--
-- Not modelled: the synchronisation of apps after an upgrade, and the lists of apps and keys.
-- Configuration, HTTP routing, the upstreams, the client libraries and the builtin commands are
-- input and output around these parts.
pub mod Base
pub mod Apps
pub mod Utils
pub mod Incoming
pub mod Store
pub mod Services
pub mod SessionService
pub mod Proxy
