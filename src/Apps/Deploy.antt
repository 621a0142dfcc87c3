-- ===== src/Apps/Deploy.antt =====
-- Deployment data of apps (apps/deploy.go, apps/deploy_http.go, apps/deploy_openfaas.go,
-- apps/deploy_plugin.go, utils/httputils/url.go).
pub mod Copying
pub mod Validity
use mattermost_plugin_apps.Base.{
  Str, bytes, Bool, true, false, ◌&&◌, ◌||◌, not, List, [], ◌∷◌, ◌++◌, Option, none, some, is_some,
  is_empty, is_nil, if◌then◌else◌, ◌==◌, Result, ok, err, invalid, other,
}
use mattermost_plugin_apps.Apps.Event.{Problems}

-- `type DeployType string`; `unknown` is any other text, the empty one included.
pub data DeployType : Type 0 where
  builtin http open_faas plugin : DeployType
  unknown : Str → DeployType

-- `known_deploy_types`: `KnownDeployTypes`.
abbrev pub known_deploy_types : List DeployType
known_deploy_types = builtin ∷ http ∷ open_faas ∷ plugin ∷ []

unfoldable pub same : DeployType → DeployType → Bool
same builtin builtin = true
same http http = true
same open_faas open_faas = true
same plugin plugin = true
same (unknown s) (unknown t) = s == t
same _ _ = false

-- `DeployTypes.Contains`.
unfoldable pub has_type : List DeployType → DeployType → Bool
has_type [] t = false
has_type (current ∷ types) t = same current t || has_type types t

-- `DeployType.Validate`.
unfoldable pub validate_type : DeployType → Result (Unit {0})
validate_type (unknown s) = err invalid
validate_type _ = ok tt

-- `DeployType.String`.
unfoldable pub type_name : DeployType → Str
type_name builtin = bytes "Built-in"
type_name http = bytes "HTTP"
type_name open_faas = bytes "OpenFaaS"
type_name plugin = bytes "Mattermost Plugin"
type_name (unknown s) = s

pub record Http : Type 0 where
  pub root_url : Str
  pub use_jwt : Bool

pub record OpenFaasFunction : Type 0 where
  pub path : Str
  pub name : Str

pub record OpenFaas : Type 0 where
  pub functions : List OpenFaasFunction

pub record Plugin : Type 0 where
  pub plugin_id : Str

pub record Deploy : Type 0 where
  pub http : Option Http
  pub open_faas : Option OpenFaas
  pub plugin : Option Plugin

-- What `url.ParseRequestURI` of the Go library answers of a URL.
pub record Url : Type 0 where
  pub scheme : Str
  pub host : Str

-- `IsValidURL`; the parameter is `url.ParseRequestURI`.
unfoldable pub is_valid_url : (Str → Result Url) → Str → Result (Unit {0})
is_valid_url parse_request_uri raw = elim (parse_request_uri raw) [
  | err e ↦ err e
  | ok u ↦
      if not (u.scheme == bytes "http") && not (u.scheme == bytes "https")
      then err other
      else if is_empty u.host
      then err other
      else ok tt
]

-- `HTTP.Validate`; the nil pointer is valid.
unfoldable pub validate_http : (Str → Result Url) → Option Http → Problems
validate_http parse_request_uri none = []
validate_http parse_request_uri (some h) =
    if is_empty h.root_url
    then invalid ∷ []
    else elim (is_valid_url parse_request_uri h.root_url) [ ok u ↦ [] | err e ↦ invalid ∷ [] ]

-- `OpenFAASFunction.Validate`.
unfoldable pub validate_function : OpenFaasFunction → Result (Unit {0})
validate_function f =
    if is_empty f.path then err invalid else if is_empty f.name then err invalid else ok tt

-- The loop of `OpenFAAS.Validate`, which stops at the first error.
unfoldable pub validate_functions : List OpenFaasFunction → Problems
validate_functions [] = []
validate_functions (f ∷ fs) =
    let rest = validate_functions fs in elim (validate_function f) [ err e ↦ e ∷ [] | ok u ↦ rest ]

-- `OpenFAAS.Validate`.
unfoldable pub validate_open_faas : Option OpenFaas → Problems
validate_open_faas none = []
validate_open_faas (some o) =
    if is_nil o.functions then invalid ∷ [] else validate_functions o.functions

-- `Plugin.Validate`.
unfoldable pub validate_plugin : Option Plugin → Problems
validate_plugin none = []
validate_plugin (some p) = if is_empty p.plugin_id then invalid ∷ [] else []

-- `Deploy.Validate`.
unfoldable pub validate : (Str → Result Url) → Deploy → Problems
validate parse_request_uri d =
    let given : Problems =
      if is_some d.http || is_some d.open_faas || is_some d.plugin then [] else invalid ∷ [] in
    given
    ++ (validate_http parse_request_uri d.http
        ++ (validate_open_faas d.open_faas ++ validate_plugin d.plugin))

listed : Bool → DeployType → List DeployType
listed given t = if given then t ∷ [] else []

-- `Deploy.DeployTypes`.
unfoldable pub deploy_types : Deploy → List DeployType
unfolding listed
deploy_types d =
    listed (is_some d.http) http
    ++ (listed (is_some d.open_faas) open_faas ++ listed (is_some d.plugin) plugin)

-- `Deploy.MustDeployAs`: the only type, or the empty text.
unfoldable pub must_deploy_as : Deploy → DeployType
must_deploy_as d = elim (deploy_types d) [
  | [] ↦ unknown []
  | t ∷ more ↦ elim more [ [] ↦ t | u ∷ rest ↦ unknown [] ]
]

-- `Deploy.Contains`.
unfoldable pub contains : Deploy → DeployType → Bool
contains d http = is_some d.http
contains d open_faas = is_some d.open_faas
contains d plugin = is_some d.plugin
contains d _ = false

-- `Deploy.CopyType`.
unfoldable pub copy_type : Deploy → Deploy → DeployType → Deploy
copy_type d src http = record d { http = src.http }
copy_type d src open_faas = record d { open_faas = src.open_faas }
copy_type d src plugin = record d { plugin = src.plugin }
copy_type d src _ = d
