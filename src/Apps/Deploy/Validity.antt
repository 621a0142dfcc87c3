-- ===== src/Apps/Deploy/Validity.antt =====
-- When the deployment data of a manifest is valid.
use mattermost_plugin_apps.Base.{
  Str, bytes, true, false, List, [], ◌∷◌, ◌++◌, ◌≡◌, ◌↔◌, ◌⊎◌, refl, arith, Option, none, some,
  is_some, is_empty, is_nil, All, ok, Result, Result-cases, inl, inr, eq_iff, invalid,
  if◌then◌else◌, ◌||◌,
}
use mattermost_plugin_apps.Apps.Event.{Problems}
use mattermost_plugin_apps.Apps.Deploy.{
  Deploy, Http, OpenFaas, OpenFaasFunction, Plugin, Url, is_valid_url, validate_http,
  validate_function, validate_functions, validate_open_faas, validate_plugin, validate,
}

-- A URL with a host, over HTTP.
abbrev pub IsWeb : (Str → Result Url) → Str → Type 0
IsWeb parse_request_uri raw =
    (u : Url) × (parse_request_uri raw ≡ ok u)
    × ((u.scheme ≡ bytes "http") ⊎ (u.scheme ≡ bytes "https"))
    × (is_empty u.host ≡ false)

abbrev pub IsValidHttp : (Str → Result Url) → Option Http → Type 0
IsValidHttp parse_request_uri none = Unit
IsValidHttp parse_request_uri (some h) =
    (is_empty h.root_url ≡ false) × IsWeb parse_request_uri h.root_url

abbrev pub IsValidFunction : OpenFaasFunction → Type 0
IsValidFunction f = (is_empty f.path ≡ false) × (is_empty f.name ≡ false)

abbrev pub IsValidOpenFaas : Option OpenFaas → Type 0
IsValidOpenFaas none = Unit
IsValidOpenFaas (some o) = (is_nil o.functions ≡ false) × All IsValidFunction o.functions

abbrev pub IsValidPlugin : Option Plugin → Type 0
IsValidPlugin none = Unit
IsValidPlugin (some p) = is_empty p.plugin_id ≡ false

is_valid_url_iff :
    (parse_request_uri : Str → Result Url) (raw : Str)
    → (is_valid_url parse_request_uri raw ≡ ok tt) ↔ IsWeb parse_request_uri raw
unfolding is_valid_url
is_valid_url_iff parse_request_uri raw = elim (Result-cases (parse_request_uri raw)) [
  | inr (x, e) ↦ ((λ h. absurd (cc (rw (e, is_valid_url) at h))), λ (u, k, _, _). cc (e, k))
  | inl (u, e) ↦
      let http = eq_iff u.scheme (bytes "http") in
      let https = eq_iff u.scheme (bytes "https") in
      (
        (λ h. (
          u,
          e,
          ground (arith, http, https, rw (e, is_valid_url) at h),
          ground (arith, rw (e, is_valid_url) at h),
        )),
        λ (v, k, scheme, host).
            let same : u ≡ v = ground (arith, e, k) in
            rw (k, is_valid_url)
              (ground (
                arith,
                eq_iff v.scheme (bytes "http"),
                eq_iff v.scheme (bytes "https"),
                scheme,
                host,
              )),
      )
]

append_nil : (xs ys : Problems) → xs ++ ys ≡ [] → (xs ≡ []) × (ys ≡ [])
append_nil [] ys h = (refl, h)
append_nil (x ∷ xs) ys h = absurd (cc h)

validate_http_iff :
    (parse_request_uri : Str → Result Url) (h : Option Http)
    → (validate_http parse_request_uri h ≡ []) ↔ IsValidHttp parse_request_uri h
unfolding validate_http
validate_http_iff parse_request_uri none = ground arith
validate_http_iff parse_request_uri (some h) =
    elim (Result-cases (is_valid_url parse_request_uri h.root_url)) [
      | inl (u, e) ↦
          let web = (is_valid_url_iff parse_request_uri h.root_url).0 e in
          ((λ k. (ground (arith, k), web)), λ (given, _). rw (given, e) refl)
      | inr (x, e) ↦ (
        (λ k. absurd (ground (arith, rw e at k))),
        λ (_, web). cc (e, (is_valid_url_iff parse_request_uri h.root_url).1 web),
      )
    ]

validate_functions_iff :
    (fs : List OpenFaasFunction) → (validate_functions fs ≡ []) ↔ All IsValidFunction fs
unfolding validate_functions validate_function
validate_functions_iff [] = ground arith
validate_functions_iff (f ∷ fs) = ground (arith, validate_functions_iff fs)

validate_open_faas_iff : (o : Option OpenFaas) → (validate_open_faas o ≡ []) ↔ IsValidOpenFaas o
unfolding validate_open_faas
validate_open_faas_iff none = ground arith
validate_open_faas_iff (some o) = ground (arith, validate_functions_iff o.functions)

validate_plugin_iff : (p : Option Plugin) → (validate_plugin p ≡ []) ↔ IsValidPlugin p
unfolding validate_plugin
validate_plugin_iff none = ground arith
validate_plugin_iff (some p) = ground arith

-- Deployment data is accepted exactly if at least one deployment is given and each that is given is
-- valid: over HTTP with a root URL that parses, has the scheme http or https and has a host; over
-- OpenFaaS with at least one function, each with a path and a name; as a plugin with an ID.
pub validate_deploy_iff :
    (parse_request_uri : Str → Result Url) (d : Deploy)
    → (validate parse_request_uri d ≡ []) ↔ (
        ((is_some d.http ≡ true) ⊎ (is_some d.open_faas ≡ true) ⊎ (is_some d.plugin ≡ true))
        × IsValidHttp parse_request_uri d.http
        × IsValidOpenFaas d.open_faas
        × IsValidPlugin d.plugin)
unfolding validate
validate_deploy_iff parse_request_uri d =
    let http = validate_http_iff parse_request_uri d.http in
    let open_faas = validate_open_faas_iff d.open_faas in
    let plugin = validate_plugin_iff d.plugin in
    (
      (λ h.
          let (given, hs) =
            append_nil
              (if is_some d.http || is_some d.open_faas || is_some d.plugin
                then []
                else invalid ∷ [])
              _ h in
          let (h1, hs1) = append_nil (validate_http parse_request_uri d.http) _ hs in
          let (h2, h3) = append_nil (validate_open_faas d.open_faas) _ hs1 in
          (ground (arith, given), http.0 h1, open_faas.0 h2, plugin.0 h3)),
      λ (given, h, o, p). rw (http.1 h, open_faas.1 o, plugin.1 p) (ground (arith, given)),
    )
