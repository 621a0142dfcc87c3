-- ===== src/Proxy/Calls/Paths.antt =====
-- The paths that only the proxy calls.
use mattermost_plugin_apps.Base.{
  Str, Bool, true, false, List, [], ◌∷◌, ◌≡◌, ◌≢◌, ◌↔◌, refl, Result, ok, Option, none, some, ◌==◌,
  All, eq_iff, eq_sound, sym, ◌∙◌, Bool-cases, inl, inr, ◌>>◌,
}
use mattermost_plugin_apps.Apps.App.{App}
use mattermost_plugin_apps.Apps.Call.{Call}
use mattermost_plugin_apps.Proxy.Calls.{
  matches_call_path, refuse_if, check_for_forbidden_path, default_ping, default_connect,
  default_complete, default_webhook,
}

-- The calls of the manifest that only the proxy makes, each with the path of its default, if there is
-- one: ping, the life cycle, OAuth2 and the webhook. The call for the bindings is not among them.
abbrev pub reserved_calls : App → List (Option Call × Option Str)
reserved_calls app =
    (none, some default_ping)
    ∷ (app.on_install, none)
    ∷ (app.on_uninstall, none)
    ∷ (app.on_version_changed, none)
    ∷ (app.on_enable, none)
    ∷ (app.on_disable, none)
    ∷ (app.get_oauth2_connect_url, some default_connect)
    ∷ (app.on_oauth2_complete, some default_complete)
    ∷ (app.on_remote_webhook, some default_webhook)
    ∷ []

-- The path is not that of a call, or of its default where the manifest has none.
abbrev pub DiffersFrom : Str → Option Call × Option Str → Type 0
DiffersFrom path (some call, default) = path ≢ call.path
DiffersFrom path (none, some default) = path ≢ default
DiffersFrom path (none, none) = Unit

-- The path is that of no call which only the proxy makes.
abbrev pub IsOpen : App → Str → Type 0
IsOpen app path = All (DiffersFrom path) (reserved_calls app)

not_path : (p path : Str) → (p == path) ≡ false → path ≢ p
not_path p path h e = absurd (cc (sym h ∙ (eq_iff p path).1 (sym e)))

not_equal : (p path : Str) → path ≢ p → (p == path) ≡ false
not_equal p path h = elim (Bool-cases (p == path)) [
  | inl e ↦ absurd (h (sym (eq_sound p path e)))
  | inr e ↦ e
]

matches_call_path_iff :
    (call : Option Call) (default : Option Str) (path : Str)
    → (matches_call_path call default path ≡ false) ↔ DiffersFrom path (call, default)
matches_call_path_iff (some call) default path = (not_path call.path path, not_equal call.path path)
matches_call_path_iff none (some default) path = (not_path default path, not_equal default path)
matches_call_path_iff none none path = ((λ h. tt), λ h. refl)

check_calls : Str → List (Option Call × Option Str) → Result (Unit {0})
check_calls path [] = ok tt
check_calls path ((call, default) ∷ calls) =
    refuse_if (matches_call_path call default path) >> check_calls path calls

refuse_if_iff :
    (b : Bool) (k : Result (Unit {0})) → ((refuse_if b >> k) ≡ ok tt) ↔ ((b ≡ false) × (k ≡ ok tt))
refuse_if_iff true k = ((λ h. absurd (cc h)), λ (h, _). absurd (cc h))
refuse_if_iff false k = ((λ h. (refl, h)), λ (_, h). h)

check_calls_iff :
    (path : Str) (calls : List (Option Call × Option Str))
    → (check_calls path calls ≡ ok tt) ↔ All (DiffersFrom path) calls
unfolding check_calls
check_calls_iff path [] = ((λ h. tt), λ h. refl)
check_calls_iff path ((call, default) ∷ calls) =
    let first = matches_call_path_iff call default path in
    let later = check_calls_iff path calls in
    let step = refuse_if_iff (matches_call_path call default path) (check_calls path calls) in
    ((λ h. (first.0 (step.0 h).0, later.0 (step.0 h).1)), λ (h, k). step.1 (first.1 h, later.1 k))

check_for_forbidden_path_eq :
    (app : App) (path : Str)
    → check_for_forbidden_path app path ≡ check_calls path (reserved_calls app)
unfolding check_for_forbidden_path check_calls
check_for_forbidden_path_eq app path = refl

pub check_for_forbidden_path_iff :
    (app : App) (path : Str) → (check_for_forbidden_path app path ≡ ok tt) ↔ IsOpen app path
check_for_forbidden_path_iff app path =
    rw (check_for_forbidden_path_eq app path) (check_calls_iff path (reserved_calls app))
