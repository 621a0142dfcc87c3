-- ===== src/Store/AppMaps.antt =====
-- The in-memory maps of the app store, and its look-up (server/store/apps.go).
use mattermost_plugin_apps.Base.{Str, Result, ok, err, not_found, none, some}
use mattermost_plugin_apps.Base.Assoc.{Assoc, lookup}
use mattermost_plugin_apps.Apps.App.{App}

pub record AppMaps : Type 0 where
  pub installed : Assoc App
  pub builtin_installed : Assoc App

-- `appStore.Get`: a builtin app hides an installed one.
unfoldable pub get : AppMaps → Str → Result App
get m app_id = elim (lookup app_id m.builtin_installed) [
  | some app ↦ ok app
  | none ↦ elim (lookup app_id m.installed) [ some app ↦ ok app | none ↦ err not_found ]
]
