-- ===== src/Store/Apps/Listing.antt =====
-- What the maps of the app store list.
use mattermost_plugin_apps.Base.{
  Str, true, [], ◌∷◌, ◌≡◌, refl, ok, err, not_found, Option, none, some, ◌==◌, Result, Bool-cases,
  inl, inr,
}
use mattermost_plugin_apps.Base.Assoc.{Assoc, lookup, lookup-insert}
use mattermost_plugin_apps.Apps.App.{App}
use mattermost_plugin_apps.Store.AppMaps
use mattermost_plugin_apps.Store.AppMaps.{AppMaps}
use mattermost_plugin_apps.Store.Apps.{as_map, put_all, enabled_only}

abbrev or_else : Option App → Option App → Option App
or_else none b = b
or_else (some a) b = some a

lookup-put_all :
    (id : Str) (m out : Assoc App)
    → lookup id (put_all m out) ≡ or_else (lookup id m) (lookup id out)
unfolding put_all lookup
lookup-put_all id [] out = refl
lookup-put_all id ((j, app) ∷ m) out = elim (Bool-cases (j == id)) [
  | inl e ↦ rw (lookup-insert j id app (put_all m out), e) refl
  | inr e ↦ rw (lookup-insert j id app (put_all m out), e) (lookup-put_all id m out)
]

enabled_only_all : (m : Assoc App) → enabled_only true m ≡ m
unfolding enabled_only
enabled_only_all [] = refl
enabled_only_all ((id, app) ∷ m) = rw (enabled_only_all m) refl

abbrev pub found : Option App → Result App
found none = err not_found
found (some app) = ok app

-- The map of all apps has for an ID what `Get` gives for it: a builtin app hides an installed one.
pub get-as_map : (m : AppMaps) (id : Str) → AppMaps.get m id ≡ found (lookup id (as_map true m))
unfolding AppMaps.get as_map lookup
get-as_map m id =
    rw
      (
        enabled_only_all m.builtin_installed,
        enabled_only_all m.installed,
        lookup-put_all id m.builtin_installed (put_all m.installed []),
        lookup-put_all id m.installed [],
      )
      (by_cases (lookup id m.builtin_installed) (lookup id m.installed))
  where
    by_cases :
        (a b : Option App)
        → (elim a as (λ x. Result App) [
          | some app ↦ ok app
          | none ↦ elim b as (λ x. Result App) [ some app ↦ ok app | none ↦ err not_found ]
        ])
          ≡ found (or_else a (or_else b none))
    by_cases none none = refl
    by_cases none (some b) = refl
    by_cases (some a) b = refl
