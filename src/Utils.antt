-- ===== src/Utils.antt =====
-- Paths and locales (utils/path.go, utils/mattermost.go).
use mattermost_plugin_apps.Base.{
  Str, bytes, Option, none, some, ◌||◌, Result, ok, err, invalid, is_empty, has_prefix,
  if◌then◌else◌, ◌==◌,
}

-- `CleanPath`; `clean` is `path.Clean` of Go.
unfoldable pub clean_path : (Str → Str) → Str → Result Str
clean_path clean p =
    if is_empty p
    then err invalid
    else if clean p == bytes "." || has_prefix (clean p) (bytes "../")
    then err invalid
    else ok (clean p)

-- `GetLocaleWithUser` (utils/mattermost.go), of the user's locale, if there is a user, and the default
-- locales of the configuration.
abbrev pub or_default_locale : Option Str → Str → Str
or_default_locale none other = other
or_default_locale (some locale) other = if is_empty locale then other else locale

unfoldable pub get_locale_with_user : Option Str → Option Str → Option Str → Str
get_locale_with_user client server user =
    or_default_locale user (or_default_locale client (or_default_locale server (bytes "en")))
