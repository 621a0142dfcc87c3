-- ===== src/Apps/Location.antt =====
-- Locations of the user interface to which an app binds (apps/locations.go).
use mattermost_plugin_apps.Base.{
  Str, bytes, Bool, false, List, [], ◌∷◌, ◌++◌, ◌==◌, ◌||◌, eqb, has_prefix, if◌then◌else◌,
}

abbrev pub Location : Type 0
Location = Str

abbrev pub location_post_menu : Location
location_post_menu = bytes "/post_menu"

abbrev pub location_channel_header : Location
location_channel_header = bytes "/channel_header"

abbrev pub location_command : Location
location_command = bytes "/command"

abbrev pub location_in_post : Location
location_in_post = bytes "/in_post"

-- `Locations.Contains`.
unfoldable pub contains : List Location → Location → Bool
contains [] loc = false
contains (current ∷ list) loc = current == loc || contains list loc

-- `Location.IsTop`.
unfoldable pub is_top : Location → Bool
is_top l = l == location_channel_header || l == location_command || l == location_post_menu

-- `l.In(other)`: a comparison of prefixes.
unfoldable pub is_in : Location → Location → Bool
is_in l other = has_prefix l other

-- `Location.Sub`: joined by a slash, unless the second part brings one.
unfoldable pub sub : Location → Location → Location
sub l [] = l
sub l (c ∷ rest) = if eqb c b'/' then l ++ (c ∷ rest) else l ++ (b'/' ∷ c ∷ rest)
