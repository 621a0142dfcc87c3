-- ===== src/Apps/ExpandLevel.antt =====
-- Expand levels, "[+]level" (apps/expand.go).
pub mod RoundTrip
use mattermost_plugin_apps.Base.{
  Str, bytes, Bool, false, [], ◌∷◌, ◌==◌, Result, ok, err, other, eqb, if◌then◌else◌,
}

-- The four levels that `ParseExpandLevel` accepts.
pub data ExpandLevel : Type 0 where
  none id summary all : ExpandLevel

-- The level's text.
abbrev pub text : ExpandLevel → Str
text none = []
text id = bytes "id"
text summary = bytes "summary"
text all = bytes "all"

-- `ExpandLevel.isRequired`, of a level as it is written in a call.
unfoldable pub is_required : Str → Bool
is_required [] = false
is_required (c ∷ s) = eqb c b'+'

-- `ExpandLevel.Required`.
unfoldable pub required : Str → Str
unfolding is_required
required l = if is_required l then l else b'+' ∷ l

-- `level[1:]`, taken of a level that has a first byte.
abbrev rest_of : Str → Str
rest_of [] = []
rest_of (c ∷ s) = s

clean_level : Str → Result ExpandLevel
clean_level s =
    if s == text none
    then ok none
    else if s == text id
    then ok id
    else if s == text summary
    then ok summary
    else if s == text all
    then ok all
    else err other

-- `ParseExpandLevel`: whether the field is required, and the level without its mark.
unfoldable pub parse : Str → Result (Bool × ExpandLevel)
unfolding clean_level is_required
parse raw = elim (clean_level (if is_required raw then rest_of raw else raw)) [
  | ok level ↦ ok (is_required raw, level)
  | err e ↦ err e
]
