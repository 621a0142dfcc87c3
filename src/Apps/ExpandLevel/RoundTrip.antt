-- ===== src/Apps/ExpandLevel/RoundTrip.antt =====
-- Parsing and printing expand levels.
use mattermost_plugin_apps.Base.{
  Str, Bool, true, false, [], ◌∷◌, ◌≡◌, ◌↔◌, refl, arith, ok, if◌then◌else◌, ◌==◌, eq_iff, eqb,
  Bool-cases, Result-cases, inl, inr,
}
use mattermost_plugin_apps.Apps.ExpandLevel.{
  ExpandLevel, text, required, is_required, parse, clean_level,
}

-- A level as it is written: with a plus sign if it is required.
unfoldable pub marked : Bool → ExpandLevel → Str
unfolding required
marked r l = if r then required (text l) else text l

parse-marked : (r : Bool) (l : ExpandLevel) → parse (marked r l) ≡ ok (r, l)
unfolding marked parse clean_level required is_required ◌==◌
parse-marked true ExpandLevel.none = refl
parse-marked true ExpandLevel.id = refl
parse-marked true ExpandLevel.summary = refl
parse-marked true ExpandLevel.all = refl
parse-marked false ExpandLevel.none = refl
parse-marked false ExpandLevel.id = refl
parse-marked false ExpandLevel.summary = refl
parse-marked false ExpandLevel.all = refl

clean_level_sound : (s : Str) (l : ExpandLevel) → clean_level s ≡ ok l → s ≡ text l
unfolding clean_level
clean_level_sound s l h = ground (
  arith,
  eq_iff s (text ExpandLevel.none),
  eq_iff s (text ExpandLevel.id),
  eq_iff s (text ExpandLevel.summary),
  eq_iff s (text ExpandLevel.all),
)

text_unmarked : (l : ExpandLevel) → is_required (text l) ≡ false
unfolding is_required
text_unmarked ExpandLevel.none = refl
text_unmarked ExpandLevel.id = refl
text_unmarked ExpandLevel.summary = refl
text_unmarked ExpandLevel.all = refl

parse_sound : (raw : Str) (r : Bool) (l : ExpandLevel) → parse raw ≡ ok (r, l) → raw ≡ marked r l
unfolding marked required parse is_required
parse_sound [] r l h = ground (arith, clean_level_sound [] l, text_unmarked l)
parse_sound (c ∷ s) r l h = elim (Bool-cases (eqb c b'+')) [
  | inl e ↦ elim (Result-cases (clean_level s)) [
    | inl (l', k) ↦
        ground (arith, clean_level_sound s l' k, text_unmarked l, e, rw (e, k, parse) at h)
    | inr (x, k) ↦ cc (rw (e, k, parse) at h)
  ]
  | inr e ↦ elim (Result-cases (clean_level (c ∷ s))) [
    | inl (l', k) ↦
        ground (arith, clean_level_sound (c ∷ s) l' k, text_unmarked l, e, rw (e, k, parse) at h)
    | inr (x, k) ↦ cc (rw (e, k, parse) at h)
  ]
]

-- A text parses as a level exactly if it is the level's name, after a plus sign where the field is
-- required.
pub parse_iff :
    (raw : Str) (r : Bool) (l : ExpandLevel) → (parse raw ≡ ok (r, l)) ↔ (raw ≡ marked r l)
parse_iff raw r l = (parse_sound raw r l, λ e. rw e (parse-marked r l))
