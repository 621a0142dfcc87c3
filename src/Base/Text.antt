-- ===== src/Base/Text.antt =====
-- Go strings, as their lists of bytes, and what the program uses of the package `strings`.
use Prim.Native.Char.{code}
use Prim.Native.Nat.{ℕ, zero, suc}
use Prim.Native.String.{String}
use mathlib.Core.Path.{◌≡◌, refl}
use mathlib.Core.Logic.{◌↔◌}
use mathlib.Core.Bool.{Bool, true, false, ◌&&◌, ◌||◌}
use mathlib.Core.List.{List, [], ◌∷◌, ◌++◌, reverse}
use native.Mathlib.Omega.{arith}
use mattermost_plugin_apps.Base.Tests.{eqb, leb, if◌then◌else◌}
use mattermost_plugin_apps.Base.Lists.{length, drop}

abbrev pub Str : Type 0
Str = List ℕ

-- An ASCII literal.
abbrev pub bytes : String → Str
bytes String.[] = []
bytes (String.◌∷◌ c s) = code c ∷ bytes s

infix 50 ◌==◌
unfoldable pub ◌==◌ : Str → Str → Bool
[] == [] = true
[] == (b ∷ t) = false
(a ∷ s) == [] = false
(a ∷ s) == (b ∷ t) = eqb a b && s == t

pub eq_sound : (s t : Str) → (s == t) ≡ true → s ≡ t
unfolding ◌==◌
eq_sound [] [] h = refl
eq_sound [] (b ∷ t) h = ground arith
eq_sound (a ∷ s) [] h = ground arith
eq_sound (a ∷ s) (b ∷ t) h = ground (arith, eq_sound s t)

pub eq_refl : (s : Str) → (s == s) ≡ true
unfolding ◌==◌
eq_refl [] = refl
eq_refl (a ∷ s) = ground (arith, eq_refl s)

pub eq_iff : (s t : Str) → ((s == t) ≡ true) ↔ (s ≡ t)
eq_iff s t = (eq_sound s t, λ e. rw e (eq_refl t))

-- `len(s) == 0`, and `s == ""`.
abbrev pub is_empty : Str → Bool
is_empty [] = true
is_empty (c ∷ s) = false

-- `strings.HasPrefix(s, prefix)`.
unfoldable pub has_prefix : Str → Str → Bool
has_prefix s [] = true
has_prefix [] (p ∷ pre) = false
has_prefix (c ∷ s) (p ∷ pre) = eqb c p && has_prefix s pre

pub has_prefix-append : (s t : Str) → has_prefix (s ++ t) s ≡ true
unfolding has_prefix
has_prefix-append [] t = refl
has_prefix-append (c ∷ s) t = ground (arith, has_prefix-append s t)

-- `strings.ContainsAny(s, " \t")`.
unfoldable pub has_blank : Str → Bool
has_blank [] = false
has_blank (c ∷ s) = eqb c 32 || eqb c 9 || has_blank s

-- `strings.ReplaceAll(s, "x", "y")` for single bytes.
unfoldable pub replace_byte : ℕ → ℕ → Str → Str
replace_byte x y [] = []
replace_byte x y (c ∷ s) = (if eqb c x then y else c) ∷ replace_byte x y s

-- How many bytes the white space character takes with which a string begins, in UTF-8; 0 if it
-- begins otherwise (`unicode.IsSpace`).
abbrev pub space_width : Str → ℕ
space_width [] = 0
space_width (c ∷ []) = if eqb c 32 || leb 9 c && leb c 13 then 1 else 0
space_width (c ∷ d ∷ []) =
    if eqb c 32 || leb 9 c && leb c 13
    then 1
    else if eqb c 0xc2 && (eqb d 0x85 || eqb d 0xa0)
    then 2
    else 0
space_width (c ∷ d ∷ e ∷ _) =
    if eqb c 32 || leb 9 c && leb c 13
    then 1
    else if eqb c 0xc2 && (eqb d 0x85 || eqb d 0xa0)
    then 2
    else if eqb c 0xe1 && eqb d 0x9a && eqb e 0x80
    then 3
    else if eqb c 0xe2
        && eqb d 0x80
        && (leb 0x80 e && leb e 0x8a || eqb e 0xa8 || eqb e 0xa9 || eqb e 0xaf)
    then 3
    else if eqb c 0xe2 && eqb d 0x81 && eqb e 0x9f
    then 3
    else if eqb c 0xe3 && eqb d 0x80 && eqb e 0x80
    then 3
    else 0

-- The same for the last character, on the reversed string.
abbrev pub last_space_width : Str → ℕ
last_space_width [] = 0
last_space_width (c ∷ []) = space_width (c ∷ [])
last_space_width (d ∷ c ∷ []) =
    if eqb d 32 || leb 9 d && leb d 13 then 1 else if eqb (space_width (c ∷ d ∷ [])) 2 then 2 else 0
last_space_width (e ∷ d ∷ c ∷ _) =
    if eqb e 32 || leb 9 e && leb e 13
    then 1
    else if eqb (space_width (d ∷ e ∷ [])) 2
    then 2
    else if eqb (space_width (c ∷ d ∷ e ∷ [])) 3
    then 3
    else 0

-- Each round removes a byte at least, so the length of the string is fuel enough.
unfoldable pub trim_with : (Str → ℕ) → ℕ → Str → Str
trim_with width zero s = s
trim_with width (suc fuel) s = elim (width s) [
  | zero ↦ s
  | suc w ↦ trim_with width fuel (drop (suc w) s)
]

-- `strings.TrimSpace(s)`.
unfoldable pub trim_space : Str → Str
unfolding trim_with
trim_space s =
    let left = trim_with space_width (length s) s in
    reverse (trim_with last_space_width (length left) (reverse left))

trim_space_test : trim_space (bytes "  a b \t") ≡ bytes "a b"
unfolding trim_space
trim_space_test = refl

pub eq_comm : (s t : Str) → (s == t) ≡ (t == s)
unfolding ◌==◌
eq_comm [] [] = refl
eq_comm [] (b ∷ t) = refl
eq_comm (a ∷ s) [] = refl
eq_comm (a ∷ s) (b ∷ t) = ground (arith, eq_comm s t)
