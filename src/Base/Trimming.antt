-- ===== src/Base/Trimming.antt =====
-- What `strings.TrimSpace` does to visible text with spaces after it.
use mathlib.Core.List.{reverse, reverse_aux, reverse-append, reverse-reverse, append-nil}
use mathlib.Core.Path.{◌≡◌, refl, ◌∙◌, ap}
use mathlib.Core.Bool.{Bool, true, false, ◌&&◌, ◌||◌}
use mathlib.Core.List.{[], ◌∷◌, ◌++◌}
use native.Mathlib.Omega.{arith}
use Prim.Native.Nat.{ℕ, zero, suc, ◌≤◌}
use mattermost_plugin_apps.Base.Tests.{leb, eqb}
use mattermost_plugin_apps.Base.Lists.{length}
use mattermost_plugin_apps.Base.Text.{Str, trim_with, space_width, last_space_width, trim_space}

-- Of visible ASCII characters.
unfoldable pub is_visible : Str → Bool
is_visible [] = true
is_visible (c ∷ s) = leb 33 c && leb c 126 && is_visible s

unfoldable pub spaces : ℕ → Str
spaces zero = []
spaces (suc n) = 32 ∷ spaces n

space_width-visible :
    (c : ℕ) (s : Str) → leb 33 c ≡ true → leb c 126 ≡ true → space_width (c ∷ s) ≡ 0
space_width-visible c [] h k = ground arith
space_width-visible c (d ∷ []) h k = ground arith
space_width-visible c (d ∷ e ∷ s) h k = ground arith

not_two : (d e : ℕ) → leb e 126 ≡ true → eqb (space_width (d ∷ e ∷ [])) 2 ≡ false
not_two d e h = ground arith

not_three : (c d e : ℕ) → leb e 126 ≡ true → eqb (space_width (c ∷ d ∷ e ∷ [])) 3 ≡ false
not_three c d e h = ground arith

not_one : (e : ℕ) → leb 33 e ≡ true → (eqb e 32 || leb 9 e && leb e 13) ≡ false
not_one e h = ground arith

last_space_width-visible : (s : Str) → is_visible s ≡ true → last_space_width s ≡ 0
unfolding is_visible
last_space_width-visible [] h = refl
last_space_width-visible (c ∷ []) h = ground arith
last_space_width-visible (d ∷ c ∷ []) h =
    let low : leb 33 d ≡ true = ground arith in
    let high : leb d 126 ≡ true = ground arith in rw (not_one d low, not_two c d high) refl
last_space_width-visible (e ∷ d ∷ c ∷ s) h =
    let low : leb 33 e ≡ true = ground arith in
    let high : leb e 126 ≡ true = ground arith in
    rw (not_one e low, not_two d e high, not_three c d e high) refl

last_space_width-space : (s : Str) → last_space_width (32 ∷ s) ≡ 1
last_space_width-space [] = refl
last_space_width-space (c ∷ []) = refl
last_space_width-space (c ∷ d ∷ s) = refl

trim_stops : (width : Str → ℕ) (fuel : ℕ) (s : Str) → width s ≡ 0 → trim_with width fuel s ≡ s
unfolding trim_with
trim_stops width zero s h = refl
trim_stops width (suc fuel) s h = rw (trim_with, h) refl

trim_spaces :
    (n fuel : ℕ) (s : Str)
    → last_space_width s ≡ 0
    → n ≤ fuel
    → trim_with last_space_width fuel (spaces n ++ s) ≡ s
unfolding trim_with spaces
trim_spaces zero fuel s h k = trim_stops last_space_width fuel s h
trim_spaces (suc n) zero s h k = absurd (omega arith)
trim_spaces (suc n) (suc fuel) s h k =
    rw (last_space_width-space (spaces n ++ s)) (trim_spaces n fuel s h (omega arith))

reverse_aux-visible :
    (s r : Str) → is_visible s ≡ true → is_visible r ≡ true → is_visible (reverse_aux s r) ≡ true
unfolding is_visible
reverse_aux-visible [] r h k = k
reverse_aux-visible (c ∷ s) r h k = reverse_aux-visible s (c ∷ r) (ground arith) (ground arith)

spaces_first : (n : ℕ) (r : Str) → spaces n ++ (32 ∷ r) ≡ 32 ∷ (spaces n ++ r)
unfolding spaces
spaces_first zero r = refl
spaces_first (suc n) r = ap (λ t. 32 ∷ t) (spaces_first n r)

reverse_aux-spaces : (n : ℕ) (r : Str) → reverse_aux (spaces n) r ≡ spaces n ++ r
unfolding spaces
reverse_aux-spaces zero r = refl
reverse_aux-spaces (suc n) r = reverse_aux-spaces n (32 ∷ r) ∙ spaces_first n r

length-spaces : (s : Str) (n : ℕ) → n ≤ length (s ++ spaces n)
unfolding spaces
length-spaces [] zero = omega arith
length-spaces [] (suc n) = let rest = length-spaces [] n in omega arith
length-spaces (c ∷ s) n = let rest = length-spaces s n in omega arith

-- Spaces after visible text are trimmed.
pub trim_space-spaces :
    (c : ℕ) (s : Str) (n : ℕ) → is_visible (c ∷ s) ≡ true → trim_space ((c ∷ s) ++ spaces n) ≡ c ∷ s
unfolding trim_space is_visible
trim_space-spaces c s n h =
    let left : trim_with space_width (length ((c ∷ s) ++ spaces n)) ((c ∷ s) ++ spaces n)
        ≡ (c ∷ s) ++ spaces n =
      trim_stops space_width (length ((c ∷ s) ++ spaces n)) _
        (space_width-visible c (s ++ spaces n) (ground arith) (ground arith)) in
    let back : reverse ((c ∷ s) ++ spaces n) ≡ spaces n ++ reverse (c ∷ s) =
      reverse-append (c ∷ s) (spaces n)
      ∙ ap (λ t. t ++ reverse (c ∷ s)) (reverse_aux-spaces n [] ∙ append-nil (spaces n)) in
    rw (left, back)
      (ap reverse (
          trim_spaces n (length ((c ∷ s) ++ spaces n)) (reverse (c ∷ s))
            (last_space_width-visible (reverse (c ∷ s)) (reverse_aux-visible (c ∷ s) [] h refl))
            (length-spaces (c ∷ s) n))
        ∙ reverse-reverse (c ∷ s))
