-- ===== src/Base/Assoc.antt =====
-- Go maps with string keys, as association lists: `m[k]`, `m[k] = v`, `delete(m, k)`.
use mathlib.Core.Path.{◌≡◌, refl}
use mathlib.Core.Option.{Option, none, some}
use mathlib.Core.List.{List, [], ◌∷◌}
use native.Mathlib.Omega.{arith}
use mattermost_plugin_apps.Base.Tests.{if◌then◌else◌}
use mattermost_plugin_apps.Base.Text.{Str, ◌==◌, eq_iff}

abbrev pub Assoc {ℓ} : Type ℓ → Type ℓ
Assoc A = List (Str × A)

module _ {ℓ} {A : Type ℓ} where
  unfoldable pub lookup : Str → Assoc A → Option A
  lookup wanted [] = none
  lookup wanted ((key, value) ∷ rest) =
      let later = lookup wanted rest in if key == wanted then some value else later

  unfoldable pub insert : Str → A → Assoc A → Assoc A
  insert key new [] = (key, new) ∷ []
  insert key new ((first, old) ∷ rest) =
      let later = insert key new rest in
      if first == key then (first, new) ∷ rest else (first, old) ∷ later

  -- `delete(m, key)`: every entry of the key goes.
  unfoldable pub remove : Str → Assoc A → Assoc A
  remove key [] = []
  remove key ((first, old) ∷ rest) =
      let later = remove key rest in if first == key then later else (first, old) ∷ later

  pub lookup-insert :
      (key wanted : Str) (new : A) (entries : Assoc A)
      → lookup wanted (insert key new entries)
        ≡ (if key == wanted then some new else lookup wanted entries)
  unfolding lookup insert
  lookup-insert key wanted new [] = refl
  lookup-insert key wanted new ((first, old) ∷ rest) = ground (
    arith,
    lookup-insert key wanted new rest,
    eq_iff first key,
    eq_iff first wanted,
    eq_iff key wanted,
  )

  pub lookup-remove :
      (key wanted : Str) (entries : Assoc A)
      → lookup wanted (remove key entries) ≡ (if key == wanted then none else lookup wanted entries)
  unfolding lookup remove
  lookup-remove key wanted [] = ground arith
  lookup-remove key wanted ((first, old) ∷ rest) = ground (
    arith,
    lookup-remove key wanted rest,
    eq_iff first key,
    eq_iff first wanted,
    eq_iff key wanted,
  )
