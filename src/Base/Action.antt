-- ===== src/Base/Action.antt =====
-- Methods that change a state and may fail. What was written before the failure stays written, so
-- the state comes back beside the error too.
use mathlib.Core.Path.{◌≡◌, refl}
use mathlib.Core.Logic.{inl, inr}
use mattermost_plugin_apps.Base.Errors.{Error, Result, ok, err, Result-cases}

abbrev pub Action : Type 0 → Type 0 → Type 0
Action S A = S → Result A × S

module _ {S A : Type 0} where
  abbrev pub pure : A → Action S A
  pure a s = (ok a, s)

  abbrev pub raise : Error → Action S A
  raise e s = (err e, s)

  -- A step that only reads.
  abbrev pub reads : (S → Result A) → Action S A
  reads f s = (f s, s)

  abbrev pub lift : Result A → Action S A
  lift r s = (r, s)

module _ {S A B : Type 0} where
  abbrev pub continue : Result A → (A → Action S B) → Action S B
  continue (ok a) f s = f a s
  continue (err e) f s = (err e, s)

  infixl 5 ◌>>=◌ ◌>>◌
  abbrev pub ◌>>=◌ : Action S A → (A → Action S B) → Action S B
  ◌>>=◌ m f s = continue (m s).0 f (m s).1

  abbrev pub ◌>>◌ : Action S A → Action S B → Action S B
  m >> n = m >>= λ _. n

  -- A chain that succeeds has come through its first step.
  pub chain_inversion :
      (m : Action S A) (f : A → Action S B) (s : S) (b : B)
      → ((m >>= f) s).0 ≡ ok b
      → (a : A) × ((m s).0 ≡ ok a) × ((f a (m s).1).0 ≡ ok b) × ((m >>= f) s ≡ f a (m s).1)
  chain_inversion m f s b h = elim (Result-cases (m s).0) [
    | inl (a, e) ↦ (a, e, rw e at h, rw e refl)
    | inr (x, e) ↦ let no = rw e at h in absurd (cc no)
  ]

  -- What holds after a chain: it holds after the first step, and after the second where there is one.
  pub chain_rule :
      (P : S → Type 0) (m : Action S A) (f : A → Action S B) (s : S)
      → P (m s).1
      → ((a : A) → (m s).0 ≡ ok a → P (f a (m s).1).1)
      → P ((m >>= f) s).1
  chain_rule P m f s h k = elim (Result-cases (m s).0) [
    | inl (a, e) ↦ rw e (k a e)
    | inr (x, e) ↦ rw e h
  ]
