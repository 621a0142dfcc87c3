-- ===== src/Store/Kv.antt =====
-- The key-value API of the Mattermost server, which the plugin calls and does not implement. The
-- stores take it as a parameter, decoded at the values that they keep, with its documented laws.
pub mod Memory
use mattermost_plugin_apps.Base.{
  Str, ℕ, Result, ok, err, Option, none, some, ◌≡◌, Bool, List, ◌==◌, if◌then◌else◌, Error, other,
  true, false, refl, ◌∙◌, inl, inr, Result-cases,
}
use mattermost_plugin_apps.Base.Action.{Action}

-- `S` is the server's state. `get` answers `none` where no value is stored.
pub record Kv (S V : Type 0) : Type 0 where
  pub get : Str → S → Result (Option V)
  pub set : Str → V → Action S Bool
  pub delete : Str → Action S (Unit {0})

-- `read` is what is stored. Any call may fail, with an error that is none of the plugin's own
-- (utils/errors.go), and a call that fails has changed nothing.
pub record KvLaws {S V : Type 0} (kv : Kv S V) : Type 0 where
  pub read : Str → S → Option V
  pub get_ok : (k : Str) (s : S) (o : Option V) → kv.get k s ≡ ok o → o ≡ read k s
  pub set_ok :
      (k j : Str) (v : V) (s : S) (b : Bool)
      → (kv.set k v s).0 ≡ ok b
      → read j (kv.set k v s).1 ≡ (if k == j then some v else read j s)
  pub get_err : (k : Str) (s : S) (e : Error) → kv.get k s ≡ err e → e ≡ other
  pub set_err :
      (k j : Str) (v : V) (s : S) (e : Error)
      → (kv.set k v s).0 ≡ err e
      → (e ≡ other) × (read j (kv.set k v s).1 ≡ read j s)
  pub delete_ok :
      (k j : Str) (s : S)
      → (kv.delete k s).0 ≡ ok tt
      → read j (kv.delete k s).1 ≡ (if k == j then none else read j s)
  pub delete_err :
      (k j : Str) (s : S) (e : Error)
      → (kv.delete k s).0 ≡ err e
      → (e ≡ other) × (read j (kv.delete k s).1 ≡ read j s)

-- A call leaves what is stored under other keys, whatever comes of it.
module _ {S V : Type 0} (kv : Kv S V) (laws : KvLaws kv) (k j : Str) (s : S)
    (apart : (k == j) ≡ false) where
  pub read-set_other : (v : V) → laws.read j (kv.set k v s).1 ≡ laws.read j s
  read-set_other v = elim (Result-cases (kv.set k v s).0) [
    | inl (b, e) ↦ laws.set_ok k j v s b e ∙ rw apart refl
    | inr (x, e) ↦ (laws.set_err k j v s x e).1
  ]

  pub read-delete_other : laws.read j (kv.delete k s).1 ≡ laws.read j s
  read-delete_other = elim (Result-cases (kv.delete k s).0) [
    | inl (t, e) ↦ laws.delete_ok k j s e ∙ rw apart refl
    | inr (x, e) ↦ (laws.delete_err k j s x e).1
  ]
