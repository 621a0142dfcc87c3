-- ===== src/Store/Kv/Memory.antt =====
-- A key-value store in memory, which shows that the laws of the API can be met: a call fails where
-- the state says that the server is down.
use mattermost_plugin_apps.Base.{
  Str, Bool, true, false, ok, err, other, arith, if◌then◌else◌, ◌≡◌, Option, ◌==◌, Error, none,
  some,
}
use mattermost_plugin_apps.Base.Assoc.{Assoc, lookup, insert, remove, lookup-insert, lookup-remove}
use mattermost_plugin_apps.Store.Kv.{Kv, KvLaws}

abbrev pub Memory : Type 0 → Type 0
Memory V = Bool × Assoc V

module _ {V : Type 0} where
  abbrev pub memory : Kv (Memory V) V
  memory = record {
    get = λ k s. if s.0 then err other else ok (lookup k s.1);
    set = λ k v s. if s.0 then (err other, s) else (ok true, (false, insert k v s.1));
    delete = λ k s. if s.0 then (err other, s) else (ok tt, (false, remove k s.1));
  }

  abbrev pub read : Str → Memory V → Option V
  read k s = lookup k s.1

  pub get_ok : (k : Str) (s : Memory V) (o : Option V) → memory.get k s ≡ ok o → o ≡ read k s
  get_ok k s o h = ground arith

  pub get_err : (k : Str) (s : Memory V) (e : Error) → memory.get k s ≡ err e → e ≡ other
  get_err k s e h = ground arith

  pub set_ok :
      (k j : Str) (v : V) (s : Memory V) (b : Bool)
      → (memory.set k v s).0 ≡ ok b
      → read j (memory.set k v s).1 ≡ (if k == j then some v else read j s)
  set_ok k j v (true, m) b h = cc
  set_ok k j v (false, m) b h = lookup-insert k j v m

  pub set_err :
      (k j : Str) (v : V) (s : Memory V) (e : Error)
      → (memory.set k v s).0 ≡ err e
      → (e ≡ other) × (read j (memory.set k v s).1 ≡ read j s)
  set_err k j v (true, m) e h = ground arith
  set_err k j v (false, m) e h = cc

  pub delete_ok :
      (k j : Str) (s : Memory V)
      → (memory.delete k s).0 ≡ ok tt
      → read j (memory.delete k s).1 ≡ (if k == j then none else read j s)
  delete_ok k j (true, m) h = cc
  delete_ok k j (false, m) h = lookup-remove k j m

  pub delete_err :
      (k j : Str) (s : Memory V) (e : Error)
      → (memory.delete k s).0 ≡ err e
      → (e ≡ other) × (read j (memory.delete k s).1 ≡ read j s)
  delete_err k j (true, m) e h = ground arith
  delete_err k j (false, m) e h = cc

  abbrev pub memory_laws : KvLaws memory
  memory_laws = record {
    read = read;
    get_ok = get_ok;
    get_err = get_err;
    set_ok = set_ok;
    set_err = set_err;
    delete_ok = delete_ok;
    delete_err = delete_err;
  }
