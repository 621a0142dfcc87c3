-- ===== src/Proxy/Bindings/Merge.antt =====
-- Merging the bindings of the apps into one tree (`mergeBindings` in server/proxy/bindings.go).
pub mod Keys
pub mod Distinct
pub mod Find
pub mod Paths
use mattermost_plugin_apps.Base.{
  Str, Bool, true, false, ◌&&◌, ◌||◌, ◌≡◌, refl, ◌∙◌, arith, if◌then◌else◌, ◌==◌, eq_iff, eq_refl,
  Bool-cases, inl, inr,
}
use mattermost_plugin_apps.Apps.Location.{Location}
use mattermost_plugin_apps.Apps.Binding.{
  Item, Binding, Bindings, binding, nil, cons, item, subs, is_given,
}

-- The key of a binding: its app and its location.
unfoldable pub has_key : Str → Location → Binding → Bool
has_key app location o = app == (item o).app_id && location == (item o).location

unfoldable pub any_has_key : Str → Location → Bindings → Bool
any_has_key app location nil = false
any_has_key app location (cons o out) = has_key app location o || any_has_key app location out

-- The inner loop, where it finds bindings of the key: each gets its replacement.
unfoldable pub replace : Str → Location → (Bindings → Binding) → Bindings → Bindings
replace app location merged nil = nil
replace app location merged (cons o out) =
    cons (if has_key app location o then merged (subs o) else o) (replace app location merged out)

unfoldable pub append : Bindings → Binding → Bindings
append nil b = cons b nil
append (cons o out) b = cons o (append out b)

-- A round of the outer loop; the replacement of a binding is passed in.
unfoldable pub put : Binding → (Bindings → Binding) → Bindings → Bindings
put b merged out =
    let app = (item b).app_id in
    let location = (item b).location in
    if any_has_key app location out then replace app location merged out else append out b

unfoldable mutual
  -- `mergeBindings`: `out` starts as the first list.
  pub merge : Bindings → Bindings → Bindings
  merge out nil = out
  merge out (cons b rest) = merge (put b (merge_under b) out) rest

  -- "b2 overrides b1, if b1 and b2 have Bindings, they are merged"
  pub merge_under : Binding → Bindings → Binding
  merge_under (binding b bs) os =
      let merged = merge os bs in binding b (if is_given os then merged else bs)
