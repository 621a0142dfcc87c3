-- ===== src/Proxy/Bindings/Merge/Distinct.antt =====
-- Merging keeps the keys of bindings distinct.
use mattermost_plugin_apps.Base.{Str, false, ◌≡◌, refl, ◌∙◌, arith, eq_iff, Bool-cases, inl, inr}
use mattermost_plugin_apps.Apps.Location.{Location}
use mattermost_plugin_apps.Apps.Binding.{Binding, Bindings, binding, nil, cons, item, is_given}
use mattermost_plugin_apps.Proxy.Bindings.Merge.{
  has_key, any_has_key, replace, append, put, merge, merge_under,
}
use mattermost_plugin_apps.Proxy.Bindings.Merge.Keys.{
  merge_under-item, has_key_same, any_has_key-replace, any_has_key-append,
}

-- At each level of the tree, an app has one binding for a location at most.
unfoldable mutual
  pub HasDistinctKeys : Bindings → Type 0
  HasDistinctKeys nil = Unit
  HasDistinctKeys (cons o out) =
      (any_has_key (item o).app_id (item o).location out ≡ false)
      × HasDistinctSubs o
      × HasDistinctKeys out

  pub HasDistinctSubs : Binding → Type 0
  HasDistinctSubs (binding i bs) = HasDistinctKeys bs

has_key_comm :
    (b o : Binding)
    → has_key (item b).app_id (item b).location o ≡ has_key (item o).app_id (item o).location b
unfolding has_key
has_key_comm b o = ground (
  arith,
  eq_iff (item b).app_id (item o).app_id,
  eq_iff (item o).app_id (item b).app_id,
  eq_iff (item b).location (item o).location,
  eq_iff (item o).location (item b).location,
)

append-HasDistinctKeys :
    (out : Bindings) (b : Binding)
    → any_has_key (item b).app_id (item b).location out ≡ false
    → HasDistinctKeys out
    → HasDistinctSubs b
    → HasDistinctKeys (append out b)
unfolding append any_has_key HasDistinctKeys
append-HasDistinctKeys nil b h d s = (refl, s, tt)
append-HasDistinctKeys (cons o out) b h (fresh, below, d) s =
    let absent : any_has_key (item b).app_id (item b).location out ≡ false = ground arith in
    (
      ground (arith, any_has_key-append (item o).app_id (item o).location out b, has_key_comm b o),
      below,
      append-HasDistinctKeys out b absent d s,
    )

replace-HasDistinctKeys :
    (app : Str) (location : Location) (b : Binding) (merged : Bindings → Binding) (out : Bindings)
    → ((os : Bindings) → item (merged os) ≡ item b)
    → (item b).app_id ≡ app
    → (item b).location ≡ location
    → ((os : Bindings) → HasDistinctKeys os → HasDistinctSubs (merged os))
    → HasDistinctKeys out
    → HasDistinctKeys (replace app location merged out)
unfolding replace HasDistinctKeys HasDistinctSubs
replace-HasDistinctKeys app location b merged nil same a l f d = tt
replace-HasDistinctKeys app location b merged (cons (binding i bs) out) same a l f
      (fresh, below, d) =
    let rest = replace-HasDistinctKeys app location b merged out same a l f d in
    let keys = any_has_key-replace app i.app_id location i.location b merged out same a l in
    elim (Bool-cases (has_key app location (binding i bs))) [
      | inr e ↦ rw e (keys ∙ fresh, below, rest)
      | inl e ↦
          let (i_app, i_location) = has_key_same app location (binding i bs) e in
          rw (e, same bs)
            (
              rw (a, l)
                  (any_has_key-replace app app location location b merged out same a l
                    ∙ (rw (i_app, i_location) at fresh)),
              f bs below,
              rest,
            )
    ]

put-HasDistinctKeys :
    (b : Binding) (out : Bindings)
    → ((os : Bindings) → HasDistinctKeys os → HasDistinctSubs (merge_under b os))
    → HasDistinctSubs b
    → HasDistinctKeys out
    → HasDistinctKeys (put b (merge_under b) out)
unfolding put
put-HasDistinctKeys b out f s d =
    elim (Bool-cases (any_has_key (item b).app_id (item b).location out)) [
      | inl e ↦
          rw (e, put)
            (replace-HasDistinctKeys (item b).app_id (item b).location b (merge_under b) out
              (merge_under-item b) refl refl f d)
      | inr e ↦ rw (e, put) (append-HasDistinctKeys out b e d s)
    ]

mutual
  unfolding merge merge_under HasDistinctKeys HasDistinctSubs

  merge_distinct :
      (out bs : Bindings)
      → HasDistinctKeys out
      → HasDistinctKeys bs
      → HasDistinctKeys (merge out bs)
  merge_distinct out nil d h = d
  merge_distinct out (cons b rest) d (fresh, s, h) =
      merge_distinct (put b (merge_under b) out) rest
        (put-HasDistinctKeys b out (λ os k. under_distinct b os k s) s d) h

  under_distinct :
      (b : Binding) (os : Bindings)
      → HasDistinctKeys os
      → HasDistinctSubs b
      → HasDistinctSubs (merge_under b os)
  under_distinct (binding b bs) os k s = elim (Bool-cases (is_given os)) [
    | inl e ↦ rw e (merge_distinct os bs k s)
    | inr e ↦ rw e s
  ]

-- If in each of two trees, at each level, an app has one binding for a location at most, then so
-- it is in the merged tree.
pub merge-HasDistinctKeys :
    (out bs : Bindings) → HasDistinctKeys out → HasDistinctKeys bs → HasDistinctKeys (merge out bs)
merge-HasDistinctKeys = merge_distinct
