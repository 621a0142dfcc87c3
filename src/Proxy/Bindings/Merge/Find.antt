-- ===== src/Proxy/Bindings/Merge/Find.antt =====
-- What merging makes of the two bindings of an app for a location.
use mattermost_plugin_apps.Base.{
  Str, true, false, ◌≡◌, refl, sym, arith, if◌then◌else◌, Bool-cases, inl, inr, Option, none, some,
}
use mattermost_plugin_apps.Apps.Location.{Location}
use mattermost_plugin_apps.Apps.Binding.{Binding, Bindings, nil, cons, item, subs}
use mattermost_plugin_apps.Proxy.Bindings.Merge.{
  has_key, any_has_key, replace, append, put, merge, merge_under,
}
use mattermost_plugin_apps.Proxy.Bindings.Merge.Keys.{merge_under-item, has_key_same}
use mattermost_plugin_apps.Proxy.Bindings.Merge.Distinct.{HasDistinctKeys}

-- The binding of an app for a location.
unfoldable pub find : Str → Location → Bindings → Option Binding
find app location nil = none
find app location (cons o out) = if has_key app location o then some o else find app location out

-- The later of two bindings wins, with their sub-bindings merged.
abbrev pub combine : Option Binding → Option Binding → Option Binding
combine none later = later
combine (some o) none = some o
combine (some o) (some b) = some (merge_under b (subs o))

combine_none : (o : Option Binding) → combine o none ≡ o
combine_none none = refl
combine_none (some o) = refl

find_present :
    (app : Str) (location : Location) (out : Bindings)
    → any_has_key app location out ≡ true
    → (o : Binding) × (find app location out ≡ some o)
unfolding find any_has_key
find_present app location nil h = cc
find_present app location (cons o out) h = elim (Bool-cases (has_key app location o)) [
  | inl e ↦ (o, rw e refl)
  | inr e ↦ let (p, found) = find_present app location out (rw e at h) in (p, rw e found)
]

find_absent :
    (app : Str) (location : Location) (out : Bindings)
    → any_has_key app location out ≡ false
    → find app location out ≡ none
unfolding find any_has_key
find_absent app location nil h = refl
find_absent app location (cons o out) h = ground (arith, find_absent app location out)

find-append :
    (app : Str) (location : Location) (out : Bindings) (b : Binding)
    → any_has_key app location out ≡ false
    → find app location (append out b) ≡ (if has_key app location b then some b else none)
unfolding find append any_has_key
find-append app location nil b h = refl
find-append app location (cons o out) b h = ground (arith, find-append app location out b)

find-append_other :
    (app : Str) (location : Location) (out : Bindings) (b : Binding)
    → has_key app location b ≡ false
    → find app location (append out b) ≡ find app location out
unfolding find append
find-append_other app location nil b h = rw h refl
find-append_other app location (cons o out) b h =
    ground (arith, find-append_other app location out b)

-- Replacing the bindings of the key that is looked for.
find-replace :
    (app : Str) (location : Location) (merged : Bindings → Binding) (out : Bindings)
    → ((os : Bindings) → has_key app location (merged os) ≡ true)
    → find app location (replace app location merged out)
      ≡ elim (find app location out) [ none ↦ none | some o ↦ some (merged (subs o)) ]
unfolding find replace
find-replace app location merged nil f = refl
find-replace app location merged (cons o out) f = elim (Bool-cases (has_key app location o)) [
  | inl e ↦ rw (e, f (subs o)) refl
  | inr e ↦ rw (e, e, find-replace app location merged out f) refl
]

-- Replacing the bindings of another key.
find-replace_other :
    (app app' : Str) (location location' : Location) (merged : Bindings → Binding) (out : Bindings)
    → ((os : Bindings) → has_key app' location' (merged os) ≡ false)
    → ((o : Binding) → has_key app location o ≡ true → has_key app' location' o ≡ false)
    → find app' location' (replace app location merged out) ≡ find app' location' out
unfolding find replace
find-replace_other app app' location location' merged nil f g = refl
find-replace_other app app' location location' merged (cons o out) f g =
    elim (Bool-cases (has_key app location o)) [
      | inl e ↦
          rw (e, f (subs o), g o e, find-replace_other app app' location location' merged out f g)
            refl
      | inr e ↦ rw (e, find-replace_other app app' location location' merged out f g) refl
    ]

differs :
    (app : Str) (location : Location) (b o : Binding)
    → has_key app location b ≡ false
    → has_key (item b).app_id (item b).location o ≡ true
    → has_key app location o ≡ false
unfolding has_key
differs app location b o h k =
    let (same_app, same_location) = has_key_same (item b).app_id (item b).location o k in
    rw (same_app, same_location) h

find-put_same :
    (app : Str) (location : Location) (b : Binding) (out : Bindings)
    → has_key app location b ≡ true
    → find app location (put b (merge_under b) out) ≡ combine (find app location out) (some b)
unfolding put has_key
find-put_same app location b out h =
    let (same_app, same_location) = has_key_same app location b h in
    elim (Bool-cases (any_has_key (item b).app_id (item b).location out)) [
      | inl e ↦
          let (o, found) = find_present app location out (rw (same_app, same_location) at e) in
          rw
            (
              e,
              same_app,
              same_location,
              find-replace app location (merge_under b) out (λ os. rw (merge_under-item b os) h),
              found,
            )
            refl
      | inr e ↦
          let absent : any_has_key app location out ≡ false = rw (same_app, same_location) at e in
          rw (e, find_absent app location out absent, find-append app location out b absent, h) refl
    ]

find-put_other :
    (app : Str) (location : Location) (b : Binding) (out : Bindings)
    → has_key app location b ≡ false
    → find app location (put b (merge_under b) out) ≡ find app location out
unfolding put has_key
find-put_other app location b out h =
    elim (Bool-cases (any_has_key (item b).app_id (item b).location out)) [
      | inl e ↦
          rw (e, put)
            (find-replace_other (item b).app_id app (item b).location location (merge_under b) out
              (λ os. rw (merge_under-item b os) h) (λ o k. differs app location b o h k))
      | inr e ↦ rw (e, put) (find-append_other app location out b h)
    ]

-- If the second tree has at most one binding of an app for a location, the merged tree has for the
-- app and the location what the only one of the two trees has, or, if both have a binding, the
-- second one, with its sub-bindings merged into those of the first.
pub find-merge :
    (app : Str) (location : Location) (out bs : Bindings)
    → HasDistinctKeys bs
    → find app location (merge out bs) ≡ combine (find app location out) (find app location bs)
unfolding merge find HasDistinctKeys
find-merge app location out nil h = sym (combine_none (find app location out))
find-merge app location out (cons b rest) (fresh, s, h) =
    elim (Bool-cases (has_key app location b)) [
      | inl e ↦
          let (same_app, same_location) = has_key_same app location b e in
          let absent : find app location rest ≡ none =
            find_absent app location rest (rw (same_app, same_location) at fresh) in
          rw
            (
              find-merge app location (put b (merge_under b) out) rest h,
              e,
              absent,
              find-put_same app location b out e,
            )
            (combine_none (combine (find app location out) (some b)))
      | inr e ↦
          rw
            (
              find-merge app location (put b (merge_under b) out) rest h,
              e,
              find-put_other app location b out e,
            )
            refl
    ]
