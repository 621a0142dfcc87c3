-- ===== src/Proxy/Bindings/Merge/Keys.antt =====
-- For which apps and locations merged bindings have an entry.
use mattermost_plugin_apps.Base.{Str, true, ◌||◌, ◌≡◌, refl, arith, eq_iff, Bool-cases, inl, inr}
use mattermost_plugin_apps.Apps.Location.{Location}
use mattermost_plugin_apps.Apps.Binding.{Binding, Bindings, binding, nil, cons, item, subs}
use mattermost_plugin_apps.Proxy.Bindings.Merge.{
  has_key, any_has_key, replace, append, put, merge, merge_under,
}

pub merge_under-item : (b : Binding) (os : Bindings) → item (merge_under b os) ≡ item b
unfolding merge_under
merge_under-item (binding b bs) os = refl

pub has_key_same :
    (app : Str) (location : Location) (o : Binding)
    → has_key app location o ≡ true
    → ((item o).app_id ≡ app) × ((item o).location ≡ location)
unfolding has_key
has_key_same app location o h =
    ground (arith, eq_iff app (item o).app_id, eq_iff location (item o).location)

-- The keys of a list after a round.
pub any_has_key-replace :
    (app app' : Str) (location location' : Location) (b : Binding) (merged : Bindings → Binding)
    (out : Bindings)
    → ((os : Bindings) → item (merged os) ≡ item b)
    → (item b).app_id ≡ app
    → (item b).location ≡ location
    → any_has_key app' location' (replace app location merged out) ≡ any_has_key app' location' out
unfolding any_has_key replace has_key
any_has_key-replace app app' location location' b merged nil same a l = refl
any_has_key-replace app app' location location' b merged (cons o out) same a l =
    elim (Bool-cases (has_key app location o)) [
      | inr e ↦
          ground (arith, any_has_key-replace app app' location location' b merged out same a l)
      | inl e ↦
          let (o_app, o_location) = has_key_same app location o e in
          rw
            (
              e,
              same (subs o),
              a,
              l,
              o_app,
              o_location,
              any_has_key-replace app app' location location' b merged out same a l,
            )
            refl
    ]

pub any_has_key-append :
    (app : Str) (location : Location) (out : Bindings) (b : Binding)
    → any_has_key app location (append out b)
      ≡ any_has_key app location out || has_key app location b
unfolding any_has_key append
any_has_key-append app location nil b = ground arith
any_has_key-append app location (cons o out) b =
    ground (arith, any_has_key-append app location out b)

any_has_key-put :
    (app : Str) (location : Location) (b : Binding) (out : Bindings)
    → any_has_key app location (put b (merge_under b) out)
      ≡ any_has_key app location out || has_key app location b
unfolding put has_key
any_has_key-put app location b out =
    elim (Bool-cases (any_has_key (item b).app_id (item b).location out)) [
      | inr e ↦ rw e (any_has_key-append app location out b)
      | inl e ↦
          let kept =
            any_has_key-replace (item b).app_id app (item b).location location b (merge_under b) out
              (merge_under-item b) refl refl in
          elim (Bool-cases (has_key app location b)) [
            | inl k ↦
                let (b_app, b_location) = has_key_same app location b k in
                let found : any_has_key app location out ≡ true = rw (b_app, b_location) at e in
                rw (e, kept, found) refl
            | inr k ↦ rw (e, kept, k) (ground arith)
          ]
    ]

-- After merging there is a binding for an app and a location exactly if one of the lists had one.
pub any_has_key-merge :
    (app : Str) (location : Location) (out bs : Bindings)
    → any_has_key app location (merge out bs)
      ≡ any_has_key app location out || any_has_key app location bs
unfolding merge any_has_key
any_has_key-merge app location out nil = ground arith
any_has_key-merge app location out (cons b rest) =
    rw
      (
        any_has_key-merge app location (put b (merge_under b) out) rest,
        any_has_key-put app location b out,
      )
      (ground arith)
