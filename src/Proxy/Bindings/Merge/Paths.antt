-- ===== src/Proxy/Bindings/Merge/Paths.antt =====
-- What merging makes of the two trees at any depth.
use mathlib.Core.Path.{subst}
use mattermost_plugin_apps.Base.{
  Str, List, [], ◌∷◌, ◌≡◌, refl, sym, ap, ◌∙◌, Bool-cases, inl, inr, Option, none, some,
  Option-cases,
}
use mattermost_plugin_apps.Apps.Location.{Location}
use mattermost_plugin_apps.Apps.Binding.{Item, Binding, Bindings, binding, nil, cons, item, subs}
use mattermost_plugin_apps.Proxy.Bindings.Merge.{has_key, merge, merge_under}
use mattermost_plugin_apps.Proxy.Bindings.Merge.Keys.{merge_under-item}
use mattermost_plugin_apps.Proxy.Bindings.Merge.Distinct.{HasDistinctKeys, HasDistinctSubs}
use mattermost_plugin_apps.Proxy.Bindings.Merge.Find.{find, combine, find-merge}

abbrev pub subs_of : Option Binding → Bindings
subs_of none = nil
subs_of (some o) = subs o

abbrev pub item_of : Option Binding → Option Item
item_of none = none
item_of (some o) = some (item o)

-- The sub-bindings that a path of apps and locations leads to.
unfoldable pub follow : List (Str × Location) → Bindings → Bindings
follow [] bs = bs
follow ((app, location) ∷ path) bs = follow path (subs_of (find app location bs))

-- What a binding says of itself, at the end of a path.
abbrev pub item_at : List (Str × Location) → Str → Location → Bindings → Option Item
item_at path app location bs = item_of (find app location (follow path bs))

-- The second, if there is one, and else the first.
abbrev pub later_of : Option Item → Option Item → Option Item
later_of first none = first
later_of first (some i) = some i

later_of_none : (i : Option Item) → i ≡ later_of none i
later_of_none none = refl
later_of_none (some i) = refl

follow_nil : (path : List (Str × Location)) → follow path nil ≡ nil
unfolding follow find
follow_nil [] = refl
follow_nil ((app, location) ∷ path) = follow_nil path

item_at_nil :
    (path : List (Str × Location)) (app : Str) (location : Location)
    → item_at path app location nil ≡ none
unfolding find
item_at_nil path app location = rw (follow_nil path) refl

item_of-combine : (o b : Option Binding) → item_of (combine o b) ≡ later_of (item_of o) (item_of b)
item_of-combine none none = refl
item_of-combine none (some b) = refl
item_of-combine (some o) none = refl
item_of-combine (some o) (some b) = rw (merge_under-item b (subs o)) refl

find-HasDistinctSubs :
    (app : Str) (location : Location) (bs : Bindings) (b : Binding)
    → HasDistinctKeys bs
    → find app location bs ≡ some b
    → HasDistinctKeys (subs b)
unfolding find HasDistinctKeys HasDistinctSubs
find-HasDistinctSubs app location nil b d h = absurd (cc h)
find-HasDistinctSubs app location (cons (binding i os) bs) b (fresh, below, d) h =
    elim (Bool-cases (has_key app location (binding i os))) [
      | inl e ↦
          let same : binding i os ≡ b = cc (rw e at h) in
          subst (λ (x : Binding). HasDistinctKeys (subs x)) same below
      | inr e ↦ find-HasDistinctSubs app location bs b d (rw e at h)
    ]

-- The sub-bindings of two bindings that are merged, where there is an end of a path.
item_at-merge_under :
    (path : List (Str × Location)) (app : Str) (location : Location) (b : Binding) (os : Bindings)
    → item_at path app location (merge os (subs b))
      ≡ later_of (item_at path app location os) (item_at path app location (subs b))
    → item_at path app location (subs (merge_under b os))
      ≡ later_of (item_at path app location os) (item_at path app location (subs b))
unfolding merge_under
item_at-merge_under path app location (binding i bs) nil h =
    later_of_none (item_at path app location bs)
    ∙ ap (λ (x : Option Item). later_of x (item_at path app location bs))
        (sym (item_at_nil path app location))
item_at-merge_under path app location (binding i bs) (cons o os) h = h

-- If the second tree has, at each level, at most one binding of an app for a location, then the merged
-- tree has at the end of each path of apps and locations what the second tree has there, and, where it
-- has nothing, what the first tree has there: a binding of the second overrides that of the first, and
-- the sub-bindings of both stay, at any depth.
pub item_at-merge :
    (path : List (Str × Location)) (app : Str) (location : Location) (out bs : Bindings)
    → HasDistinctKeys bs
    → item_at path app location (merge out bs)
      ≡ later_of (item_at path app location out) (item_at path app location bs)
unfolding follow
item_at-merge [] app location out bs d =
    rw (find-merge app location out bs d)
      (item_of-combine (find app location out) (find app location bs))
item_at-merge ((a, l) ∷ path) app location out bs d =
    ap (λ (x : Option Binding). item_at path app location (subs_of x)) (find-merge a l out bs d)
    ∙ elim (Option-cases (find a l bs)) [
      | inl e ↦ rw (e, item_at_nil path app location) (below_none (find a l out))
      | inr (b, e) ↦ elim (Option-cases (find a l out)) [
        | inl k ↦
            rw (e, k, item_at_nil path app location)
              (later_of_none (item_at path app location (subs b)))
        | inr (o, k) ↦
            rw (e, k)
              (item_at-merge_under path app location b (subs o) (
                item_at-merge path app location (subs o) (subs b)
                  (find-HasDistinctSubs a l bs b d e)))
      ]
    ]
  where
    below_none :
        (o : Option Binding)
        → item_at path app location (subs_of (combine o none))
          ≡ later_of (item_at path app location (subs_of o)) none
    below_none none = refl
    below_none (some o) = refl
