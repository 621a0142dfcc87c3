-- ===== src/Proxy/Bindings/Kept.antt =====
-- The bindings that stay after cleaning are clean.
use mathlib.Core.Path.{subst, subst⁻¹}
use mattermost_plugin_apps.Base.{
  Str, Bool, true, false, ◌&&◌, ◌≡◌, refl, arith, Option, none, some, ◌∙◌, is_empty, Bool-cases,
  Option-cases, inl, inr,
}
use mattermost_plugin_apps.Apps.Event.{Problems}
use mattermost_plugin_apps.Apps.Location.{Location, is_in, sub, location_command}
use mattermost_plugin_apps.Apps.Binding.{Item, Binding, Bindings, binding, nil, cons, item}
use mattermost_plugin_apps.Proxy.Form.{clean_form}
use mattermost_plugin_apps.Proxy.Form.Clean.{clean_form-AreCleanFields}
use mattermost_plugin_apps.Proxy.Bindings.{
  Cleaner, is_granted, clean_location, set_app_id, clean_label, clean_item_icon, lacks_icon,
  clean_parts, clean_item, finish, keep, clean_with, never_used, clean_app_bindings,
  clean_app_binding,
}
use mattermost_plugin_apps.Proxy.Bindings.Clean.{
  IsCleanItem, IsCleanAt, AreCleanAt, needs_icon, clean_label_sound, clean_item_icon_sound,
  set_app_id_sound,
}

lacks_icon-false :
    (c : Cleaner) (fql : Location) (b : Item)
    → lacks_icon c fql b ≡ false
    → needs_icon c fql b ≡ true
    → is_empty b.icon ≡ false
unfolding lacks_icon
lacks_icon-false c fql b h y = ground arith

clean_parts_sound :
    (c : Cleaner) (fql : Location) (b r : Item)
    → (clean_parts c fql b).0 ≡ some r
    → (r.location ≡ b.location) × IsCleanItem c fql r
unfolding clean_parts
clean_parts_sound c fql b r h =
    let (location, owned) = set_app_id_sound c fql b in
    elim (Option-cases (clean_label fql (set_app_id c fql b)).0) [
      | inl e ↦ cc (rw (e, clean_parts) at h)
      | inr (l, e) ↦
          let (l_location, l_app, word) = clean_label_sound fql (set_app_id c fql b) l e in
          let clean = (clean_item_icon c l).0 in
          let (i_location, i_app, i_label) = clean_item_icon_sound c l in
          elim (Bool-cases (lacks_icon c fql clean)) [
            | inl lacks ↦ cc (rw (e, lacks, clean_parts) at h)
            | inr icon ↦
                let same : clean ≡ r = ground (arith, rw (e, icon, clean_parts) at h) in
                subst (λ (k : Item). (k.location ≡ b.location) × IsCleanItem c fql k) same
                  (
                    i_location ∙ l_location ∙ location,
                    record {
                      owned = λ y. i_app ∙ l_app ∙ owned y;
                      no_blank = λ y. rw i_label (word y);
                      with_icon = λ y. lacks_icon-false c fql clean icon y;
                    },
                  )
          ]
    ]

clean_item_sound :
    (c : Cleaner) (prefix : Location) (b r : Item)
    → (clean_item c prefix b).0 ≡ some r
    → (is_granted c.granted_locations (sub prefix r.location) ≡ true)
      × IsCleanItem c (sub prefix r.location) r
unfolding clean_item
clean_item_sound c prefix b r h = elim (Bool-cases (is_empty b.location && is_empty b.label)) [
  | inl e ↦ cc (rw (e, clean_item) at h)
  | inr e ↦
      let located = (clean_location b).0 in
      elim (Bool-cases (is_granted c.granted_locations (sub prefix located.location))) [
        | inr e' ↦ cc (rw (e, e', clean_item) at h)
        | inl granted ↦
            let (same, clean) =
              clean_parts_sound c (sub prefix located.location) located r
                (rw (e, granted, clean_item) at h) in
            subst⁻¹
              (λ l.
                (is_granted c.granted_locations (sub prefix l) ≡ true)
                × IsCleanItem c (sub prefix l) r)
              same (granted, clean)
      ]
]

clean_with_sound :
    (c : Cleaner) (prefix : Location) (bs : Bindings) (clean_subs : Location → Bindings × Problems)
    (p : Option Item × Problems) (r : Binding)
    → (clean_with c prefix bs clean_subs p).0 ≡ some r
    → (b : Item) × (p.0 ≡ some b)
      × ((finish c b bs (clean_subs (sub prefix b.location))).0 ≡ some r)
unfolding clean_with
clean_with_sound c prefix bs clean_subs (none, problems) r h = cc
clean_with_sound c prefix bs clean_subs (some b, problems) r h = (b, refl, h)

-- The final switch keeps what holds of the fields, and makes one part of three.
finish_sound :
    (c : Cleaner) (prefix : Location) (b : Item) (bs : Bindings) (clean : Bindings × Problems)
    (r : Binding)
    → (is_granted c.granted_locations (sub prefix b.location) ≡ true)
    → IsCleanItem c (sub prefix b.location) b
    → AreCleanAt c (sub prefix b.location) clean.0
    → (finish c b bs clean).0 ≡ some r
    → IsCleanAt c prefix r
unfolding finish AreCleanAt IsCleanAt
finish_sound c prefix b nil (clean, problems) r granted item_clean subs_clean h =
    elim (Option-cases b.form) [
      | inl f ↦ elim (Option-cases b.submit) [
        | inl s ↦ cc (rw (f, s, finish) at h)
        | inr (x, s) ↦
            let same : binding b nil ≡ r = ground (arith, rw (f, s, finish) at h) in
            subst (λ k. IsCleanAt c prefix k) same
              (granted, item_clean, rw f tt, rw (f, s) refl, tt)
      ]
      | inr (g, f) ↦ elim (Option-cases b.submit) [
        | inr (x, s) ↦ cc (rw (f, s, finish) at h)
        | inl s ↦
            let same : binding (record b { form = some (clean_form c.normalize g).0 }) nil ≡ r =
              ground (arith, rw (f, s, finish) at h) in
            subst (λ k. IsCleanAt c prefix k) same
              (
                granted,
                record {
                  owned = item_clean.owned;
                  no_blank = item_clean.no_blank;
                  with_icon = item_clean.with_icon;
                },
                clean_form-AreCleanFields c.normalize g,
                rw s refl,
                tt,
              )
      ]
    ]
finish_sound c prefix b (cons d ds) (nil, problems) r granted item_clean subs_clean h = ground arith
finish_sound c prefix b (cons d ds) (cons e es, problems) r granted item_clean subs_clean h =
    elim (Option-cases b.form) [
      | inr (g, f) ↦ elim (Option-cases b.submit) [
        | inl s ↦ cc (rw (f, s, finish) at h)
        | inr (x, s) ↦ cc (rw (f, s, finish) at h)
      ]
      | inl f ↦ elim (Option-cases b.submit) [
        | inr (x, s) ↦ cc (rw (f, s, finish) at h)
        | inl s ↦
            let same : binding b (cons e es) ≡ r = ground (arith, rw (f, s, finish) at h) in
            subst (λ k. IsCleanAt c prefix k) same
              (granted, item_clean, rw f tt, rw (f, s) refl, subs_clean)
      ]
    ]

keep_sound :
    (c : Cleaner) (used_locations : Location → Bool) (used_labels : Str → Bool) (prefix : Location)
    (p : Option Binding × Problems) (rest : Bindings × Problems)
    → ((r : Binding) → p.0 ≡ some r → IsCleanAt c prefix r)
    → AreCleanAt c prefix rest.0
    → AreCleanAt c prefix (keep used_locations used_labels prefix p rest).0
unfolding keep AreCleanAt
keep_sound c used_locations used_labels prefix (none, problems) (out, later) f h = h
keep_sound c used_locations used_labels prefix (some b, problems) (out, later) f h =
    elim (Bool-cases (used_locations (item b).location)) [
      | inl e ↦ rw (e, keep) h
      | inr e ↦
          elim (Bool-cases
            (is_in (sub prefix (item b).location) location_command && used_labels (item b).label)) [
              | inl e' ↦ rw (e, e', keep) h
              | inr e' ↦ rw (e, e', keep) (f b refl, h)
            ]
    ]

mutual
  unfolding clean_app_bindings clean_app_binding AreCleanAt

  bindings_clean :
      (c : Cleaner) (bs : Bindings) (prefix : Location)
      → AreCleanAt c prefix (clean_app_bindings c bs prefix).0
  bindings_clean c nil prefix = tt
  bindings_clean c (cons b bs) prefix =
      keep_sound c never_used never_used prefix (clean_app_binding c b prefix)
        (clean_app_bindings c bs prefix) (λ r h. binding_clean c b prefix r h)
        (bindings_clean c bs prefix)

  binding_clean :
      (c : Cleaner) (b : Binding) (prefix : Location) (r : Binding)
      → (clean_app_binding c b prefix).0 ≡ some r
      → IsCleanAt c prefix r
  binding_clean c (binding b bs) prefix r h =
      let (i, cleaned, finished) =
        clean_with_sound c prefix bs (clean_app_bindings c bs) (clean_item c prefix b) r h in
      let (granted, clean) = clean_item_sound c prefix b i cleaned in
      finish_sound c prefix i bs (clean_app_bindings c bs (sub prefix i.location)) r granted clean
        (bindings_clean c bs (sub prefix i.location)) finished

-- In the result of cleaning bindings under a prefix, each binding and, under its own location, each
-- of its sub-bindings: lies in a granted location; has the app's id, unless its location is a top
-- one; below `/command`, has a label without a space or a tab, which may be empty; right below
-- `/channel_header`, and not deeper, has an icon for the web application; has exactly one of
-- sub-bindings, a form and a submit call; and a form has clean fields.
pub clean_app_bindings-AreCleanAt :
    (c : Cleaner) (bs : Bindings) (prefix : Location)
    → AreCleanAt c prefix (clean_app_bindings c bs prefix).0
clean_app_bindings-AreCleanAt = bindings_clean
