-- ===== src/Proxy/Bindings/Clean.antt =====
-- What cleaning promises of the bindings of an app.
use mathlib.Core.Path.{subst}
use mattermost_plugin_apps.Base.{
  bytes, Bool, true, false, not, ◌&&◌, ◌||◌, ◌≡◌, refl, arith, Option, none, some, is_empty,
  is_some, if◌then◌else◌, ◌==◌, has_blank, trim_space, Bool-cases, inl, inr, Result-cases,
}
use mattermost_plugin_apps.Apps.Form.{Form}
use mattermost_plugin_apps.Apps.Location.{
  Location, is_in, is_top, sub, location_command, location_channel_header,
}
use mattermost_plugin_apps.Apps.Binding.{Item, Binding, Bindings, binding, nil, cons, is_given}
use mattermost_plugin_apps.Proxy.Form.Clean.{AreCleanFields}
use mattermost_plugin_apps.Proxy.Bindings.{
  Cleaner, is_granted, set_app_id, clean_label, clean_item_icon,
}

-- A location below `/command`.
abbrev pub is_command : Location → Bool
is_command fql = not (fql == location_command) && is_in fql location_command

-- A binding of the channel header, whose icon the web application needs.
abbrev pub needs_icon : Cleaner → Location → Item → Bool
needs_icon c fql b = fql == sub location_channel_header b.location && c.user_agent == bytes "webapp"

-- What cleaning promises of the fields of a binding that stays at a full location.
pub record IsCleanItem (c : Cleaner) (fql : Location) (b : Item) : Type 0 where
  pub owned : is_top fql ≡ false → b.app_id ≡ c.app_id
  pub no_blank : is_command fql ≡ true → has_blank b.label ≡ false
  pub with_icon : needs_icon c fql b ≡ true → is_empty b.icon ≡ false

abbrev pub HasCleanForm : Option Form → Type 0
HasCleanForm none = Unit
HasCleanForm (some f) = AreCleanFields f.fields

-- Exactly one of the three.
abbrev pub one_of : Bool → Bool → Bool → Bool
one_of x y z = x && not y && not z || not x && y && not z || not x && not y && z

-- What cleaning promises of a tree of bindings under a prefix.
unfoldable mutual
  pub AreCleanAt : Cleaner → Location → Bindings → Type 0
  AreCleanAt c prefix nil = Unit
  AreCleanAt c prefix (cons b bs) = IsCleanAt c prefix b × AreCleanAt c prefix bs

  pub IsCleanAt : Cleaner → Location → Binding → Type 0
  IsCleanAt c prefix (binding b bs) =
      (is_granted c.granted_locations (sub prefix b.location) ≡ true)
      × IsCleanItem c (sub prefix b.location) b
      × HasCleanForm b.form
      × (one_of (is_given bs) (is_some b.form) (is_some b.submit) ≡ true)
      × AreCleanAt c (sub prefix b.location) bs

-- The label: what comes out has the location and the app, and no blank for a command.
pub clean_label_sound :
    (fql : Location) (b r : Item)
    → (clean_label fql b).0 ≡ some r
    → (r.location ≡ b.location)
      × (r.app_id ≡ b.app_id)
      × (is_command fql ≡ true → has_blank r.label ≡ false)
unfolding clean_label
clean_label_sound fql b r h = elim (Bool-cases (is_command fql)) [
  | inr e ↦
      let same : b ≡ r = ground (arith, rw e at h) in
      subst
        (λ (k : Item).
          (k.location ≡ b.location)
          × (k.app_id ≡ b.app_id)
          × (is_command fql ≡ true → has_blank k.label ≡ false))
        same (refl, refl, λ y. cc)
  | inl e ↦
      let label = trim_space (if is_empty b.label then b.location else b.label) in
      elim (Bool-cases (has_blank label)) [
        | inl blank ↦ cc (rw (e, blank) at h)
        | inr word ↦
            let same : record b { label = label } ≡ r = ground (arith, rw (e, word) at h) in
            subst
              (λ (k : Item).
                (k.location ≡ b.location)
                × (k.app_id ≡ b.app_id)
                × (is_command fql ≡ true → has_blank k.label ≡ false))
              same (refl, refl, λ y. word)
      ]
]

pub clean_item_icon_sound :
    (c : Cleaner) (b : Item)
    → ((clean_item_icon c b).0.location ≡ b.location)
      × ((clean_item_icon c b).0.app_id ≡ b.app_id)
      × ((clean_item_icon c b).0.label ≡ b.label)
unfolding clean_item_icon
clean_item_icon_sound c b = elim (Result-cases (c.normalize b.icon)) [
  | inl (i, e) ↦ ground (arith, e)
  | inr (x, e) ↦ ground (arith, e)
]

pub set_app_id_sound :
    (c : Cleaner) (fql : Location) (b : Item)
    → ((set_app_id c fql b).location ≡ b.location)
      × (is_top fql ≡ false → (set_app_id c fql b).app_id ≡ c.app_id)
unfolding set_app_id
set_app_id_sound c fql b = ground arith
