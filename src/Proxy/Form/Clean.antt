-- ===== src/Proxy/Form/Clean.antt =====
-- Forms after cleaning.
use mathlib.Core.Path.{subst, subst⁻¹}
use mattermost_plugin_apps.Base.{
  Str, ℕ, true, false, List, [], ◌∷◌, ◌≡◌, ◌≢◌, refl, arith, is_empty, is_nil, is_some, All,
  Distinct, Bool-cases, Option-cases, inl, inr, has_blank, replace_byte, some, Result, ◌||◌,
}
use mattermost_plugin_apps.Apps.Form.{Field, Form, FieldType, static_select, dynamic_select, text}
use mattermost_plugin_apps.Proxy.Form.{
  is_used, clean_options, clean_static_select, clean_by_type, default_label, clean_field,
  clean_fields, clean_form, clean_icon,
}
use mattermost_plugin_apps.Proxy.Form.Options.{
  AreClean, clean_options-AreClean, clean_options_fixed, fresh-All, none_used, used_of_cons,
  used_head,
}

-- What a field needs by its type.
abbrev pub SuitsType : FieldType → Field → Type 0
SuitsType static_select f =
    (is_nil f.select_static_options ≡ false) × AreClean f.select_static_options
SuitsType dynamic_select f = is_some f.select_dynamic_lookup ≡ true
SuitsType _ f = Unit

-- What cleaning promises of a field.
pub record IsClean (f : Field) : Type 0 where
  pub named : is_empty f.name ≡ false
  pub name_one_word : has_blank f.name ≡ false
  pub labelled : is_empty f.label ≡ false
  pub label_one_word : has_blank f.label ≡ false
  pub suits_type : SuitsType f.type f

is_empty-replace_byte : (x y : ℕ) (s : Str) → is_empty (replace_byte x y s) ≡ is_empty s
unfolding replace_byte
is_empty-replace_byte x y [] = refl
is_empty-replace_byte x y (c ∷ s) = refl

default_label_given : (f : Field) → is_empty f.name ≡ false → is_empty (default_label f) ≡ false
default_label_given f h = ground (arith, is_empty-replace_byte b'_' b'-' f.name)

-- What is left of a field by its type keeps all but the options, and suits the type.
clean_by_type_sound :
    (t : FieldType) (f g : Field)
    → (clean_by_type t f).0 ≡ some g
    → (g.name ≡ f.name) × (g.label ≡ f.label) × (g.type ≡ f.type) × SuitsType t g
unfolding clean_by_type clean_static_select
clean_by_type_sound static_select f g h =
    elim (Bool-cases (is_nil (clean_options [] [] f.select_static_options).0)) [
      | inl e ↦ cc (rw e at h)
      | inr e ↦
          let options = (clean_options [] [] f.select_static_options).0 in
          let same : record f { select_static_options = options } ≡ g = ground arith in
          subst
            (λ (k : Field).
              (k.name ≡ f.name)
              × (k.label ≡ f.label)
              × (k.type ≡ f.type)
              × SuitsType static_select k)
            same (refl, refl, refl, (e, clean_options-AreClean [] [] f.select_static_options))
    ]
clean_by_type_sound dynamic_select f g h = ground arith
clean_by_type_sound text f g h = ground arith
clean_by_type_sound _ f g h = ground arith

clean_by_type_fixed : (t : FieldType) (f : Field) → SuitsType t f → clean_by_type t f ≡ (some f, [])
unfolding clean_by_type clean_static_select
clean_by_type_fixed static_select f (given, c) =
    rw (clean_options_fixed f.select_static_options c, given)
clean_by_type_fixed dynamic_select f h = ground arith
clean_by_type_fixed text f h = refl
clean_by_type_fixed _ f h = refl

-- A field that stays is clean, and its label is new.
clean_field_sound :
    (used : List Str) (f g : Field)
    → (clean_field used f).0 ≡ some g
    → IsClean g × (is_used g.label used ≡ false)
unfolding clean_field
clean_field_sound used f g h = elim (Bool-cases (is_empty f.name)) [
  | inl e ↦ cc (rw e at h)
  | inr named ↦ elim (Bool-cases (has_blank f.name)) [
    | inl e ↦ cc (rw (named, e) at h)
    | inr one_word ↦ elim (Bool-cases (has_blank (default_label f))) [
      | inl e ↦ cc (rw (named, one_word, e) at h)
      | inr label_word ↦ elim (Bool-cases (is_used (default_label f) used)) [
        | inl e ↦ cc (rw (named, one_word, label_word, e) at h)
        | inr unused ↦
            let (n, l, t, suits) =
              clean_by_type_sound f.type (record f { label = default_label f }) g
                (rw (named, one_word, label_word, unused) at h) in
            (
              record {
                named = rw n named;
                name_one_word = rw n one_word;
                labelled = rw l (default_label_given f named);
                label_one_word = rw l label_word;
                suits_type = subst⁻¹ (λ ty. SuitsType ty g) t suits;
              },
              rw l unused,
            )
      ]
    ]
  ]
]

clean_field_fixed :
    (used : List Str) (f : Field)
    → IsClean f
    → is_used f.label used ≡ false
    → clean_field used f ≡ (some f, [])
unfolding clean_field
clean_field_fixed used f c h =
    rw (c.named, c.name_one_word, c.labelled, c.label_one_word, h)
      (clean_by_type_fixed f.type f c.suits_type)

clean_fields-avoid :
    (x : Str) (used : List Str) (fs : List Field)
    → is_used x used ≡ true
    → All (λ f. f.label ≢ x) (clean_fields used fs).0
unfolding clean_fields
clean_fields-avoid x used [] h = tt
clean_fields-avoid x used (f ∷ fs) h = elim (Option-cases (clean_field used f).0) [
  | inl e ↦ rw (e, clean_fields) (clean_fields-avoid x used fs h)
  | inr (g, e) ↦
      let (_, unused) = clean_field_sound used f g e in
      rw (e, clean_fields)
        (
          (λ p. cc (rw p at unused, h)),
          clean_fields-avoid x (g.label ∷ used) fs (used_of_cons x g.label used h),
        )
]

-- What cleaning promises of the fields of a form: each is clean, and no two have one label.
pub record AreCleanFields (fs : List Field) : Type 0 where
  pub each : All IsClean fs
  pub labels : Distinct (λ (f : Field). f.label) fs

clean_fields-AreClean :
    (used : List Str) (fs : List Field) → AreCleanFields (clean_fields used fs).0
unfolding clean_fields
clean_fields-AreClean used [] = record { each = tt; labels = tt }
clean_fields-AreClean used (f ∷ fs) = elim (Option-cases (clean_field used f).0) [
  | inl e ↦ rw (e, clean_fields) (clean_fields-AreClean used fs)
  | inr (g, e) ↦
      let (clean, _) = clean_field_sound used f g e in
      let later = clean_fields-AreClean (g.label ∷ used) fs in
      rw (e, clean_fields)
        (record {
          each = (clean, later.each);
          labels = (
            clean_fields-avoid g.label (g.label ∷ used) fs (used_head g.label used),
            later.labels,
          );
        })
]

clean_fields_of_clean :
    (used : List Str) (fs : List Field)
    → AreCleanFields fs
    → All (λ f. is_used f.label used ≡ false) fs
    → clean_fields used fs ≡ (fs, [])
unfolding clean_fields
clean_fields_of_clean used [] c h = refl
clean_fields_of_clean used (f ∷ fs) c (h, hs) =
    let later : AreCleanFields fs = record { each = c.each.1; labels = c.labels.1 } in
    ground (
      arith,
      clean_field_fixed used f c.each.0 h,
      clean_fields_of_clean (f.label ∷ used) fs later
          (fresh-All (λ (g : Field). g.label) f.label used fs c.labels.0 hs),
    )

-- Every field of a cleaned form has a name and a label, each of one word; a static select has
-- options, each with a label or a value, no two with one label or one value; a dynamic select has
-- a lookup call; and no two fields have one label.
pub clean_form-AreCleanFields :
    (normalize : Str → Result Str) (f : Form) → AreCleanFields (clean_form normalize f).0.fields
unfolding clean_form
clean_form-AreCleanFields normalize f = clean_fields-AreClean [] f.fields

-- The fields of a form that has been cleaned pass a second cleaning unchanged, without a problem.
pub clean_fields_idempotent :
    (normalize : Str → Result Str) (f : Form)
    → clean_fields [] (clean_form normalize f).0.fields ≡ ((clean_form normalize f).0.fields, [])
clean_fields_idempotent normalize f =
    clean_fields_of_clean [] (clean_form normalize f).0.fields
      (clean_form-AreCleanFields normalize f)
      (none_used (λ (g : Field). g.label) (clean_form normalize f).0.fields)

-- A form with clean fields, a submit or a source call, and no icon passes unchanged, without a
-- problem.
pub clean_form_fixed :
    (normalize : Str → Result Str) (f : Form)
    → AreCleanFields f.fields
    → f.icon ≡ []
    → (is_some f.submit || is_some f.source) ≡ true
    → clean_form normalize f ≡ (f, [])
unfolding clean_form clean_icon
clean_form_fixed normalize f c no_icon calls =
    let fields : clean_fields [] f.fields ≡ (f.fields, []) =
      clean_fields_of_clean [] f.fields c (none_used (λ (g : Field). g.label) f.fields) in
    rw (fields, no_icon, calls)
