-- ===== src/Proxy/Form/Options.antt =====
-- The options of a static select after cleaning.
use mattermost_plugin_apps.Base.{
  Str, true, false, List, [], ◌∷◌, ◌≡◌, ◌≢◌, refl, arith, is_empty, All, Distinct, eq_iff, eq_refl,
  Bool-cases, inl, inr,
}
use mattermost_plugin_apps.Apps.Form.{SelectOption}
use mattermost_plugin_apps.Proxy.Form.{is_used, option_label, accepts_option, clean_options}

-- What cleaning promises of options.
pub record AreClean (os : List SelectOption) : Type 0 where
  pub labelled : All (λ o. is_empty (option_label o) ≡ false) os
  pub labels : Distinct option_label os
  pub values : Distinct (λ (o : SelectOption). o.value) os

pub used_of_cons :
    (s t : Str) (used : List Str) → is_used s used ≡ true → is_used s (t ∷ used) ≡ true
unfolding is_used
used_of_cons s t used h = ground arith

pub used_head : (s : Str) (used : List Str) → is_used s (s ∷ used) ≡ true
unfolding is_used
used_head s used = ground (arith, eq_refl s)

fresh_of_cons :
    (s t : Str) (used : List Str) → s ≢ t → is_used s used ≡ false → is_used s (t ∷ used) ≡ false
unfolding is_used
fresh_of_cons s t used h k = ground (arith, eq_iff t s)

accepted_option :
    (labels values : List Str) (o : SelectOption)
    → accepts_option labels values o ≡ true
    → (is_empty (option_label o) ≡ false)
      × (is_used (option_label o) labels ≡ false)
      × (is_used o.value values ≡ false)
unfolding accepts_option
accepted_option labels values o h = ground arith

-- A used label or value does not come again.
clean_options-avoid :
    (x : Str) (labels values : List Str) (os : List SelectOption)
    → (is_used x labels ≡ true → All (λ o. option_label o ≢ x) (clean_options labels values os).0)
      × (is_used x values ≡ true → All (λ o. o.value ≢ x) (clean_options labels values os).0)
unfolding clean_options
clean_options-avoid x labels values [] = ((λ h. tt), λ h. tt)
clean_options-avoid x labels values (o ∷ os) = elim (Bool-cases (accepts_option labels values o)) [
  | inr refused ↦ rw refused (clean_options-avoid x labels values os)
  | inl accepted ↦
      let (by_label, by_value) =
        clean_options-avoid x (option_label o ∷ labels) (o.value ∷ values) os in
      rw accepted (
        (λ h. (
          (λ e. ground (arith, accepted_option labels values o accepted)),
          by_label (used_of_cons x (option_label o) labels h),
        )),
        λ h. (
          (λ e. ground (arith, accepted_option labels values o accepted)),
          by_value (used_of_cons x o.value values h),
        ),
      )
]

pub clean_options-AreClean :
    (labels values : List Str) (os : List SelectOption)
    → AreClean (clean_options labels values os).0
unfolding clean_options
clean_options-AreClean labels values [] = record { labelled = tt; labels = tt; values = tt }
clean_options-AreClean labels values (o ∷ os) = elim (Bool-cases (accepts_option labels values o)) [
  | inr refused ↦ rw refused (clean_options-AreClean labels values os)
  | inl accepted ↦
      let later = clean_options-AreClean (option_label o ∷ labels) (o.value ∷ values) os in
      let (by_label, _) =
        clean_options-avoid (option_label o) (option_label o ∷ labels) (o.value ∷ values) os in
      let (_, by_value) =
        clean_options-avoid o.value (option_label o ∷ labels) (o.value ∷ values) os in
      rw accepted (record {
        labelled = ((accepted_option labels values o accepted).0, later.labelled);
        labels = (by_label (used_head (option_label o) labels), later.labels);
        values = (by_value (used_head o.value values), later.values);
      })
]

-- What is fresh and differs from a new text stays fresh when that is used.
pub fresh-All {ℓ} :
    {A : Type ℓ} (key : A → Str) (x : Str) (used : List Str) (xs : List A)
    → All (λ y. key y ≢ x) xs
    → All (λ y. is_used (key y) used ≡ false) xs
    → All (λ y. is_used (key y) (x ∷ used) ≡ false) xs
fresh-All key x used [] h k = tt
fresh-All key x used (y ∷ ys) (p, h) (q, k) =
    (fresh_of_cons (key y) x used p q, fresh-All key x used ys h k)

accepts_fresh :
    (labels values : List Str) (o : SelectOption)
    → is_empty (option_label o) ≡ false
    → is_used (option_label o) labels ≡ false
    → is_used o.value values ≡ false
    → accepts_option labels values o ≡ true
unfolding accepts_option
accepts_fresh labels values o h k m = rw (h, k, m)

-- Clean options that are not used yet are all accepted.
clean_options_of_clean :
    (labels values : List Str) (os : List SelectOption)
    → AreClean os
    → All (λ o. is_used (option_label o) labels ≡ false) os
    → All (λ (o : SelectOption). is_used o.value values ≡ false) os
    → clean_options labels values os ≡ (os, [])
unfolding clean_options
clean_options_of_clean labels values [] c h k = refl
clean_options_of_clean labels values (o ∷ os) c (h, hs) (k, ks) =
    let later : AreClean os = record {
      labelled = c.labelled.1;
      labels = c.labels.1;
      values = c.values.1;
    } in
    rw (
      accepts_fresh labels values o c.labelled.0 h k,
      clean_options_of_clean (option_label o ∷ labels) (o.value ∷ values) os later
          (fresh-All option_label (option_label o) labels os c.labels.0 hs)
          (fresh-All (λ (p : SelectOption). p.value) o.value values os c.values.0 ks),
    )

pub none_used {ℓ} :
    {A : Type ℓ} (key : A → Str) (xs : List A) → All (λ y. is_used (key y) [] ≡ false) xs
unfolding is_used
none_used key [] = tt
none_used key (x ∷ xs) = (refl, none_used key xs)

-- Cleaning clean options changes nothing and finds no problem.
pub clean_options_fixed : (os : List SelectOption) → AreClean os → clean_options [] [] os ≡ (os, [])
clean_options_fixed os c =
    clean_options_of_clean [] [] os c (none_used option_label os)
      (none_used (λ (p : SelectOption). p.value) os)
