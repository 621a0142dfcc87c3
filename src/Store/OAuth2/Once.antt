-- ===== src/Store/OAuth2/Once.antt =====
-- A state of an OAuth2 flow is accepted once.
use mattermost_plugin_apps.Base.{
  Str, true, false, ◌≡◌, ◌⊎◌, inl, inr, Result-cases, refl, sym, ◌∙◌, ap, List, [], ◌∷◌, Result, ok,
  err, Error, forbidden, Option, none, some, ◌==◌, eq_sound, eq_refl, Bool-cases,
}
use mattermost_plugin_apps.Store.AppKv.{data_of}
use mattermost_plugin_apps.Store.Kv.{Kv, KvLaws}
use mattermost_plugin_apps.Store.OAuth2.{
  split_at_dots, is_state_of, state_key, match_state, validate_state_once,
}

-- A state of a user has a part before a dot, and the ID of the user after it.
is_state_of-parts :
    (user_id : Str) (parts : List Str)
    → is_state_of user_id parts ≡ true
    → (random : Str) × (parts ≡ random ∷ user_id ∷ [])
is_state_of-parts user_id [] h = absurd (cc h)
is_state_of-parts user_id (random ∷ []) h = absurd (cc h)
is_state_of-parts user_id (random ∷ owner ∷ []) h =
    (random, ap (λ o. random ∷ o ∷ []) (eq_sound owner user_id h))
is_state_of-parts user_id (random ∷ owner ∷ part ∷ parts) h = absurd (cc h)

module _ {S : Type 0} (kv : Kv S Str) (laws : KvLaws kv) where
  validate_inversion :
      (url_state user_id : Str) (s : S)
      → (validate_state_once kv url_state user_id s).0 ≡ ok tt
      → (is_state_of user_id (split_at_dots url_state) ≡ true)
        × (match_state kv url_state (data_of (kv.get (state_key url_state) s)) ≡ ok tt)
        × ((validate_state_once kv url_state user_id s).1 ≡ (kv.delete (state_key url_state) s).1)
  unfolding validate_state_once
  validate_inversion url_state user_id s h =
      elim (Bool-cases (is_state_of user_id (split_at_dots url_state))) [
        | inr e ↦ let never = rw e at h in absurd (cc never)
        | inl e ↦ (e, rw e at h, rw e refl)
      ]

  -- A state that is accepted for a second time would have to be stored.
  match_gone :
      (url_state : Str) (r : Result (Option Str))
      → (url_state == []) ≡ false
      → ((o : Option Str) → r ≡ ok o → o ≡ none)
      → (e : Error) × (match_state kv url_state (data_of r) ≡ err e)
  unfolding ◌==◌
  match_gone url_state (err e) given gone = (e, refl)
  match_gone [] (ok o) given gone = absurd (cc given)
  match_gone (c ∷ s) (ok none) given gone = (forbidden, refl)
  match_gone (c ∷ s) (ok (some t)) given gone = absurd (cc (gone (some t) refl))

  match_stored :
      (url_state : Str) (r : Result (Option Str))
      → (url_state == []) ≡ false
      → match_state kv url_state (data_of r) ≡ ok tt
      → r ≡ ok (some url_state)
  unfolding ◌==◌
  match_stored url_state (err e) given h = absurd (cc h)
  match_stored [] (ok o) given h = absurd (cc given)
  match_stored (c ∷ s) (ok none) given h = absurd (cc h)
  match_stored (c ∷ s) (ok (some t)) given h = elim (Bool-cases (t == (c ∷ s))) [
    | inl e ↦ ap (λ u. ok (some u)) (eq_sound t (c ∷ s) e)
    | inr e ↦ let never = rw e at h in absurd (cc never)
  ]

  state_given :
      (url_state user_id : Str)
      → is_state_of user_id (split_at_dots url_state) ≡ true
      → (url_state == []) ≡ false
  unfolding split_at_dots ◌==◌
  state_given [] user_id h = absurd (cc h)
  state_given (c ∷ s) user_id h = refl

  refused :
      (url_state other_id : Str) (s : S)
      → (url_state == []) ≡ false
      → (kv.delete (state_key url_state) s).0 ≡ ok tt
      → (e : Error) × ((validate_state_once kv url_state other_id
            (kv.delete (state_key url_state) s).1).0
          ≡ err e)
  unfolding validate_state_once
  refused url_state other_id s given deleted =
      elim (Bool-cases (is_state_of other_id (split_at_dots url_state))) [
        | inr e ↦ (forbidden, rw e refl)
        | inl e ↦ rw e (
            match_gone url_state
              (kv.get (state_key url_state) (kv.delete (state_key url_state) s).1) given
              (λ o h.
                laws.get_ok (state_key url_state) _ o h
                ∙ laws.delete_ok (state_key url_state) (state_key url_state) s deleted
                ∙ rw (eq_refl (state_key url_state)) refl))
      ]

  -- A state that is accepted was stored, and names the user; and either it could not be deleted, or it
  -- is not accepted again, whoever the user.
  pub validate_state_once-Once :
      (url_state user_id : Str) (s : S)
      → (validate_state_once kv url_state user_id s).0 ≡ ok tt
      → ((random : Str) × (split_at_dots url_state ≡ random ∷ user_id ∷ []))
        × (laws.read (state_key url_state) s ≡ some url_state)
        × (((e : Error) × ((kv.delete (state_key url_state) s).0 ≡ err e))
            ⊎ ((other_id : Str)
                → (e : Error) × ((validate_state_once kv url_state other_id
                      (validate_state_once kv url_state user_id s).1).0
                    ≡ err e)))
  validate_state_once-Once url_state user_id s h =
      let (is_state, matched, end) = validate_inversion url_state user_id s h in
      let given = state_given url_state user_id is_state in
      let stored = match_stored url_state (kv.get (state_key url_state) s) given matched in
      (
        is_state_of-parts user_id (split_at_dots url_state) is_state,
        sym (laws.get_ok (state_key url_state) s (some url_state) stored),
        elim (Result-cases (kv.delete (state_key url_state) s).0) [
          | inl (t, deleted) ↦ inr (λ other_id. rw end (refused url_state other_id s given deleted))
          | inr (e, failed) ↦ inl (e, failed)
        ],
      )
