-- ===== src/Store/OAuth2/Accepted.antt =====
-- A state of an OAuth2 flow that has been created is accepted.
use mattermost_plugin_apps.Base.{
  Str, Bool, true, false, not, ◌≡◌, ◌⊎◌, inl, inr, refl, ◌∙◌, ap, [], ◌∷◌, Result, ok, err, Error,
  other, Option, none, some, eqb, eq_refl, arith, ◌&&◌,
}
use mattermost_plugin_apps.Base.Action.{chain_inversion}
use mattermost_plugin_apps.Store.AppKv.{data_of}
use mattermost_plugin_apps.Store.Kv.{Kv, KvLaws}
use mattermost_plugin_apps.Store.OAuth2.{
  split_at_dots, state_key, new_state, create_state, match_state, validate_state_once,
}

unfoldable pub has_no_dot : Str → Bool
has_no_dot [] = true
has_no_dot (c ∷ s) = not (eqb c b'.') && has_no_dot s

split_at_dots-HasNoDot : (s : Str) → has_no_dot s ≡ true → split_at_dots s ≡ s ∷ []
unfolding split_at_dots has_no_dot
split_at_dots-HasNoDot [] h = refl
split_at_dots-HasNoDot (c ∷ s) h =
    let apart : eqb c b'.' ≡ false = ground arith in
    let rest = split_at_dots-HasNoDot s (ground arith) in rw (apart, rest) refl

split_at_dots-new_state :
    (random user_id : Str)
    → has_no_dot random ≡ true
    → split_at_dots (new_state random user_id) ≡ random ∷ split_at_dots user_id
unfolding split_at_dots has_no_dot
split_at_dots-new_state [] user_id h = refl
split_at_dots-new_state (c ∷ random) user_id h =
    let apart : eqb c b'.' ≡ false = ground arith in
    let rest = split_at_dots-new_state random user_id (ground arith) in rw (apart, rest) refl

module _ {S : Type 0} (kv : Kv S Str) (laws : KvLaws kv) where
  create_inversion :
      (random user_id state : Str) (s : S)
      → (create_state kv random user_id s).0 ≡ ok state
      → (state ≡ new_state random user_id)
        × (laws.read (state_key state) (create_state kv random user_id s).1 ≡ some state)
  unfolding create_state
  create_inversion random user_id state s h =
      let (b, set, given, end) =
        chain_inversion (kv.set (state_key (new_state random user_id)) (new_state random user_id)) _
          s state h in
      let same : state ≡ new_state random user_id = cc given in
      (
        same,
        rw (same, end)
            (laws.set_ok (state_key (new_state random user_id))
                (state_key (new_state random user_id)) _ s b set
              ∙ rw (eq_refl (state_key (new_state random user_id))) refl),
      )

  match_same :
      (state : Str) (r : Result (Option Str))
      → ((o : Option Str) → r ≡ ok o → o ≡ some state)
      → ((e : Error) → r ≡ err e → e ≡ other)
      → (match_state kv state (data_of r) ≡ ok tt) ⊎ (match_state kv state (data_of r) ≡ err other)
  match_same state (err e) stored fails = inr (ap err (fails e refl))
  match_same state (ok none) stored fails = absurd (cc (stored none refl))
  match_same state (ok (some t)) stored fails =
      let same : t ≡ state = cc (stored (some t) refl) in inl (rw (same, eq_refl state) refl)

  -- A state that has been created is accepted of its user, if it can be read; the random part and the
  -- ID of the user have no dot.
  pub validate_state_once-create_state :
      (random user_id state : Str) (s : S)
      → has_no_dot random ≡ true
      → has_no_dot user_id ≡ true
      → (create_state kv random user_id s).0 ≡ ok state
      → let s' = (create_state kv random user_id s).1 in
        ((validate_state_once kv state user_id s').0 ≡ ok tt)
        ⊎ ((validate_state_once kv state user_id s').0 ≡ err other)
  unfolding validate_state_once
  validate_state_once-create_state random user_id state s hr hu h =
      let (same, stored) = create_inversion random user_id state s h in
      let parts : split_at_dots state ≡ random ∷ user_id ∷ [] =
        ap split_at_dots same
        ∙ split_at_dots-new_state random user_id hr
        ∙ ap (λ t. random ∷ t) (split_at_dots-HasNoDot user_id hu) in
      rw (parts, eq_refl user_id)
        (match_same state (kv.get (state_key state) (create_state kv random user_id s).1)
          (λ o k. laws.get_ok (state_key state) _ o k ∙ stored)
          (λ e k. laws.get_err (state_key state) _ e k))
