-- ===== src/Services/Subscribe/Checked.antt =====
-- What the checks of `Subscribe` and `Unsubscribe` establish: the event has a key.
use mattermost_plugin_apps.Base.{
  Str, ◌≡◌, refl, true, false, [], ◌∷◌, ok, arith, is_nil, Result-cases, inl, inr, invalid,
  Bool-cases,
}
use mattermost_plugin_apps.Apps.Event
use mattermost_plugin_apps.Apps.Event.{
  Event, Problems, validate_event, validate, Subject, unknown, user_created, user_joined_channel,
}
use mattermost_plugin_apps.Apps.Call.{is_empty_call}
use mattermost_plugin_apps.Incoming.{Request, Directory}
use mattermost_plugin_apps.Store.AppMaps.{AppMaps}
use mattermost_plugin_apps.Store.Subscriptions.{subs_key}
use mattermost_plugin_apps.Store.Subscriptions.Keys.{succeeds-subs_key}
use mattermost_plugin_apps.Services.Subscribe.{check_subscribe, check_unsubscribe}

abbrev event_of : Subject → Str → Str → Event
event_of subject channel team = record { subject = subject; channel_id = channel; team_id = team }

-- A problem that is there already is not lost.
problems_stay :
    (subject : Subject) (channel team : Str)
    → is_nil (validate_event (event_of subject channel team) (invalid ∷ [])) ≡ false
unfolding validate_event
problems_stay user_created [] [] = refl
problems_stay user_created [] (t ∷ ts) = refl
problems_stay user_created (c ∷ cs) [] = refl
problems_stay user_joined_channel [] [] = refl
problems_stay (unknown []) channel team = refl
problems_stay _ [] [] = refl
problems_stay _ [] (t ∷ ts) = refl
problems_stay _ (c ∷ cs) [] = refl
problems_stay _ (c ∷ cs) (t ∷ ts) = refl

valid_event :
    (sub : Event.Subscription)
    → is_nil (validate sub) ≡ true
    → is_nil (validate_event sub.event []) ≡ true
unfolding validate
valid_event sub h = elim (Bool-cases (is_empty_call sub.call)) [
  | inl e ↦ ground (arith, problems_stay sub.event.subject sub.event.channel_id sub.event.team_id)
  | inr e ↦ ground arith
]

key_of_valid :
    (e : Event) → is_nil (validate_event e []) ≡ true → (key : Str) × (subs_key e ≡ ok key)
key_of_valid e h = elim (Result-cases (subs_key e)) [
  | inl (key, k) ↦ (key, k)
  | inr (x, k) ↦ absurd (ground (arith, succeeds-subs_key e))
]

-- A subscription that passes the checks has a key.
pub key_of_check_subscribe :
    (d : Directory) (apps : AppMaps) (r r' : Request) (sub : Event.Subscription)
    → check_subscribe d apps r sub ≡ ok r'
    → (key : Str) × (subs_key sub.event ≡ ok key)
unfolding check_subscribe
key_of_check_subscribe d apps r r' sub h = key_of_valid sub.event (valid_event sub (ground arith))

pub key_of_check_unsubscribe :
    (d : Directory) (r r' : Request) (e : Event)
    → check_unsubscribe d r e ≡ ok r'
    → (key : Str) × (subs_key e ≡ ok key)
unfolding check_unsubscribe
key_of_check_unsubscribe d r r' e h = key_of_valid e (ground arith)
