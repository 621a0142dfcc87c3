-- ===== src/Store/Subscriptions/Keys.antt =====
-- The keys under which subscriptions are stored, against the validation of events.
use mathlib.Core.Option
use mattermost_plugin_apps.Base.{
  Str, Result, ok, err, ◌≡◌, refl, [], ◌∷◌, is_nil, succeeds, eqb, ◌==◌, Option, some, none, drop,
  if◌then◌else◌,
}
use mattermost_plugin_apps.Apps.Event.{
  Subject, Event, user_created, user_joined_channel, user_left_channel, user_joined_team,
  user_left_team, bot_joined_channel, bot_left_channel, bot_joined_team, bot_left_team,
  channel_created, unknown, text, validate_event,
}
use mattermost_plugin_apps.Store.Subscriptions.{subs_key}

abbrev event_of : Subject → Str → Str → Event
event_of subject channel team = record { subject = subject; channel_id = channel; team_id = team }

succeeds-subs_key-by_subject :
    (subject : Subject) (channel team : Str)
    → succeeds (subs_key (event_of subject channel team))
      ≡ is_nil (validate_event (event_of subject channel team) [])
unfolding validate_event subs_key
succeeds-subs_key-by_subject user_created [] [] = refl
succeeds-subs_key-by_subject user_created [] (t ∷ ts) = refl
succeeds-subs_key-by_subject user_created (c ∷ cs) [] = refl
succeeds-subs_key-by_subject user_joined_channel [] [] = refl
succeeds-subs_key-by_subject (unknown []) channel team = refl
succeeds-subs_key-by_subject _ [] [] = refl
succeeds-subs_key-by_subject _ [] (t ∷ ts) = refl
succeeds-subs_key-by_subject _ (c ∷ cs) [] = refl
succeeds-subs_key-by_subject _ (c ∷ cs) (t ∷ ts) = refl

-- A key can be made for an event exactly when the event passes its validation.
pub succeeds-subs_key : (e : Event) → succeeds (subs_key e) ≡ is_nil (validate_event e [])
succeeds-subs_key e = succeeds-subs_key-by_subject e.subject e.channel_id e.team_id

-- Up to the first dot of a text, and from there.
word : Str → Str
word [] = []
word (c ∷ s) = let w = word s in if eqb c b'.' then [] else c ∷ w

after_word : Str → Str
after_word [] = []
after_word (c ∷ s) = let w = after_word s in if eqb c b'.' then s else w

subject_of : Str → Option Subject
subject_of w =
    if w == text user_created
    then some user_created
    else if w == text user_joined_channel
    then some user_joined_channel
    else if w == text user_left_channel
    then some user_left_channel
    else if w == text user_joined_team
    then some user_joined_team
    else if w == text user_left_team
    then some user_left_team
    else if w == text bot_joined_channel
    then some bot_joined_channel
    else if w == text bot_left_channel
    then some bot_left_channel
    else if w == text bot_joined_team
    then some bot_joined_team
    else if w == text bot_left_team
    then some bot_left_team
    else if w == text channel_created
    then some channel_created
    else none

-- The event whose subject is given and whose scope is the ID of a key.
scoped_event : Subject → Str → Event
scoped_event user_joined_channel id = event_of user_joined_channel id []
scoped_event user_left_channel id = event_of user_left_channel id []
scoped_event subject id = event_of subject [] id

-- Which event a key belongs to: a reading of keys that the program does not have, in terms of
-- which its keys are shown to be unambiguous.
pub event_of_key : Str → Option Event
unfolding word after_word subject_of scoped_event ◌==◌
event_of_key key =
    let k = drop 4 key in
    Option.map (λ subject. scoped_event subject (after_word k)) (subject_of (word k))

abbrev event_of_result : Result Str → Option Event
event_of_result (ok key) = event_of_key key
event_of_result (err e) = none

event_of_result-subs_key :
    (subject : Subject) (channel team : Str)
    → event_of_result (subs_key (event_of subject channel team)) ≡ (
        if succeeds (subs_key (event_of subject channel team))
        then some (event_of subject channel team)
        else none)
unfolding subs_key event_of_key
event_of_result-subs_key user_created [] [] = refl
event_of_result-subs_key user_created [] (t ∷ ts) = refl
event_of_result-subs_key user_created (c ∷ cs) [] = refl
event_of_result-subs_key user_joined_channel [] [] = refl
event_of_result-subs_key (unknown []) channel team = refl
event_of_result-subs_key _ [] [] = refl
event_of_result-subs_key _ [] (t ∷ ts) = refl
event_of_result-subs_key _ (c ∷ cs) [] = refl
event_of_result-subs_key _ (c ∷ cs) (t ∷ ts) = refl

-- The event of a key that was made for an event is that event.
pub event_of_key-subs_key :
    (e : Event) (key : Str) → subs_key e ≡ ok key → event_of_key key ≡ some e
event_of_key-subs_key e key h = rw h at (event_of_result-subs_key e.subject e.channel_id e.team_id)

-- No two events have one key.
pub subs_key_injective :
    (e f : Event) (key : Str) → subs_key e ≡ ok key → subs_key f ≡ ok key → e ≡ f
subs_key_injective e f key h k = cc (event_of_key-subs_key e key h, event_of_key-subs_key f key k)
