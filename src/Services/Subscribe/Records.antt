-- ===== src/Services/Subscribe/Records.antt =====
-- Lists of subscriptions: the records of one app and user, and all others.
use mattermost_plugin_apps.Base.{
  Str, ℕ, suc, ◌≤◌, ◌+◌, ◌≡◌, refl, true, List, [], ◌∷◌, ◌++◌, none, some, arith, if◌then◌else◌,
  eq_iff, eq_refl, Option-cases, Bool-cases, inl, inr,
}
use mattermost_plugin_apps.Store.Subscriptions.{Subscription}
use mattermost_plugin_apps.Services.Subscribe.{is_own, take_own}

-- The records that do not belong to an app and a user.
unfoldable pub others : Str → Str → List Subscription → List Subscription
others app owner [] = []
others app owner (s ∷ all) =
    let rest = others app owner all in if is_own app owner s then rest else s ∷ rest

-- How many records belong to them.
unfoldable pub count_own : Str → Str → List Subscription → ℕ
count_own app owner [] = 0
count_own app owner (s ∷ all) =
    if is_own app owner s then suc (count_own app owner all) else count_own app owner all

pub is_own_self :
    (app owner : Str) (s : Subscription)
    → s.app_id ≡ app
    → s.owner_user_id ≡ owner
    → is_own app owner s ≡ true
unfolding is_own
is_own_self app owner s h k = rw (h, k) (ground (arith, eq_refl app, eq_refl owner))

pub others-append :
    (app owner : Str) (xs ys : List Subscription)
    → others app owner (xs ++ ys) ≡ others app owner xs ++ others app owner ys
unfolding others
others-append app owner [] ys = refl
others-append app owner (x ∷ xs) ys = ground (arith, others-append app owner xs ys)

pub count_own-append :
    (app owner : Str) (xs ys : List Subscription)
    → count_own app owner (xs ++ ys) ≡ count_own app owner xs + count_own app owner ys
unfolding count_own
count_own-append app owner [] ys = omega arith
count_own-append app owner (x ∷ xs) ys = ground (arith, count_own-append app owner xs ys)

-- No own record is found only if there is none.
pub count_own_of_take_none :
    (app owner : Str) (all : List Subscription)
    → take_own app owner all ≡ none
    → count_own app owner all ≡ 0
unfolding take_own count_own
count_own_of_take_none app owner [] h = refl
count_own_of_take_none app owner (s ∷ all) h = ground (arith, count_own_of_take_none app owner all)

-- What is taken out is an own record; the others stay, in their order.
pub take_own_lem :
    (app owner : Str) (all : List Subscription) (found : Subscription)
    (modified : List Subscription)
    → take_own app owner all ≡ some (found, modified)
    → (is_own app owner found ≡ true)
      × (others app owner modified ≡ others app owner all)
      × (count_own app owner all ≡ suc (count_own app owner modified))
unfolding take_own count_own others
take_own_lem app owner [] found modified h = ground arith
take_own_lem app owner (s ∷ all) found modified h = elim (Option-cases (take_own app owner all)) [
  | inl e ↦ ground arith
  | inr (p, e) ↦ ground (arith, take_own_lem app owner all p.0 p.1 e)
]

-- Taking a record out raises no count.
pub count_own-take_le :
    (app owner a o : Str) (all : List Subscription) (found : Subscription)
    (modified : List Subscription)
    → take_own app owner all ≡ some (found, modified)
    → count_own a o modified ≤ count_own a o all
unfolding take_own count_own
count_own-take_le app owner a o [] found modified h = ground arith
count_own-take_le app owner a o (s ∷ all) found modified h =
    elim (Option-cases (take_own app owner all)) [
      | inl e ↦ ground arith
      | inr (p, e) ↦ ground (arith, count_own-take_le app owner a o all p.0 p.1 e)
    ]

-- A list with no own record is the list of the others.
pub others_of_count_zero :
    (app owner : Str) (all : List Subscription)
    → count_own app owner all ≡ 0
    → others app owner all ≡ all
unfolding count_own others
others_of_count_zero app owner [] h = refl
others_of_count_zero app owner (s ∷ all) h = ground (arith, others_of_count_zero app owner all)

-- A record belongs to one app and one user at most.
pub is_own_unique :
    (app owner a o : Str) (s : Subscription)
    → is_own app owner s ≡ true
    → is_own a o s ≡ true
    → (app ≡ a) × (owner ≡ o)
unfolding is_own
is_own_unique app owner a o s h k = ground (
  arith,
  eq_iff s.app_id app,
  eq_iff s.app_id a,
  eq_iff s.owner_user_id owner,
  eq_iff s.owner_user_id o,
)

pub count_own_single :
    (app owner : Str) (s : Subscription)
    → is_own app owner s ≡ true
    → count_own app owner (s ∷ []) ≡ 1
unfolding count_own
count_own_single app owner s h = ground arith

-- A new record is counted for its own app and user alone.
pub count_own-append_own :
    (app owner a o : Str) (all : List Subscription) (s : Subscription)
    → is_own app owner s ≡ true
    → count_own app owner all ≡ 0
    → count_own a o all ≤ 1
    → count_own a o (all ++ s ∷ []) ≤ 1
unfolding count_own
count_own-append_own app owner a o all s h none_yet le =
    rw count_own-append (elim (Bool-cases (is_own a o s)) [
      | inr e ↦ ground arith
      | inl e ↦ let (p, q) = is_own_unique app owner a o s h e in rw (← p, ← q) (ground arith)
    ])
