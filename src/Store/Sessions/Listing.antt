-- ===== src/Store/Sessions/Listing.antt =====
-- Listing the keys of sessions page by page ends; which keys it lists.
use mathlib.Core.Path.{subst}
use mattermost_plugin_apps.Base.{
  Str, ℕ, zero, suc, ◌+◌, ◌*◌, ◌<◌, ◌≤◌, ◌≡◌, ◌⊎◌, refl, sym, ap, ◌∙◌, arith, List, [], ◌∷◌, ◌++◌,
  length, take, drop, Result, ok, err, Error, Option, some, inl, inr, Result-cases, Bool-cases,
  has_prefix,
}
use mattermost_plugin_apps.Store.Kv.{Kv}
use mattermost_plugin_apps.Store.Sessions.{
  Session, keys_for_app, keys_for_user, app_key, is_of_user, parse_session_key,
}
use mattermost_plugin_apps.Store.Sessions.Selecting.{
  Selects, IsAppKey, IsUserKey, keys_for_app-Selects, keys_for_user-Selects,
}
use mattermost_plugin_apps.Store.Sessions.Pages.{
  list_from, list_keys_for_app, list_keys_for_user, page_of, list_keys_per_page,
}

module _ {A : Type 0} where
  append_nil : (xs : List A) → xs ++ [] ≡ xs
  append_nil [] = refl
  append_nil (x ∷ xs) = ap (λ (ys : List A). x ∷ ys) (append_nil xs)

  append_assoc : (xs ys zs : List A) → (xs ++ ys) ++ zs ≡ xs ++ (ys ++ zs)
  append_assoc [] ys zs = refl
  append_assoc (x ∷ xs) ys zs = ap (λ (l : List A). x ∷ l) (append_assoc xs ys zs)

  take-drop : (n : ℕ) (xs : List A) → take n xs ++ drop n xs ≡ xs
  take-drop zero xs = refl
  take-drop (suc n) [] = refl
  take-drop (suc n) (x ∷ xs) = ap (λ (ys : List A). x ∷ ys) (take-drop n xs)

  drop_nil : (n : ℕ) → drop {A = A} n [] ≡ []
  drop_nil zero = refl
  drop_nil (suc n) = refl

  drop-drop : (m n : ℕ) (xs : List A) → drop n (drop m xs) ≡ drop (m + n) xs
  drop-drop zero n xs = ap (λ (k : ℕ). drop k xs) (omega arith)
  drop-drop (suc m) n [] = drop_nil n ∙ sym (drop_nil (suc m + n))
  drop-drop (suc m) n (x ∷ xs) = drop-drop m n xs ∙ ap (λ (k : ℕ). drop k (x ∷ xs)) (step m n)
    where
      step : (a b : ℕ) → suc (a + b) ≡ suc a + b
      step a b = omega arith

  length-drop : (n : ℕ) (xs : List A) → length (drop n xs) ≤ length xs
  length-drop zero xs = omega arith
  length-drop (suc n) [] = omega arith
  length-drop (suc n) (x ∷ xs) = let shorter = length-drop n xs in omega arith

-- Page `page` of a list, of `n` on a page.
abbrev pub page_at : ℕ → ℕ → List Str → List Str
page_at n page all = take n (drop (page * n) all)

-- A page could not be read, and its error is the result.
abbrev IsOfPage : {A : Type 0} → (ℕ → Result (List Str)) → Result A → Type 0
IsOfPage list_page r = (e : Error) × (page : ℕ) × (r ≡ err e) × (list_page page ≡ err e)

-- A list that is complete, or the error of a page in its place.
abbrev IsComplete : {A : Type 0} → (ℕ → Result (List Str)) → List A → Result (List A) → Type 0
IsComplete list_page wanted r = (r ≡ ok wanted) ⊎ IsOfPage list_page r

-- The elements of a list that have a property, in their order, or the error of a page in their place.
abbrev pub IsListing :
    (Str → Type 0) → (ℕ → Result (List Str)) → List Str → Result (List Str) → Type 0
IsListing P list_page all r =
    ((keys : List Str) × (r ≡ ok keys) × Selects P all keys) ⊎ IsOfPage list_page r

module _ {A : Type 0} (list_page : ℕ → Result (List Str)) (select : List Str → List A) (n : ℕ)
    (all : List Str) (select_nil : select [] ≡ [])
    (select_append : (xs ys : List Str) → select (xs ++ ys) ≡ select xs ++ select ys)
    (pages : (page : ℕ) (keys : List Str)
      → list_page page ≡ ok keys
      → keys ≡ page_at (suc n) page all) where
  abbrev remaining : ℕ → List Str
  remaining page = drop (page * suc n) all

  remaining-suc : (page : ℕ) → drop (suc n) (remaining page) ≡ remaining (suc page)
  remaining-suc page =
      drop-drop (page * suc n) (suc n) all ∙ ap (λ (k : ℕ). drop k all) (sum page (suc n))
    where
      sum : (p k : ℕ) → p * k + k ≡ suc p * k
      sum p k = omega arith

  none_left : (keys : List Str) → take (suc n) keys ≡ [] → keys ≡ []
  none_left [] h = refl
  none_left (key ∷ keys) h = absurd (cc h)

  fewer_left :
      (keys more : List Str) (key : Str)
      → key ∷ more ≡ take (suc n) keys
      → length (drop (suc n) keys) < length keys
  fewer_left [] more key h = absurd (cc h)
  fewer_left (k ∷ keys) more key h = let shorter = length-drop n keys in omega arith

  abbrev Ends : ℕ → ℕ → List A → Type 0
  Ends fuel page ret =
      (r : Result (List A)) × (list_from list_page select fuel page ret ≡ some r)
      × IsComplete list_page (ret ++ select (remaining page)) r

  -- A page is read; the rest is taken from the pages after it.
  page-Ends :
      (fuel page : ℕ) (ret : List A) (keys : List Str)
      → ((ret' : List A) → length (remaining (suc page)) < fuel → Ends fuel (suc page) ret')
      → list_page page ≡ ok keys
      → length (remaining page) < suc fuel
      → Ends (suc fuel) page ret
  unfolding list_from
  page-Ends fuel page ret [] rest k h =
      let nothing = none_left (remaining page) (sym (pages page [] k)) in
      (
        ok ret,
        rw (list_from, k) refl,
        inl (
            ap (λ (l : List A). ok l)
              (sym (append_nil ret)
                ∙ ap (λ (l : List A). ret ++ l) (sym select_nil ∙ ap select (sym nothing)))),
      )
  page-Ends fuel page ret (key ∷ keys) rest k h =
      let taken = pages page (key ∷ keys) k in
      let fewer = fewer_left (remaining page) keys key taken in
      let later = ap (λ (l : List Str). length l) (sym (remaining-suc page)) in
      let (r, run, complete) = rest (ret ++ select (key ∷ keys)) (omega (arith, h, fewer, later)) in
      (
        r,
        rw (list_from, k) run,
        subst (λ (l : List A). IsComplete list_page l r)
            (append_assoc ret (select (key ∷ keys)) (select (remaining (suc page)))
              ∙ ap (λ (l : List A). ret ++ l)
                  (sym (select_append (key ∷ keys) (remaining (suc page)))
                    ∙ ap select (
                        ap (λ (l : List Str). l ++ remaining (suc page)) taken
                        ∙ ap (λ (l : List Str). take (suc n) (remaining page) ++ l)
                            (sym (remaining-suc page))
                        ∙ take-drop (suc n) (remaining page))))
            complete,
      )

  pub list_from-Ends :
      (fuel page : ℕ) (ret : List A) → length (remaining page) < fuel → Ends fuel page ret
  unfolding list_from
  list_from-Ends zero page ret h = absurd (omega arith)
  list_from-Ends (suc fuel) page ret h = elim (Result-cases (list_page page)) [
    | inr (e, k) ↦ (err e, rw (list_from, k) refl, inr (e, page, refl, k))
    | inl (keys, k) ↦
        page-Ends fuel page ret keys (λ ret' less. list_from-Ends fuel (suc page) ret' less) k h
  ]

keys_for_app-append :
    (app_id : Str) (xs ys : List Str)
    → keys_for_app app_id (xs ++ ys) ≡ keys_for_app app_id xs ++ keys_for_app app_id ys
unfolding keys_for_app
keys_for_app-append app_id [] ys = refl
keys_for_app-append app_id (x ∷ xs) ys = elim (Bool-cases (has_prefix x (app_key app_id))) [
  | inl e ↦ rw (e, keys_for_app-append app_id xs ys) refl
  | inr e ↦ rw (e, keys_for_app-append app_id xs ys) refl
]

keys_for_user-append :
    (user_id : Str) (xs ys : List Str)
    → keys_for_user user_id (xs ++ ys) ≡ keys_for_user user_id xs ++ keys_for_user user_id ys
unfolding keys_for_user
keys_for_user-append user_id [] ys = refl
keys_for_user-append user_id (x ∷ xs) ys =
    elim (Bool-cases (is_of_user user_id (parse_session_key x))) [
      | inl e ↦ rw (e, keys_for_user-append user_id xs ys) refl
      | inr e ↦ rw (e, keys_for_user-append user_id xs ys) refl
    ]

-- A complete list is the listing of what is selected.
complete-IsListing :
    (P : Str → Type 0) (list_page : ℕ → Result (List Str)) (all wanted : List Str)
    (run : Option (Result (List Str)))
    → Selects P all wanted
    → (r : Result (List Str)) × (run ≡ some r) × IsComplete list_page wanted r
    → (r : Result (List Str)) × (run ≡ some r) × IsListing P list_page all r
complete-IsListing P list_page all wanted run selects (r, e, inl h) =
    (r, e, inl (wanted, h, selects))
complete-IsListing P list_page all wanted run selects (r, e, inr h) = (r, e, inr h)

-- With more fuel than there are keys, the loops of `listKeysForApp` and `listKeysForUser` over the
-- pages end. The result of the first has the keys of the server that begin with the prefix of session
-- keys and the ID of the app, those of other apps whose IDs begin so included; that of the second has
-- the session keys of the user for any app where neither ID has an underscore; both in their order, and
-- no other keys. In place of such a list there may be an error, and then it is that of a page that
-- could not be read. A page, where it can be read, holds the keys that the page size gives for its
-- number.
pub list_keys_lem :
    {S : Type 0} (kv : Kv S Session) (list_keys : ℕ → ℕ → S → Result (List Str))
    (keys_of : S → List Str)
    → ((page n : ℕ) (s : S) (keys : List Str)
        → list_keys page n s ≡ ok keys
        → keys ≡ page_at n page (keys_of s))
    → (fuel : ℕ) (app_id user_id : Str) (s : S) → length (keys_of s) < fuel
    → ((r : Result (List Str)) × (list_keys_for_app kv list_keys fuel app_id s ≡ some r)
        × IsListing (IsAppKey app_id) (page_of kv list_keys s) (keys_of s) r)
      × ((r : Result (List Str)) × (list_keys_for_user kv list_keys fuel user_id s ≡ some r)
          × IsListing (IsUserKey user_id) (page_of kv list_keys s) (keys_of s) r)
unfolding list_keys_for_app list_keys_for_user keys_for_app keys_for_user
list_keys_lem kv list_keys keys_of pages fuel app_id user_id s h = (
  complete-IsListing (IsAppKey app_id) (page_of kv list_keys s) (keys_of s) _ _
      (keys_for_app-Selects app_id (keys_of s))
      (list_from-Ends (page_of kv list_keys s) (keys_for_app app_id) 999 (keys_of s) refl
        (keys_for_app-append app_id) (λ page keys e. pages page list_keys_per_page s keys e) fuel 0
        [] h),
  complete-IsListing (IsUserKey user_id) (page_of kv list_keys s) (keys_of s) _ _
      (keys_for_user-Selects user_id (keys_of s))
      (list_from-Ends (page_of kv list_keys s) (keys_for_user user_id) 999 (keys_of s) refl
        (keys_for_user-append user_id) (λ page keys e. pages page list_keys_per_page s keys e) fuel
        0 [] h),
)
