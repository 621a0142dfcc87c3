-- ===== src/Store/HashKeys/RoundTrip.antt =====
-- What is read back of a key.
use mattermost_plugin_apps.Base.{
  Str, ℕ, zero, suc, Bool, true, false, not, ◌||◌, ◌+◌, ◌≡◌, refl, sym, ◌∙◌, ap, List, [], ◌∷◌,
  ◌++◌, Result, ok, err, other, is_empty, length, take, drop, if◌then◌else◌, eqb, arith, trim_space,
}
use mathlib.Core.List.{append-nil}
use mattermost_plugin_apps.Base.Trimming.{is_visible, spaces, trim_space-spaces}
use mattermost_plugin_apps.Store.HashKeys.{fill, hash_key, joined, parse_hash_key, is_long, slice}

module _ {ℓ} {A : Type ℓ} where
  take_append : (n : ℕ) (xs ys : List A) → length xs ≡ n → take n (xs ++ ys) ≡ xs
  take_append zero [] ys h = refl
  take_append zero (x ∷ xs) ys h = absurd (omega arith)
  take_append (suc n) [] ys h = absurd (omega arith)
  take_append (suc n) (x ∷ xs) ys h = ap (λ zs. x ∷ zs) (take_append n xs ys (omega arith))

  take_all : (n : ℕ) (xs : List A) → length xs ≡ n → take n xs ≡ xs
  take_all zero [] h = refl
  take_all zero (x ∷ xs) h = absurd (omega arith)
  take_all (suc n) [] h = absurd (omega arith)
  take_all (suc n) (x ∷ xs) h = ap (λ zs. x ∷ zs) (take_all n xs (omega arith))

  drop_append : (n m : ℕ) (xs ys : List A) → length xs ≡ n → drop (n + m) (xs ++ ys) ≡ drop m ys
  drop_append zero m [] ys h = let same : 0 + m ≡ m = omega arith in ap (λ k. drop k ys) same
  drop_append zero m (x ∷ xs) ys h = absurd (omega arith)
  drop_append (suc n) m [] ys h = absurd (omega arith)
  drop_append (suc n) m (x ∷ xs) ys h =
      let same : suc n + m ≡ suc (n + m) = omega arith in
      ap (λ k. drop k (x ∷ (xs ++ ys))) same ∙ drop_append n m xs ys (omega arith)

  length-append : (xs ys : List A) → length (xs ++ ys) ≡ length xs + length ys
  length-append [] ys = omega arith
  length-append (x ∷ xs) ys = let rest = length-append xs ys in omega arith

-- The parts of a key have fixed lengths.
pub record IsMade (digest : Str → Str) (g a u n k key : Str) : Type 0 where
  pub made : joined digest g (fill 32 a) u (fill 2 n) k ≡ key
  pub global_length : length g ≡ 2
  pub app_length : length (fill 32 a) ≡ 32
  pub user_length : length u ≡ 26
  pub namespace_length : length (fill 2 n) ≡ 2
  pub total_length : length key ≡ 82

length-fill_two : (n : Str) → is_long n ≡ false → length (fill 2 n) ≡ 2
unfolding fill
length-fill_two [] h = refl
length-fill_two (a ∷ []) h = refl
length-fill_two (a ∷ b ∷ []) h = refl
length-fill_two (a ∷ b ∷ c ∷ n) h = absurd (cc h)

passed :
    {A : Type 0} (b : Bool) (r : Result A) (a : A)
    → (if b then err other else r) ≡ ok a
    → (b ≡ false) × (r ≡ ok a)
passed true r a h = absurd (cc h)
passed false r a h = (refl, h)

is_length : (n m : ℕ) → not (eqb n m) ≡ false → n ≡ m
is_length n m h = ground arith

is_length_or : (n m : ℕ) (b : Bool) → (not (eqb n m) || b) ≡ false → n ≡ m
is_length_or n m b h = ground arith

-- A key that is given is made of its parts, which have their lengths.
pub hash_key-IsMade :
    (digest : Str → Str) (g a u n k key : Str)
    → hash_key digest g a u n k ≡ ok key
    → IsMade digest g a u n k key
unfolding hash_key
hash_key-IsMade digest g a u n k key h =
    let (short, h1) = passed _ _ key h in
    let (_, h2) = passed _ _ key h1 in
    let (app_full, h3) = passed _ _ key h2 in
    let (user_full, h4) = passed _ _ key h3 in
    let (global_full, h5) = passed _ _ key h4 in
    let (full, h6) = passed _ _ key h5 in
    let same : joined digest g (fill 32 a) u (fill 2 n) k ≡ key = cc h6 in
    record {
      made = same;
      global_length = is_length_or _ _ _ global_full;
      app_length = is_length _ _ app_full;
      user_length = is_length _ _ user_full;
      namespace_length = length-fill_two n short;
      total_length = rw (← same) (is_length _ _ full);
    }

-- The slices of a key are its parts.
pub record HasParts (digest : Str → Str) (g a u n k key : Str) : Type 0 where
  pub global_part : slice 0 2 key ≡ g
  pub app_part : slice 2 34 key ≡ fill 32 a
  pub user_part : slice 34 60 key ≡ u
  pub namespace_part : slice 60 62 key ≡ fill 2 n
  pub hash_part : slice 62 82 key ≡ digest k

pub IsMade-HasParts :
    (digest : Str → Str) (g a u n k key : Str)
    → IsMade digest g a u n k key
    → HasParts digest g a u n k key
IsMade-HasParts digest g a u n k key made =
    let after_user = fill 2 n ++ digest k in
    let after_app = u ++ after_user in
    let after_global = fill 32 a ++ after_app in
    let at_app : drop 2 (g ++ after_global) ≡ after_global =
      drop_append 2 0 g after_global made.global_length in
    let at_user : drop 34 (g ++ after_global) ≡ after_app =
      drop_append 2 32 g after_global made.global_length
      ∙ drop_append 32 0 (fill 32 a) after_app made.app_length in
    let at_namespace : drop 60 (g ++ after_global) ≡ after_user =
      drop_append 2 58 g after_global made.global_length
      ∙ drop_append 32 26 (fill 32 a) after_app made.app_length
      ∙ drop_append 26 0 u after_user made.user_length in
    let at_hash : drop 62 (g ++ after_global) ≡ digest k =
      drop_append 2 60 g after_global made.global_length
      ∙ drop_append 32 28 (fill 32 a) after_app made.app_length
      ∙ drop_append 26 2 u after_user made.user_length
      ∙ drop_append 2 0 (fill 2 n) (digest k) made.namespace_length in
    let rest : length (digest k) ≡ 20 =
      (let whole = ap length made.made ∙ made.total_length in
        let first = length-append g after_global in
        let second = length-append (fill 32 a) after_app in
        let third = length-append u after_user in
        let fourth = length-append (fill 2 n) (digest k) in
        let h2 = made.global_length in
        let h32 = made.app_length in
        let h26 = made.user_length in let h2' = made.namespace_length in omega arith) in
    rw (← made.made) (record {
      global_part = take_append 2 g after_global made.global_length;
      app_part = ap (take 32) at_app ∙ take_append 32 (fill 32 a) after_app made.app_length;
      user_part = ap (take 26) at_user ∙ take_append 26 u after_user made.user_length;
      namespace_part =
          ap (take 2) at_namespace ∙ take_append 2 (fill 2 n) (digest k) made.namespace_length;
      hash_part = ap (take 20) at_hash ∙ take_all 20 (digest k) rest;
    })

-- What `ParseHashkey` reads of a key that `Hashkey` gives.
parse_hash_key-filled :
    (digest : Str → Str) (g a u n k key : Str)
    → hash_key digest g a u n k ≡ ok key
    → parse_hash_key key
      ≡ ok (record {
        global_namespace = g;
        app_id = trim_space (fill 32 a);
        user_id = u;
        app_namespace = trim_space (fill 2 n);
        id_hash = digest k;
      })
unfolding parse_hash_key
parse_hash_key-filled digest g a u n k key h =
    let made = hash_key-IsMade digest g a u n k key h in
    let parts = IsMade-HasParts digest g a u n k key made in
    rw made.total_length (λ i. ok (record {
      global_namespace = parts.global_part i;
      app_id = trim_space (parts.app_part i);
      user_id = parts.user_part i;
      app_namespace = trim_space (parts.namespace_part i);
      id_hash = parts.hash_part i;
    }))

fill-spaces : (n : ℕ) (s : Str) → (m : ℕ) × (fill n s ≡ s ++ spaces m)
unfolding fill spaces
fill-spaces zero [] = (0, refl)
fill-spaces zero (c ∷ s) = (0, sym (append-nil (c ∷ s)))
fill-spaces (suc n) [] = let (m, h) = fill-spaces n [] in (suc m, ap (λ t. 32 ∷ t) h)
fill-spaces (suc n) (c ∷ s) = let (m, h) = fill-spaces n s in (m, ap (λ t. c ∷ t) h)

trim_space-fill :
    (n c : ℕ) (s : Str) → is_visible (c ∷ s) ≡ true → trim_space (fill n (c ∷ s)) ≡ c ∷ s
trim_space-fill n c s h =
    let (m, filled) = fill-spaces n (c ∷ s) in ap trim_space filled ∙ trim_space-spaces c s m h

trim_space-fill_two : (n : Str) → is_visible n ≡ true → trim_space (fill 2 n) ≡ n
unfolding fill trim_space
trim_space-fill_two [] h = refl
trim_space-fill_two (c ∷ n) h = trim_space-fill 2 c n h

pub parse_hash_key-trimmed :
    (digest : Str → Str) (g a u n k key : Str)
    → is_visible a ≡ true
    → is_empty a ≡ false
    → hash_key digest g a u n k ≡ ok key
    → parse_hash_key key
      ≡ ok (record {
        global_namespace = g;
        app_id = a;
        user_id = u;
        app_namespace = trim_space (fill 2 n);
        id_hash = digest k;
      })
parse_hash_key-trimmed digest g [] u n k key va given h = absurd (cc given)
parse_hash_key-trimmed digest g (c ∷ a) u n k key va given h =
    parse_hash_key-filled digest g (c ∷ a) u n k key h ∙ rw (trim_space-fill 32 c a va) refl

-- `ParseHashkey` reads back what `Hashkey` has put into a key, with the digest in place of the key
-- of the app, where the IDs of the app and the namespace are visible ASCII text and the first is not
-- empty.
pub parse_hash_key-hash_key :
    (digest : Str → Str) (g a u n k key : Str)
    → is_visible a ≡ true
    → is_empty a ≡ false
    → is_visible n ≡ true
    → hash_key digest g a u n k ≡ ok key
    → parse_hash_key key
      ≡ ok (record {
        global_namespace = g;
        app_id = a;
        user_id = u;
        app_namespace = n;
        id_hash = digest k;
      })
parse_hash_key-hash_key digest g a u n k key va given vn h =
    parse_hash_key-trimmed digest g a u n k key va given h ∙ rw (trim_space-fill_two n vn) refl
