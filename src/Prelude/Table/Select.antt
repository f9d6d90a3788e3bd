-- ===== src/Prelude/Table/Select.antt =====
-- SELECT key … WHERE p ORDER BY before LIMIT limit, as a list of primary keys.
use Prim.Native.Nat.{ℕ, zero, suc, ◌+◌, ◌≤◌}
use mathlib.Core.Path.{◌≡◌, refl, subst, sym, fun_ext}
use mathlib.Core.Bool.{Bool, true, false, ◌&&◌, ◌||◌}
use mathlib.Core.List.{List, [], ◌∷◌, map}
use mathlib.Core.Option.{Option, none, some}
use native.Mathlib.Omega.{arith}
use lofi_bot.Prelude.Tests.{if◌then◌else◌, ◌==◌, ==_iff}
use lofi_bot.Prelude.Lists.{length, All, take, filter_by}
use lofi_bot.Prelude.Table.Statements.{count_where}
use lofi_bot.Prelude.Table.Keys.{contains_id, find_key, Distinct, hits, count_where_key}
use lofi_bot.Prelude.Table.Order.{sort_by, All-sort_by}

module _ {ℓ κ} {A : Type ℓ} (P : A → Type κ) where
  All-take : (n : ℕ) (xs : List A) → All P xs → All P (take n xs)
  All-take zero xs h = tt
  All-take (suc n) [] h = tt
  All-take (suc n) (x ∷ xs) h = (h.0, All-take n xs h.1)

All-imp {ℓ κ ι} :
    {A : Type ℓ} (P : A → Type κ) (Q : A → Type ι) (xs : List A)
    → ((x : A) → P x → Q x)
    → All P xs
    → All Q xs
All-imp P Q [] f h = tt
All-imp P Q (x ∷ xs) f h = (f x h.0, All-imp P Q xs f h.1)

pub All-filter_by {ℓ κ} :
    {A : Type ℓ} (P : A → Type κ) (p : A → Bool) (xs : List A)
    → All P xs
    → All (λ x. P x × (p x ≡ true)) (filter_by p xs)
All-filter_by P p [] h = tt
All-filter_by P p (x ∷ xs) h = go (p x) refl (All-filter_by P p xs h.1)
  where
    go :
        (b : Bool)
        → p x ≡ b
        → All (λ y. P y × (p y ≡ true)) (filter_by p xs)
        → All (λ y. P y × (p y ≡ true)) (if b then x ∷ filter_by p xs else filter_by p xs)
    go true e rest = ((h.0, e), rest)
    go false e rest = rest

All-map {ℓ κ ι} :
    {A : Type ℓ} {B : Type κ} (f : A → B) (P : B → Type ι) (xs : List A)
    → All (λ x. P (f x)) xs
    → All P (map f xs)
All-map f P [] h = tt
All-map f P (x ∷ xs) h = (h.0, All-map f P xs h.1)

All-contains {κ} : (P : ℕ → Type κ) (k : ℕ) (ns : List ℕ) → contains_id k ns ≡ true → All P ns → P k
unfolding contains_id
All-contains P k [] h v = cc
All-contains P k (n ∷ ns) h v = go (n == k) refl h (λ c. All-contains P k ns c v.1)
  where
    go :
        (b : Bool)
        → (n == k) ≡ b
        → (b || contains_id k ns) ≡ true
        → (contains_id k ns ≡ true → P k)
        → P k
    go true e c rest = subst P ((==_iff n k).0 e) v.0
    go false e c rest = rest c

module _ {ℓ} {A : Type ℓ} (key : A → ℕ) where
  unfoldable pub select_keys : (A → Bool) → (A → A → Bool) → ℕ → List A → List ℕ
  select_keys p before limit rows = map key (take limit (sort_by before (filter_by p rows)))

  -- The row is in the table, and passes the test.
  abbrev pub Selected : (A → Bool) → List A → ℕ → Type ℓ
  Selected p rows k = (x : A) × (find_key key k rows ≡ some x) × (p x ≡ true)

  found_behind :
      (x : A) (xs : List A) (y : A)
      → find_key key (key x) xs ≡ none
      → find_key key (key y) xs ≡ some y
      → find_key key (key y) (x ∷ xs) ≡ some y
  unfolding find_key
  found_behind x xs y absent found = go (key x == key y) refl
    where
      go :
          (b : Bool)
          → (key x == key y) ≡ b
          → (if b then some x else find_key key (key y) xs) ≡ some y
      go true e = absurd (clash (subst (λ k. find_key key k xs ≡ none) ((==_iff _ _).0 e) absent))
        where
          clash : find_key key (key y) xs ≡ none → ⊥
          clash n = cc
      go false e = found

  found_first : (x : A) (xs : List A) → find_key key (key x) (x ∷ xs) ≡ some x
  unfolding find_key
  found_first x xs = rw ((==_iff (key x) (key x)).1 refl)

  -- In a table with a primary key every row is found by its key.
  self_found : (xs : List A) → Distinct key xs → All (λ x. find_key key (key x) xs ≡ some x) xs
  self_found [] d = tt
  self_found (x ∷ xs) d = (
    found_first x xs,
    All-imp (λ y. find_key key (key y) xs ≡ some y) _ xs (λ y found. found_behind x xs y d.0 found)
        (self_found xs d.1),
  )

  -- Only rows that pass the test are selected.
  pub select_keys-Selected :
      (p : A → Bool) (before : A → A → Bool) (limit : ℕ) (rows : List A) (k : ℕ)
      → Distinct key rows
      → contains_id k (select_keys p before limit rows) ≡ true
      → Selected p rows k
  unfolding select_keys
  select_keys-Selected p before limit rows k d h = All-contains (Selected p rows) k _ h (
      All-map key (Selected p rows) _ (
        All-take (λ x. Selected p rows (key x)) limit _
          (All-sort_by before (λ x. Selected p rows (key x)) (filter_by p rows)
            (All-imp (λ x. (find_key key (key x) rows ≡ some x) × (p x ≡ true)) _ (filter_by p rows)
              (λ x h. (x, h.0, h.1))
              (All-filter_by (λ x. find_key key (key x) rows ≡ some x) p rows
                (self_found rows d))))))

  length-map-take : (limit : ℕ) (xs : List A) → length (map key (take limit xs)) ≤ limit
  length-map-take zero xs = omega arith
  length-map-take (suc n) [] = omega arith
  length-map-take (suc n) (x ∷ xs) = omega (arith, length-map-take n xs)

  count_where-false : (xs : List A) → count_where (λ _. false) xs ≤ 0
  unfolding count_where
  count_where-false [] = omega arith
  count_where-false (x ∷ xs) = count_where-false xs

  count_where-or :
      (p q : A → Bool) (xs : List A)
      → count_where (λ x. p x || q x) xs ≤ count_where p xs + count_where q xs
  unfolding count_where
  count_where-or p q [] = omega arith
  count_where-or p q (x ∷ xs) = ground (arith, count_where-or p q xs)

  swapped : (n m : ℕ) → (n == m) ≡ (m == n && true)
  swapped n m = ground arith

  hits-le : (q : A → Bool) (o : Option A) → hits key q o ≤ 1
  hits-le q none = omega arith
  hits-le q (some x) = ground arith

  count_where_one : (n : ℕ) (xs : List A) → Distinct key xs → count_where (λ x. n == key x) xs ≤ 1
  count_where_one n xs d =
      subst (λ (p : A → Bool). count_where p xs ≤ 1) (sym (fun_ext (λ x. swapped n (key x))))
        (rw (count_where_key key n (λ _. true) xs d) (hits-le (λ _. true) (find_key key n xs)))

  -- A statement that names n keys affects at most n rows.
  pub count_where-contains :
      (ns : List ℕ) (xs : List A)
      → Distinct key xs
      → count_where (λ x. contains_id (key x) ns) xs ≤ length ns
  unfolding contains_id
  count_where-contains [] xs d = count_where-false xs
  count_where-contains (n ∷ ns) xs d = omega (
    arith,
    count_where-or (λ x. n == key x) (λ x. contains_id (key x) ns) xs,
    count_where_one n xs d,
    count_where-contains ns xs d,
  )

  pub length-select_keys :
      (p : A → Bool) (before : A → A → Bool) (limit : ℕ) (rows : List A)
      → length (select_keys p before limit rows) ≤ limit
  unfolding select_keys
  length-select_keys p before limit rows = length-map-take limit (sort_by before (filter_by p rows))
