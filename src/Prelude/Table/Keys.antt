-- ===== src/Prelude/Table/Keys.antt =====
-- The rows of a table through their primary key.
use Prim.Native.Nat.{ℕ}
use mathlib.Core.Path.{◌≡◌, refl, subst}
use mathlib.Core.Bool.{Bool, true, false, ◌&&◌, ◌||◌}
use mathlib.Core.List.{List, [], ◌∷◌}
use mathlib.Core.Option.{Option, none, some}
use native.Mathlib.Omega.{arith}
use lofi_bot.Prelude.Tests.{if◌then◌else◌, ◌==◌, ==_iff}
use lofi_bot.Prelude.Lists.{All}
use lofi_bot.Prelude.Table.Statements.{update_where, delete_where, count_where}

unfoldable pub contains_id : ℕ → List ℕ → Bool
contains_id k [] = false
contains_id k (n ∷ ns) = let rest = contains_id k ns in n == k || rest

module _ {ℓ} {A : Type ℓ} (key : A → ℕ) where
  unfoldable pub find_key : ℕ → List A → Option A
  find_key k [] = none
  find_key k (x ∷ xs) = let rest = find_key k xs in if key x == k then some x else rest

  -- The key is primary: no two rows share it.
  abbrev pub Distinct : List A → Type ℓ
  Distinct [] = Unit
  Distinct (x ∷ xs) = (find_key (key x) xs ≡ none) × Distinct xs

  abbrev pub updated : (A → Bool) → (A → A) → Option A → Option A
  updated p f none = none
  updated p f (some x) = some (if p x then f x else x)

  abbrev pub kept : (A → Bool) → Option A → Option A
  kept p none = none
  kept p (some x) = if p x then none else some x

  abbrev pub hits : (A → Bool) → Option A → ℕ
  hits p none = 0
  hits p (some x) = if p x then 1 else 0

  -- An UPDATE that leaves the key alone acts on each row by itself.
  pub find_key-update_where :
      (k : ℕ) (p : A → Bool) (f : A → A) (xs : List A)
      → ((x : A) → key (f x) ≡ key x)
      → find_key k (update_where p f xs) ≡ updated p f (find_key k xs)
  unfolding find_key update_where
  find_key-update_where k p f [] h = refl
  find_key-update_where k p f (x ∷ xs) h = ground (arith, h x, find_key-update_where k p f xs h)

  pub find_key-id : (k : ℕ) (xs : List A) (x : A) → find_key k xs ≡ some x → key x ≡ k
  unfolding find_key
  find_key-id k [] x h = cc
  find_key-id k (y ∷ xs) x h = ground (arith, find_key-id k xs x)

  find_key-delete_none :
      (k : ℕ) (p : A → Bool) (xs : List A)
      → find_key k xs ≡ none
      → find_key k (delete_where p xs) ≡ none
  unfolding find_key delete_where
  find_key-delete_none k p [] h = refl
  find_key-delete_none k p (x ∷ xs) h = ground (arith, find_key-delete_none k p xs)

  -- A DELETE acts on each row by itself.
  pub find_key-delete_where :
      (k : ℕ) (p : A → Bool) (xs : List A)
      → Distinct xs
      → find_key k (delete_where p xs) ≡ kept p (find_key k xs)
  unfolding find_key delete_where
  find_key-delete_where k p [] d = refl
  find_key-delete_where k p (x ∷ xs) d =
      ground (arith, find_key-delete_where k p xs d.1, find_key-delete_none (key x) p xs d.0)

  pub Distinct-update_where :
      (p : A → Bool) (f : A → A) (xs : List A)
      → ((x : A) → key (f x) ≡ key x)
      → Distinct xs
      → Distinct (update_where p f xs)
  unfolding update_where
  Distinct-update_where p f [] h d = tt
  Distinct-update_where p f (x ∷ xs) h d = (
    ground (arith, h x, d.0, find_key-update_where (key x) p f xs h),
    Distinct-update_where p f xs h d.1,
  )

  pub Distinct-delete_where :
      (p : A → Bool) (xs : List A) → Distinct xs → Distinct (delete_where p xs)
  unfolding delete_where
  Distinct-delete_where p [] d = tt
  Distinct-delete_where p (x ∷ xs) d =
      ground (arith, find_key-delete_none (key x) p xs d.0, Distinct-delete_where p xs d.1)

  -- A statement that names one key affects the row of that key, or none.
  count_where-none :
      (k : ℕ) (q : A → Bool) (xs : List A)
      → find_key k xs ≡ none
      → count_where (λ x. key x == k && q x) xs ≡ 0
  unfolding find_key count_where
  count_where-none k q [] h = refl
  count_where-none k q (x ∷ xs) h = ground (arith, count_where-none k q xs)

  pub count_where_key :
      (k : ℕ) (q : A → Bool) (xs : List A)
      → Distinct xs
      → count_where (λ x. key x == k && q x) xs ≡ hits q (find_key k xs)
  unfolding find_key count_where
  count_where_key k q [] d = refl
  count_where_key k q (x ∷ xs) d =
      ground (arith, count_where_key k q xs d.1, count_where-none (key x) q xs d.0)

  All-update_none {κ} :
      (P : A → Type κ) (k : ℕ) (q : A → Bool) (f : A → A) (xs : List A)
      → find_key k xs ≡ none
      → All P xs
      → All P (update_where (λ x. key x == k && q x) f xs)
  unfolding find_key update_where
  All-update_none P k q f [] h v = tt
  All-update_none P k q f (x ∷ xs) h v = go (key x == k) h (λ e. All-update_none P k q f xs e v.1)
    where
      go :
          (b : Bool)
          → (if b then some x else find_key k xs) ≡ none
          → (find_key k xs ≡ none → All P (update_where (λ y. key y == k && q y) f xs))
          → P (if b && q x then f x else x) × All P (update_where (λ y. key y == k && q y) f xs)
      go true e rest = cc
      go false e rest = (v.0, rest e)

  -- What an UPDATE of one key does to the row of that key is all that it does to the table.
  pub All-update_key {κ} :
      (P : A → Type κ) (k : ℕ) (q : A → Bool) (f : A → A) (xs : List A)
      → Distinct xs
      → ((x : A) → find_key k xs ≡ some x → q x ≡ true → P x → P (f x))
      → All P xs
      → All P (update_where (λ x. key x == k && q x) f xs)
  unfolding find_key update_where
  All-update_key P k q f [] d keep v = tt
  All-update_key P k q f (x ∷ xs) d keep v =
      go (key x == k) (q x) refl
        (λ e. subst (λ j. find_key j xs ≡ none) ((==_iff (key x) k).0 e) d.0) (keep x)
        (λ h. All-update_key P k q f xs d.1 (λ y e. keep y (ground (arith, h, e))) v.1)
    where
      go :
          (b c : Bool)
          → (key x == k) ≡ b
          → ((key x == k) ≡ true → find_key k xs ≡ none)
          → ((if key x == k then some x else find_key k xs) ≡ some x → c ≡ true → P x → P (f x))
          → ((key x == k) ≡ false → All P (update_where (λ y. key y == k && q y) f xs))
          → P (if b && c then f x else x) × All P (update_where (λ y. key y == k && q y) f xs)
      go true true e none_left here rest =
          (here (rw e) refl v.0, All-update_none P k q f xs (none_left e) v.1)
      go true false e none_left here rest = (v.0, All-update_none P k q f xs (none_left e) v.1)
      go false true e none_left here rest = (v.0, rest e)
      go false false e none_left here rest = (v.0, rest e)

  abbrev or_else : A → Option A → A
  or_else d none = d
  or_else d (some z) = z

  pub All-find_key {κ} :
      (P : A → Type κ) (k : ℕ) (xs : List A) (x : A) → find_key k xs ≡ some x → All P xs → P x
  unfolding find_key
  All-find_key P k [] x h v = cc
  All-find_key P k (y ∷ xs) x h v = go (key y == k) h (λ e. All-find_key P k xs x e v.1)
    where
      go :
          (b : Bool)
          → (if b then some y else find_key k xs) ≡ some x
          → (find_key k xs ≡ some x → P x)
          → P x
      go true e rest = subst (λ o. P (or_else y o)) e v.0
      go false e rest = rest e
