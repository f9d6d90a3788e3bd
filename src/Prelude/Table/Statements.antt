-- ===== src/Prelude/Table/Statements.antt =====
-- UPDATE … WHERE, DELETE … WHERE and the number of rows that a statement affects.
use Prim.Native.Nat.{ℕ, suc, ◌+◌}
use mathlib.Core.Path.{◌≡◌, refl}
use mathlib.Core.Bool.{Bool, true, false}
use mathlib.Core.List.{List, [], ◌∷◌}
use native.Mathlib.Omega.{arith}
use lofi_bot.Prelude.Tests.{if◌then◌else◌}
use lofi_bot.Prelude.Lists.{length, All}

module _ {ℓ} {A : Type ℓ} where
  unfoldable pub update_where : (A → Bool) → (A → A) → List A → List A
  update_where p f [] = []
  update_where p f (x ∷ xs) = (if p x then f x else x) ∷ update_where p f xs

  unfoldable pub delete_where : (A → Bool) → List A → List A
  delete_where p [] = []
  delete_where p (x ∷ xs) = let rest = delete_where p xs in if p x then rest else x ∷ rest

  unfoldable pub count_where : (A → Bool) → List A → ℕ
  count_where p [] = 0
  count_where p (x ∷ xs) = let rest = count_where p xs in if p x then suc rest else rest

  pub length-update_where :
      (p : A → Bool) (f : A → A) (xs : List A) → length (update_where p f xs) ≡ length xs
  unfolding update_where
  length-update_where p f [] = refl
  length-update_where p f (x ∷ xs) = omega (arith, length-update_where p f xs)

  -- The rows deleted and the rows kept are all the rows.
  pub length-delete_where :
      (p : A → Bool) (xs : List A) → length (delete_where p xs) + count_where p xs ≡ length xs
  unfolding delete_where count_where
  length-delete_where p [] = omega arith
  length-delete_where p (x ∷ xs) = ground (arith, length-delete_where p xs)

  pub All-update_where {κ} :
      (P : A → Type κ) (p : A → Bool) (f : A → A) (xs : List A)
      → ((x : A) → P x → p x ≡ true → P (f x))
      → All P xs
      → All P (update_where p f xs)
  unfolding update_where
  All-update_where P p f [] keep h = tt
  All-update_where P p f (x ∷ xs) keep h =
      (choose (p x) (keep x h.0), All-update_where P p f xs keep h.1)
    where
      choose : (b : Bool) → (b ≡ true → P (f x)) → P (if b then f x else x)
      choose true k = k refl
      choose false k = h.0

  pub All-delete_where {κ} :
      (P : A → Type κ) (p : A → Bool) (xs : List A) → All P xs → All P (delete_where p xs)
  unfolding delete_where
  All-delete_where P p [] h = tt
  All-delete_where P p (x ∷ xs) h = choose (p x) (All-delete_where P p xs h.1)
    where
      choose :
          (b : Bool)
          → All P (delete_where p xs)
          → All P (if b then delete_where p xs else x ∷ delete_where p xs)
      choose true rest = rest
      choose false rest = (h.0, rest)
