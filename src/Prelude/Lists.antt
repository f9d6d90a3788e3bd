-- ===== src/Prelude/Lists.antt =====
-- Lists measured by native numbers, under the library's names, and predicates over lists.
use Prim.Native.Nat.{ℕ, zero, suc, ◌+◌, ◌≤◌, min}
use mathlib.Core.Path.{◌≡◌}
use mathlib.Core.Bool.{Bool}
use mathlib.Core.List.{List, [], ◌∷◌, ◌++◌}
use mathlib.Core.Logic.{◌⊎◌}
use native.Mathlib.Omega.{arith}
use lofi_bot.Prelude.Tests.{if◌then◌else◌}

module _ {ℓ} {A : Type ℓ} where
  abbrev pub length : List A → ℕ
  length [] = 0
  length (x ∷ xs) = suc (length xs)

  abbrev pub take : ℕ → List A → List A
  take zero xs = []
  take (suc n) [] = []
  take (suc n) (x ∷ xs) = x ∷ take n xs

  -- The entries that pass a Boolean test.
  abbrev pub filter_by : (A → Bool) → List A → List A
  filter_by p [] = []
  filter_by p (x ∷ xs) = let rest = filter_by p xs in if p x then x ∷ rest else rest

  pub length-append : (xs ys : List A) → length (xs ++ ys) ≡ length xs + length ys
  length-append [] ys = omega arith
  length-append (x ∷ xs) ys = omega (arith, length-append xs ys)

  pub length-take : (n : ℕ) (xs : List A) → length (take n xs) ≡ min n (length xs)
  length-take zero xs = omega arith
  length-take (suc n) [] = omega arith
  length-take (suc n) (x ∷ xs) = omega (arith, length-take n xs)

  pub length-filter_by-le : (p : A → Bool) (xs : List A) → length (filter_by p xs) ≤ length xs
  length-filter_by-le p [] = omega arith
  length-filter_by-le p (x ∷ xs) = ground (arith, length-filter_by-le p xs)

-- A predicate of every entry; it computes to tuples.
abbrev pub Member : {A : Type 0} → A → List A → Type 0
Member x [] = ⊥
Member x (y ∷ ys) = (x ≡ y) ⊎ Member x ys

abbrev pub All {ℓ κ} : {A : Type ℓ} → (A → Type κ) → List A → Type κ
All P [] = Unit
All P (x ∷ xs) = P x × All P xs

abbrev pub replicate {ℓ} : {A : Type ℓ} → ℕ → A → List A
replicate zero a = []
replicate (suc n) a = a ∷ replicate n a
