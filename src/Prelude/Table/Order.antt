-- ===== src/Prelude/Table/Order.antt =====
-- SELECT … ORDER BY … LIMIT: sorting by insertion.
use mathlib.Core.Bool.{Bool, true, false}
use mathlib.Core.List.{List, [], ◌∷◌}
use lofi_bot.Prelude.Tests.{if◌then◌else◌}
use lofi_bot.Prelude.Lists.{All}

module _ {ℓ} {A : Type ℓ} (before : A → A → Bool) where
  unfoldable pub insert_by : A → List A → List A
  insert_by x [] = x ∷ []
  insert_by x (y ∷ ys) = let rest = insert_by x ys in if before x y then x ∷ y ∷ ys else y ∷ rest

  unfoldable pub sort_by : List A → List A
  sort_by [] = []
  sort_by (x ∷ xs) = insert_by x (sort_by xs)

  All-insert_by {κ} :
      (P : A → Type κ) (x : A) (ys : List A) → P x → All P ys → All P (insert_by x ys)
  unfolding insert_by
  All-insert_by P x [] p h = (p, tt)
  All-insert_by P x (y ∷ ys) p h = choose (before x y) (All-insert_by P x ys p h.1)
    where
      choose :
          (b : Bool) → All P (insert_by x ys) → All P (if b then x ∷ y ∷ ys else y ∷ insert_by x ys)
      choose true rest = (p, h)
      choose false rest = (h.0, rest)

  pub All-sort_by {κ} : (P : A → Type κ) (xs : List A) → All P xs → All P (sort_by xs)
  unfolding sort_by
  All-sort_by P [] h = tt
  All-sort_by P (x ∷ xs) h = All-insert_by P x (sort_by xs) h.0 (All-sort_by P xs h.1)
