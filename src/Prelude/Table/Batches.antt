-- ===== src/Prelude/Table/Batches.antt =====
-- What UPDATE … WHERE key IN (SELECT …) and DELETE … WHERE key IN (SELECT …) do to each row.
use Prim.Native.Nat.{ℕ}
use mathlib.Core.Path.{◌≡◌, refl, subst, ◌∙◌}
use mathlib.Core.Logic.{◌⊎◌, inl, inr}
use mathlib.Core.Bool.{Bool, true}
use mathlib.Core.List.{List}
use mathlib.Core.Option.{Option, none, some}
use lofi_bot.Prelude.Tests.{Bool-cases}
use lofi_bot.Prelude.Table.Statements.{update_where, delete_where}
use lofi_bot.Prelude.Table.Keys.{
  contains_id, find_key, find_key-id, Distinct, updated, kept, find_key-update_where,
  find_key-delete_where,
}
use lofi_bot.Prelude.Table.Select.{select_keys, select_keys-Selected}

module _ {ℓ} {A : Type ℓ} (key : A → ℕ) (p : A → Bool) (before : A → A → Bool) (limit : ℕ)
    (rows : List A) (distinct : Distinct key rows) where
  abbrev is_selected : A → Bool
  is_selected x = contains_id (key x) (select_keys key p before limit rows)

  selected_test : (x : A) (k : ℕ) → find_key key k rows ≡ some x → is_selected x ≡ true → p x ≡ true
  selected_test x k found hit =
      let here = find_key-id key k rows x found in
      let (y, found_y, test) = select_keys-Selected key p before limit rows (key x) distinct hit in
      subst (λ z. p z ≡ true) (same y (subst (λ j. find_key key j rows ≡ some y) here found_y)) test
    where
      same : (y : A) → find_key key k rows ≡ some y → y ≡ x
      same y e = cc

  pub delete_selected :
      (k : ℕ)
      → (find_key key k (delete_where is_selected rows) ≡ find_key key k rows)
        ⊎ ((x : A) × (find_key key k rows ≡ some x)
            × (find_key key k (delete_where is_selected rows) ≡ none)
            × (p x ≡ true))
  delete_selected k = by_row (find_key key k rows) refl
    where
      Row : Type ℓ
      Row =
          (find_key key k (delete_where is_selected rows) ≡ find_key key k rows)
          ⊎ ((x : A) × (find_key key k rows ≡ some x)
              × (find_key key k (delete_where is_selected rows) ≡ none)
              × (p x ≡ true))

      law :
          find_key key k (delete_where is_selected rows)
          ≡ kept key is_selected (find_key key k rows)
      law = find_key-delete_where key k is_selected rows distinct

      by_row : (o : Option A) → find_key key k rows ≡ o → Row
      by_row none e = inl (law ∙ rw e refl)
      by_row (some x) e = elim (Bool-cases (is_selected x)) [
        | inl hit ↦ inr (x, e, law ∙ rw e (rw hit), selected_test x k e hit)
        | inr miss ↦ inl (law ∙ rw e (rw miss))
      ]

  pub update_selected :
      (f : A → A)
      → ((x : A) → key (f x) ≡ key x)
      → (k : ℕ)
      → (find_key key k (update_where is_selected f rows) ≡ find_key key k rows)
        ⊎ ((x : A) × (find_key key k rows ≡ some x)
            × (find_key key k (update_where is_selected f rows) ≡ some (f x))
            × (p x ≡ true))
  update_selected f same k = by_row (find_key key k rows) refl
    where
      Row : Type ℓ
      Row =
          (find_key key k (update_where is_selected f rows) ≡ find_key key k rows)
          ⊎ ((x : A) × (find_key key k rows ≡ some x)
              × (find_key key k (update_where is_selected f rows) ≡ some (f x))
              × (p x ≡ true))

      law :
          find_key key k (update_where is_selected f rows)
          ≡ updated key is_selected f (find_key key k rows)
      law = find_key-update_where key k is_selected f rows same

      by_row : (o : Option A) → find_key key k rows ≡ o → Row
      by_row none e = inl (law ∙ rw e refl)
      by_row (some x) e = elim (Bool-cases (is_selected x)) [
        | inl hit ↦ inr (x, e, law ∙ rw e (rw hit), selected_test x k e hit)
        | inr miss ↦ inl (law ∙ rw e (rw miss))
      ]
