-- ===== src/Library/State/Pruning.antt =====
-- What pruning deletes.
use lofi_bot.Prelude.{
  ℕ, zero, suc, ◌+◌, ◌≤◌, ◌≡◌, ◌⊎◌, refl, subst, arith, Bool, true, List, [], ◌∷◌, none, some,
  length, Distinct, find_key, contains_id, delete_where, count_where, length-delete_where,
  count_where-contains, length-select_keys, delete_selected, select_keys,
}
use lofi_bot.Library.State.Rows.{some-injective}
use lofi_bot.Prelude.Text.{Text}
use lofi_bot.Library.State.Store.{
  StateStore, text_before, override_order, plan_order, override_rowid, plan_rowid, PruneResult,
  old_overrides, old_plans, prune_before,
}

-- A row is there as before, or it is gone and its date lies before the cutoff.
abbrev pub StaysOrOld :
    {Row : Type 0} → (Row → ℕ) → (Row → Text) → Text → List Row → List Row → ℕ → Type 0
StaysOrOld {Row} rowid date cutoff rows rows' id =
    (find_key rowid id rows' ≡ find_key rowid id rows)
    ⊎ ((r : Row) × (find_key rowid id rows ≡ some r)
        × (find_key rowid id rows' ≡ none)
        × (text_before (date r) cutoff ≡ true))

-- A table after a prune: at most the limit is deleted, the count is that of the deleted rows.
abbrev pub IsPruned :
    {Row : Type 0} → (Row → ℕ) → (Row → Text) → Text → ℕ → List Row → List Row → ℕ → ℕ → Type 0
IsPruned rowid date cutoff limit rows rows' count id =
    StaysOrOld rowid date cutoff rows rows' id
    × (count ≤ limit)
    × (length rows' + count ≡ length rows)

table-IsPruned :
    {Row : Type 0} (rowid : Row → ℕ) (date : Row → Text) (cutoff : Text) (limit : ℕ)
    (order : Row → Row → Bool) (rows : List Row) (id : ℕ)
    → Distinct rowid rows
    → let ids = select_keys rowid (λ r. text_before (date r) cutoff) order limit rows in
      IsPruned rowid date cutoff limit rows
        (delete_where (λ r. contains_id (rowid r) ids) rows)
        (count_where (λ r. contains_id (rowid r) ids) rows)
        id
table-IsPruned rowid date cutoff limit order rows id d =
    let ids = select_keys rowid (λ r. text_before (date r) cutoff) order limit rows in
    (
      delete_selected rowid (λ r. text_before (date r) cutoff) order limit rows d id,
      omega (
        arith,
        count_where-contains rowid ids rows d,
        length-select_keys rowid (λ r. text_before (date r) cutoff) order limit rows,
      ),
      length-delete_where (λ r. contains_id (rowid r) ids) rows,
    )

-- If no two rows of a table have the same rowid, a prune that is accepted deletes at most its
-- limit of rows from each table and reports as many as it deletes, each row is there as before or
-- its date lies before the cutoff, and the last music stays.
pub prune_before_lem :
    (s s' : StateStore) (result : PruneResult) (cutoff : Text) (limit id plan_id : ℕ)
    → Distinct override_rowid s.overrides
    → Distinct plan_rowid s.period_plans
    → prune_before cutoff limit s ≡ some (s', result)
    → IsPruned override_rowid
        (λ r. r.date_key)
        cutoff
        limit
        s.overrides
        s'.overrides
        result.overrides
        id
      × IsPruned plan_rowid
          (λ r. r.date_key)
          cutoff
          limit
          s.period_plans
          s'.period_plans
          result.period_plans
          plan_id
      × (s'.last_music ≡ s.last_music)
unfolding prune_before old_overrides old_plans
prune_before_lem s s' result [] limit id plan_id d e h = cc
prune_before_lem s s' result (c ∷ cs) zero id plan_id d e h = cc
prune_before_lem s s' result (c ∷ cs) (suc n) id plan_id d e h =
    subst
      (λ (p : StateStore × PruneResult).
        IsPruned override_rowid (λ r. r.date_key) (c ∷ cs) (suc n) s.overrides p.0.overrides
          p.1.overrides id
        × IsPruned plan_rowid (λ r. r.date_key) (c ∷ cs) (suc n) s.period_plans p.0.period_plans
            p.1.period_plans plan_id
        × (p.0.last_music ≡ s.last_music))
      (some-injective h)
      (
        table-IsPruned override_rowid (λ r. r.date_key) (c ∷ cs) (suc n) override_order s.overrides
            id d,
        table-IsPruned plan_rowid (λ r. r.date_key) (c ∷ cs) (suc n) plan_order s.period_plans
            plan_id e,
        refl,
      )
