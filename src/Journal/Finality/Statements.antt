-- ===== src/Journal/Finality/Statements.antt =====
-- The statements that write a row, and the rows of finished updates.
use lofi_bot.Prelude.{
  ℕ, ◌≡◌, refl, sym, ap, ◌∙◌, arith, some, Bool, true, false, ◌==◌, if◌then◌else◌, Distinct, ==_iff,
}
use lofi_bot.Prelude.Text.{Text}
use lofi_bot.Journal.Rows.{is_terminal, Checkpoint, Attempt, Db, Result, ok, err, ◌>>=◌}
use lofi_bot.Journal.Attempts.{
  attempt_id, find_attempt, is_open, is_owned, update_attempt, advance_next_offset, advance_row,
}
use lofi_bot.Journal.Invariant.{Returns, Returns-check, ok-injective}
use lofi_bot.Journal.Effects.{update_attempt_ok}

-- Every terminal row is still there, as it was.
abbrev pub Persists : Db → Db → Type 0
Persists db db' =
    (id : ℕ) (r : Attempt)
    → find_attempt db id ≡ some r
    → is_terminal r.status ≡ true
    → find_attempt db' id ≡ some r

pub open_of_owned : (token : Text) (r : Attempt) → is_owned token r ≡ true → is_open r ≡ true
open_of_owned token r h = ground arith

pub advance-attempts :
    (next now : ℕ) (db db' : Db)
    → advance_next_offset next now db ≡ ok db'
    → db'.attempts ≡ db.attempts
unfolding advance_next_offset
advance-attempts next now db db' moved = go (advance_row next now db.checkpoint) moved
  where
    go :
        (m : Result Checkpoint)
        → (m >>= λ c. ok (record db { checkpoint = some c })) ≡ ok db'
        → db'.attempts ≡ db.attempts
    go (ok c) e = sym (ap (λ (d : Db). d.attempts) (ok-injective e))
    go (err e') e = cc

module _ (db : Db) (distinct : Distinct attempt_id db.attempts) where
  update_attempt-Persists :
      (id : ℕ) (q : Attempt → Bool) (f : Attempt → Attempt)
      → ((r : Attempt) → attempt_id (f r) ≡ attempt_id r)
      → ((r : Attempt) → q r ≡ true → is_open r ≡ true)
      → (db' : Db) → update_attempt id q f db ≡ ok db'
      → Persists db db'
  update_attempt-Persists id q f same opens db' written j r found terminal =
      let (s, here, test, writes, _) = update_attempt_ok db id q f distinct same db' written in
      at (j == id) refl s here (opens s test) (writes j)
    where
      at :
          (b : Bool)
          → (j == id) ≡ b
          → (s : Attempt) → find_attempt db id ≡ some s
          → is_open s ≡ true
          → find_attempt db' j ≡ (if b then some (f s) else find_attempt db j)
          → find_attempt db' j ≡ some r
      at false e s here open_s w = w ∙ found
      at true e s here open_s w = absurd (clash ((==_iff j id).0 e))
        where
          clash : j ≡ id → ⊥
          clash k = ground arith

  pub advance-Persists :
      (next now : ℕ) (db' db'' : Db)
      → advance_next_offset next now db' ≡ ok db''
      → Persists db db'
      → Persists db db''
  unfolding find_attempt
  advance-Persists next now db' db'' moved keeps id r found terminal =
      rw (advance-attempts next now db' db'' moved) (keeps id r found terminal)

  -- The row of an open attempt is written.
  pub write-Persists :
      {A : Type 0} (a : A) (id : ℕ) (q : Attempt → Bool) (f : Attempt → Attempt)
      → ((r : Attempt) → attempt_id (f r) ≡ attempt_id r)
      → ((r : Attempt) → q r ≡ true → is_open r ≡ true)
      → Returns (λ (p : A × Db). Persists db p.1) (do db' ← update_attempt id q f db; ok (a, db'))
  write-Persists a id q f same opens =
      Returns-check _ (update_attempt id q f db) _
        λ db' written. update_attempt-Persists id q f same opens db' written

  -- The row of an open attempt is written, and the offset moves.
  pub close-Persists :
      {A : Type 0} (a : A) (id next now : ℕ) (q : Attempt → Bool) (f : Attempt → Attempt)
      → ((r : Attempt) → attempt_id (f r) ≡ attempt_id r)
      → ((r : Attempt) → q r ≡ true → is_open r ≡ true)
      → Returns
          (λ (p : A × Db). Persists db p.1)
          (do db' ← update_attempt id q f db; db'' ← advance_next_offset next now db'; ok (a, db''))
  close-Persists a id next now q f same opens =
      Returns-check _ (update_attempt id q f db) _ λ db' written.
        Returns-check _ (advance_next_offset next now db') _ λ db'' moved.
          advance-Persists next now db' db'' moved
            (update_attempt-Persists id q f same opens db' written)
