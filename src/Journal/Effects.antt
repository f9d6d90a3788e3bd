-- ===== src/Journal/Effects.antt =====
-- What the shared statements do, row by row.
use lofi_bot.Prelude.{
  ℕ, ◌≤◌, ◌≡◌, refl, sym, subst, ap, ◌∙◌, inl, inr, Bool-cases, arith, Option, none, some, Bool,
  true, ◌==◌, ◌&&◌, if◌then◌else◌, max, Distinct, find_key, find_key-id, find_key-update_where,
  count_where_key, update_where, count_where, updated, hits,
}
use lofi_bot.Journal.Rows.{Checkpoint, Attempt, Db, ok, err, no_active_attempt}
use lofi_bot.Journal.Attempts.{
  attempt_id, find_attempt, update_attempt, require_single, advance_next_offset, advance_row,
  advanced,
}
use lofi_bot.Journal.Invariant.{ok-injective}

-- The row of one update is written, and no other row changes.
abbrev pub Writes : ℕ → Attempt → Db → Db → Type 0
Writes id r db db' = (j : ℕ) → find_attempt db' j ≡ (if j == id then some r else find_attempt db j)

-- The tables after an UPDATE of one row.
abbrev pub written_db : Db → ℕ → (Attempt → Bool) → (Attempt → Attempt) → Db
written_db db id q f = record db {
  attempts = update_where (λ r. attempt_id r == id && q r) f db.attempts;
}

abbrev checkpoint_of : Db → Option Checkpoint
checkpoint_of db = db.checkpoint

module _ (db : Db) (id : ℕ) (q : Attempt → Bool) (f : Attempt → Attempt)
    (distinct : Distinct attempt_id db.attempts)
    (same : (r : Attempt) → attempt_id (f r) ≡ attempt_id r) where
  count_found :
      (o : Option Attempt)
      → find_attempt db id ≡ o
      → count_where (λ r. attempt_id r == id && q r) db.attempts ≡ hits attempt_id q o
  unfolding find_attempt
  count_found o e = rw (← e) (count_where_key attempt_id id q db.attempts distinct)

  at_key :
      (j : ℕ) (r : Attempt)
      → find_key attempt_id id db.attempts ≡ some r
      → q r ≡ true
      → (o : Option Attempt) → find_key attempt_id j db.attempts ≡ o
      → updated attempt_id (λ s. attempt_id s == id && q s) f o
        ≡ (if j == id then some (f r) else o)
  at_key j r found test none e = ground arith
  at_key j r found test (some s) e = ground (arith, find_key-id attempt_id j db.attempts s e)

  -- The statement succeeds at the row that passes its test, and writes that row only.
  pub update_attempt_found :
      (r : Attempt)
      → find_attempt db id ≡ some r
      → q r ≡ true
      → (update_attempt id q f db ≡ ok (written_db db id q f))
        × Writes id (f r) db (written_db db id q f)
  unfolding update_attempt require_single find_attempt
  update_attempt_found r found test = (
    rw (count_found (some r) found) (rw test refl),
    λ j.
        rw (find_key-update_where attempt_id j (λ s. attempt_id s == id && q s) f db.attempts same)
          (at_key j r found test (find_key attempt_id j db.attempts) refl),
  )

  -- It is refused where there is no such row.
  pub update_attempt_refused :
      (o : Option Attempt)
      → find_attempt db id ≡ o
      → hits attempt_id q o ≡ 0
      → update_attempt id q f db ≡ err no_active_attempt
  unfolding update_attempt require_single
  update_attempt_refused o found miss = rw (count_found o found) (rw miss refl)

  -- So a success tells which row was written.
  pub update_attempt_ok :
      (db' : Db)
      → update_attempt id q f db ≡ ok db'
      → (r : Attempt) × (find_attempt db id ≡ some r)
        × (q r ≡ true)
        × Writes id (f r) db db'
        × (db'.checkpoint ≡ db.checkpoint)
  update_attempt_ok db' h = go (find_attempt db id) refl
    where
      Wrote : Type 0
      Wrote =
          (r : Attempt) × (find_attempt db id ≡ some r)
          × (q r ≡ true)
          × Writes id (f r) db db'
          × (db'.checkpoint ≡ db.checkpoint)

      absent : (o : Option Attempt) → find_attempt db id ≡ o → hits attempt_id q o ≡ 0 → ⊥
      absent o e miss = clash (update_attempt_refused o e miss)
        where
          clash : update_attempt id q f db ≡ err no_active_attempt → ⊥
          clash k = cc

      at_row : (r : Attempt) → find_attempt db id ≡ some r → q r ≡ true → Wrote
      at_row r e test =
          let (done, writes) = update_attempt_found r e test in
          let same_db : written_db db id q f ≡ db' = ok-injective (sym done ∙ h) in
          (
            r,
            e,
            test,
            subst (λ d. Writes id (f r) db d) same_db writes,
            ap checkpoint_of (sym same_db),
          )

      go : (o : Option Attempt) → find_attempt db id ≡ o → Wrote
      go none e = absurd (absent none e refl)
      go (some r) e = elim (Bool-cases (q r)) [
        | inl test ↦ at_row r e test
        | inr miss ↦ absurd (absent (some r) e (rw miss))
      ]

-- Moving the offset past an update that is not confirmed yet.
pub advance_next_offset_lem :
    (next now : ℕ) (db : Db) (c : Checkpoint)
    → db.checkpoint ≡ some c
    → c.confirmed_offset ≤ next
    → advance_next_offset next now db ≡ ok (record db { checkpoint = some (advanced next now c) })
unfolding advance_next_offset
advance_next_offset_lem next now db c e h = rw (e, advance_row) (ground arith)

pub advanced-next :
    (next now : ℕ) (c : Checkpoint) → (advanced next now c).next_offset ≡ max c.next_offset next
unfolding advanced
advanced-next next now c = ground arith
