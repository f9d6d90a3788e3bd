-- ===== src/Journal/Invariant/Steps.antt =====
-- The statements keep the invariant of the rows, for a bound that may be above the offset.
use lofi_bot.Prelude.{
  ℕ, ◌≤◌, ◌≡◌, refl, subst, arith, List, [], ◌∷◌, Option, none, some, All, Bool, true, false, max,
  ◌==◌, ◌&&◌, if◌then◌else◌, All-update_key, Distinct-update_where, find_key, update_where,
  count_where, leb,
}
use lofi_bot.Journal.Rows.{
  Status, pending, running, stuck, failed, done, dead, Checkpoint, Attempt, Db, Result, ok, err,
  ◌>>=◌, ◌>>◌, guard, no_active_attempt,
}
use lofi_bot.Journal.Attempts.{
  attempt_id, find_attempt, update_attempt, require_single, advance_next_offset, advance_row,
}
use lofi_bot.Journal.Invariant.Defs.{
  next_of, confirmed_of, StatusOk, RowOk, RowsOk, Inv, Returns, IsFinished,
}

IsFinished-mono : (a b : ℕ) (r : Attempt) → a ≤ b → IsFinished a r → IsFinished b r
IsFinished-mono a b r h v = record {
  below = omega arith;
  failures = v.failures;
  no_owner = v.no_owner;
  no_lease = v.no_lease;
  stamp = v.stamp;
  stamped = v.stamped;
}

StatusOk-mono : (a b : ℕ) (s : Status) (r : Attempt) → a ≤ b → StatusOk a s r → StatusOk b s r
StatusOk-mono a b pending r h v = v
StatusOk-mono a b failed r h v = v
StatusOk-mono a b running r h v = v
StatusOk-mono a b stuck r h v = v
StatusOk-mono a b done r h v = IsFinished-mono a b r h v
StatusOk-mono a b dead r h v = IsFinished-mono a b r h v

All-RowOk-mono : (a b : ℕ) (rows : List Attempt) → a ≤ b → All (RowOk a) rows → All (RowOk b) rows
All-RowOk-mono a b [] h v = tt
All-RowOk-mono a b (r ∷ rows) h v =
    (StatusOk-mono a b r.status r h v.0, All-RowOk-mono a b rows h v.1)

pub RowsOk-mono : {a b : ℕ} {rows : List Attempt} → a ≤ b → RowsOk a rows → RowsOk b rows
RowsOk-mono {a} {b} {rows} h v = record {
  distinct = v.distinct;
  each = All-RowOk-mono a b rows h v.each;
}

-- Results of results.
pub Returns-bind {ℓ κ ι} :
    {A B : Type ℓ} (P : A → Type κ) (Q : B → Type ι) (m : Result A) (f : A → Result B)
    → Returns P m
    → ((a : A) → m ≡ ok a → P a → Returns Q (f a))
    → Returns Q (m >>= f)
Returns-bind P Q (ok a) f h k = k a refl h
Returns-bind P Q (err e) f h k = tt

-- A step of which only the success matters.
pub Returns-check {ℓ κ ι} :
    {A : Type ℓ} {B : Type κ} (Q : B → Type ι) (m : Result A) (f : A → Result B)
    → ((a : A) → m ≡ ok a → Returns Q (f a))
    → Returns Q (m >>= f)
Returns-check Q (ok a) f k = k a refl
Returns-check Q (err e) f k = tt

pub Returns-map {ℓ κ ι} :
    {A : Type ℓ} (P : A → Type κ) (Q : A → Type ι) (m : Result A)
    → Returns P m
    → ((a : A) → P a → Returns Q (ok a))
    → Returns Q m
Returns-map P Q (ok a) h k = k a h
Returns-map P Q (err e) h k = tt

pub Returns-if {ℓ κ} :
    {A : Type ℓ} (Q : A → Type κ) (b : Bool) (m n : Result A)
    → (b ≡ true → Returns Q m)
    → (b ≡ false → Returns Q n)
    → Returns Q (if b then m else n)
Returns-if Q true m n h k = h refl
Returns-if Q false m n h k = k refl

-- A step of a transaction: the rows are sound for a bound, and the checkpoint is as it was.
abbrev pub Touched : ℕ → Db → Db → Type 0
Touched bound db db' = RowsOk bound db'.attempts × (db'.checkpoint ≡ db.checkpoint)

module _ (bound id : ℕ) (q : Attempt → Bool) (f : Attempt → Attempt) where
  pub RowsOk-update_where :
      (rows : List Attempt)
      → ((r : Attempt) → attempt_id (f r) ≡ attempt_id r)
      → ((r : Attempt)
          → find_key attempt_id id rows ≡ some r
          → q r ≡ true
          → RowOk bound r
          → RowOk bound (f r))
      → RowsOk bound rows
      → RowsOk bound (update_where (λ r. attempt_id r == id && q r) f rows)
  RowsOk-update_where rows same keep v = record {
    distinct = Distinct-update_where attempt_id _ f rows same v.distinct;
    each = All-update_key attempt_id (RowOk bound) id q f rows v.distinct keep v.each;
  }

  pub update_attempt-Touched :
      (db : Db)
      → ((r : Attempt) → attempt_id (f r) ≡ attempt_id r)
      → ((r : Attempt)
          → find_attempt db id ≡ some r
          → q r ≡ true
          → RowOk bound r
          → RowOk bound (f r))
      → RowsOk bound db.attempts
      → Returns (Touched bound db) (update_attempt id q f db)
  unfolding update_attempt require_single find_attempt
  update_attempt-Touched db same keep v =
      split (count_where (λ r. attempt_id r == id && q r) db.attempts == 1)
    where
      split :
          (b : Bool)
          → Returns (Touched bound db) (do
            guard b no_active_attempt
            ok (record db {
              attempts = update_where (λ r. attempt_id r == id && q r) f db.attempts;
            }))
      split true = (RowsOk-update_where db.attempts same keep v, refl)
      split false = tt

abbrev Moved : Checkpoint → ℕ → Checkpoint → Type 0
Moved c next c' =
    (c'.next_offset ≡ max c.next_offset next) × (c'.confirmed_offset ≡ c.confirmed_offset)

advance_row-Moved :
    (next now : ℕ) (c : Checkpoint)
    → Returns (λ c'. Moved c next c') (advance_row next now (some c))
unfolding advance_row
advance_row-Moved next now c =
    Returns-if (λ c'. Moved c next c') (leb c.confirmed_offset next) _ _ (λ _. ground arith)
      (λ _. tt)

-- No offset has moved back.
abbrev pub Ahead : Option Checkpoint → Option Checkpoint → Type 0
Ahead c c' = (next_of c ≤ next_of c') × (confirmed_of c ≤ confirmed_of c')

-- The invariant afterwards, and no offset has moved back.
abbrev pub Kept : Db → Db → Type 0
Kept db db' = Inv db' × Ahead db.checkpoint db'.checkpoint

-- Moving the offset to the bound restores the invariant.
pub advance_next_offset-Inv :
    (next now : ℕ) (db : Db)
    → confirmed_of db.checkpoint ≤ next_of db.checkpoint
    → RowsOk (max (next_of db.checkpoint) next) db.attempts
    → Returns (Kept db) (advance_next_offset next now db)
unfolding advance_next_offset
advance_next_offset-Inv next now db le v = go db.checkpoint le v
  where
    go :
        (c : Option Checkpoint)
        → confirmed_of c ≤ next_of c
        → RowsOk (max (next_of c) next) db.attempts
        → Returns
            (λ (db' : Db). Inv db' × Ahead c db'.checkpoint)
            (do c' ← advance_row next now c; ok (record db { checkpoint = some c' }))
    go none le v = tt
    go (some c) le v =
        Returns-bind (λ (c' : Checkpoint). Moved c next c') _ (advance_row next now (some c))
          (λ c'. ok (record db { checkpoint = some c' })) (advance_row-Moved next now c)
          λ c' _ m.
            (record { ordered = omega (arith, m.1, m.0); rows = rw m.0 v }, omega (arith, m.0, m.1))

-- The end of an attempt: its row is finished, and the offset moves past it.
pub close-Kept :
    (db : Db) (id next now : ℕ) (q : Attempt → Bool) (f : Attempt → Attempt)
    → ((r : Attempt) → attempt_id (f r) ≡ attempt_id r)
    → ((r : Attempt)
        → find_attempt db id ≡ some r
        → q r ≡ true
        → RowOk (max (next_of db.checkpoint) next) r
        → RowOk (max (next_of db.checkpoint) next) (f r))
    → Inv db
    → Returns (Kept db) (do db' ← update_attempt id q f db; advance_next_offset next now db')
close-Kept db id next now q f same keep v =
    let bound = max (next_of db.checkpoint) next in
    Returns-bind (Touched bound db) (Kept db) (update_attempt id q f db)
      (advance_next_offset next now)
      (update_attempt-Touched bound id q f db same keep (RowsOk-mono (omega arith) v.rows))
      λ db' _ t.
        subst (λ c. Returns (λ d. Inv d × Ahead c d.checkpoint) (advance_next_offset next now db'))
          t.1 (advance_next_offset-Inv next now db' (rw t.1 v.ordered) (rw t.1 t.0))

-- A row that stays open needs no other bound.
pub reopen-Kept :
    (db : Db) (id : ℕ) (q : Attempt → Bool) (f : Attempt → Attempt)
    → ((r : Attempt) → attempt_id (f r) ≡ attempt_id r)
    → ((r : Attempt)
        → find_attempt db id ≡ some r
        → q r ≡ true
        → RowOk (next_of db.checkpoint) r
        → RowOk (next_of db.checkpoint) (f r))
    → Inv db
    → Returns (Kept db) (update_attempt id q f db)
reopen-Kept db id q f same keep v =
    Returns-map (Touched (next_of db.checkpoint) db) (Kept db) (update_attempt id q f db)
      (update_attempt-Touched (next_of db.checkpoint) id q f db same keep v.rows)
      λ db' t. (record { ordered = rw t.1 v.ordered; rows = rw t.1 t.0 }, rw t.1 (omega arith))

pub Returns-pair {ℓ κ} :
    {A : Type ℓ} (Q : Db → Type κ) (a : A) (m : Result Db) (g : Db → Result Db)
    → Returns Q (m >>= g)
    → Returns (λ (p : A × Db). Q p.1) (do d ← m; d' ← g d; ok (a, d'))
Returns-pair {A} Q a (ok d) g h = go (g d) h
  where
    go : (n : Result Db) → Returns Q n → Returns (λ (p : A × Db). Q p.1) (n >>= λ d'. ok (a, d'))
    go (ok d') k = k
    go (err e) k = tt
Returns-pair Q a (err e) g h = tt

-- The end of an attempt, with the value that the operation returns.
pub closing-Kept {ℓ} :
    {A : Type ℓ} (a : A) (db : Db) (id next now : ℕ) (q : Attempt → Bool) (f : Attempt → Attempt)
    → ((r : Attempt) → attempt_id (f r) ≡ attempt_id r)
    → ((r : Attempt)
        → find_attempt db id ≡ some r
        → q r ≡ true
        → RowOk (max (next_of db.checkpoint) next) r
        → RowOk (max (next_of db.checkpoint) next) (f r))
    → Inv db
    → Returns
        (λ (p : A × Db). Kept db p.1)
        (do db' ← update_attempt id q f db; db'' ← advance_next_offset next now db'; ok (a, db''))
closing-Kept a db id next now q f same keep v =
    Returns-pair (Kept db) a (update_attempt id q f db) (advance_next_offset next now)
      (close-Kept db id next now q f same keep v)

-- A row that stays open, with the value that the operation returns.
pub reopening-Kept {ℓ} :
    {A : Type ℓ} (a : A) (db : Db) (id : ℕ) (q : Attempt → Bool) (f : Attempt → Attempt)
    → ((r : Attempt) → attempt_id (f r) ≡ attempt_id r)
    → ((r : Attempt)
        → find_attempt db id ≡ some r
        → q r ≡ true
        → RowOk (next_of db.checkpoint) r
        → RowOk (next_of db.checkpoint) (f r))
    → Inv db
    → Returns (λ (p : A × Db). Kept db p.1) (do db' ← update_attempt id q f db; ok (a, db'))
reopening-Kept {A = A} a db id q f same keep v =
    go (update_attempt id q f db) (reopen-Kept db id q f same keep v)
  where
    go :
        (m : Result Db)
        → Returns (Kept db) m
        → Returns (λ (p : A × Db). Kept db p.1) (m >>= λ db'. ok (a, db'))
    go (ok db') h = h
    go (err e) h = tt
