-- ===== src/Library/State/Rows.antt =====
-- Tables with a text for a key: SELECT of one row, and INSERT … ON CONFLICT DO UPDATE.
use lofi_bot.Prelude.{
  ◌≡◌, ◌⊎◌, inl, inr, refl, ap, subst, arith, Bool, true, false, List, [], ◌∷◌, ◌++◌, Option, none,
  some, if◌then◌else◌, update_where, delete_where,
}

pub some-injective : {A : Type 0} {x y : A} → some x ≡ some y → x ≡ y
some-injective e = cc

module _ {Row : Type 0} where
  unfoldable pub find_row : (Row → Bool) → List Row → Option Row
  find_row p [] = none
  find_row p (r ∷ rs) = let rest = find_row p rs in if p r then some r else rest

  abbrev pub upsert_at : (Row → Bool) → (Row → Row) → Row → List Row → Option Row → List Row
  upsert_at p change new rows none = rows ++ (new ∷ [])
  upsert_at p change new rows (some r) = update_where p change rows

  -- The row with the key is changed; where there is none, a new one is added.
  unfoldable pub upsert : (Row → Bool) → (Row → Row) → Row → List Row → List Row
  unfolding find_row update_where
  upsert p change new rows = upsert_at p change new rows (find_row p rows)

  find_row-update :
      (p : Row → Bool) (change : Row → Row) (rows : List Row) (r : Row)
      → ((r : Row) → p r ≡ true → p (change r) ≡ true)
      → find_row p rows ≡ some r
      → (p r ≡ true) × (find_row p (update_where p change rows) ≡ some (change r))
  unfolding find_row update_where
  find_row-update p change [] r keeps h = cc
  find_row-update p change (s ∷ rows) r keeps h =
      go (p s) refl (keeps s) h (λ e. find_row-update p change rows r keeps e)
    where
      Result : Type 0
      Result =
          (p r ≡ true)
          × ((if p (if p s then change s else s)
                then some (if p s then change s else s)
                else find_row p (update_where p change rows))
              ≡ some (change r))

      go :
          (b : Bool)
          → p s ≡ b
          → (p s ≡ true → p (change s) ≡ true)
          → (if b then some s else find_row p rows) ≡ some r
          → (find_row p rows ≡ some r
              → (p r ≡ true) × (find_row p (update_where p change rows) ≡ some (change r)))
          → Result
      go true e keep f rest =
          let same : s ≡ r = some-injective f in
          (subst (λ x. p x ≡ true) same e, rw (e, keep e) (ap (λ x. some (change x)) same))
      go false e keep f rest = let (its, found) = rest f in (its, rw (e, e) found)

  find_row-append :
      (p : Row → Bool) (rows : List Row) (new : Row)
      → p new ≡ true
      → find_row p rows ≡ none
      → find_row p (rows ++ (new ∷ [])) ≡ some new
  unfolding find_row
  find_row-append p [] new h e = rw h refl
  find_row-append p (s ∷ rows) new h e = ground (arith, find_row-append p rows new h)

  -- What is there after an upsert: the new row, or a changed one.
  pub find_row-upsert :
      (p : Row → Bool) (change : Row → Row) (new : Row) (rows : List Row)
      → ((r : Row) → p r ≡ true → p (change r) ≡ true)
      → p new ≡ true
      → (x : Row) × (find_row p (upsert p change new rows) ≡ some x)
        × ((x ≡ new) ⊎ ((r : Row) × (p r ≡ true) × (x ≡ change r)))
  unfolding upsert
  find_row-upsert p change new rows keeps h = go (find_row p rows) refl
    where
      go :
          (o : Option Row)
          → find_row p rows ≡ o
          → (x : Row) × (find_row p (upsert_at p change new rows o) ≡ some x)
            × ((x ≡ new) ⊎ ((r : Row) × (p r ≡ true) × (x ≡ change r)))
      go none e = (new, find_row-append p rows new h e, inl refl)
      go (some r) e =
          let (its, found) = find_row-update p change rows r keeps e in
          (change r, found, inr (r, its, refl))

  -- A row with another key is left alone.
  find_row-update_other :
      (p q : Row → Bool) (change : Row → Row) (rows : List Row)
      → ((r : Row) → p r ≡ true → (q r ≡ false) × (q (change r) ≡ false))
      → find_row q (update_where p change rows) ≡ find_row q rows
  unfolding find_row update_where
  find_row-update_other p q change [] apart = refl
  find_row-update_other p q change (r ∷ rows) apart =
      ground (arith, apart r, find_row-update_other p q change rows apart)

  find_row-append_other :
      (q : Row → Bool) (rows : List Row) (new : Row)
      → q new ≡ false
      → find_row q (rows ++ (new ∷ [])) ≡ find_row q rows
  unfolding find_row
  find_row-append_other q [] new h = rw h refl
  find_row-append_other q (r ∷ rows) new h = ground (arith, find_row-append_other q rows new h)

  pub find_row-upsert_other :
      (p q : Row → Bool) (change : Row → Row) (new : Row) (rows : List Row)
      → ((r : Row) → p r ≡ true → (q r ≡ false) × (q (change r) ≡ false))
      → q new ≡ false
      → find_row q (upsert p change new rows) ≡ find_row q rows
  unfolding upsert
  find_row-upsert_other p q change new rows apart h = go (find_row p rows)
    where
      go : (o : Option Row) → find_row q (upsert_at p change new rows o) ≡ find_row q rows
      go none = find_row-append_other q rows new h
      go (some r) = find_row-update_other p q change rows apart

  pub find_row-delete : (p : Row → Bool) (rows : List Row) → find_row p (delete_where p rows) ≡ none
  unfolding find_row delete_where
  find_row-delete p [] = refl
  find_row-delete p (r ∷ rows) = ground (arith, find_row-delete p rows)

  pub find_row-delete_other :
      (p q : Row → Bool) (rows : List Row)
      → ((r : Row) → p r ≡ true → q r ≡ false)
      → find_row q (delete_where p rows) ≡ find_row q rows
  unfolding find_row delete_where
  find_row-delete_other p q [] apart = refl
  find_row-delete_other p q (r ∷ rows) apart =
      ground (arith, apart r, find_row-delete_other p q rows apart)

  pub find_row_lem :
      (p : Row → Bool) (rows : List Row) (r : Row) → find_row p rows ≡ some r → p r ≡ true
  unfolding find_row
  find_row_lem p [] r h = cc
  find_row_lem p (s ∷ rows) r h = go (p s) refl h (λ e. find_row_lem p rows r e)
    where
      go :
          (b : Bool)
          → p s ≡ b
          → (if b then some s else find_row p rows) ≡ some r
          → (find_row p rows ≡ some r → p r ≡ true)
          → p r ≡ true
      go true e f rest = subst (λ x. p x ≡ true) (some-injective f) e
      go false e f rest = rest f
