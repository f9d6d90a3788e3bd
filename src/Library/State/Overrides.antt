-- ===== src/Library/State/Overrides.antt =====
-- Reading back an override that was restored.
use lofi_bot.Prelude.{
  ℕ, ◌≡◌, ◌⊎◌, inl, inr, refl, sym, ap, subst, ◌∙◌, arith, Bool, true, false, ◌&&◌, List, [], ◌∷◌,
  Option, none, some, if◌then◌else◌,
}
use lofi_bot.Prelude.Text.{Text, text_eq, text_eq_refl, text_eq→eq}
use lofi_bot.Library.State.Rows.{
  find_row, find_row-upsert, find_row-upsert_other, find_row-delete, find_row-delete_other,
  find_row_lem,
}
use lofi_bot.Library.State.Store.{
  Override, OverrideRow, StateStore, next_override_rowid, has_date, read_override, override,
  upsert_override, delete_override, is_empty, restore_override,
}

empty_text : (s : Text) → is_empty s ≡ true → s ≡ []
empty_text [] h = refl
empty_text (c ∷ s) h = cc

dated : (date : Text) (r : OverrideRow) → has_date date r ≡ true → r.date_key ≡ date
dated date r h = text_eq→eq r.date_key date h

-- An override that is read back has the date that it was asked for.
pub read_date :
    (date : Text) (rows : List OverrideRow)
    → (read_override date (find_row (has_date date) rows)).date ≡ date
read_date date rows = go (find_row (has_date date) rows) refl
  where
    go :
        (o : Option OverrideRow)
        → find_row (has_date date) rows ≡ o
        → (read_override date o).date ≡ date
    go none e = refl
    go (some r) e = dated date r (find_row_lem (has_date date) rows r e)

-- A row that says what an override says is read as it.
same_override :
    (date : Text) (o : Override) (r : OverrideRow)
    → o.date ≡ date
    → r.date_key ≡ date
    → r.theme ≡ o.theme
    → r.direct_loop_id ≡ o.direct_loop_id
    → read_override date (some r) ≡ o
same_override date o r d e f g =
    ap (λ x. record { date = x; theme = r.theme; direct_loop_id = r.direct_loop_id }) (e ∙ sym d)
    ∙ (ap (λ x. record { date = o.date; theme = x; direct_loop_id = r.direct_loop_id }) f
        ∙ ap (λ x. record { date = o.date; theme = o.theme; direct_loop_id = x }) g)

pub restore_override-same :
    (now : ℕ) (date : Text) (o : Override) (s : StateStore)
    → o.date ≡ date
    → override date (restore_override now date o s) ≡ o
unfolding override restore_override upsert_override delete_override
restore_override-same now date o s d = go (is_empty o.theme && is_empty o.direct_loop_id) refl
  where
    change : OverrideRow → OverrideRow
    change r = record r { theme = o.theme; direct_loop_id = o.direct_loop_id; updated_at = now }

    new : OverrideRow
    new = record {
      rowid = next_override_rowid s.overrides;
      date_key = date;
      theme = o.theme;
      direct_loop_id = o.direct_loop_id;
      updated_at = now;
    }

    kept :
        (x : OverrideRow)
        → (x ≡ new) ⊎ ((r : OverrideRow) × (has_date date r ≡ true) × (x ≡ change r))
        → read_override date (some x) ≡ o
    kept x (inl e) =
        ap (λ y. read_override date (some y)) e ∙ same_override date o new d refl refl refl
    kept x (inr (r, its, e)) =
        ap (λ y. read_override date (some y)) e
        ∙ same_override date o (change r) d (dated date r its) refl refl

    emptied :
        is_empty o.theme ≡ true → is_empty o.direct_loop_id ≡ true → read_override date none ≡ o
    emptied e f =
        ap (λ x. record { date = x; theme = []; direct_loop_id = [] }) (sym d)
        ∙ (ap (λ x. record { date = o.date; theme = x; direct_loop_id = [] })
              (sym (empty_text o.theme e))
            ∙ ap (λ x. record { date = o.date; theme = o.theme; direct_loop_id = x })
                (sym (empty_text o.direct_loop_id f)))

    go :
        (b : Bool)
        → (is_empty o.theme && is_empty o.direct_loop_id) ≡ b
        → override date (
            if b
            then delete_override date s
            else upsert_override now date o.theme o.direct_loop_id
                (λ r. record r { theme = o.theme; direct_loop_id = o.direct_loop_id })
                s)
          ≡ o
    go true e =
        ap (read_override date) (find_row-delete (has_date date) s.overrides)
        ∙ emptied (ground (arith, e)) (ground (arith, e))
    go false e =
        let (x, found, how) =
          find_row-upsert (has_date date) change new s.overrides (λ r h. h) (text_eq_refl date) in
        ap (read_override date) found ∙ kept x how

apart_dates :
    (date other : Text) (r : OverrideRow)
    → text_eq date other ≡ false
    → has_date date r ≡ true
    → has_date other r ≡ false
apart_dates date other r h e = subst (λ x. text_eq x other ≡ false) (sym (dated date r e)) h

pub restore_override-other :
    (now : ℕ) (date other : Text) (o : Override) (s : StateStore)
    → text_eq date other ≡ false
    → override other (restore_override now date o s) ≡ override other s
unfolding override restore_override upsert_override delete_override
restore_override-other now date other o s h = go (is_empty o.theme && is_empty o.direct_loop_id)
  where
    go :
        (b : Bool)
        → override other (
            if b
            then delete_override date s
            else upsert_override now date o.theme o.direct_loop_id
                (λ r. record r { theme = o.theme; direct_loop_id = o.direct_loop_id })
                s)
          ≡ override other s
    go true = ap (read_override other) (
        find_row-delete_other (has_date date) (has_date other) s.overrides
          (λ r e. apart_dates date other r h e))
    go false = ap (read_override other) (
        find_row-upsert_other (has_date date) (has_date other) _ _ s.overrides
          (λ r e. (apart_dates date other r h e, apart_dates date other r h e)) h)

-- Neither touches the plans or the music.
pub restore_override-plans :
    (now : ℕ) (date : Text) (o : Override) (s : StateStore)
    → ((restore_override now date o s).period_plans ≡ s.period_plans)
      × ((restore_override now date o s).last_music ≡ s.last_music)
unfolding restore_override upsert_override delete_override
restore_override-plans now date o s = go (is_empty o.theme && is_empty o.direct_loop_id)
  where
    go :
        (b : Bool)
        → let s' =
            if b
            then delete_override date s
            else upsert_override now date o.theme o.direct_loop_id
                (λ r. record r { theme = o.theme; direct_loop_id = o.direct_loop_id })
                s in
          (s'.period_plans ≡ s.period_plans) × (s'.last_music ≡ s.last_music)
    go true = (refl, refl)
    go false = (refl, refl)
