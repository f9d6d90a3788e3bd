-- ===== src/Library/State/Restoring.antt =====
-- Reading back what was restored.
use lofi_bot.Prelude.{
  ℕ, ◌≡◌, ◌⊎◌, inl, inr, refl, sym, ap, subst, ◌∙◌, arith, Bool, true, false, ◌&&◌, Option, none,
  some,
}
use lofi_bot.Prelude.Text.{Text, text_eq, text_eq_refl, text_eq→eq}
use lofi_bot.Library.Period.{Period, period_name, parse_period, parse_period-name}
use lofi_bot.Library.State.Rows.{
  find_row, find_row-upsert, find_row-upsert_other, find_row-delete, find_row-delete_other,
  find_row_lem,
}
use lofi_bot.Library.State.Store.{
  PeriodPlan, PlanRow, StateStore, value_of, next_plan_rowid, has_date, has_plan, read_override,
  override, PlanRead, no_plan, invalid_plan, plan, with_period, read_plan, period_plan, upsert_plan,
  clear_period_plan, restore_override, restore_plan, restore_playback_selection, last_music_id,
}
use lofi_bot.Library.State.Overrides.{
  read_date, restore_override-same, restore_override-other, restore_override-plans,
}

-- What PeriodPlan returned: a plan and that it exists, or that it does not.
abbrev pub Returned : PlanRead → PeriodPlan → Bool → Type 0
Returned no_plan p exists = exists ≡ false
Returned invalid_plan p exists = ⊥
Returned (plan q) p exists = (exists ≡ true) × (p ≡ q)

planned :
    (date : Text) (period : Period) (r : PlanRow)
    → has_plan date period r ≡ true
    → (r.date_key ≡ date) × (r.period ≡ period_name period)
planned date period r h = (
  text_eq→eq r.date_key date (ground (arith, h)),
  text_eq→eq r.period (period_name period) (ground (arith, h)),
)

-- A row of a plan's key is read as a plan.
read_row :
    (date : Text) (period : Period) (r : PlanRow)
    → has_plan date period r ≡ true
    → read_plan (some r)
      ≡ plan (record { date = date; period = period; theme = r.theme; loop_id = r.loop_id })
unfolding parse_period
read_row date period r h =
    let (d, e) = planned date period r h in
    ap (λ x. with_period r (parse_period x)) e
    ∙ (ap (with_period r) (parse_period-name period)
        ∙ ap
            (λ x. plan (record { date = x; period = period; theme = r.theme; loop_id = r.loop_id }))
            d)

upsert_plan-same :
    (now : ℕ) (date : Text) (period : Period) (p : PeriodPlan) (s : StateStore)
    → period_plan date period (upsert_plan now date period p.theme p.loop_id s)
      ≡ plan (record { date = date; period = period; theme = p.theme; loop_id = p.loop_id })
unfolding period_plan upsert_plan
upsert_plan-same now date period p s =
    let (x, found, how) =
      find_row-upsert (has_plan date period) change new s.period_plans (λ r h. h)
        (ground (arith, text_eq_refl date, text_eq_refl (period_name period))) in
    ap read_plan found ∙ kept x how
  where
    change : PlanRow → PlanRow
    change r = record r { theme = p.theme; loop_id = p.loop_id; updated_at = now }

    new : PlanRow
    new = record {
      rowid = next_plan_rowid s.period_plans;
      date_key = date;
      period = period_name period;
      theme = p.theme;
      loop_id = p.loop_id;
      updated_at = now;
    }

    kept :
        (x : PlanRow)
        → (x ≡ new) ⊎ ((r : PlanRow) × (has_plan date period r ≡ true) × (x ≡ change r))
        → read_plan (some x)
          ≡ plan (record { date = date; period = period; theme = p.theme; loop_id = p.loop_id })
    kept x (inl e) =
        ap (λ y. read_plan (some y)) e
        ∙ read_row date period new
            (ground (arith, text_eq_refl date, text_eq_refl (period_name period)))
    kept x (inr (r, its, e)) = ap (λ y. read_plan (some y)) e ∙ read_row date period (change r) its

restore_plan-same :
    (now : ℕ) (date : Text) (period : Period) (p : PeriodPlan) (exists : Bool)
    (before s : StateStore)
    → Returned (period_plan date period before) p exists
    → period_plan date period (restore_plan now date period p exists s)
      ≡ period_plan date period before
unfolding period_plan restore_plan clear_period_plan
restore_plan-same now date period p exists before s h =
    go (find_row (has_plan date period) before.period_plans) refl exists h
  where
    go :
        (o : Option PlanRow)
        → find_row (has_plan date period) before.period_plans ≡ o
        → (b : Bool) → Returned (read_plan o) p b
        → period_plan date period (restore_plan now date period p b s) ≡ read_plan o
    go none e true h = cc
    go none e false h = ap read_plan (find_row-delete (has_plan date period) s.period_plans)
    go (some r) e b h =
        let row =
          read_row date period r (find_row_lem (has_plan date period) before.period_plans r e) in
        by_plan r row b (subst (λ x. Returned x p b) row h)
      where
        by_plan :
            (r : PlanRow)
            → read_plan (some r)
              ≡ plan (record { date = date; period = period; theme = r.theme; loop_id = r.loop_id })
            → (b : Bool)
            → Returned
                (plan
                  (record { date = date; period = period; theme = r.theme; loop_id = r.loop_id }))
                p
                b
            → period_plan date period (restore_plan now date period p b s) ≡ read_plan (some r)
        by_plan r row true (_, same) =
            upsert_plan-same now date period p s
            ∙ (ap
                  (λ (q : PeriodPlan).
                    plan (record {
                      date = date;
                      period = period;
                      theme = q.theme;
                      loop_id = q.loop_id;
                    }))
                  same
                ∙ sym row)
        by_plan r row false (wrong, same) = cc

apart_plans :
    (date other : Text) (period other_period : Period) (r : PlanRow)
    → (text_eq date other && text_eq (period_name period) (period_name other_period)) ≡ false
    → has_plan date period r ≡ true
    → has_plan other other_period r ≡ false
apart_plans date other period other_period r h e =
    let (d, n) = planned date period r e in
    ap (λ x. text_eq x other && text_eq r.period (period_name other_period)) d
    ∙ (ap (λ x. text_eq date other && text_eq x (period_name other_period)) n ∙ h)

restore_plan-other :
    (now : ℕ) (date other : Text) (period other_period : Period) (p : PeriodPlan) (exists : Bool)
    (s : StateStore)
    → (text_eq date other && text_eq (period_name period) (period_name other_period)) ≡ false
    → period_plan other other_period (restore_plan now date period p exists s)
      ≡ period_plan other other_period s
unfolding period_plan restore_plan upsert_plan clear_period_plan
restore_plan-other now date other period other_period p true s h = ap read_plan (
    find_row-upsert_other (has_plan date period) (has_plan other other_period) _ _ s.period_plans
      (λ r e. (
        apart_plans date other period other_period r h e,
        apart_plans date other period other_period r h e,
      ))
      h)
restore_plan-other now date other period other_period p false s h = ap read_plan (
    find_row-delete_other (has_plan date period) (has_plan other other_period) s.period_plans
      (λ r e. apart_plans date other period other_period r h e))

restore_plan-overrides :
    (now : ℕ) (date : Text) (period : Period) (p : PeriodPlan) (exists : Bool) (s : StateStore)
    → ((restore_plan now date period p exists s).overrides ≡ s.overrides)
      × ((restore_plan now date period p exists s).last_music ≡ s.last_music)
unfolding restore_plan upsert_plan clear_period_plan
restore_plan-overrides now date period p true s = (refl, refl)
restore_plan-overrides now date period p false s = (refl, refl)

-- Whatever the state has become since an override and a period's plan were read from it,
-- RestorePlaybackSelection with what was read makes both read as they did; the override of another
-- date, the plan of another date or period, and the last music read as just before it.
pub restore_playback_selection_lem :
    (before s : StateStore) (now later : ℕ) (date plan_date other_date other_plan_date : Text)
    (period other_period : Period) (p : PeriodPlan) (exists : Bool)
    → Returned (period_plan plan_date period before) p exists
    → text_eq date other_date ≡ false
    → (text_eq plan_date other_plan_date && text_eq (period_name period) (period_name other_period))
      ≡ false
    → let s' =
        restore_playback_selection now later date
          (override date before)
          plan_date
          period
          p
          exists
          s in
      (override date s' ≡ override date before)
      × (period_plan plan_date period s' ≡ period_plan plan_date period before)
      × (override other_date s' ≡ override other_date s)
      × (period_plan other_plan_date other_period s' ≡ period_plan other_plan_date other_period s)
      × (last_music_id s' ≡ last_music_id s)
unfolding restore_playback_selection override period_plan last_music_id
restore_playback_selection_lem before s now later date plan_date other_date other_plan_date period
      other_period p exists h d e =
    let o = override date before in
    let s1 = restore_override now date o s in
    let (overrides, music) = restore_plan-overrides later plan_date period p exists s1 in
    let (plans, music1) = restore_override-plans now date o s in
    (
      ap (λ rows. read_override date (find_row (has_date date) rows)) overrides
          ∙ restore_override-same now date o s (read_date date before.overrides),
      restore_plan-same later plan_date period p exists before s1 h,
      ap (λ rows. read_override other_date (find_row (has_date other_date) rows)) overrides
          ∙ restore_override-other now date other_date o s d,
      restore_plan-other later plan_date other_plan_date period other_period p exists s1 e
          ∙ ap (λ rows. read_plan (find_row (has_plan other_plan_date other_period) rows)) plans,
      ap value_of (music ∙ music1),
    )
