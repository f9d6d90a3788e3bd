-- ===== src/Library/State/Store.antt =====
-- internal/library/state.go: StateStore.
use lofi_bot.Prelude.{
  ℕ, zero, suc, ◌+◌, Bool, true, false, ◌&&◌, ◌||◌, List, [], ◌∷◌, Option, none, some, ltb, ◌==◌,
  max, if◌then◌else◌, delete_where, count_where, select_keys, contains_id,
}
use lofi_bot.Prelude.Text.{Text, text_eq}
use lofi_bot.Library.Period.{Period, period_name, parse_period}
use lofi_bot.Library.State.Rows.{find_row, upsert}

pub record Override : Type 0 where
  pub date : Text
  pub theme : Text
  pub direct_loop_id : Text

pub record PeriodPlan : Type 0 where
  pub date : Text
  pub period : Period
  pub theme : Text
  pub loop_id : Text

pub record OverrideRow : Type 0 where
  pub rowid : ℕ
  pub date_key : Text
  pub theme : Text
  pub direct_loop_id : Text
  pub updated_at : ℕ

pub record PlanRow : Type 0 where
  pub rowid : ℕ
  pub date_key : Text
  pub period : Text
  pub theme : Text
  pub loop_id : Text
  pub updated_at : ℕ

-- Of library_kv only the last music is used.
pub record StateStore : Type 0 where
  pub overrides : List OverrideRow
  pub period_plans : List PlanRow
  pub last_music : Option (Text × ℕ)

-- SQLite gives a new row a rowid above the others.
abbrev pub next_override_rowid : List OverrideRow → ℕ
next_override_rowid [] = 1
next_override_rowid (r ∷ rs) = max (r.rowid + 1) (next_override_rowid rs)

abbrev pub next_plan_rowid : List PlanRow → ℕ
next_plan_rowid [] = 1
next_plan_rowid (r ∷ rs) = max (r.rowid + 1) (next_plan_rowid rs)

abbrev pub has_date : Text → OverrideRow → Bool
has_date date r = text_eq r.date_key date

abbrev pub has_plan : Text → Period → PlanRow → Bool
has_plan date period r = text_eq r.date_key date && text_eq r.period (period_name period)

abbrev pub read_override : Text → Option OverrideRow → Override
read_override date none = record { date = date; theme = []; direct_loop_id = [] }
read_override date (some r) = record {
  date = r.date_key;
  theme = r.theme;
  direct_loop_id = r.direct_loop_id;
}

unfoldable pub override : Text → StateStore → Override
unfolding find_row
override date s = read_override date (find_row (has_date date) s.overrides)

-- The statements on one date's override differ in what they set on a conflict.
unfoldable pub upsert_override :
    ℕ → Text → Text → Text → (OverrideRow → OverrideRow) → StateStore → StateStore
unfolding upsert
upsert_override now date theme loop_id change s = record s {
  overrides =
      upsert (has_date date) (λ r. record (change r) { updated_at = now })
        (record {
          rowid = next_override_rowid s.overrides;
          date_key = date;
          theme = theme;
          direct_loop_id = loop_id;
          updated_at = now;
        })
        s.overrides;
}

unfoldable pub set_theme_override : ℕ → Text → Text → StateStore → StateStore
unfolding upsert_override
set_theme_override now date theme s =
    upsert_override now date theme [] (λ r. record r { theme = theme; direct_loop_id = [] }) s

unfoldable pub clear_theme_override : ℕ → Text → StateStore → StateStore
unfolding upsert_override
clear_theme_override now date s = upsert_override now date [] [] (λ r. record r { theme = [] }) s

unfoldable pub set_direct_loop_override : ℕ → Text → Text → StateStore → StateStore
unfolding upsert_override
set_direct_loop_override now date loop_id s =
    upsert_override now date [] loop_id (λ r. record r { direct_loop_id = loop_id }) s

unfoldable pub clear_direct_loop_override : ℕ → Text → StateStore → StateStore
unfolding upsert_override
clear_direct_loop_override now date s =
    upsert_override now date [] [] (λ r. record r { direct_loop_id = [] }) s

unfoldable pub clear_override : ℕ → Text → StateStore → StateStore
unfolding upsert_override
clear_override now date s =
    upsert_override now date [] [] (λ r. record r { theme = []; direct_loop_id = [] }) s

pub data PlanRead : Type 0 where
  no_plan invalid_plan : PlanRead
  plan : PeriodPlan → PlanRead

abbrev pub with_period : PlanRow → Option Period → PlanRead
with_period r none = invalid_plan
with_period r (some period) =
    plan (record { date = r.date_key; period = period; theme = r.theme; loop_id = r.loop_id })

abbrev pub read_plan : Option PlanRow → PlanRead
read_plan none = no_plan
read_plan (some r) = with_period r (parse_period r.period)

unfoldable pub period_plan : Text → Period → StateStore → PlanRead
unfolding find_row
period_plan date period s = read_plan (find_row (has_plan date period) s.period_plans)

unfoldable pub upsert_plan : ℕ → Text → Period → Text → Text → StateStore → StateStore
unfolding upsert
upsert_plan now date period theme loop_id s = record s {
  period_plans =
      upsert (has_plan date period)
        (λ r. record r { theme = theme; loop_id = loop_id; updated_at = now })
        (record {
          rowid = next_plan_rowid s.period_plans;
          date_key = date;
          period = period_name period;
          theme = theme;
          loop_id = loop_id;
          updated_at = now;
        })
        s.period_plans;
}

unfoldable pub save_period_plan : ℕ → PeriodPlan → StateStore → StateStore
unfolding upsert_plan
save_period_plan now p s = upsert_plan now p.date p.period p.theme p.loop_id s

unfoldable pub clear_period_plan : Text → Period → StateStore → StateStore
clear_period_plan date period s = record s {
  period_plans = delete_where (has_plan date period) s.period_plans;
}

unfoldable pub delete_override : Text → StateStore → StateStore
delete_override date s = record s { overrides = delete_where (has_date date) s.overrides }

unfoldable pub clear_override_and_period_plan : Text → Period → StateStore → StateStore
unfolding delete_override clear_period_plan
clear_override_and_period_plan date period s =
    clear_period_plan date period (delete_override date s)

abbrev pub is_empty : Text → Bool
is_empty [] = true
is_empty (c ∷ cs) = false

unfoldable pub restore_override : ℕ → Text → Override → StateStore → StateStore
unfolding delete_override upsert_override
restore_override now date o s =
    if is_empty o.theme && is_empty o.direct_loop_id
    then delete_override date s
    else upsert_override now date o.theme o.direct_loop_id
        (λ r. record r { theme = o.theme; direct_loop_id = o.direct_loop_id }) s

unfoldable pub restore_plan : ℕ → Text → Period → PeriodPlan → Bool → StateStore → StateStore
unfolding upsert_plan clear_period_plan
restore_plan now date period p true s = upsert_plan now date period p.theme p.loop_id s
restore_plan now date period p false s = clear_period_plan date period s

unfoldable pub restore_playback_selection :
    ℕ → ℕ → Text → Override → Text → Period → PeriodPlan → Bool → StateStore → StateStore
unfolding restore_override restore_plan
restore_playback_selection now later override_date o plan_date period p plan_exists s =
    restore_plan later plan_date period p plan_exists (restore_override now override_date o s)

unfoldable pub clear_plans_for_date : Text → StateStore → StateStore
clear_plans_for_date date s = record s {
  period_plans = delete_where (λ r. text_eq r.date_key date) s.period_plans;
}

unfoldable pub text_before : Text → Text → Bool
text_before [] [] = false
text_before [] (b ∷ bs) = true
text_before (a ∷ as') [] = false
text_before (a ∷ as') (b ∷ bs) = ltb a b || (a == b && text_before as' bs)

abbrev pub override_order : OverrideRow → OverrideRow → Bool
override_order r s = text_before r.date_key s.date_key

abbrev pub plan_order : PlanRow → PlanRow → Bool
plan_order r s =
    text_before r.date_key s.date_key
    || (text_eq r.date_key s.date_key && text_before r.period s.period)

abbrev pub override_rowid : OverrideRow → ℕ
override_rowid r = r.rowid

abbrev pub plan_rowid : PlanRow → ℕ
plan_rowid r = r.rowid

pub record PruneResult : Type 0 where
  pub overrides : ℕ
  pub period_plans : ℕ

-- The rows of the oldest dates, up to the limit.
unfoldable pub old_overrides : Text → ℕ → StateStore → List ℕ
unfolding select_keys text_before
old_overrides before_date limit s =
    select_keys override_rowid (λ r. text_before r.date_key before_date) override_order limit
      s.overrides

unfoldable pub old_plans : Text → ℕ → StateStore → List ℕ
unfolding select_keys text_before
old_plans before_date limit s =
    select_keys plan_rowid (λ r. text_before r.date_key before_date) plan_order limit s.period_plans

-- A missing cutoff and a limit of 0 or below are refused.
unfoldable pub prune_before : Text → ℕ → StateStore → Option (StateStore × PruneResult)
unfolding old_overrides old_plans
prune_before [] limit s = none
prune_before (c ∷ cs) zero s = none
prune_before (c ∷ cs) (suc n) s =
    let ids = old_overrides (c ∷ cs) (suc n) s in
    let plan_ids = old_plans (c ∷ cs) (suc n) s in
    some (
      record s {
        overrides = delete_where (λ r. contains_id (override_rowid r) ids) s.overrides;
        period_plans = delete_where (λ r. contains_id (plan_rowid r) plan_ids) s.period_plans;
      },
      record {
        overrides = count_where (λ r. contains_id (override_rowid r) ids) s.overrides;
        period_plans = count_where (λ r. contains_id (plan_rowid r) plan_ids) s.period_plans;
      },
    )

abbrev pub value_of : Option (Text × ℕ) → Text
value_of none = []
value_of (some (value, at)) = value

unfoldable pub last_music_id : StateStore → Text
last_music_id s = value_of s.last_music

unfoldable pub set_last_music_id : ℕ → Text → StateStore → StateStore
set_last_music_id now id s = record s { last_music = some (id, now) }
