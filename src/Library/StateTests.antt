-- ===== src/Library/StateTests.antt =====
-- An override and a plan that are changed and restored, and a prune of old rows.
use lofi_bot.Prelude.{
  ℕ, ◌≡◌, refl, [], ◌∷◌, some, none, true, Distinct, find_key, contains_id, select_keys,
  delete_where, sort_by, insert_by, count_where,
}
use lofi_bot.Prelude.Text.{Text, codes, text_eq}
use lofi_bot.Library.Period.{evening, night, parse_period, period_name}
use lofi_bot.Library.State.{
  PeriodPlan, OverrideRow, PlanRow, StateStore, override, period_plan, find_row, last_music_id,
  restore_playback_selection, set_theme_override, clear_period_plan, override_rowid, plan_rowid,
  prune_before, old_overrides, old_plans, text_before, restore_playback_selection_lem, IsPruned,
  prune_before_lem,
}

abbrev today : Text
today = codes "2024-05-02"

abbrev yesterday : Text
yesterday = codes "2024-05-01"

abbrev override_row : ℕ → Text → OverrideRow
override_row id date = record {
  rowid = id;
  date_key = date;
  theme = codes "rain";
  direct_loop_id = [];
  updated_at = 1;
}

abbrev plan_row : PlanRow
plan_row = record {
  rowid = 1;
  date_key = today;
  period = period_name evening;
  theme = codes "rain";
  loop_id = codes "a";
  updated_at = 1;
}

abbrev saved : StateStore
saved = record {
  overrides = override_row 1 yesterday ∷ override_row 2 today ∷ [];
  period_plans = plan_row ∷ [];
  last_music = none;
}

-- A tentative choice that replaced both.
abbrev tried : StateStore
tried = clear_period_plan today evening (set_theme_override 5 today (codes "snow") saved)

abbrev kept_plan : PeriodPlan
kept_plan = record { date = today; period = evening; theme = codes "rain"; loop_id = codes "a" }

restore_playback_selection_lem_example :
    let s' =
      restore_playback_selection 6 7 today
        (override today saved)
        today
        evening
        kept_plan
        true
        tried in
    (override today s' ≡ override today saved)
    × (period_plan today evening s' ≡ period_plan today evening saved)
    × (override yesterday s' ≡ override yesterday tried)
    × (period_plan today night s' ≡ period_plan today night tried)
    × (last_music_id s' ≡ last_music_id tried)
unfolding period_plan find_row text_eq parse_period
restore_playback_selection_lem_example =
    restore_playback_selection_lem saved tried 6 7 today today yesterday today evening night
      kept_plan true (refl, refl) refl refl

abbrev pruned : StateStore
pruned = record saved { overrides = override_row 2 today ∷ [] }

overrides-Distinct : Distinct override_rowid saved.overrides
unfolding find_key
overrides-Distinct = (refl, (refl, tt))

plans-Distinct : Distinct plan_rowid saved.period_plans
unfolding find_key
plans-Distinct = (refl, tt)

prunes : prune_before today 10 saved ≡ some (pruned, record { overrides = 1; period_plans = 0 })
unfolding prune_before old_overrides old_plans select_keys text_before delete_where count_where
    contains_id sort_by insert_by
prunes = refl

prune_before_lem_example :
    IsPruned override_rowid (λ r. r.date_key) today 10 saved.overrides pruned.overrides 1 1
    × IsPruned plan_rowid (λ r. r.date_key) today 10 saved.period_plans pruned.period_plans 0 1
    × (pruned.last_music ≡ saved.last_music)
prune_before_lem_example =
    prune_before_lem saved pruned (record { overrides = 1; period_plans = 0 }) today 10 1 1
      overrides-Distinct plans-Distinct prunes
