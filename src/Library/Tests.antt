-- ===== src/Library/Tests.antt =====
-- An evening, and the night that follows it.
use lofi_bot.Prelude.{◌<◌, ◌≡◌, ◌↔◌, arith, some}
use lofi_bot.Prelude.Text.{codes}
use lofi_bot.Library.Period.{
  LocalTime, evening, instant, parse_period, period_name, period_at, period_info_at,
  parse_period_lem, period_info_at_lem, period_at-constant,
}

-- Half past eight, and a second before nine.
abbrev half_past_eight : LocalTime
half_past_eight = record { day = 20000; second = 73800 }

abbrev nearly_nine : LocalTime
nearly_nine = record { day = 20000; second = 75599 }

parse_period_lem_example :
    (parse_period (codes "evening") ≡ some evening) ↔ (codes "evening" ≡ period_name evening)
parse_period_lem_example = parse_period_lem (codes "evening") evening

period_info_at_lem_example :
    let info = period_info_at half_past_eight in
    (instant half_past_eight < instant info.ends_at) × (period_at info.ends_at ≡ info.next)
period_info_at_lem_example = period_info_at_lem half_past_eight (omega arith)

before_end : instant nearly_nine < instant (period_info_at half_past_eight).ends_at
unfolding period_info_at
before_end = omega arith

period_at-constant_example : period_at nearly_nine ≡ (period_info_at half_past_eight).period
period_at-constant_example =
    period_at-constant half_past_eight nearly_nine (omega arith) (omega arith) (omega arith)
      before_end
