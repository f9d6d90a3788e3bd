-- ===== src/Library/Period.antt =====
-- internal/library/period.go: the period of the day, and when it ends.
-- A time is a local day with its seconds, in a location whose offset does not change; the date
-- arithmetic of Go's time package is then that of days of 86,400 seconds.
use lofi_bot.Prelude.{
  ℕ, ◌+◌, ◌*◌, ◌/◌, ◌≤◌, ◌<◌, ◌≡◌, ◌↔◌, refl, ap, sym, subst, ◌∙◌, arith, Bool, true, false, ◌&&◌,
  List, [], ◌∷◌, Option, none, some, ltb, leb, if◌then◌else◌,
}
use lofi_bot.Prelude.Text.{Text, codes, text_eq, text_eq→eq}

pub data Period : Type 0 where
  morning daytime evening night : Period

abbrev pub periods : List Period
periods = morning ∷ daytime ∷ evening ∷ night ∷ []

abbrev pub period_name : Period → Text
period_name morning = codes "morning"
period_name daytime = codes "day"
period_name evening = codes "evening"
period_name night = codes "night"

unfoldable pub parse_period : Text → Option Period
parse_period value =
    if text_eq value (period_name morning)
    then some morning
    else if text_eq value (period_name daytime)
    then some daytime
    else if text_eq value (period_name evening)
    then some evening
    else if text_eq value (period_name night)
    then some night
    else none

abbrev pub next_period : Period → Period
next_period morning = daytime
next_period daytime = evening
next_period evening = night
next_period night = morning

abbrev pub day_length : ℕ
day_length = 86400

pub record LocalTime : Type 0 where
  pub day : ℕ
  pub second : ℕ

abbrev pub instant : LocalTime → ℕ
instant t = t.day * day_length + t.second

abbrev pub hour : LocalTime → ℕ
hour t = t.second / 3600

unfoldable pub period_at : LocalTime → Period
period_at t =
    if leb 6 (hour t) && ltb (hour t) 11
    then morning
    else if leb 11 (hour t) && ltb (hour t) 17
    then daytime
    else if leb 17 (hour t) && ltb (hour t) 21
    then evening
    else night

abbrev pub at_hour : ℕ → ℕ → LocalTime
at_hour day hour = record { day = day; second = hour * 3600 }

abbrev pub end_in : Period → LocalTime → LocalTime
end_in morning t = at_hour t.day 11
end_in daytime t = at_hour t.day 17
end_in evening t = at_hour t.day 21
end_in night t = at_hour (if leb 21 (hour t) then t.day + 1 else t.day) 6

unfoldable pub period_end : LocalTime → LocalTime
unfolding period_at
period_end t = end_in (period_at t) t

pub record PeriodInfo : Type 0 where
  pub period : Period
  pub next : Period
  pub ends_at : LocalTime

unfoldable pub period_info_at : LocalTime → PeriodInfo
unfolding period_end period_at
period_info_at t = record {
  period = period_at t;
  next = next_period (period_at t);
  ends_at = period_end t;
}

some-injective : {p q : Period} → some p ≡ some q → p ≡ q
some-injective e = cc

pub parse_period-name : (p : Period) → parse_period (period_name p) ≡ some p
unfolding parse_period text_eq
parse_period-name morning = refl
parse_period-name daytime = refl
parse_period-name evening = refl
parse_period-name night = refl

named :
    (value : Text) (p : Period) (a b c d : Bool)
    → (a ≡ true → value ≡ period_name morning)
    → (b ≡ true → value ≡ period_name daytime)
    → (c ≡ true → value ≡ period_name evening)
    → (d ≡ true → value ≡ period_name night)
    → (if a
        then some morning
        else if b
        then some daytime
        else if c
        then some evening
        else if d
        then some night
        else none)
      ≡ some p
    → value ≡ period_name p
named value p true b c d w x y z e = w refl ∙ ap period_name (some-injective e)
named value p false true c d w x y z e = x refl ∙ ap period_name (some-injective e)
named value p false false true d w x y z e = y refl ∙ ap period_name (some-injective e)
named value p false false false true w x y z e = z refl ∙ ap period_name (some-injective e)
named value p false false false false w x y z e = cc

-- A text parses to a period exactly if it is that period's name.
pub parse_period_lem :
    (value : Text) (p : Period) → (parse_period value ≡ some p) ↔ (value ≡ period_name p)
unfolding parse_period
parse_period_lem value p = (
  named value p _ _ _ _ (text_eq→eq value (period_name morning))
      (text_eq→eq value (period_name daytime)) (text_eq→eq value (period_name evening))
      (text_eq→eq value (period_name night)),
  λ e. subst (λ v. parse_period v ≡ some p) (sym e) (parse_period-name p),
)

-- At a local time whose offset does not change, the end of the period that PeriodInfoAt gives
-- comes later, and lies in the period that it names as the next.
pub period_info_at_lem :
    (t : LocalTime)
    → t.second < day_length
    → let info = period_info_at t in
      (instant t < instant info.ends_at) × (period_at info.ends_at ≡ info.next)
unfolding period_info_at period_end period_at
period_info_at_lem t h = ground arith

-- At a local time whose offset does not change, every time from it up to the end of its period
-- that PeriodInfoAt gives lies in the same period.
pub period_at-constant :
    (t u : LocalTime)
    → t.second < day_length
    → u.second < day_length
    → instant t ≤ instant u
    → instant u < instant (period_info_at t).ends_at
    → period_at u ≡ (period_info_at t).period
unfolding period_info_at period_end period_at
period_at-constant t u h k after before = ground arith
