-- ===== src/Examples/DateRuns.antt =====
-- Date expressions in a calendar that keeps only the day of the week (app/internal/chat).
use shell_agent_v.Base.{ℕ, suc, ◌+◌, ◌*◌, ◌%◌, ◌≡◌, ◌≤◌, ◌<◌, refl, some, Option, arith, []}
use shell_agent_v.Text.{Text, codes}
use shell_agent_v.TextTools.{ℤ, pos, negsuc}
use shell_agent_v.ResolveDate.{
  Calendar, resolved, last_weekday, next_weekday, resolve_date, product,
}
use shell_agent_v.ResolveDate.Weekdays.{weekdays_lem}

abbrev after : ℕ → ℤ → ℕ
after t (pos n) = t + n
after t (negsuc n) = t + 6 * suc n

abbrev week : Calendar ℕ
week = record { add_date = λ t years months days. after t days; weekday = λ t. t % 7 }

abbrev three_days : Text → Option (ℤ × Text)
three_days s = some (pos 3, codes "days")

abbrev same_text : Text → Text
same_text s = s

abbrev friday : Text → Option ℕ
friday s = some 5

weekday_is_found :
    (week.weekday (next_weekday week 5 1) ≡ 1)
    × (week.weekday (last_weekday week 5 1) ≡ 1)
    × ((n : ℕ) × (1 ≤ n)
        × (n ≤ 7)
        × (next_weekday week 5 1 ≡ week.add_date 5 (pos 0) (pos 0) (pos n)))
    × ((n : ℕ) × (n < 7) × (last_weekday week 5 1 ≡ week.add_date 5 (pos 0) (pos 0) (negsuc n)))
weekday_is_found =
    weekdays_lem week (λ t. omega arith) (λ t n. omega arith) (λ t n. omega arith) 5 1 (omega arith)

a_week_on :
    resolve_date week same_text three_days 0 friday
      (some (codes " next friday ", codes "2026-11-27"))
    ≡ resolved 12
unfolding resolve_date
a_week_on = refl

days_ago :
    resolve_date week same_text three_days 0 friday (some (codes "3 days ago", [])) ≡ resolved 18
unfolding resolve_date
days_ago = refl

product_wraps : product (pos 0x7FFFFFFFFFFFFFFF) (pos 7) ≡ pos 0x7FFFFFFFFFFFFFF9
unfolding product
product_wraps = refl
