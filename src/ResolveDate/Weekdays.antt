-- ===== src/ResolveDate/Weekdays.antt =====
-- Where `last <weekday>` and `next <weekday>` lead (app/internal/chat/resolvedate.go).
use shell_agent_v.Base.{ℕ, zero, suc, ◌+◌, ◌-◌, ◌%◌, ◌≡◌, ◌≤◌, ◌<◌, refl, sym, ap, ◌∙◌, arith}
use shell_agent_v.TextTools.{pos, negsuc, neg}
use shell_agent_v.ResolveDate.{Calendar, days_until, last_weekday, next_weekday}

days_until-within : (a b : ℕ) → a < 7 → b < 7 → (1 ≤ days_until a b) × (days_until a b ≤ 7)
unfolding days_until
days_until-within a b h k = (ground (arith, h, k), ground (arith, h, k))

days_until-lands : (a b : ℕ) → a < 7 → b < 7 → (a + days_until a b) % 7 ≡ b
unfolding days_until
days_until-lands a b h k = ground (arith, h, k)

-- The same two days of the week, seen from the later one.
days_until-back : (a b x : ℕ) → a < 7 → b < 7 → x < 7 → (x + days_until b a) % 7 ≡ a → x ≡ b
unfolding days_until
days_until-back a b x h k l e = ground (arith, h, k, l, e)

neg-positive : (d : ℕ) → 1 ≤ d → neg d ≡ negsuc (d - 1)
neg-positive zero h = ground (arith, h)
neg-positive (suc n) h = ap negsuc (omega arith)

-- In a calendar whose days of the week go round in sevens, `next` leads from any date to the asked
-- day of the week, from 1 to 7 days later, and `last` to that day from 1 to 7 days earlier.
pub weekdays_lem :
    {T : Type 0} (c : Calendar T) (in_week : (t : T) → c.weekday t < 7)
    (later : (t : T) (n : ℕ)
      → c.weekday (c.add_date t (pos 0) (pos 0) (pos n)) ≡ (c.weekday t + n) % 7)
    (earlier : (t : T) (n : ℕ)
      → (c.weekday (c.add_date t (pos 0) (pos 0) (negsuc n)) + suc n) % 7 ≡ c.weekday t)
    (ref : T) (target : ℕ)
    → target < 7
    → (c.weekday (next_weekday c ref target) ≡ target)
      × (c.weekday (last_weekday c ref target) ≡ target)
      × ((n : ℕ) × (1 ≤ n)
          × (n ≤ 7)
          × (next_weekday c ref target ≡ c.add_date ref (pos 0) (pos 0) (pos n)))
      × ((n : ℕ) × (n < 7)
          × (last_weekday c ref target ≡ c.add_date ref (pos 0) (pos 0) (negsuc n)))
unfolding last_weekday next_weekday
weekdays_lem c in_week later earlier ref target h =
    let today = c.weekday ref in
    let ahead = days_until-within today target (in_week ref) h in
    let behind = days_until-within target today h (in_week ref) in
    let d = days_until target today in
    let there = c.add_date ref (pos 0) (pos 0) (negsuc (d - 1)) in
    let arrival : (last_weekday c ref target ≡ there) =
      ap (λ n. c.add_date ref (pos 0) (pos 0) n) (neg-positive d behind.0) in
    let same : (suc (d - 1) ≡ d) = ground (arith, behind.0) in
    let lands : ((c.weekday there + d) % 7 ≡ today) =
      ap (λ n. (c.weekday there + n) % 7) (sym same) ∙ earlier ref (d - 1) in
    (
      later ref (days_until today target) ∙ days_until-lands today target (in_week ref) h,
      ap (λ t. c.weekday t) arrival
          ∙ days_until-back today target (c.weekday there) (in_week ref) h (in_week there) lands,
      (days_until today target, ahead.0, ahead.1, refl),
      (d - 1, ground (arith, behind.0, behind.1), arrival),
    )
