-- ===== src/ResolveDate.antt =====
-- The tool that resolves an English date expression (app/internal/chat/resolvedate.go). The calendar
-- is package time: adding years, months and days to a date, and the day of the week, from 0 for
-- Sunday. `lower` is strings.ToLower, and `scan` reads a number and a word like fmt.Sscanf.
pub mod Weekdays
use shell_agent_v.Base.{
  ℕ, ◌+◌, ◌-◌, ◌*◌, ◌%◌, Option, none, some, [], ◌∷◌, drop, ltb, leb, length, if◌then◌else◌,
}
use shell_agent_v.Text.{Text, codes, ◌=ᵗ◌, has_prefix, member, encode, trim_space, runes}
use shell_agent_v.Objects.Attach.{has_suffix, trim_suffix}
use shell_agent_v.TextTools.{ℤ, pos, negsuc, neg, trimmed}

pub record Calendar (T : Type 0) : Type 0 where
  pub add_date : T → ℤ → ℤ → ℤ → T
  pub weekday : T → ℕ

-- The errors of ResolveDate, with the texts that they quote.
pub data Resolved (T : Type 0) : Type 0 where
  resolved : T → Resolved T
  unrecognized : Text → Resolved T
  unknown_unit : Text → Resolved T
  invalid_reference : Text → Resolved T
  invalid_arguments : Resolved T

pub data Direction : Type 0 where
  back forward : Direction

abbrev pub word_size : ℕ
word_size = 0x10000000000000000

-- An int of Go as its word of 64 bits, and back.
unfoldable pub word : ℤ → ℕ
word (pos n) = n % word_size
word (negsuc n) = word_size - 1 - n % word_size

unfoldable pub signed : ℕ → ℤ
signed w = if ltb w 0x8000000000000000 then pos w else negsuc (word_size - 1 - w)

-- The product of two ints, which wraps around.
unfoldable pub product : ℤ → ℤ → ℤ
unfolding word signed
product a b = signed (word a * word b % word_size)

abbrev pub direction_sign : Direction → ℤ
direction_sign forward = pos 1
direction_sign back = negsuc 0

unfoldable pub weekday_named : Text → Option ℕ
unfolding member
weekday_named name =
    if member name (codes "sunday" ∷ codes "sun" ∷ [])
    then some 0
    else if member name (codes "monday" ∷ codes "mon" ∷ [])
    then some 1
    else if member name (codes "tuesday" ∷ codes "tue" ∷ [])
    then some 2
    else if member name (codes "wednesday" ∷ codes "wed" ∷ [])
    then some 3
    else if member name (codes "thursday" ∷ codes "thu" ∷ [])
    then some 4
    else if member name (codes "friday" ∷ codes "fri" ∷ [])
    then some 5
    else if member name (codes "saturday" ∷ codes "sat" ∷ [])
    then some 6
    else none

unfoldable pub parse_weekday : (Text → Text) → Text → Option ℕ
unfolding weekday_named encode trim_space runes
parse_weekday lower name = weekday_named (lower (trimmed name))

-- The days from one day of the week to the next occurrence of another, from 1 to 7.
unfoldable pub days_until : ℕ → ℕ → ℕ
days_until from target = if leb target from then target + 7 - from else target - from

module _ {T : Type 0} (c : Calendar T) where
  unfoldable pub last_weekday : T → ℕ → T
  unfolding days_until
  last_weekday ref target = c.add_date ref (pos 0) (pos 0) (neg (days_until target (c.weekday ref)))

  unfoldable pub next_weekday : T → ℕ → T
  unfolding days_until
  next_weekday ref target = c.add_date ref (pos 0) (pos 0) (pos (days_until (c.weekday ref) target))

  unfoldable pub shifted : T → ℤ → Text → Resolved T
  unfolding product ◌=ᵗ◌
  shifted ref n unit =
      if unit =ᵗ codes "day"
      then resolved (c.add_date ref (pos 0) (pos 0) n)
      else if unit =ᵗ codes "week"
      then resolved (c.add_date ref (pos 0) (pos 0) (product n (pos 7)))
      else if unit =ᵗ codes "month"
      then resolved (c.add_date ref (pos 0) n (pos 0))
      else if unit =ᵗ codes "year"
      then resolved (c.add_date ref n (pos 0) (pos 0))
      else unknown_unit unit

  module _ (lower : Text → Text) (scan : Text → Option (ℤ × Text)) where
    unfoldable pub parse_relative : Text → T → Direction → Resolved T
    unfolding product shifted trim_suffix has_suffix
    parse_relative s ref direction = elim (scan s) [
      | none ↦ unrecognized s
      | some (n, unit) ↦
          shifted ref (product n (direction_sign direction)) (trim_suffix unit (codes "s"))
    ]

    unfoldable pub resolve_suffix : Text → T → Resolved T
    unfolding parse_relative
    resolve_suffix expr ref =
        if has_suffix expr (codes " ago")
        then parse_relative (trim_suffix expr (codes " ago")) ref back
        else if has_suffix expr (codes " from now")
        then parse_relative (trim_suffix expr (codes " from now")) ref forward
        else unrecognized expr

    -- The day of the week behind a word and a space.
    unfoldable pub weekday_after : Text → Text → Option ℕ
    unfolding parse_weekday has_prefix
    weekday_after word expr =
        if has_prefix expr word then parse_weekday lower (drop (length word) expr) else none

    unfoldable pub resolve_expression : Text → T → Resolved T
    unfolding resolve_suffix weekday_after last_weekday next_weekday
    resolve_expression expr ref =
        if expr =ᵗ codes "today"
        then resolved ref
        else if expr =ᵗ codes "yesterday"
        then resolved (c.add_date ref (pos 0) (pos 0) (negsuc 0))
        else if expr =ᵗ codes "tomorrow"
        then resolved (c.add_date ref (pos 0) (pos 0) (pos 1))
        else elim (weekday_after (codes "last ") expr) [
          | some day ↦ resolved (last_weekday ref day)
          | none ↦ elim (weekday_after (codes "next ") expr) [
            | some day ↦ resolved (next_weekday ref day)
            | none ↦ resolve_suffix expr ref
          ]
        ]

    -- Before the result is formatted: `now` is the clock, `parse_date` reads YYYY-MM-DD, and the
    -- arguments are the expression and the reference date, where they are JSON of that shape.
    unfoldable pub resolve_date : T → (Text → Option T) → Option (Text × Text) → Resolved T
    unfolding resolve_expression encode trim_space runes
    resolve_date now parse_date none = invalid_arguments
    resolve_date now parse_date (some (expression, [])) =
        resolve_expression (trimmed (lower expression)) now
    resolve_date now parse_date (some (expression, d ∷ date)) = elim (parse_date (d ∷ date)) [
      | none ↦ invalid_reference (d ∷ date)
      | some ref ↦ resolve_expression (trimmed (lower expression)) ref
    ]
