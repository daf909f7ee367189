-- ===== src/Domain/Time.antt =====
-- Go's `time.Time` as nanoseconds since the zero time, 1 January of year 1, in UTC: what the
-- services use of it. Earlier times are not modelled.
use task_management.Base.{ℕ, ◌+◌, ◌-◌, ◌*◌, ◌/◌, ◌%◌}

abbrev pub second : ℕ
second = 1_000_000_000

-- `Truncate(d)`: down to a multiple of `d` since the zero time.
abbrev pub truncate : ℕ → ℕ → ℕ
truncate t d = t - t % d

-- The year that a day number falls in: cycles of 400, 100, 4 and 1 years, the last century of
-- four and the last year of four one day longer.
abbrev year_of_day : ℕ → ℕ
year_of_day d =
    let d400 = d % 146097 in
    let n100 = d400 / 36524 - d400 / 36524 / 4 in
    let d100 = d400 - n100 * 36524 in
    let d4 = d100 % 1461 in
    let n1 = d4 / 365 - d4 / 365 / 4 in d / 146097 * 400 + n100 * 100 + d100 / 1461 * 4 + n1 + 1

-- `Year()`
unfoldable pub year : ℕ → ℕ
year t = year_of_day (t / (86400 * second))
